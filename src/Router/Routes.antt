-- ===== src/Router/Routes.antt =====
-- The routes (router/router.go, SetupRouter) and the dispatch of a request by http.ServeMux over them:
-- a path is clean, and of the patterns below at most one matches a request, so that their order does
-- not matter. The CORS wrapper around the routes is not applied here.
use deping_client_service.Base.{
  Bool, List, Option, String, [], false, if◌then◌else◌, none, some, str_eq, true, ◌&&◌, ◌++◌, ◌||◌,
  ◌∷◌,
}
use deping_client_service.World.{M, ok, pure, ◌>>=◌}
use deping_client_service.Controllers.Account.{
  add_monitor_credits, user_login, user_me, user_register,
}
use deping_client_service.Controllers.Linking.{
  add_credits, get_credits, get_telegram_me, handle_initiate_link, handle_toggle_notification,
}
use deping_client_service.Controllers.Monitoring.{
  monitor_create, monitor_delete, monitor_list, monitor_pause, monitor_resume, monitor_stats,
}
use deping_client_service.Controllers.Nodes.{
  delete_runner, handle_activate_node, runner_heartbeat, runner_me, runner_register,
  runner_validate_stake, runner_validate_unstake,
}
use deping_client_service.Http.{
  Call, Handler, Request, Response, Services, error_body, plain, status_body, write_json,
}
use deping_client_service.Registry.{ActiveNode}
use deping_client_service.Router.{Access, granted, jwt_middleware, unauthorized}
use deping_client_service.Users.Accounts.{registered}

pub data Segment : Type 0 where
  literal : String → Segment
  wildcard : String → Segment

-- A handler, with the in-memory registry of the nodes passed along.
abbrev pub RouteHandler : Type 0
RouteHandler = Services → Call → List ActiveNode → M (Response × List ActiveNode)

abbrev pub keeping : Handler → RouteHandler
keeping h s call registry = do r ← h s call; pure (r, registry)

pub record Route : Type 0 where
  pub method : String
  pub pattern : List Segment
  pub is_protected : Bool
  pub handle : RouteHandler

abbrev pub bind_value :
    String → String → Option (List (String × String)) → Option (List (String × String))
bind_value name value none = none
bind_value name value (some values) = some ((name, value) ∷ values)

-- A wildcard stands for one segment that is not empty.
unfoldable pub match_path : List Segment → List String → Option (List (String × String))
match_path [] [] = some []
match_path [] (s ∷ path) = none
match_path (p ∷ pattern) [] = none
match_path (literal t ∷ pattern) (s ∷ path) =
    let rest = match_path pattern path in if str_eq t s then rest else none
match_path (wildcard name ∷ pattern) (s ∷ path) =
    let rest = match_path pattern path in if str_eq s "" then none else bind_value name s rest

-- A pattern for GET takes HEAD too.
abbrev pub takes_method : String → String → Bool
takes_method registered method =
    str_eq registered method || str_eq registered "GET" && str_eq method "HEAD"

abbrev pub match_route : Request → Route → Option (List (String × String))
match_route req r = if takes_method r.method req.method then match_path r.pattern req.path else none

abbrev pub or_route :
    Route
    → Option (List (String × String))
    → Option (Route × List (String × String))
    → Option (Route × List (String × String))
or_route r none rest = rest
or_route r (some values) rest = some (r, values)

unfoldable pub find_route : Request → List Route → Option (Route × List (String × String))
unfolding match_path
find_route req [] = none
find_route req (r ∷ routes) = or_route r (match_route req r) (find_route req routes)

unfoldable pub literals : List String → List Segment
literals [] = []
literals (s ∷ path) = literal s ∷ literals path

abbrev pub api : List String → List Segment
api path = literal "api" ∷ literal "v1" ∷ literals path

abbrev pub monitor_path : List String → List Segment
monitor_path path =
    literal "api" ∷ literal "v1" ∷ literal "monitors" ∷ wildcard "id" ∷ literals path

abbrev pub open_route : String → List Segment → RouteHandler → Route
open_route method pattern handle = record {
  method = method;
  pattern = pattern;
  is_protected = false;
  handle = handle;
}

abbrev pub auth_route : String → List Segment → RouteHandler → Route
auth_route method pattern handle = record {
  method = method;
  pattern = pattern;
  is_protected = true;
  handle = handle;
}

abbrev pub health_handler : Handler
health_handler s call = write_json 200 (status_body "ok")

abbrev pub serve_ws : Handler
serve_ws s call = write_json s.upgraded (plain "")

-- The pages without the middleware.
abbrev pub open_routes : List Route
open_routes =
    open_route "GET" (literals ("health" ∷ [])) (keeping health_handler)
    ∷ open_route "GET" (literals ("ws" ∷ [])) (keeping serve_ws)
    ∷ open_route "POST" (api ("auth" ∷ "register" ∷ [])) (keeping user_register)
    ∷ open_route "POST" (api ("auth" ∷ "login" ∷ [])) (keeping user_login)
    ∷ []

abbrev pub runner_routes : List Route
runner_routes =
    auth_route "POST" (api ("runner" ∷ "register" ∷ [])) (keeping runner_register)
    ∷ auth_route "POST" (api ("runner" ∷ "me" ∷ [])) (keeping runner_me)
    ∷ auth_route "POST" (api ("runner" ∷ "heartbeat" ∷ [])) runner_heartbeat
    ∷ auth_route "POST" (api ("runner" ∷ "activate" ∷ [])) (keeping handle_activate_node)
    ∷ auth_route "POST" (api ("runner" ∷ "stake" ∷ [])) (keeping runner_validate_stake)
    ∷ auth_route "POST" (api ("runner" ∷ "unstake" ∷ [])) (keeping runner_validate_unstake)
    ∷ auth_route "DELETE" (api ("runner" ∷ "delete" ∷ [])) (keeping delete_runner)
    ∷ []

abbrev pub monitor_routes : List Route
monitor_routes =
    auth_route "POST" (api ("monitors" ∷ [])) (keeping monitor_create)
    ∷ auth_route "GET" (api ("monitors" ∷ [])) (keeping monitor_list)
    ∷ auth_route "PUT" (monitor_path ("notifications" ∷ [])) (keeping handle_toggle_notification)
    ∷ auth_route "PUT" (monitor_path ("pause" ∷ [])) (keeping monitor_pause)
    ∷ auth_route "PUT" (monitor_path ("resume" ∷ [])) (keeping monitor_resume)
    ∷ auth_route "DELETE" (monitor_path []) (keeping monitor_delete)
    ∷ auth_route "GET" (monitor_path ("stats" ∷ [])) (keeping monitor_stats)
    ∷ auth_route "POST" (api ("monitor" ∷ "credits" ∷ "add" ∷ [])) (keeping add_monitor_credits)
    ∷ []

abbrev pub telegram_routes : List Route
telegram_routes =
    auth_route "POST" (api ("telegram" ∷ "link" ∷ [])) (keeping handle_initiate_link)
    ∷ auth_route "POST" (api ("telegram" ∷ "credits" ∷ "add" ∷ [])) (keeping add_credits)
    ∷ auth_route "GET" (api ("telegram" ∷ "me" ∷ [])) (keeping get_telegram_me)
    ∷ auth_route "GET" (api ("telegram" ∷ "credits" ∷ [])) (keeping get_credits)
    ∷ []

abbrev pub protected_routes : List Route
protected_routes =
    auth_route "GET" (api ("auth" ∷ "me" ∷ [])) (keeping user_me) ∷ runner_routes
    ++ monitor_routes
    ++ telegram_routes

unfoldable pub setup_router : List Route
unfolding literals
setup_router = open_routes ++ protected_routes

abbrev pub with_access :
    RouteHandler
    → Services
    → Request
    → List (String × String)
    → List ActiveNode
    → Access
    → M (Response × List ActiveNode)
with_access handle s req values registry (unauthorized reason) =
    pure (record { status = 401; body = error_body reason }, registry)
with_access handle s req values registry (granted user_id email) =
    handle s (record { request = req; access = some (granted user_id email); path_values = values })
      registry

abbrev pub without_access :
    RouteHandler
    → Services
    → Request
    → List (String × String)
    → List ActiveNode
    → M (Response × List ActiveNode)
without_access handle s req values registry =
    handle s (record { request = req; access = none; path_values = values }) registry

abbrev pub not_found_reply : Response
not_found_reply = record { status = 404; body = error_body "route not found" }

abbrev pub dispatch :
    Services
    → Request
    → List ActiveNode
    → Option (Route × List (String × String))
    → M (Response × List ActiveNode)
dispatch s req registry none w = (ok (not_found_reply, registry), w)
dispatch s req registry (some (r, values)) w =
    if r.is_protected
    then with_access r.handle s req values registry (jwt_middleware s.auth w.now req.authorization)
        w
    else without_access r.handle s req values registry w

unfoldable pub serve : Services → Request → List ActiveNode → M (Response × List ActiveNode)
unfolding find_route setup_router jwt_middleware
serve s req registry = dispatch s req registry (find_route req setup_router)
