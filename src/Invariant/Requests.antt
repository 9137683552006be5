-- ===== src/Invariant/Requests.antt =====
-- The routes keep the invariant (router/router.go, router/middleware.go).
use deping_client_service.Base.{
  All, Bool-cases, List, Option, String, [], inl, inr, none, some, ◌∷◌,
}
use deping_client_service.World.{pure}
use deping_client_service.Http.{Call, Handler, Request, Services}
use deping_client_service.Invariant.{IsSound, Marks}
use deping_client_service.Invariant.Handlers.{
  add_credits-IsSound, add_monitor_credits-IsSound, delete_runner-IsSound, get_credits-IsSound,
  get_telegram_me-IsSound, handle_activate_node-IsSound, handle_initiate_link-IsSound,
  handle_toggle_notification-IsSound, monitor_create-IsSound, monitor_delete-IsSound,
  monitor_list-IsSound, monitor_pause-IsSound, monitor_resume-IsSound, monitor_stats-IsSound,
  runner_heartbeat-IsSound, runner_me-IsSound, runner_register-IsSound,
  runner_validate_stake-IsSound, runner_validate_unstake-IsSound, user_login-IsSound,
  user_me-IsSound, user_register-IsSound,
}
use deping_client_service.Keeping.{Keeps, Keeps-bind, Keeps-pure}
use deping_client_service.Registry.{ActiveNode}
use deping_client_service.Router.{Access, granted, jwt_middleware, unauthorized}
use deping_client_service.Router.Routes.{
  Route, dispatch, find_route, health_handler, keeping, match_route, or_route, serve, serve_ws,
  setup_router, with_access,
}

-- A route keeps the invariant.
abbrev RouteKeeps : Marks → Route → Type 0
RouteKeeps marks r =
    (s : Services) (call : Call) (registry : List ActiveNode)
    → Keeps (IsSound marks) (r.handle s call registry)

keeping-IsSound :
    {marks : Marks} (handler : Handler)
    → ((s : Services) (call : Call) → Keeps (IsSound marks) (handler s call))
    → (s : Services) (call : Call) (registry : List ActiveNode)
    → Keeps (IsSound marks) (keeping handler s call registry)
keeping-IsSound handler k s call registry =
    Keeps-bind (handler s call) (λ r. pure (r, registry)) (k s call) (λ r. Keeps-pure (r, registry))

health_handler-IsSound :
    {marks : Marks} (s : Services) (call : Call) → Keeps (IsSound marks) (health_handler s call)
health_handler-IsSound s call = record { at = λ w h. h }

serve_ws-IsSound :
    {marks : Marks} (s : Services) (call : Call) → Keeps (IsSound marks) (serve_ws s call)
serve_ws-IsSound s call = record { at = λ w h. h }

ruleset handler_rules = (
  keeping-IsSound, health_handler-IsSound, serve_ws-IsSound, user_register-IsSound,
  user_login-IsSound, user_me-IsSound, runner_register-IsSound, runner_me-IsSound,
  runner_heartbeat-IsSound, handle_activate_node-IsSound, runner_validate_stake-IsSound,
  runner_validate_unstake-IsSound, delete_runner-IsSound, monitor_create-IsSound,
  monitor_list-IsSound, handle_toggle_notification-IsSound, monitor_pause-IsSound,
  monitor_resume-IsSound, monitor_delete-IsSound, monitor_stats-IsSound,
  add_monitor_credits-IsSound, handle_initiate_link-IsSound, add_credits-IsSound,
  get_telegram_me-IsSound, get_credits-IsSound,
)

setup_router-RouteKeeps : (marks : Marks) → All (RouteKeeps marks) setup_router
unfolding setup_router
setup_router-RouteKeeps marks = search handler_rules depth 60

-- The route that a request finds keeps the invariant.
abbrev FoundKeeps : Marks → Option (Route × List (String × String)) → Type 0
FoundKeeps marks none = Unit {0}
FoundKeeps marks (some (r, values)) = RouteKeeps marks r

or_route-FoundKeeps :
    {marks : Marks} (r : Route) (o : Option (List (String × String)))
    (rest : Option (Route × List (String × String)))
    → RouteKeeps marks r
    → FoundKeeps marks rest
    → FoundKeeps marks (or_route r o rest)
or_route-FoundKeeps r none rest k found = found
or_route-FoundKeeps r (some values) rest k found = k

find_route-FoundKeeps :
    (marks : Marks) (req : Request) (routes : List Route)
    → All (RouteKeeps marks) routes
    → FoundKeeps marks (find_route req routes)
unfolding find_route
find_route-FoundKeeps marks req [] all = tt
find_route-FoundKeeps marks req (r ∷ routes) all =
    or_route-FoundKeeps r (match_route req r) (find_route req routes) all.0
      (find_route-FoundKeeps marks req routes all.1)

with_access-IsSound :
    {marks : Marks} (r : Route) (s : Services) (req : Request) (values : List (String × String))
    (registry : List ActiveNode) (access : Access)
    → RouteKeeps marks r
    → Keeps (IsSound marks) (with_access r.handle s req values registry access)
with_access-IsSound r s req values registry (unauthorized reason) k = record { at = λ w h. h }
with_access-IsSound r s req values registry (granted user_id email) k = k s _ registry

dispatch-IsSound :
    {marks : Marks} (s : Services) (req : Request) (registry : List ActiveNode)
    (o : Option (Route × List (String × String)))
    → FoundKeeps marks o
    → Keeps (IsSound marks) (dispatch s req registry o)
dispatch-IsSound s req registry none k = record { at = λ w h. h }
dispatch-IsSound s req registry (some (r, values)) k = record {
  at = λ w h. elim (Bool-cases r.is_protected) [
    | inl is_protected ↦ rw is_protected (
        (with_access-IsSound r s req values registry (jwt_middleware s.auth w.now req.authorization)
            k).at
          w h)
    | inr open_page ↦ rw open_page ((k s _ registry).at w h)
  ];
}

pub serve-IsSound :
    {marks : Marks} (s : Services) (req : Request) (registry : List ActiveNode)
    → Keeps (IsSound marks) (serve s req registry)
unfolding serve
serve-IsSound {marks} s req registry =
    dispatch-IsSound s req registry (find_route req setup_router)
      (find_route-FoundKeeps marks req setup_router (setup_router-RouteKeeps marks))
