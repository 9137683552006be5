-- ===== src/Router/Guard.antt =====
-- Who gets past the routes (router/router.go).
use deping_client_service.Base.{
  All, All-append, Bool, List, Option, String, [], arith, exists_where, false, inl, inr, none, refl,
  some, str_eq, true, ◌&&◌, ◌∷◌, ◌≡◌, ◌⊎◌,
}
use deping_client_service.World.{Outcome, World, ok}
use deping_client_service.Http.{Request, Response, Services, error_body}
use deping_client_service.Registry.{ActiveNode}
use deping_client_service.Router.{jwt_middleware, unauthorized}
use deping_client_service.Router.Routes.{
  Route, dispatch, find_route, literals, match_path, match_route, not_found_reply, open_routes,
  or_route, protected_routes, serve, setup_router,
}

unfoldable pub same_path : List String → List String → Bool
same_path [] [] = true
same_path [] (s ∷ ss) = false
same_path (t ∷ ts) [] = false
same_path (t ∷ ts) (s ∷ ss) = str_eq t s && same_path ts ss

-- The pages that need no token.
abbrev pub open_paths : List (List String)
open_paths =
    ("health" ∷ [])
    ∷ ("ws" ∷ [])
    ∷ ("api" ∷ "v1" ∷ "auth" ∷ "register" ∷ [])
    ∷ ("api" ∷ "v1" ∷ "auth" ∷ "login" ∷ [])
    ∷ []

abbrev pub is_open : List String → Bool
is_open path = exists_where (λ p. same_path p path) open_paths

match_path-same_path :
    (p path : List String) (values : List (String × String))
    → match_path (literals p) path ≡ some values
    → same_path p path ≡ true
unfolding match_path literals same_path
match_path-same_path [] [] values h = refl
match_path-same_path [] (s ∷ path) values h = absurd (ground arith)
match_path-same_path (t ∷ p) [] values h = absurd (ground arith)
match_path-same_path (t ∷ p) (s ∷ path) values h =
    ground (arith, match_path-same_path p path values)

-- A route that asks for a token, or whose page is open.
abbrev Shuts : Request → Route → Type 0
Shuts req r =
    (r.is_protected ≡ true)
    ⊎ ((values : List (String × String))
        → match_path r.pattern req.path ≡ some values
        → is_open req.path ≡ true)

abbrev all_protected : List Route → Bool
all_protected [] = true
all_protected (r ∷ routes) = r.is_protected && all_protected routes

protected-Shuts :
    (req : Request) (routes : List Route) → all_protected routes ≡ true → All (Shuts req) routes
protected-Shuts req [] h = tt
protected-Shuts req (r ∷ routes) h = (inl (ground arith), protected-Shuts req routes (ground arith))

open_routes-Shuts : (req : Request) → All (Shuts req) open_routes
unfolding exists_where literals
open_routes-Shuts req = (
  inr (λ values m. ground (arith, match_path-same_path ("health" ∷ []) req.path values m)),
  (
    inr (λ values m. ground (arith, match_path-same_path ("ws" ∷ []) req.path values m)),
    (
      inr (λ values m. ground (
        arith,
        match_path-same_path ("api" ∷ "v1" ∷ "auth" ∷ "register" ∷ []) req.path values m,
      )),
      (
        inr (λ values m.
            ground (
              arith,
              match_path-same_path ("api" ∷ "v1" ∷ "auth" ∷ "login" ∷ []) req.path values m,
            )),
        tt,
      ),
    ),
  ),
)

setup_router-Shuts : (req : Request) → All (Shuts req) setup_router
unfolding setup_router
setup_router-Shuts req =
    All-append (Shuts req) open_routes protected_routes (open_routes-Shuts req)
      (protected-Shuts req protected_routes refl)

-- What is known of the route that a request finds.
abbrev Finds : Request → Option (Route × List (String × String)) → Type 0
Finds req none = Unit {0}
Finds req (some (r, values)) = (r.is_protected ≡ true) ⊎ (is_open req.path ≡ true)

or_route-Finds :
    (req : Request) (r : Route) (o : Option (List (String × String)))
    (rest : Option (Route × List (String × String)))
    → match_route req r ≡ o
    → Shuts req r
    → Finds req rest
    → Finds req (or_route r o rest)
or_route-Finds req r none rest e shut found = found
or_route-Finds req r (some values) rest e (inl p) found = inl p
or_route-Finds req r (some values) rest e (inr shown) found = inr (shown values (ground (arith, e)))

find_route-Finds :
    (req : Request) (routes : List Route)
    → All (Shuts req) routes
    → Finds req (find_route req routes)
unfolding find_route
find_route-Finds req [] shut = tt
find_route-Finds req (r ∷ routes) shut =
    or_route-Finds req r (match_route req r) (find_route req routes) refl shut.0
      (find_route-Finds req routes shut.1)

-- What a request without a valid token gets: a refusal that changes nothing.
abbrev pub Refused : List ActiveNode → World → Outcome (Response × List ActiveNode) × World → Type 0
Refused registry w p =
    (r : Response) × (p ≡ (ok (r, registry), w)) × ((r.status ≡ 401) ⊎ (r.status ≡ 404))

dispatch-Refused :
    (s : Services) (req : Request) (registry : List ActiveNode) (w : World) (reason : String)
    (o : Option (Route × List (String × String)))
    → jwt_middleware s.auth w.now req.authorization ≡ unauthorized reason
    → is_open req.path ≡ false
    → Finds req o
    → Refused registry w (dispatch s req registry o w)
dispatch-Refused s req registry w reason none denied shut found = (not_found_reply, refl, inr refl)
dispatch-Refused s req registry w reason (some (r, values)) denied shut (inl is_protected) =
    rw (is_protected, denied) ((record { status = 401; body = error_body reason }), refl, inl refl)
dispatch-Refused s req registry w reason (some (r, values)) denied shut (inr shown) =
    absurd (ground (arith, shown, shut))

-- A request that the JWT middleware does not let through is answered by 401 or, where there is no such
-- page, by 404, and changes no table, no registry and no other state, whatever its method and its path
-- are, unless the path is one of the four open pages: health, ws, register and login.
pub serve-Refused :
    (s : Services) (req : Request) (registry : List ActiveNode) (w : World) {reason : String}
    → jwt_middleware s.auth w.now req.authorization ≡ unauthorized reason
    → is_open req.path ≡ false
    → Refused registry w (serve s req registry w)
unfolding serve
serve-Refused s req registry w {reason} denied shut =
    dispatch-Refused s req registry w reason (find_route req setup_router) denied shut
      (find_route-Finds req setup_router (setup_router-Shuts req))
