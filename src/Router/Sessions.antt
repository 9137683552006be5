-- ===== src/Router/Sessions.antt =====
-- Who gets past the middleware (router/middleware.go).
use deping_client_service.Base.{String, arith, pos, refl, some, ℕ, ◌≡◌}
use deping_client_service.World.{World, ok}
use deping_client_service.Router.{get_user_email, get_user_id, jwt_middleware}
use deping_client_service.Users.{Auth, claims_for, generate_token}

-- The text after the prefix.
abbrev pub prefixed : String → String → String
prefixed String.[] s = s
prefixed (String.◌∷◌ c p) s = String.◌∷◌ c (prefixed p s)

-- The header with the token that a login made for an account gets its handler called as that account,
-- under its id and its email, as long as the JWT library returns the token's claims.
pub generate_token-get_user_id :
    (auth : Auth) (user_id : ℕ) (email : String) (made : World) (later : ℕ) {token : String}
    → auth.signed_string (claims_for made.now user_id email) ≡ some token
    → auth.parse_token later token ≡ some (claims_for made.now user_id email)
    → let access = some (jwt_middleware auth later (prefixed "Bearer " token)) in
      ((generate_token auth user_id email made).0 ≡ ok token)
      × (get_user_id access ≡ pos user_id)
      × (get_user_email access ≡ email)
unfolding generate_token jwt_middleware get_user_id get_user_email
generate_token-get_user_id auth user_id email made later {token} signed parsed =
    (ground (arith, signed), rw parsed refl, rw parsed refl)
