-- ===== src/Users/Tokens.antt =====
-- Session tokens (services/user_service.go).
use deping_client_service.Base.{
  String, arith, if◌then◌else◌, is_some, ltb, none, pos, some, ℕ, ◌+◌, ◌<◌, ◌≡◌, ◌⊎◌,
}
use deping_client_service.World.{World, err, expired_token, invalid_token, ok}
use deping_client_service.Users.{Auth, claims_for, generate_token, token_lifetime, validate_token}

-- A token that was made for a user is accepted as that user's until a week has passed, and refused
-- afterwards. The JWT library is taken to return the claims of a token that it signed, and may refuse
-- one that has expired.
pub generate_token-validate_token :
    (auth : Auth) (user_id : ℕ) (email : String) (made later : World) {token : String}
    → auth.signed_string (claims_for made.now user_id email) ≡ some token
    → (auth.parse_token later.now token ≡ some (claims_for made.now user_id email))
      ⊎ ((made.now + token_lifetime < later.now) × (auth.parse_token later.now token ≡ none))
    → ((generate_token auth user_id email made).0 ≡ ok token)
      × ((validate_token auth token later).0 ≡ (
          if ltb (made.now + token_lifetime) later.now
          then err
              (if is_some (auth.parse_token later.now token) then expired_token else invalid_token)
          else ok (pos user_id)))
unfolding generate_token validate_token
generate_token-validate_token auth user_id email made later signed parsed = ground (arith, signed)
