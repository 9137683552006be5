-- ===== src/Tests/Accounts.antt =====
-- Examples for the accounts and the session tokens.
use deping_client_service.Base.{
  [], if◌then◌else◌, ltb, none, pos, refl, select_one, some, str_eq, ◌++◌, ◌∷◌, ◌≡◌,
}
use deping_client_service.World.{calm, ok}
use deping_client_service.Tests.{sample_world}
use deping_client_service.Users.{
  Auth, LoginRequest, RegisterRequest, auth_response, claims_for, login, register,
}
use deping_client_service.Users.Accounts.{register-login, registered}

-- Passwords that are their own hashes, and one token.
abbrev sample_auth : Auth
sample_auth = record {
  generate_from_password = λ p. some p;
  compare_hash_and_password = str_eq;
  signed_string = λ c. some "token";
  parse_token =
      λ now t. if ltb 704800 now then none else some (claims_for 100000 7 "eve@example.org");
  violated = λ u rows. none;
  initial_balance = pos 0;
}

abbrev sample_request : RegisterRequest
sample_request = record { email = "eve@example.org"; password = "secret"; wallet_pubkey = "W3" }

register-login_example :
    let (o, w') = register sample_auth sample_request (calm sample_world) in
    let credentials : LoginRequest = record { email = "eve@example.org"; password = "secret" } in
    (o ≡ ok (auth_response "token" (registered sample_auth sample_request sample_world "secret")))
    × (w'.users
        ≡ sample_world.users ++ registered sample_auth sample_request sample_world "secret" ∷ [])
    × (login sample_auth credentials (calm w') ≡ (
      ok (auth_response "token" (registered sample_auth sample_request sample_world "secret")),
      calm w',
    ))
unfolding select_one
register-login_example =
    register-login sample_auth sample_request sample_world refl refl refl refl refl refl
