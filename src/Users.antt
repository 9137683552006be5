-- ===== src/Users.antt =====
-- Accounts: db/repositories/user.go and the accounts of services/user_service.go. bcrypt, the JWT
-- library and the constraints and defaults of the table `users`, which no file of the repository
-- declares, are the parameters of `Auth`. The library's claims are kept as far as the code reads
-- them: `none` is a claim that is missing or of another type, and a number is its integral part.
pub mod Accounts
pub mod Tokens
use deping_client_service.Base.{
  Bool, List, Option, String, [], false, if◌then◌else◌, ltb_ℤ, none, not, pos, select_one, some,
  str_eq, ℕ, ℤ, ◌&&◌, ◌++◌, ◌+◌, ◌==◌, ◌||◌, ◌∷◌,
}
use deping_client_service.World.{
  Error, M, Outcome, User, bad_password, choose, email_taken, err, expired_token, external, fail,
  invalid_token, is_duplicate_email, is_duplicate_wallet, lift, message, not_found, ok, pure,
  scan_optional, unavailable, unique_violation, wallet_taken, wrap, wrapping, ◌>>=◌, ◌>>◌,
}

pub record Claims : Type 0 where
  pub sub : Option ℤ
  pub email : String
  pub iat : ℤ
  pub exp : Option ℤ

pub record Auth : Type 0 where
  pub generate_from_password : String → Option String
  pub compare_hash_and_password : String → String → Bool
  -- SignedString with the secret, and Parse with it at a time.
  pub signed_string : Claims → Option String
  pub parse_token : ℕ → String → Option Claims
  -- The unique constraint that a new row violates, if any.
  pub violated : User → List User → Option String
  pub initial_balance : ℤ

-- dto/telegram.go, RegisterRequest, LoginRequest, UserInfo and AuthResponse.
pub record RegisterRequest : Type 0 where
  pub email : String
  pub password : String
  pub wallet_pubkey : String

pub record LoginRequest : Type 0 where
  pub email : String
  pub password : String

pub record UserInfo : Type 0 where
  pub id : ℕ
  pub email : String
  pub wallet_pubkey : String
  pub monitor_credit_balance : Option ℤ

pub record AuthResponse : Type 0 where
  pub token : String
  pub user : UserInfo

abbrev pub new_user : Auth → ℕ → String → String → String → User
new_user auth id email password_hash wallet_pubkey = record {
  id = id;
  email = email;
  password_hash = password_hash;
  wallet_pubkey = wallet_pubkey;
  credit_balance = auth.initial_balance;
  deleted = false;
}

unfoldable pub create_user : Auth → String → String → String → M User
create_user auth email password_hash wallet_pubkey = external λ w.
    let new = new_user auth w.serial email password_hash wallet_pubkey in
    elim (auth.violated new w.users) [
      | some constraint ↦ (err (unique_violation constraint), w)
      | none ↦ (ok new, record w { users = w.users ++ new ∷ []; serial = w.serial + 1 })
    ]

abbrev pub has_email : String → User → Bool
has_email email u = str_eq u.email email && not u.deleted

unfoldable pub get_user_by_email : String → M (Option User)
get_user_by_email email = scan_optional λ w. select_one (has_email email) w.users

abbrev pub is_live_user : ℕ → User → Bool
is_live_user id u = u.id == id && not u.deleted

unfoldable pub get_user_by_id : ℕ → M (Option User)
get_user_by_id id = scan_optional λ w. select_one (is_live_user id) w.users

-- 7 * 24 * time.Hour
abbrev pub token_lifetime : ℕ
token_lifetime = 604800

abbrev pub claims_for : ℕ → ℕ → String → Claims
claims_for now user_id email = record {
  sub = some (pos user_id);
  email = email;
  iat = pos now;
  exp = some (pos (now + token_lifetime));
}

abbrev pub or_unavailable : {A : Type 0} → Option A → Outcome A
or_unavailable none = err unavailable
or_unavailable (some a) = ok a

unfoldable pub generate_token : Auth → ℕ → String → M String
generate_token auth user_id email w =
    (or_unavailable (auth.signed_string (claims_for w.now user_id email)), w)

-- The balance is left out of the response to a registration and a login.
abbrev pub auth_response : String → User → AuthResponse
auth_response token u = record {
  token = token;
  user = record {
    id = u.id;
    email = u.email;
    wallet_pubkey = u.wallet_pubkey;
    monitor_credit_balance = none;
  };
}

abbrev pub register_error : Error → Error
register_error e =
    if is_duplicate_email e
    then email_taken
    else if is_duplicate_wallet e
    then wallet_taken
    else wrap "create user" e

unfoldable pub register : Auth → RegisterRequest → M AuthResponse
unfolding create_user generate_token
register auth req =
    choose (str_eq req.email "" || (str_eq req.password "" || str_eq req.wallet_pubkey ""))
      (fail (message "all fields are required"))
      (do
        hash ←
            wrapping (wrap "hash password")
              (lift (or_unavailable (auth.generate_from_password req.password)))
        user ← wrapping register_error (create_user auth req.email hash req.wallet_pubkey)
        token ← wrapping (wrap "generate token") (generate_token auth user.id user.email)
        pure (auth_response token user))

abbrev pub login_found : Auth → String → Option User → M AuthResponse
login_found auth password none = fail bad_password
login_found auth password (some user) =
    choose (not (auth.compare_hash_and_password user.password_hash password)) (fail bad_password)
      (do
        token ← wrapping (wrap "generate token") (generate_token auth user.id user.email)
        pure (auth_response token user))

unfoldable pub login : Auth → LoginRequest → M AuthResponse
unfolding get_user_by_email generate_token
login auth req = do
  user ← wrapping (wrap "get user") (get_user_by_email req.email)
  login_found auth req.password user

abbrev pub info_found : Option User → M UserInfo
info_found none = fail not_found
info_found (some u) = pure (record {
  id = u.id;
  email = u.email;
  wallet_pubkey = u.wallet_pubkey;
  monitor_credit_balance = some u.credit_balance;
})

unfoldable pub get_user_info : ℕ → M UserInfo
unfolding get_user_by_id
get_user_info user_id = do
  user ← wrapping (wrap "get user") (get_user_by_id user_id)
  info_found user

abbrev pub subject : Option ℤ → Outcome ℤ
subject none = err invalid_token
subject (some user_id) = ok user_id

abbrev pub check_claims : ℕ → Option Claims → Outcome ℤ
check_claims now none = err invalid_token
check_claims now (some claims) = elim claims.exp [
  | none ↦ err invalid_token
  | some exp ↦ if ltb_ℤ exp (pos now) then err expired_token else subject claims.sub
]

unfoldable pub validate_token : Auth → String → M ℤ
validate_token auth token w = (check_claims w.now (auth.parse_token w.now token), w)
