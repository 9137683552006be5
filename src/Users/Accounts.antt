-- ===== src/Users/Accounts.antt =====
-- Registration and login (services/user_service.go).
use deping_client_service.Base.{
  Bool, String, [], arith, eq_refl, false, inl, inr, none, select_one, select_one-append, some,
  str_eq, true, ◌++◌, ◌||◌, ◌∷◌, ◌≡◌, ◌⊎◌,
}
use deping_client_service.World.{
  Outcome, User, World, bad_password, calm, email_taken, err, ok, wallet_taken,
}
use deping_client_service.Users.{
  Auth, AuthResponse, LoginRequest, RegisterRequest, auth_response, claims_for, has_email, login,
  new_user, register,
}

module _ (auth : Auth) (req : RegisterRequest) (w : World) where
  abbrev pub registered : String → User
  registered hash = new_user auth w.serial req.email hash req.wallet_pubkey

  -- Where no call fails, no constraint refuses the new row and no account has the address, who
  -- registers gets a token and an account, and can log in with the same password at once, with the
  -- same response. bcrypt is taken to accept a password against its own hash.
  pub register-login :
      {hash token : String}
      → (str_eq req.email "" || (str_eq req.password "" || str_eq req.wallet_pubkey "")) ≡ false
      → auth.generate_from_password req.password ≡ some hash
      → auth.compare_hash_and_password hash req.password ≡ true
      → auth.violated (registered hash) w.users ≡ none
      → select_one (has_email req.email) w.users ≡ none
      → auth.signed_string (claims_for w.now w.serial req.email) ≡ some token
      → let (o, w') = register auth req (calm w) in
        let credentials : LoginRequest = record { email = req.email; password = req.password } in
        (o ≡ ok (auth_response token (registered hash)))
        × (w'.users ≡ w.users ++ registered hash ∷ [])
        × (login auth credentials (calm w') ≡ (ok (auth_response token (registered hash)), calm w'))
  unfolding register login
  register-login {hash} filled hashed accepts unique new signed =
      ground (
        arith,
        eq_refl req.email,
        select_one-append (has_email req.email) w.users (registered hash),
      )

-- ErrEmailTaken or ErrWalletTaken.
abbrev pub is_taken : Outcome AuthResponse → Bool
is_taken (err email_taken) = true
is_taken (err wallet_taken) = true
is_taken o = false

-- The errors that stand for an address or a wallet in use are never returned: a violated constraint
-- comes back as the driver's error, which the service does not recognise.
pub register_never_duplicate :
    (auth : Auth) (req : RegisterRequest) (w : World) → is_taken (register auth req w).0 ≡ false
unfolding register
register_never_duplicate auth req w = ground arith

-- A login fails in the same way for an address that no account has and for a wrong password, and
-- changes nothing.
pub login_refused :
    (auth : Auth) (req : LoginRequest) (w : World)
    → (select_one (has_email req.email) w.users ≡ none)
      ⊎ ((u : User) × (select_one (has_email req.email) w.users ≡ some u)
          × (auth.compare_hash_and_password u.password_hash req.password ≡ false))
    → login auth req (calm w) ≡ (err bad_password, calm w)
unfolding login
login_refused auth req w (inl unknown) = ground (arith, unknown)
login_refused auth req w (inr (u, found, wrong)) = ground (arith, found, wrong)
