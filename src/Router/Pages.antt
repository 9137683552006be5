-- ===== src/Router/Pages.antt =====
-- Requests from the route to the tables (router/router.go, controllers).
use deping_client_service.Base.{
  List, String, [], ap, exists_where, false, map, pos_part, refl, select_one, select_where, some,
  str_eq, true, ℤ, ◌==◌, ◌∷◌, ◌≡◌,
}
use deping_client_service.World.{User, World, calm, is_monitor, ok}
use deping_client_service.Controllers.Account.{user_login, user_me}
use deping_client_service.Controllers.Linking.{handle_toggle_notification}
use deping_client_service.Controllers.Monitoring.{monitor_pause}
use deping_client_service.Http.{Request, Services, auth_body, error_body, message_body, user_body}
use deping_client_service.Monitors.{find_active, is_due, scanned_monitor}
use deping_client_service.Monitors.Lifecycle.{pause_stops}
use deping_client_service.Registry.{ActiveNode}
use deping_client_service.Router.{get_user_id, granted, jwt_middleware}
use deping_client_service.Router.Routes.{serve}
use deping_client_service.Router.Sessions.{prefixed}
use deping_client_service.Users.{UserInfo, auth_response, claims_for, has_email, is_live_user}

abbrev pub page : String → List String → String → String → Request
page method path authorization body = record {
  method = method;
  path = path;
  authorization = authorization;
  query_pubkey = "";
  body = body;
}

abbrev pub monitor_page : String → String → List String
monitor_page id what = "api" ∷ "v1" ∷ "monitors" ∷ id ∷ what ∷ []

-- The notification setting cannot be changed over HTTP: with any valid token, id and body the reply is
-- 400, and nothing changes, since the handler reads another wildcard than the route has.
serve_notifications :
    (s : Services) (id authorization body : String) (registry : List ActiveNode) (w : World)
    {user_id : ℤ} {email : String}
    → str_eq id "" ≡ false
    → jwt_middleware s.auth w.now authorization ≡ granted user_id email
    → serve s (page "PUT" (monitor_page id "notifications") authorization body) registry w
      ≡ (ok (record { status = 400; body = error_body "monitor_id is required" }, registry), w)
unfolding serve handle_toggle_notification
serve_notifications s id authorization body registry w some_id access = rw (some_id, access) refl

-- With any valid token, whosever it is, a request to the pause page of a monitor stops its checks where
-- no call fails: the reply is 200, and the monitor is not among the active ones any more.
pub serve_pause :
    (s : Services) (id authorization body : String) (registry : List ActiveNode) (w : World)
    {user_id : ℤ} {email : String}
    → str_eq id "" ≡ false
    → jwt_middleware s.auth w.now authorization ≡ granted user_id email
    → let (o, w') =
        serve s (page "PUT" (monitor_page id "pause") authorization body) registry (calm w) in
      let rows = map scanned_monitor (select_where (is_due w'.users) w'.monitors) in
      (o ≡ ok (record { status = 200; body = message_body "monitor paused" }, registry))
      × (find_active (calm w') ≡ (ok rows, calm w'))
      × (exists_where (is_monitor id) rows ≡ false)
unfolding serve monitor_pause
serve_pause s id authorization body registry w {user_id} some_id access =
    let stopped = pause_stops id (pos_part user_id) w in
    rw (some_id, access, some_id) (refl, stopped.2, stopped.3)

abbrev pub info_of : User → UserInfo
info_of u = record {
  id = u.id;
  email = u.email;
  wallet_pubkey = u.wallet_pubkey;
  monitor_credit_balance = some u.credit_balance;
}

module _ (s : Services) (registry : List ActiveNode) (email password body token : String)
    (w later : World) {user : User}
    (decoded : s.decode_login body ≡ some (record { email = email; password = password }))
    (known : select_one (has_email email) w.users ≡ some user)
    (right : s.auth.compare_hash_and_password user.password_hash password ≡ true)
    (signed : s.auth.signed_string (claims_for w.now user.id user.email) ≡ some token)
    (parsed : s.auth.parse_token later.now token ≡ some (claims_for w.now user.id user.email)) where
  login_page :
      serve s (page "POST" ("api" ∷ "v1" ∷ "auth" ∷ "login" ∷ []) "" body) registry (calm w) ≡ (
        ok (record { status = 200; body = auth_body (auth_response token user) }, registry),
        calm w,
      )
  unfolding serve user_login
  login_page = rw (decoded, known, right, signed) refl

  me_page :
      {user' : User}
      → (user.id == 0) ≡ false
      → select_one (is_live_user user.id) later.users ≡ some user'
      → serve s
          (page "GET" ("api" ∷ "v1" ∷ "auth" ∷ "me" ∷ []) (prefixed "Bearer " token) "")
          registry
          (calm later)
        ≡ (ok (record { status = 200; body = user_body (info_of user') }, registry), calm later)
  unfolding serve user_me get_user_id
  me_page some_id stored = rw (parsed, some_id, stored) refl

  -- A login and the use of its token: where no call fails, the login page replies to the email and the
  -- password of an account with a token, and a later request for /auth/me with that token, as long as the
  -- JWT library returns the token's claims, gets what is stored of the account by then.
  pub login-me :
      {user' : User}
      → (user.id == 0) ≡ false
      → select_one (is_live_user user.id) later.users ≡ some user'
      → ((serve s (page "POST" ("api" ∷ "v1" ∷ "auth" ∷ "login" ∷ []) "" body) registry (calm w)).0
          ≡ ok (record { status = 200; body = auth_body (auth_response token user) }, registry))
        × ((serve s
              (page "GET" ("api" ∷ "v1" ∷ "auth" ∷ "me" ∷ []) (prefixed "Bearer " token) "")
              registry
              (calm later)).0
            ≡ ok (record { status = 200; body = user_body (info_of user') }, registry))
  login-me some_id stored = (ap (λ p. p.0) login_page, ap (λ p. p.0) (me_page some_id stored))
