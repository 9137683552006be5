-- ===== src/Tests/Routes.antt =====
-- Examples for the routes.
use deping_client_service.Base.{
  [], exists_where, false, if◌then◌else◌, map, none, pos, refl, select_one, select_where, some,
  str_eq, true, ◌+◌, ◌∷◌, ◌≡◌,
}
use deping_client_service.World.{User, calm, is_monitor, ok}
use deping_client_service.Http.{Services, auth_body, message_body, user_body}
use deping_client_service.Monitors.{find_active, is_due, scanned_monitor}
use deping_client_service.Router.{jwt_middleware}
use deping_client_service.Router.Guard.{Refused, same_path, serve-Refused}
use deping_client_service.Router.Pages.{info_of, login-me, monitor_page, page, serve_pause}
use deping_client_service.Router.Routes.{serve}
use deping_client_service.Router.Sessions.{prefixed}
use deping_client_service.Tests.{sample_addresses, sample_chain, sample_world}
use deping_client_service.Users.{Auth, auth_response, claims_for}

-- Passwords that are their own hashes, and one token, of the first user.
abbrev sample_auth : Auth
sample_auth = record {
  generate_from_password = λ p. some p;
  compare_hash_and_password = str_eq;
  signed_string = λ c. some "token";
  parse_token =
      λ now t. if str_eq t "token" then some (claims_for 100000 1 "ann@example.org") else none;
  violated = λ u rows. none;
  initial_balance = pos 0;
}

-- The one body that is decoded is that of a login.
abbrev pub sample_services : Services
sample_services = record {
  decode_register = λ b. none;
  decode_login = λ b. some (record { email = "ann@example.org"; password = "h1" });
  decode_add_credits = λ b. none;
  decode_create_monitor = λ b. none;
  decode_link = λ b. none;
  decode_toggle = λ b. some true;
  decode_me = λ b. none;
  decode_runner = λ b. none;
  decode_stake = λ b. none;
  decode_delete_node = λ b. none;
  decode_activate = λ b. none;
  decode_validate = λ b. none;
  auth = sample_auth;
  chain = sample_chain;
  treasury_owner = "TREASURY";
  stake_treasury_owner = "VAULT";
  monitor_table = record {
    new_id = λ n. "m3";
    default_is_active = true;
    default_total_spent_tokens = 0;
    refused = λ m users monitors. false;
    add_float = λ a b. a + b;
  };
  node_tools = record {
    is_public_key = λ k. true;
    addresses = sample_addresses;
    program_id = "P";
    parse_float = λ s. 1;
  };
  node_defaults = record {
    offchain_accumulated_tokens = 0;
    total_earned_tokens_all_time = 0;
    pending_solana_sync = false;
    is_validator = false;
    staked_amount = pos 0;
  };
  unique_usernames = true;
  bot_username = "depin_bot";
  random = none;
  clock = 100000;
  upgraded = 101;
}

serve-Refused_example : Refused [] sample_world (
    serve sample_services
      (page "DELETE" (monitor_page "m1" "stats") "Bearer stolen" "")
      []
      sample_world)
unfolding jwt_middleware exists_where same_path
serve-Refused_example =
    serve-Refused sample_services (page "DELETE" (monitor_page "m1" "stats") "Bearer stolen" "") []
      sample_world {reason = "invalid or expired token"} refl refl

serve_pause_example :
    let (o, w') =
      serve sample_services
        (page "PUT" (monitor_page "m1" "pause") "Bearer token" "")
        []
        (calm sample_world) in
    let rows = map scanned_monitor (select_where (is_due w'.users) w'.monitors) in
    (o ≡ ok (record { status = 200; body = message_body "monitor paused" }, []))
    × (find_active (calm w') ≡ (ok rows, calm w'))
    × (exists_where (is_monitor "m1") rows ≡ false)
unfolding jwt_middleware
serve_pause_example =
    serve_pause sample_services "m1" "Bearer token" "" [] sample_world {user_id = pos 1}
      {email = "ann@example.org"} refl refl

abbrev ann_account : User
ann_account = record {
  id = 1;
  email = "ann@example.org";
  password_hash = "h1";
  wallet_pubkey = "W1";
  credit_balance = pos 10;
  deleted = false;
}

login-me_example :
    ((serve sample_services
        (page "POST" ("api" ∷ "v1" ∷ "auth" ∷ "login" ∷ []) "" "{}")
        []
        (calm sample_world)).0
      ≡ ok (record { status = 200; body = auth_body (auth_response "token" ann_account) }, []))
    × ((serve sample_services
          (page "GET" ("api" ∷ "v1" ∷ "auth" ∷ "me" ∷ []) (prefixed "Bearer " "token") "")
          []
          (calm sample_world)).0
        ≡ ok (record { status = 200; body = user_body (info_of ann_account) }, []))
unfolding select_one
login-me_example =
    login-me sample_services [] "ann@example.org" "h1" "{}" "token" sample_world sample_world
      {user = ann_account} refl refl refl refl refl {user' = ann_account} refl refl
