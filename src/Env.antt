-- ===== src/Env.antt =====
-- config/env/env.go, loadConfig, as a function of the environment: `getenv` gives "" for a variable
-- that is not set.
pub mod Valid
pub mod Once
use Prim.Native.Char.{code}
use deping_client_service.Base.{
  Bool, Option, String, [], false, if◌then◌else◌, leb, leb_ℤ, ltb, negsuc, none, pos, some, str_eq,
  true, ℕ, ℤ, ◌&&◌, ◌+◌, ◌-◌, ◌==◌, ◌^◌, ◌∷◌,
}
use deping_client_service.World.{Outcome, err, formatted, message, ok, panic, text}
use deping_client_service.Solana.{digits_value, nonempty_digits}

pub record Config : Type 0 where
  pub database_url : String
  pub http_port : String
  pub jwt_secret : String
  pub rabbit_mq_url : String
  pub queue_name : String
  pub telegram_bot_token : String
  pub telegram_bot_username : String
  pub redis_addr : String
  pub solana_rpc_url : String
  pub deping_mint_address : String
  pub stake_treasury_addr : String
  pub treasury_addr : String
  pub stake_treasury_owner_addr : String
  pub treasury_owner_addr : String
  pub program_id : String
  pub cloud_rabbit_mq_url : String
  pub uptash_redis_addr : String

-- The bytes of a character in UTF-8, and of a text.
abbrev pub char_bytes : ℕ → ℕ
char_bytes n = if ltb n 128 then 1 else if ltb n 2048 then 2 else if ltb n 65536 then 3 else 4

unfoldable pub byte_length : String → ℕ
byte_length String.[] = 0
byte_length (String.◌∷◌ c s) = char_bytes (code c) + byte_length s

-- strconv.Atoi, `none` for an error.
abbrev pub in_int : Bool → Option ℕ → Option ℤ
in_int negative none = none
in_int false (some n) = if ltb n (2 ^ 63) then some (pos n) else none
in_int true (some n) =
    if n == 0 then some (pos 0) else if leb n (2 ^ 63) then some (negsuc (n - 1)) else none

unfoldable pub atoi : String → Option ℤ
unfolding digits_value
atoi String.[] = none
atoi (String.◌∷◌ c s) =
    if code c == b'-'
    then in_int true (nonempty_digits s)
    else if code c == b'+'
    then in_int false (nonempty_digits s)
    else in_int false (nonempty_digits (String.◌∷◌ c s))

abbrev pub then_ok : {A B : Type 0} → Outcome A → (A → Outcome B) → Outcome B
then_ok (ok a) f = f a
then_ok (err e) f = err e
then_ok panic f = panic

abbrev pub when : {A : Type 0} → Bool → Outcome A → Outcome A → Outcome A
when true o p = o
when false o p = p

unfoldable pub require_env : (String → String) → String → Outcome String
require_env getenv key =
    when (str_eq (getenv key) "") (err (formatted "missing env: %s" (text key ∷ [])))
      (ok (getenv key))

abbrev pub get_env_or : (String → String) → String → String → String
get_env_or getenv key fallback = if str_eq (getenv key) "" then fallback else getenv key

abbrev pub valid_port : Option ℤ → Bool
valid_port none = false
valid_port (some port) = leb_ℤ (pos 1) port && leb_ℤ port (pos 65535)

abbrev pub check_port : Config → Outcome Config
check_port cfg =
    when (valid_port (atoi cfg.http_port)) (ok cfg)
      (err (formatted "invalid HTTP_PORT: %q" (text cfg.http_port ∷ [])))

unfoldable pub load_config : (String → String) → Outcome Config
load_config getenv = then_ok (require_env getenv "DATABASE_URL") λ db_url.
    then_ok (require_env getenv "JWT_SECRET") λ jwt_secret.
      when (ltb (byte_length jwt_secret) 16) (err (message "JWT_SECRET too short (min 16 chars)")) (
        then_ok (require_env getenv "RABBITMQ_URL") λ rabbit_url.
          then_ok (require_env getenv "REDIS_ADDR") λ redis_addr.
            then_ok (require_env getenv "CLOUD_RABBITMQ_URL") λ cloud_rabbit_url.
              then_ok (require_env getenv "UPTASH_REDIS_ADDRESS") λ uptash_redis_addr.
                then_ok (require_env getenv "PROGRAM_ID") λ prog_id.
                  then_ok (require_env getenv "TELEGRAM_BOT_TOKEN") λ bot_token.
                    check_port (record {
                      database_url = db_url;
                      http_port = get_env_or getenv "HTTP_PORT" "8081";
                      jwt_secret = jwt_secret;
                      rabbit_mq_url = rabbit_url;
                      queue_name = get_env_or getenv "RABBITMQ_QUEUE" "rabbit_mq_queue";
                      telegram_bot_token = bot_token;
                      telegram_bot_username =
                          get_env_or getenv "TELEGRAM_BOT_USERNAME" "depingnetworkbot";
                      redis_addr = redis_addr;
                      solana_rpc_url =
                          get_env_or getenv "SOLANA_RPC_URL" "https://api.devnet.solana.com";
                      deping_mint_address =
                          get_env_or getenv "DEPING_MINT_ADDRESS"
                            "DPg3P2U4syj8eGL6rRqMqhUfDayxVunh7Fmcowwh6hsj";
                      stake_treasury_addr =
                          get_env_or getenv "STAKE_TREASURY_WALLET"
                            "3pnWN58LE6vofXJKqv93Uj5NvcE7qxN6jiXgskaNhgkF";
                      treasury_addr =
                          get_env_or getenv "TREASURY_WALLET"
                            "2pp688Vidur6vTC8HQ2TQWvT6rnX1GcozgUtZxtPfwSv";
                      stake_treasury_owner_addr =
                          get_env_or getenv "STAKE_VAULT_OWNER"
                            "BSH3fp3RbLHr398i6jD6bQuNGgdcZxzvYNDWsNdWfcM1";
                      treasury_owner_addr =
                          get_env_or getenv "TRESURTY_WALLET_OWNER"
                            "7gZQw1XhPA2B63d14Mu5bUnJieAYkTLEsmjMNrQzmmbf";
                      program_id = prog_id;
                      cloud_rabbit_mq_url = cloud_rabbit_url;
                      uptash_redis_addr = uptash_redis_addr;
                    }))
