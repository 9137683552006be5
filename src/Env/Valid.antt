-- ===== src/Env/Valid.antt =====
-- What a configuration that is loaded satisfies (config/env/env.go).
use deping_client_service.Base.{
  Bool-cases, String, arith, false, inl, inr, ltb, str_eq, true, ◌≡◌, ◌≤◌,
}
use deping_client_service.World.{Outcome, err, message, ok, panic}
use deping_client_service.Env.{
  Config, atoi, byte_length, check_port, load_config, require_env, then_ok, valid_port, when,
}

-- The variables without a default are set, the secret has sixteen bytes or more, and the port is one.
pub record IsValid (c : Config) : Type 0 where
  pub database : str_eq c.database_url "" ≡ false
  pub rabbit : str_eq c.rabbit_mq_url "" ≡ false
  pub redis : str_eq c.redis_addr "" ≡ false
  pub cloud_rabbit : str_eq c.cloud_rabbit_mq_url "" ≡ false
  pub uptash_redis : str_eq c.uptash_redis_addr "" ≡ false
  pub program : str_eq c.program_id "" ≡ false
  pub bot_token : str_eq c.telegram_bot_token "" ≡ false
  pub secret : 16 ≤ byte_length c.jwt_secret
  pub port : valid_port (atoi c.http_port) ≡ true

-- The predicate on a result: a configuration is valid, and a failure asks nothing.
abbrev pub OkValid : Outcome Config → Type 0
OkValid (ok c) = IsValid c
OkValid (err e) = Unit {0}
OkValid panic = ⊥

module _ (getenv : String → String) where
  required :
      (key : String) (f : String → Outcome Config)
      → ((v : String) → str_eq v "" ≡ false → OkValid (f v))
      → OkValid (then_ok (require_env getenv key) f)
  unfolding require_env
  required key f h = elim (Bool-cases (str_eq (getenv key) "")) [
    | inl missing ↦ rw missing tt
    | inr there ↦ rw there (h (getenv key) there)
  ]

  long_enough :
      (secret : String) (o : Outcome Config)
      → (16 ≤ byte_length secret → OkValid o)
      → OkValid (
          when
            (ltb (byte_length secret) 16)
            (err (message "JWT_SECRET too short (min 16 chars)"))
            o)
  long_enough secret o h = elim (Bool-cases (ltb (byte_length secret) 16)) [
    | inl short ↦ rw short tt
    | inr long ↦ rw long (h (ground arith))
  ]

  port_checked :
      (c : Config) → (valid_port (atoi c.http_port) ≡ true → IsValid c) → OkValid (check_port c)
  port_checked c h = elim (Bool-cases (valid_port (atoi c.http_port))) [
    | inl good ↦ rw good (h good)
    | inr bad ↦ rw bad tt
  ]

  -- A configuration that is loaded is valid, whatever the environment, and loading never panics.
  pub load_config-OkValid : OkValid (load_config getenv)
  unfolding load_config
  load_config-OkValid = required "DATABASE_URL" _ λ db a. required "JWT_SECRET" _ λ jwt b.
      long_enough jwt _ λ l. required "RABBITMQ_URL" _ λ rabbit c.
        required "REDIS_ADDR" _ λ redis d. required "CLOUD_RABBITMQ_URL" _ λ cloud e.
          required "UPTASH_REDIS_ADDRESS" _ λ up f. required "PROGRAM_ID" _ λ prog g.
            required "TELEGRAM_BOT_TOKEN" _ λ bot h. port_checked _ λ p. record {
              database = a;
              rabbit = c;
              redis = d;
              cloud_rabbit = e;
              uptash_redis = f;
              program = g;
              bot_token = h;
              secret = l;
              port = p;
            }
