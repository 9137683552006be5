-- ===== src/Tests/Starting.antt =====
-- Examples for the start of the service.
use deping_client_service.Base.{String, [], exists_where, false, refl, true, ◌||◌, ◌↔◌, ◌∷◌, ◌≡◌}
use deping_client_service.World.{ok}
use deping_client_service.App.{Broker, Platform, new_application, same_binding, start_consumer}
use deping_client_service.App.Origin.{Allowed, allow_origin, allow_origin-Allowed}
use deping_client_service.App.Started.{is_served, new_application-start_consumer, reliable}
use deping_client_service.App.Topology.{Leaves, new_application-Leaves, ready}
use deping_client_service.Env.{Config}

abbrev sample_broker : Broker
sample_broker = record {
  queues = "telegram_queue" ∷ [];
  exchanges = [];
  bindings = [];
  consumed = [];
  faults = false ∷ false ∷ false ∷ true ∷ [];
  fresh = "amq.gen-1";
}

abbrev sample_platform : Platform
sample_platform = record {
  open_db = λ s. true;
  parse_redis_url = λ s. true;
  dial = λ s. true;
  is_program_id = λ s. true;
  new_telebot = λ s. true;
}

abbrev sample_config : Config
sample_config = record {
  database_url = "postgres";
  http_port = "8081";
  jwt_secret = "0123456789abcdef";
  rabbit_mq_url = "amqp";
  queue_name = "rabbit_mq_queue";
  telegram_bot_token = "token";
  telegram_bot_username = "depin_bot";
  redis_addr = "redis";
  solana_rpc_url = "rpc";
  deping_mint_address = "MINT";
  stake_treasury_addr = "V";
  treasury_addr = "T";
  stake_treasury_owner_addr = "VAULT";
  treasury_owner_addr = "TREASURY";
  program_id = "P";
  cloud_rabbit_mq_url = "amqps";
  uptash_redis_addr = "rediss";
}

-- The fourth call to the broker fails: the queue of the alerts is not declared.
new_application-Leaves_example :
    Leaves ready (new_application sample_platform sample_config sample_broker)
new_application-Leaves_example = new_application-Leaves sample_platform sample_config sample_broker

new_application-start_consumer_example :
    let (o, b') = new_application sample_platform sample_config (reliable sample_broker) in
    (o ≡ ok ":8081")
    × ((q x : String)
        → exists_where (same_binding (q, x)) b'.bindings ≡ (is_served sample_broker q x || false))
    × (b'.consumed ≡ "amq.gen-1" ∷ [])
    × ((start_consumer b').0 ≡ ok tt)
unfolding exists_where
new_application-start_consumer_example =
    new_application-start_consumer sample_platform sample_config sample_broker
      (refl, refl, refl, refl, refl)

allow_origin-Allowed_example :
    (allow_origin "https://anyone.vercel.app" ≡ true) ↔ Allowed "https://anyone.vercel.app"
allow_origin-Allowed_example = allow_origin-Allowed "https://anyone.vercel.app"
