-- ===== src/App.antt =====
-- The start of the service: New of app/application.go, with the set-up of the queues
-- in services/consumer_service.go (NewConsumerService, Start) and ws/bridge.go (StartBridge). The
-- libraries' calls that only succeed or fail are parameters of `Platform`; the RabbitMQ broker is a
-- state of its own, with the queues, exchanges and bindings that its documentation describes: a
-- declaration that is there already is no error, to bind or to consume asks for what it names, and a
-- binding that is there already is not made again.
pub mod Process
pub mod Declared
pub mod Keeps
pub mod Topology
pub mod Started
pub mod Origin
use Prim.Native.String.{◌++◌ as concat}
use deping_client_service.Base.{
  Bool, List, String, [], exists_where, false, if◌then◌else◌, insert_missing, str_eq, true, ◌&&◌,
  ◌∷◌,
}
use deping_client_service.World.{
  Outcome, err, later_faults, next_fails, not_found, ok, panic, unavailable, wrap,
}
use deping_client_service.Env.{Config}

pub record Broker : Type 0 where
  pub queues : List String
  pub exchanges : List String
  -- A queue with an exchange.
  pub bindings : List (String × String)
  pub consumed : List String
  -- The next calls, `true` for one that fails.
  pub faults : List Bool
  -- The names that the broker chooses.
  pub fresh : String

abbrev pub B : Type 0 → Type 0
B A = Broker → Outcome A × Broker

abbrev pub bind_b : {A C : Type 0} → Outcome A × Broker → (A → B C) → Outcome C × Broker
bind_b (ok a, b) f = f a b
bind_b (err e, b) f = (err e, b)
bind_b (panic, b) f = (panic, b)

abbrev pub and_then : {A C : Type 0} → B A → (A → B C) → B C
and_then m f b = bind_b (m b) f

abbrev pub yields : {A : Type 0} → A → B A
yields a b = (ok a, b)

abbrev pub gives : {A : Type 0} → Outcome A → B A
gives o b = (o, b)

abbrev pub wrap_b : {A : Type 0} → String → Outcome A × Broker → Outcome A × Broker
wrap_b what (ok a, b) = (ok a, b)
wrap_b what (err e, b) = (err (wrap what e), b)
wrap_b what (panic, b) = (panic, b)

abbrev pub wrapping_b : {A : Type 0} → String → B A → B A
wrapping_b what m b = wrap_b what (m b)

-- One call to the broker.
abbrev pub amqp : {A : Type 0} → B A → B A
amqp m b =
    let b' = record b { faults = later_faults b.faults } in
    if next_fails b.faults then (err unavailable, b') else m b'

abbrev pub is_declared : String → List String → Bool
is_declared name names = exists_where (str_eq name) names

abbrev pub declared_queue : String → B (Unit {0})
declared_queue q b = (ok tt, record b { queues = insert_missing (str_eq q) q b.queues })

abbrev pub declared_exchange : String → B (Unit {0})
declared_exchange x b = (ok tt, record b { exchanges = insert_missing (str_eq x) x b.exchanges })

abbrev pub same_binding : String × String → String × String → Bool
same_binding e f = str_eq e.0 f.0 && str_eq e.1 f.1

abbrev pub bound_queue : String → String → B (Unit {0})
bound_queue q x b =
    if is_declared q b.queues && is_declared x b.exchanges
    then (ok tt, record b { bindings = insert_missing (same_binding (q, x)) (q, x) b.bindings })
    else (err not_found, b)

abbrev pub consumed_queue : String → B (Unit {0})
consumed_queue q b =
    if is_declared q b.queues
    then (ok tt, record b { consumed = q ∷ b.consumed })
    else (err not_found, b)

-- A queue without a name gets one from the broker.
abbrev pub fresh_queue : B String
fresh_queue b = (ok b.fresh, record b { queues = b.fresh ∷ b.queues })

-- ch.QueueDeclare, ch.ExchangeDeclare, ch.QueueBind and ch.Consume.
abbrev pub queue_declare : String → B (Unit {0})
queue_declare q = amqp (declared_queue q)

abbrev pub exchange_declare : String → B (Unit {0})
exchange_declare x = amqp (declared_exchange x)

abbrev pub queue_bind : String → String → B (Unit {0})
queue_bind q x = amqp (bound_queue q x)

abbrev pub consume : String → B (Unit {0})
consume q = amqp (consumed_queue q)

abbrev pub queue_declare_fresh : B String
queue_declare_fresh = amqp fresh_queue

-- Statements one after another, each with `if err != nil { return … }`.
unfoldable pub steps : List (B (Unit {0})) → B (Unit {0})
steps [] = yields tt
steps (m ∷ ms) = and_then m λ _. steps ms

abbrev pub queue_steps : List (B (Unit {0}))
queue_steps =
    queue_declare "job_queue"
    ∷ queue_declare "processing_queue"
    ∷ queue_declare "solana_sync_queue"
    ∷ queue_declare "telegram_queue"
    ∷ exchange_declare "monitor_updates"
    ∷ queue_bind "processing_queue" "monitor_updates"
    ∷ queue_bind "telegram_queue" "monitor_updates"
    ∷ []

unfoldable pub declare_queues : B (Unit {0})
unfolding steps
declare_queues = steps queue_steps

-- A call without an effect on this state: a new channel, its quality of service.
abbrev pub channel_call : B (Unit {0})
channel_call = amqp (yields tt)

abbrev pub consumer_steps : List (B (Unit {0}))
consumer_steps =
    wrapping_b "open channel" channel_call
    ∷ wrapping_b "declare queue" (queue_declare "telegram_queue")
    ∷ wrapping_b "declare exchange" (exchange_declare "monitor_updates")
    ∷ wrapping_b "bind queue" (queue_bind "telegram_queue" "monitor_updates")
    ∷ wrapping_b "set qos" channel_call
    ∷ []

unfoldable pub new_consumer_service : B (Unit {0})
unfolding steps
new_consumer_service = steps consumer_steps

-- The Consume of Start; the loop over the deliveries is the module Consumer's.
unfoldable pub start_consumer : B (Unit {0})
start_consumer = wrapping_b "start consume" (consume "telegram_queue")

abbrev pub ignored : Outcome (Unit {0}) × Broker → Outcome (Unit {0}) × Broker
ignored (ok a, b) = (ok tt, b)
ignored (err e, b) = (ok tt, b)
ignored (panic, b) = (panic, b)

-- Every error is logged and ends the set-up of the bridge, which returns nothing.
unfoldable pub start_bridge : B (Unit {0})
unfolding steps
start_bridge b =
    ignored (
      and_then queue_declare_fresh (λ q. steps (queue_bind q "monitor_updates" ∷ consume q ∷ [])) b)

-- What the libraries answer.
pub record Platform : Type 0 where
  pub open_db : String → Bool
  pub parse_redis_url : String → Bool
  pub dial : String → Bool
  pub is_program_id : String → Bool
  pub new_telebot : String → Bool

abbrev pub asks : String → Bool → B (Unit {0})
asks what true = yields tt
asks what false = gives (err (wrap what unavailable))

-- NewSolanaClient, up to the client that it makes.
abbrev pub new_solana_client : Platform → Config → B (Unit {0})
new_solana_client p cfg = asks "invalid program ID" (p.is_program_id cfg.program_id)

abbrev pub start_steps : Platform → Config → List (B (Unit {0}))
start_steps p cfg =
    asks "db open" (p.open_db cfg.database_url)
    ∷ asks "parse redis url" (p.parse_redis_url cfg.uptash_redis_addr)
    ∷ asks "rabbitmq dial" (p.dial cfg.cloud_rabbit_mq_url)
    ∷ wrapping_b "rabbit channel" channel_call
    ∷ wrapping_b "declare queues" declare_queues
    ∷ wrapping_b "critical failure initializing solana rpc gateway" (new_solana_client p cfg)
    ∷ wrapping_b "bot init" (asks "create telebot" (p.new_telebot cfg.telegram_bot_token))
    ∷ wrapping_b "consumer init" new_consumer_service
    ∷ start_bridge
    ∷ []

abbrev pub http_address : Config → String
http_address cfg = concat ":" cfg.http_port

-- New, up to the record of what it made; the address is that of the HTTP server.
unfoldable pub new_application : Platform → Config → B String
unfolding steps
new_application p cfg = and_then (steps (start_steps p cfg)) λ _. yields (http_address cfg)
