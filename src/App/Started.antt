-- ===== src/App/Started.antt =====
-- A start in which nothing fails (app/application.go, New).
use deping_client_service.Base.{
  Bool, List, String, [], arith, exists_where, insert_missing, refl, str_eq, true, ◌&&◌, ◌||◌, ◌∷◌,
  ◌≡◌,
}
use deping_client_service.World.{ok}
use deping_client_service.App.{
  Broker, Platform, declare_queues, http_address, is_declared, new_application,
  new_consumer_service, same_binding, start_bridge, start_consumer,
}
use deping_client_service.App.Declared.{
  is_bound-insert_missing, is_declared-added, is_declared-cons, is_declared-first, is_declared-kept,
}
use deping_client_service.Env.{Config}

abbrev pub reliable : Broker → Broker
reliable b = record b { faults = [] }

abbrev pub AllAnswer : Platform → Config → Type 0
AllAnswer p cfg =
    (p.open_db cfg.database_url ≡ true)
    × (p.parse_redis_url cfg.uptash_redis_addr ≡ true)
    × (p.dial cfg.cloud_rabbit_mq_url ≡ true)
    × (p.is_program_id cfg.program_id ≡ true)
    × (p.new_telebot cfg.telegram_bot_token ≡ true)

abbrev declared : String → List String → List String
declared q names = insert_missing (str_eq q) q names

abbrev bound : String → List (String × String) → List (String × String)
bound q bindings =
    insert_missing (same_binding (q, "monitor_updates")) (q, "monitor_updates") bindings

abbrev queued : Broker → Broker
queued b = record b {
  queues =
      declared "telegram_queue" (
        declared "solana_sync_queue" (declared "processing_queue" (declared "job_queue" b.queues)));
  exchanges = declared "monitor_updates" b.exchanges;
  bindings = bound "telegram_queue" (bound "processing_queue" b.bindings);
  faults = [];
}

declare_queues-queued : (b : Broker) → declare_queues (reliable b) ≡ (ok tt, queued b)
unfolding declare_queues
declare_queues-queued b =
    let q2 = declared "processing_queue" (declared "job_queue" b.queues) in
    let q3 = declared "solana_sync_queue" q2 in
    let processing = is_declared-kept "processing_queue" "telegram_queue" q3 (
      is_declared-kept "processing_queue" "solana_sync_queue" q2
        (is_declared-added "processing_queue" (declared "job_queue" b.queues))) in
    let telegram = is_declared-added "telegram_queue" q3 in
    let updates = is_declared-added "monitor_updates" b.exchanges in
    rw (processing, updates, telegram, updates) refl

abbrev consuming : Broker → Broker
consuming b = record b {
  queues = declared "telegram_queue" b.queues;
  exchanges = declared "monitor_updates" b.exchanges;
  bindings = bound "telegram_queue" b.bindings;
  faults = [];
}

new_consumer_service-consuming :
    (b : Broker) → new_consumer_service (reliable b) ≡ (ok tt, consuming b)
unfolding new_consumer_service
new_consumer_service-consuming b =
    rw
      (is_declared-added "telegram_queue" b.queues, is_declared-added "monitor_updates" b.exchanges)
      refl

abbrev bridged : Broker → Broker
bridged b = record b {
  queues = b.fresh ∷ b.queues;
  bindings = bound b.fresh b.bindings;
  consumed = b.fresh ∷ b.consumed;
  faults = [];
}

start_bridge-bridged :
    (b : Broker)
    → is_declared "monitor_updates" b.exchanges ≡ true
    → start_bridge (reliable b) ≡ (ok tt, bridged b)
unfolding start_bridge
start_bridge-bridged b updates =
    rw (is_declared-first b.fresh b.queues, updates, is_declared-first b.fresh b.queues) refl

-- The queues that the start binds to the exchange of the updates.
abbrev pub is_served : Broker → String → String → Bool
is_served b q x =
    str_eq x "monitor_updates"
    && (str_eq q b.fresh || str_eq q "telegram_queue" || str_eq q "processing_queue")

bridged-bindings :
    (b : Broker) (q x : String)
    → exists_where (same_binding (q, x)) (bridged (consuming (queued b))).bindings
      ≡ (is_served b q x || exists_where (same_binding (q, x)) b.bindings)
bridged-bindings b q x =
    let e : String × String = (q, x) in
    let first = bound "processing_queue" b.bindings in
    let second = bound "telegram_queue" first in
    let third = bound "telegram_queue" second in
    ground (
      arith,
      is_bound-insert_missing e (b.fresh, "monitor_updates") third,
      is_bound-insert_missing e ("telegram_queue", "monitor_updates") second,
      is_bound-insert_missing e ("telegram_queue", "monitor_updates") first,
      is_bound-insert_missing e ("processing_queue", "monitor_updates") b.bindings,
    )

-- Where the libraries and the broker take every call, the start succeeds whatever queues and bindings
-- there were before: the queues of the processing, of the alerts and of this instance are bound to the
-- exchange of the updates and nothing else is bound anew, the last one is consumed, and the consumer of
-- the alerts can start.
pub new_application-start_consumer :
    (p : Platform) (cfg : Config) (b : Broker)
    → AllAnswer p cfg
    → let (o, b') = new_application p cfg (reliable b) in
      (o ≡ ok (http_address cfg))
      × ((q x : String)
          → exists_where (same_binding (q, x)) b'.bindings
            ≡ (is_served b q x || exists_where (same_binding (q, x)) b.bindings))
      × (b'.consumed ≡ b.fresh ∷ b.consumed)
      × ((start_consumer b').0 ≡ ok tt)
unfolding new_application start_consumer
new_application-start_consumer p cfg b (db, redis, dialled, program, bot) =
    let b1 = queued b in
    let b2 = consuming b1 in
    let bridge = start_bridge-bridged b2 (is_declared-added "monitor_updates" b1.exchanges) in
    let telegram =
      is_declared-cons "telegram_queue" b.fresh b2.queues
        (is_declared-added "telegram_queue" b1.queues) in
    rw
      (
        db,
        redis,
        dialled,
        declare_queues-queued b,
        program,
        bot,
        new_consumer_service-consuming b1,
        bridge,
        telegram,
      )
      (refl, bridged-bindings b, refl, refl)
