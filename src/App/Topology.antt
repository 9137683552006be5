-- ===== src/App/Topology.antt =====
-- The order in which the start declares and binds, and what it leaves (app/application.go,
-- services/consumer_service.go).
use mathlib.Core.Path.{subst}
use deping_client_service.Base.{
  All, All-mono, Bool, Bool-cases, List, String, [], arith, false, inl, inr, refl, sym, true, ◌∷◌,
  ◌≡◌,
}
use deping_client_service.World.{
  Error, Outcome, err, later_faults, next_fails, ok, panic, unavailable, wrap,
}
use deping_client_service.App.{
  B, Broker, Platform, amqp, and_then, asks, bind_b, bound_queue, channel_call, consume,
  consumer_steps, declare_queues, declared_exchange, declared_queue, exchange_declare, http_address,
  ignored, new_application, new_consumer_service, queue_bind, queue_declare, queue_declare_fresh,
  queue_steps, start_bridge, start_steps, steps, wrap_b, wrapping_b, yields,
}
use deping_client_service.App.Declared.{is_bound-added, is_declared-added}
use deping_client_service.App.Keeps.{
  Fact, Holds, Keeps, and_then-Keeps, bound_queue-Keeps, consume-Keeps, declared_exchange-Keeps,
  declared_queue-Keeps, has_binding, has_exchange, has_queue, queue_bind-Keeps,
  queue_declare_fresh-Keeps, steps-Keeps,
}
use deping_client_service.Env.{Config}

-- The error of a call that failed, and not of one that asks for what is not declared.
abbrev pub IsFailure : Error → Type 0
IsFailure unavailable = Unit {0}
IsFailure (wrap what e) = IsFailure e
IsFailure e = ⊥

-- A success leaves the facts, an error is a failed call's.
abbrev pub Leaves : {A : Type 0} → List Fact → Outcome A × Broker → Type 0
Leaves fs (ok a, b) = All (Holds b) fs
Leaves fs (err e, b) = IsFailure e
Leaves fs (panic, b) = ⊥

-- What a call needs, and what it leaves.
record Takes (fs gs : List Fact) (m : B (Unit {0})) : Type 0 where
  at : (b : Broker) → All (Holds b) fs → Leaves gs (m b)

same_facts :
    (faults : List Bool) (b : Broker) (f : Fact)
    → Holds b f
    → Holds (record b { faults = faults }) f
same_facts faults b (has_queue q) h = h
same_facts faults b (has_exchange x) h = h
same_facts faults b (has_binding e) h = h

Takes-amqp :
    {fs gs : List Fact} (m : B (Unit {0}))
    → ((b : Broker) → All (Holds b) fs → Leaves gs (m b))
    → Takes fs gs (amqp m)
Takes-amqp {fs} m h = record {
  at = λ b w. elim (Bool-cases (next_fails b.faults)) [
    | inl fails ↦ rw fails tt
    | inr works ↦
        let later = later_faults b.faults in
        rw works (h (record b { faults = later }) (All-mono _ _ fs (same_facts later b) w))
  ];
}

Leaves-wrap_b :
    (what : String) (gs : List Fact) (p : Outcome (Unit {0}) × Broker)
    → Leaves gs p
    → Leaves gs (wrap_b what p)
Leaves-wrap_b what gs (ok a, b) h = h
Leaves-wrap_b what gs (err e, b) h = h
Leaves-wrap_b what gs (panic, b) h = h

Takes-wrapping_b :
    (what : String) {fs gs : List Fact} {m : B (Unit {0})}
    → Takes fs gs m
    → Takes fs gs (wrapping_b what m)
Takes-wrapping_b what {gs = gs} {m = m} h = record {
  at = λ b w. Leaves-wrap_b what gs (m b) (h.at b w);
}

Leaves-bind_b :
    {C : Type 0} (gs hs : List Fact) (p : Outcome (Unit {0}) × Broker) (k : Unit {0} → B C)
    → Leaves gs p
    → ((b : Broker) → All (Holds b) gs → Leaves hs (k tt b))
    → Leaves hs (bind_b p k)
Leaves-bind_b gs hs (ok a, b) k w h = h b w
Leaves-bind_b gs hs (err e, b) k w h = w
Leaves-bind_b gs hs (panic, b) k w h = absurd w

-- The same of statements one after another.
record TakesAll (fs gs : List Fact) (ms : List (B (Unit {0}))) : Type 0 where
  all_at : (b : Broker) → All (Holds b) fs → Leaves gs (steps ms b)

Takes-done : {fs : List Fact} → TakesAll fs fs []
unfolding steps
Takes-done = record { all_at = λ b w. w }

Takes-step :
    {fs gs hs : List Fact} {m : B (Unit {0})} {ms : List (B (Unit {0}))}
    → Takes fs gs m
    → TakesAll gs hs ms
    → TakesAll fs hs (m ∷ ms)
unfolding steps
Takes-step {gs = gs} {hs = hs} {m = m} {ms = ms} h rest = record {
  all_at = λ b w. Leaves-bind_b gs hs (m b) (λ _. steps ms) (h.at b w) rest.all_at;
}

Takes-queue_declare : (q : String) {fs : List Fact} → Takes fs (has_queue q ∷ fs) (queue_declare q)
Takes-queue_declare q {fs} =
    Takes-amqp (declared_queue q)
      λ b w. (is_declared-added q b.queues, All-mono _ _ fs (λ f. declared_queue-Keeps q f b) w)

Takes-exchange_declare :
    (x : String) {fs : List Fact} → Takes fs (has_exchange x ∷ fs) (exchange_declare x)
Takes-exchange_declare x {fs} =
    Takes-amqp (declared_exchange x) λ b w.
      (is_declared-added x b.exchanges, All-mono _ _ fs (λ f. declared_exchange-Keeps x f b) w)

Takes-queue_bind :
    (q x : String) {fs : List Fact}
    → ((b : Broker) → All (Holds b) fs → Holds b (has_queue q) × Holds b (has_exchange x))
    → Takes fs (has_binding (q, x) ∷ fs) (queue_bind q x)
Takes-queue_bind q x {fs} there = Takes-amqp (bound_queue q x) λ b w.
    let (is_queue, is_exchange) = there b w in
    rw (is_queue, is_exchange)
      (
        is_bound-added q x b.bindings,
        All-mono _ _ fs (λ f h. rw (is_queue, is_exchange) at (bound_queue-Keeps q x f b h)) w,
      )

Takes-channel_call : {fs : List Fact} → Takes fs fs channel_call
Takes-channel_call = Takes-amqp (yields tt) λ b w. w

Takes-asks : (what : String) (answer : Bool) {fs : List Fact} → Takes fs fs (asks what answer)
Takes-asks what true = record { at = λ b w. w }
Takes-asks what false = record { at = λ b w. tt }

abbrev updates : Fact
updates = has_exchange "monitor_updates"

abbrev is_bound : String → Fact
is_bound q = has_binding (q, "monitor_updates")

-- What declareQueues leaves.
abbrev pub ready : List Fact
ready =
    is_bound "telegram_queue"
    ∷ is_bound "processing_queue"
    ∷ updates
    ∷ has_queue "telegram_queue"
    ∷ has_queue "solana_sync_queue"
    ∷ has_queue "processing_queue"
    ∷ has_queue "job_queue"
    ∷ []

queue_steps-TakesAll : TakesAll [] ready queue_steps
queue_steps-TakesAll = Takes-step (Takes-queue_declare "job_queue") (
    Takes-step (Takes-queue_declare "processing_queue") (
      Takes-step (Takes-queue_declare "solana_sync_queue") (
        Takes-step (Takes-queue_declare "telegram_queue") (
          Takes-step (Takes-exchange_declare "monitor_updates") (
            Takes-step
              (Takes-queue_bind "processing_queue" "monitor_updates" (λ b w. (w.1.1.1.0, w.0)))
              (Takes-step
                (Takes-queue_bind "telegram_queue" "monitor_updates" (λ b w. (w.1.1.0, w.1.0)))
                Takes-done))))))

declare_queues-Takes : Takes [] ready declare_queues
unfolding declare_queues
declare_queues-Takes = record { at = queue_steps-TakesAll.all_at }

-- The set-up of the consumer makes these again.
abbrev consuming : List Fact
consuming = is_bound "telegram_queue" ∷ updates ∷ has_queue "telegram_queue" ∷ ready

consumer_steps-TakesAll : TakesAll ready consuming consumer_steps
consumer_steps-TakesAll = Takes-step (Takes-wrapping_b "open channel" Takes-channel_call) (
    Takes-step (Takes-wrapping_b "declare queue" (Takes-queue_declare "telegram_queue")) (
      Takes-step (Takes-wrapping_b "declare exchange" (Takes-exchange_declare "monitor_updates")) (
        Takes-step
          (Takes-wrapping_b "bind queue"
            (Takes-queue_bind "telegram_queue" "monitor_updates" (λ b w. (w.1.0, w.0))))
          (Takes-step (Takes-wrapping_b "set qos" Takes-channel_call) Takes-done))))

new_consumer_service-Takes : Takes ready consuming new_consumer_service
unfolding new_consumer_service
new_consumer_service-Takes = record { at = consumer_steps-TakesAll.all_at }

ignored_kept : (p : Outcome (Unit {0}) × Broker) → (ignored p).1 ≡ p.1
ignored_kept (ok a, b) = refl
ignored_kept (err e, b) = refl
ignored_kept (panic, b) = refl

bridge_steps : String → List (B (Unit {0}))
bridge_steps q = queue_bind q "monitor_updates" ∷ consume q ∷ []

start_bridge-Keeps : Keeps start_bridge
unfolding start_bridge bridge_steps
start_bridge-Keeps f b w =
    let bridge : B (Unit {0}) = and_then queue_declare_fresh (λ q. steps (bridge_steps q)) in
    let kept : Holds (bridge b).1 f =
      and_then-Keeps queue_declare_fresh (λ q. steps (bridge_steps q)) queue_declare_fresh-Keeps
        (λ q.
          steps-Keeps (bridge_steps q)
            (queue_bind-Keeps q "monitor_updates", (consume-Keeps q, tt)))
        f b w in
    subst (λ b'. Holds b' f) (sym (ignored_kept (bridge b))) kept

start_bridge_ok : (b : Broker) → (start_bridge b).0 ≡ ok tt
unfolding start_bridge steps
start_bridge_ok b = ground arith

-- The bridge takes and leaves what there is, since its errors are only logged.
Leaves-bridge :
    (fs : List Fact) (p : Outcome (Unit {0}) × Broker)
    → p.0 ≡ ok tt
    → All (Holds p.1) fs
    → Leaves fs p
Leaves-bridge fs (ok a, b) done w = w
Leaves-bridge fs (err e, b) done w = absurd (ground (arith, done))
Leaves-bridge fs (panic, b) done w = absurd (ground (arith, done))

start_bridge-Takes : {fs : List Fact} → Takes fs fs start_bridge
start_bridge-Takes {fs} = record {
  at = λ b w.
      Leaves-bridge fs (start_bridge b) (start_bridge_ok b)
        (All-mono _ _ fs (λ f. start_bridge-Keeps f b) w);
}

start_steps-TakesAll : (p : Platform) (cfg : Config) → TakesAll [] consuming (start_steps p cfg)
start_steps-TakesAll p cfg = Takes-step (Takes-asks "db open" _) (
    Takes-step (Takes-asks "parse redis url" _) (
      Takes-step (Takes-asks "rabbitmq dial" _) (
        Takes-step (Takes-wrapping_b "rabbit channel" Takes-channel_call) (
          Takes-step (Takes-wrapping_b "declare queues" declare_queues-Takes) (
            Takes-step (Takes-wrapping_b _ (Takes-asks "invalid program ID" _)) (
              Takes-step (Takes-wrapping_b "bot init" (Takes-asks "create telebot" _)) (
                Takes-step (Takes-wrapping_b "consumer init" new_consumer_service-Takes)
                  (Takes-step start_bridge-Takes Takes-done))))))))

-- Whatever the libraries answer, whatever calls to the broker fail and whatever it had before, the start
-- does not panic, and it ends with an error only where a library refuses what it is given or a call to
-- the broker fails, never because it binds a queue that is not declared or to an exchange that is not.
-- Where it succeeds, the four queues and the exchange of the updates are declared, and the queues of the
-- processing and of the alerts are bound to it.
pub new_application-Leaves :
    (p : Platform) (cfg : Config) (b : Broker) → Leaves ready (new_application p cfg b)
unfolding new_application
new_application-Leaves p cfg b =
    Leaves-bind_b consuming ready (steps (start_steps p cfg) b) (λ _. yields (http_address cfg))
      ((start_steps-TakesAll p cfg).all_at b tt) (λ b w. w.1.1.1)
