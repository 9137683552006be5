-- ===== src/App/Keeps.antt =====
-- The calls to the broker (app/application.go) and the topology that it has.
-- What is declared or bound once stays so.
use deping_client_service.Base.{
  All, Bool-cases, List, String, [], arith, exists_where, inl, inr, true, ◌∷◌, ◌≡◌,
}
use deping_client_service.World.{Outcome, err, later_faults, next_fails, ok, panic}
use deping_client_service.App.{
  B, Broker, amqp, and_then, bind_b, bound_queue, channel_call, consume, consumed_queue,
  declared_exchange, declared_queue, exchange_declare, fresh_queue, is_declared, queue_bind,
  queue_declare, queue_declare_fresh, same_binding, steps, yields,
}
use deping_client_service.App.Declared.{is_bound-kept, is_declared-cons, is_declared-kept}

-- What can be so at the broker.
pub data Fact : Type 0 where
  has_queue has_exchange : String → Fact
  has_binding : String × String → Fact

abbrev pub Holds : Broker → Fact → Type 0
Holds b (has_queue q) = is_declared q b.queues ≡ true
Holds b (has_exchange x) = is_declared x b.exchanges ≡ true
Holds b (has_binding e) = exists_where (same_binding e) b.bindings ≡ true

-- A call that keeps every fact, whatever its outcome is.
abbrev pub Keeps : {A : Type 0} → B A → Type 0
Keeps m = (f : Fact) (b : Broker) → Holds b f → Holds (m b).1 f

bind_b-Keeps :
    {A C : Type 0} (p : Outcome A × Broker) (k : A → B C) (f : Fact)
    → Holds p.1 f
    → ((a : A) → Keeps (k a))
    → Holds (bind_b p k).1 f
bind_b-Keeps (ok a, b) k f h kept = kept a f b h
bind_b-Keeps (err e, b) k f h kept = h
bind_b-Keeps (panic, b) k f h kept = h

pub and_then-Keeps :
    {A C : Type 0} (m : B A) (k : A → B C)
    → Keeps m
    → ((a : A) → Keeps (k a))
    → Keeps (and_then m k)
and_then-Keeps m k h kept f b w = bind_b-Keeps (m b) k f (h f b w) kept

amqp-Keeps : {A : Type 0} (m : B A) → Keeps m → Keeps (amqp m)
amqp-Keeps m h (has_queue q) b w = elim (Bool-cases (next_fails b.faults)) [
  | inl fails ↦ rw fails w
  | inr works ↦ rw works (h (has_queue q) (record b { faults = later_faults b.faults }) w)
]
amqp-Keeps m h (has_exchange x) b w = elim (Bool-cases (next_fails b.faults)) [
  | inl fails ↦ rw fails w
  | inr works ↦ rw works (h (has_exchange x) (record b { faults = later_faults b.faults }) w)
]
amqp-Keeps m h (has_binding e) b w = elim (Bool-cases (next_fails b.faults)) [
  | inl fails ↦ rw fails w
  | inr works ↦ rw works (h (has_binding e) (record b { faults = later_faults b.faults }) w)
]

pub declared_queue-Keeps : (q : String) → Keeps (declared_queue q)
declared_queue-Keeps q (has_queue n) b w = is_declared-kept n q b.queues w
declared_queue-Keeps q (has_exchange x) b w = w
declared_queue-Keeps q (has_binding e) b w = w

pub declared_exchange-Keeps : (x : String) → Keeps (declared_exchange x)
declared_exchange-Keeps x (has_queue q) b w = w
declared_exchange-Keeps x (has_exchange n) b w = is_declared-kept n x b.exchanges w
declared_exchange-Keeps x (has_binding e) b w = w

pub bound_queue-Keeps : (q x : String) → Keeps (bound_queue q x)
bound_queue-Keeps q x (has_queue n) b w = ground (arith, w)
bound_queue-Keeps q x (has_exchange n) b w = ground (arith, w)
bound_queue-Keeps q x (has_binding e) b w = ground (arith, w, is_bound-kept e (q, x) b.bindings w)

pub consumed_queue-Keeps : (q : String) → Keeps (consumed_queue q)
consumed_queue-Keeps q (has_queue n) b w = ground (arith, w)
consumed_queue-Keeps q (has_exchange n) b w = ground (arith, w)
consumed_queue-Keeps q (has_binding e) b w = ground (arith, w)

fresh_queue-Keeps : Keeps fresh_queue
fresh_queue-Keeps (has_queue n) b w = is_declared-cons n b.fresh b.queues w
fresh_queue-Keeps (has_exchange x) b w = w
fresh_queue-Keeps (has_binding e) b w = w

pub queue_declare-Keeps : (q : String) → Keeps (queue_declare q)
queue_declare-Keeps q = amqp-Keeps (declared_queue q) (declared_queue-Keeps q)

pub exchange_declare-Keeps : (x : String) → Keeps (exchange_declare x)
exchange_declare-Keeps x = amqp-Keeps (declared_exchange x) (declared_exchange-Keeps x)

pub queue_bind-Keeps : (q x : String) → Keeps (queue_bind q x)
queue_bind-Keeps q x = amqp-Keeps (bound_queue q x) (bound_queue-Keeps q x)

pub consume-Keeps : (q : String) → Keeps (consume q)
consume-Keeps q = amqp-Keeps (consumed_queue q) (consumed_queue-Keeps q)

pub queue_declare_fresh-Keeps : Keeps queue_declare_fresh
queue_declare_fresh-Keeps = amqp-Keeps fresh_queue fresh_queue-Keeps

pub steps-Keeps : (ms : List (B (Unit {0}))) → All Keeps ms → Keeps (steps ms)
unfolding steps
steps-Keeps [] h f b w = w
steps-Keeps (m ∷ ms) h f b w = and_then-Keeps m (λ _. steps ms) h.0 (λ _. steps-Keeps ms h.1) f b w

pub channel_call-Keeps : Keeps channel_call
channel_call-Keeps = amqp-Keeps (yields tt) λ f b w. w
