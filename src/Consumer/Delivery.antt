-- ===== src/Consumer/Delivery.antt =====
-- How a delivery of telegram_queue is settled (services/consumer_service.go).
use deping_client_service.Base.{
  Bool, Bool-cases, List, Option, String, [], arith, false, if◌then◌else◌, inl, inr, is_some, none,
  not, refl, some, str_eq, sym, ◌&&◌, ◌||◌, ◌∷◌, ◌≡◌,
}
use deping_client_service.World.{
  Error, Outcome, World, called, continue, err, next_fails, ok, pure, unavailable, wrap,
}
use deping_client_service.Alert.{PingResultItem, advance, process_ping_result}
use deping_client_service.Alert.Process.{settle_ok}
use deping_client_service.Consumer.{
  Settlement, SubmitResultsRequest, acked, dropped, handle_delivery, process_results, requeued,
  settlement, with_monitor_id,
}
use deping_client_service.Health.{health_of}

-- The state of the monitor cannot be read: the first call of a result that names a monitor fails.
abbrev pub lookup_fails : PingResultItem → World → Bool
lookup_fails r w = not (str_eq r.monitor_id "") && next_fails w.faults

-- Every result is processed, one after another, whatever becomes of those before it.
abbrev pub all_processed : List PingResultItem → World → World
all_processed [] w = w
all_processed (r ∷ rs) w = all_processed rs (process_ping_result (with_monitor_id r) w).1

abbrev pub some_lookup_fails : List PingResultItem → World → Bool
some_lookup_fails [] w = false
some_lookup_fails (r ∷ rs) w =
    lookup_fails (with_monitor_id r) w
    || some_lookup_fails rs (process_ping_result (with_monitor_id r) w).1

-- A result that cannot be looked up is an error, and no other is.
lookup_fails_lem :
    (r : PingResultItem) (w : World)
    → (process_ping_result r w).0
      ≡ (if lookup_fails r w then err (wrap "state lookup" unavailable) else ok tt)
unfolding process_ping_result
lookup_fails_lem r w = elim (Bool-cases (str_eq r.monitor_id "")) [
  | inl unnamed ↦ rw unnamed refl
  | inr named ↦ elim (Bool-cases (next_fails w.faults)) [
    | inl down ↦ rw (named, down) refl
    | inr up ↦
        let s = health_of r.monitor_id w in
        let step = advance w.now r s in ground (arith, settle_ok step.0 step.1 (called w))
  ]
]

process_results_all :
    (rs : List PingResultItem) (last : Option Error) (w : World)
    → (last' : Option Error) × (process_results rs last w ≡ (ok last', all_processed rs w))
      × (is_some last' ≡ (is_some last || some_lookup_fails rs w))
unfolding process_results
process_results_all [] last w = (last, refl, ground arith)
process_results_all (r ∷ rs) last w =
    let p = with_monitor_id r in
    let w' = (process_ping_result p w).1 in
    elim (Bool-cases (lookup_fails p w)) [
      | inl looked_up ↦
          let (last', done, counts) =
            process_results_all rs (some (wrap "state lookup" unavailable)) w' in
          (
            last',
            ground (arith, lookup_fails_lem p w, looked_up, done),
            ground (arith, counts, looked_up),
          )
      | inr found ↦
          let (last', done, counts) = process_results_all rs last w' in
          (last', ground (arith, lookup_fails_lem p w, found, done), ground (arith, counts, found))
    ]

-- What becomes of a delivery.
abbrev pub settled_as : Option SubmitResultsRequest → World → Settlement
settled_as none w = dropped
settled_as (some packet) w = if some_lookup_fails packet.results w then requeued else acked

abbrev pub settled_world : Option SubmitResultsRequest → World → World
settled_world none w = w
settled_world (some packet) w = all_processed packet.results w

settled_from :
    (p : Outcome (Option Error) × World) (last : Option Error) (w : World) (b : Bool)
    → p ≡ (ok last, w)
    → is_some last ≡ b
    → continue p (λ last'. pure (settlement last')) ≡ (ok (if b then requeued else acked), w)
settled_from p none w b same counts = rw (same, sym counts) refl
settled_from p (some e) w b same counts = rw (same, sym counts) refl

settled_batch :
    (runner : String) (rs : List PingResultItem) (w : World)
    → handle_delivery (some (record { runner_pubkey = runner; results = rs })) w
      ≡ (ok (if some_lookup_fails rs w then requeued else acked), all_processed rs w)
unfolding handle_delivery
settled_batch runner [] w = refl
settled_batch runner (r ∷ rs) w =
    let (last, done, counts) = process_results_all (r ∷ rs) none w in
    settled_from (process_results (r ∷ rs) none w) last (all_processed (r ∷ rs) w)
      (some_lookup_fails (r ∷ rs) w) done counts

-- Whatever calls fail, every result of a batch is processed in its turn, also those after one that failed;
-- the batch is requeued if the state of a monitor could not be read for one of them, and acknowledged if it
-- could for all, whatever else failed. A body that cannot be decoded is dropped and changes nothing.
pub handle_delivery-settled_as :
    (o : Option SubmitResultsRequest) (w : World)
    → handle_delivery o w ≡ (ok (settled_as o w), settled_world o w)
unfolding handle_delivery
handle_delivery-settled_as none w = refl
handle_delivery-settled_as (some packet) w = settled_batch packet.runner_pubkey packet.results w
