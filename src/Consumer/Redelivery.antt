-- ===== src/Consumer/Redelivery.antt =====
-- A requeued delivery is processed again from its first result (services/consumer_service.go): the
-- results that went through the first time count twice.
use mathlib.Core.Path.{subst}
use deping_client_service.Base.{
  Bool, String, [], ap, arith, false, none, refl, some, str_eq, true, ◌∙◌, ◌∷◌, ◌≡◌, ◌≢◌,
}
use deping_client_service.World.{World, calm, err, ok, references_monitor, unavailable, wrap}
use deping_client_service.Alert.{PingResultItem, process_ping_result}
use deping_client_service.Alert.Machine.{advance-Tracks, alert_due, failing_run}
use deping_client_service.Alert.Process.{
  TracksIn, next_alert, process_ping_result-Tracks, process_ping_result_error,
  process_ping_result_others, process_ping_result_silent,
}
use deping_client_service.Consumer.{
  SubmitResultsRequest, handle_delivery, process_results, requeued,
}
use deping_client_service.Health.{health_of}

-- The first two calls succeed, the third fails, and no later one does.
abbrev pub third_call_fails : World → World
third_call_fails w = record w { faults = false ∷ false ∷ true ∷ [] }

abbrev pub batch : String → PingResultItem → PingResultItem → SubmitResultsRequest
batch runner a b = record { runner_pubkey = runner; results = a ∷ b ∷ [] }

module _ (a b : PingResultItem) (w : World) (named_a : str_eq a.monitor_id "" ≡ false)
    (named_b : str_eq b.monitor_id "" ≡ false) (apart : a.monitor_id ≢ b.monitor_id)
    (failed : a.success ≡ false) (known : references_monitor a.monitor_id w ≡ true)
    (fresh : TracksIn a.monitor_id [] w) where
  -- The world after the first failed check of `a`.
  abbrev counted_once : World
  counted_once = (process_ping_result a (calm w)).1

  due_none : alert_due [] a ≡ none
  unfolding alert_due failing_run
  due_none = rw failed

  no_alert : next_alert a w ≡ none
  no_alert = (advance-Tracks [] w.now a (health_of a.monitor_id w) fresh).1 ∙ due_none

  first_result :
      process_ping_result a (third_call_fails w)
      ≡ (ok tt, record counted_once { faults = true ∷ [] })
  unfolding process_ping_result
  first_result = ground (arith, no_alert)

  second_result :
      process_ping_result b (record counted_once { faults = true ∷ [] })
      ≡ (err (wrap "state lookup" unavailable), record counted_once { faults = [] })
  unfolding process_ping_result
  second_result = rw named_b

  first_delivery :
      (runner : String)
      → handle_delivery (some (batch runner a b)) (third_call_fails w)
        ≡ (ok requeued, record counted_once { faults = [] })
  unfolding handle_delivery process_results
  first_delivery runner = ground (arith, first_result, second_result)

  later_delivery :
      (runner : String) (v : World)
      → references_monitor a.monitor_id v ≡ true
      → TracksIn a.monitor_id (false ∷ []) v
      → TracksIn a.monitor_id
          (false ∷ false ∷ [])
          (handle_delivery (some (batch runner a b)) (calm v)).1
  unfolding handle_delivery process_results
  later_delivery runner v there once =
      let (done, twice, _) = process_ping_result-Tracks a v (false ∷ []) named_a there once in
      let kept =
        process_ping_result_others b (process_ping_result a (calm v)).1 a.monitor_id apart in
      ground
        (arith, done, twice, kept, process_ping_result_error b (process_ping_result a (calm v)).1)

  -- One failed check of a healthy monitor, in a batch whose second result cannot be processed at
  -- first, takes the monitor down: the batch is requeued, and once it has been delivered again the
  -- monitor has two failures in a row, the state in which a DOWN alert was raised.
  pub redelivery-Tracks :
      (runner : String)
      → let packet = some (batch runner a b) in
        let (o, w') = handle_delivery packet (third_call_fails w) in
        (o ≡ ok requeued) × TracksIn a.monitor_id (false ∷ false ∷ []) (handle_delivery packet w').1
  redelivery-Tracks runner =
      let (_, once, _) = process_ping_result-Tracks a w [] named_a known fresh in
      let same = process_ping_result_silent a w [] named_a fresh due_none in
      let there : references_monitor a.monitor_id counted_once ≡ true =
        ap (λ (v : World). references_monitor a.monitor_id v) same ∙ known in
      rw (first_delivery runner) (
        refl,
        later_delivery runner counted_once there
            (subst (λ (u : Bool). TracksIn a.monitor_id (u ∷ []) counted_once) failed once),
      )
