-- ===== src/Tests/Alerts.antt =====
-- Examples for the alerts and the consumer.
use deping_client_service.Base.{
  String, [], ap, arith, exists_where, false, pos, refl, select_one, some, str_eq, true, ◌+◌, ◌∷◌,
  ◌≡◌, ◌≢◌,
}
use deping_client_service.World.{MonitorHealthState, World, calm, ok}
use deping_client_service.Alert.{
  AlertEvent, advance, build_down_alert, dispatch_alert, format_alert_message, process_ping_result,
  reminder_text,
}
use deping_client_service.Alert.Dispatch.{
  SameElsewhere, dispatch_alert_exhausted, dispatch_alert_sent,
}
use deping_client_service.Alert.Machine.{Tracks, advance-Tracks, alert_due, failing_run}
use deping_client_service.Alert.Process.{TracksIn}
use deping_client_service.Consumer.{handle_delivery, requeued}
use deping_client_service.Consumer.Delivery.{handle_delivery-settled_as, settled_world}
use deping_client_service.Consumer.Redelivery.{batch, redelivery-Tracks, third_call_fails}
use deping_client_service.Credits.{is_user}
use deping_client_service.Credits.Deduct.{allowance, credit_of}
use deping_client_service.Health.{notification_enabled, owner_chat, zero_state}
use deping_client_service.Tests.{ann, credits_of_ann, sample_result, sample_world}

-- A monitor with one failed check.
abbrev pub failing_once : MonitorHealthState
failing_once = record (zero_state "m1") { consecutive_failures = 1 }

failing_once-Tracks : Tracks (false ∷ []) failing_once
unfolding failing_run
failing_once-Tracks = record { counted = refl; down = refl; alerted = refl }

abbrev sample_alert : AlertEvent
sample_alert = record {
  monitor_id = "m1";
  target_url = "https://example.org";
  is_down = true;
  latency_ms = pos 12;
  status_code = pos 503;
  error_kind = "http";
  geo_region = "eu";
  timestamp = pos 1000;
}

abbrev exhausted_world : World
exhausted_world = record sample_world {
  telegram_credits =
      record credits_of_ann { free_credits_used = 3; purchased_credits = pos 0 } ∷ [];
}

advance-Tracks_example :
    let (s', event) = advance 100000 (sample_result "m1") failing_once in
    Tracks (false ∷ false ∷ []) s'
    × (event ≡ some (build_down_alert (sample_result "m1")))
    × (s'.monitor_id ≡ "m1")
    × (s'.last_alerted_at ≡ some 100000)
unfolding alert_due failing_run
advance-Tracks_example =
    advance-Tracks (false ∷ []) 100000 (sample_result "m1") failing_once failing_once-Tracks

abbrev first_id : String
first_id = "m1"

m1_apart : first_id ≢ "m2"
m1_apart e = let d : true ≡ false = ap (str_eq "m1") e in cc

dispatch_alert_sent_example :
    let (r, w') = dispatch_alert sample_alert (calm sample_world) in
    (r ≡ ok tt)
    × (w'.sent ≡ record { chat_id = 77; body = format_alert_message sample_alert } ∷ [])
    × (allowance 1 (credit_of 1 1 w'.telegram_credits) + 1 ≡ 3)
    × SameElsewhere (calm sample_world) w'
unfolding select_one exists_where notification_enabled owner_chat
dispatch_alert_sent_example =
    dispatch_alert_sent sample_alert sample_world refl refl (λ e. omega arith) refl (omega arith)

dispatch_alert_exhausted_example :
    let (r, w') = dispatch_alert sample_alert (calm exhausted_world) in
    (r ≡ ok tt)
    × (w'.sent ≡ record { chat_id = 77; body = reminder_text } ∷ [])
    × (select_one (is_user 1) w'.telegram_users
        ≡ some (record ann { last_reminded_at = some 100000 }))
    × SameElsewhere (calm exhausted_world) w'
unfolding select_one exists_where notification_enabled owner_chat
dispatch_alert_exhausted_example =
    dispatch_alert_exhausted sample_alert exhausted_world refl refl (λ e. omega arith) refl refl
      refl

-- The state of the second monitor cannot be read: the batch goes back to the queue.
handle_delivery-settled_as_example :
    let packet = some (batch "runner" (sample_result "m1") (sample_result "m2")) in
    let w = third_call_fails sample_world in
    handle_delivery packet w ≡ (ok requeued, settled_world packet w)
unfolding process_ping_result exists_where advance select_one
handle_delivery-settled_as_example =
    handle_delivery-settled_as (some (batch "runner" (sample_result "m1") (sample_result "m2")))
      (third_call_fails sample_world)

redelivery-Tracks_example :
    let packet = some (batch "runner" (sample_result "m1") (sample_result "m2")) in
    let (o, w') = handle_delivery packet (third_call_fails sample_world) in
    (o ≡ ok requeued) × TracksIn "m1" (false ∷ false ∷ []) (handle_delivery packet w').1
unfolding select_one exists_where failing_run
redelivery-Tracks_example =
    redelivery-Tracks (sample_result "m1") (sample_result "m2") sample_world refl refl m1_apart refl
      refl (record { counted = refl; down = refl; alerted = refl }) "runner"
