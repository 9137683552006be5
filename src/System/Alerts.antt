-- ===== src/System/Alerts.antt =====
-- What a delivered result says to the owner of a monitor at any time (services/alert_service.go,
-- services/consumer_service.go).
use deping_client_service.Base.{
  Bool-cases, List, Option, String, [], arith, false, if◌then◌else◌, inl, inr, none, refl, some,
  str_eq, true, ℕ, ◌<◌, ◌==◌, ◌∷◌, ◌≡◌, ◌≢◌,
}
use deping_client_service.World.{Message, MonitorHealthState, World, calm, today}
use deping_client_service.Alert.{
  AlertEvent, PingResultItem, advance, build_down_alert, build_restored_alert, dispatched,
  format_alert_message, process_ping_result,
}
use deping_client_service.Alert.Dispatch.{dispatch_alert_sent}
use deping_client_service.Alert.Process.{
  next_alert, next_state, process_ping_result_error, process_settles, settle_world, state_written,
}
use deping_client_service.Consumer.{SubmitResultsRequest, handle_delivery, process_results}
use deping_client_service.Credits.{may_insert}
use deping_client_service.Credits.Deduct.{allowance, credit_of}
use deping_client_service.Health.{health_of, notification_enabled, owner_chat, upsert_health_state}
use deping_client_service.Invariant.{IsHealthRow, IsSound, paying}
use deping_client_service.Invariant.Monitoring.{health_of-IsHealthRow}
use deping_client_service.System.{Event, Service, delivered, happen, run_events}
use deping_client_service.System.Reachable.{run_events-IsSound}

-- A failure where the stored state counts one, or a success where that state is down.
abbrev pub message_due : PingResultItem → MonitorHealthState → Option AlertEvent
message_due r s =
    if r.success
    then (if s.is_down then some (build_restored_alert r) else none)
    else (if s.consecutive_failures == 1 then some (build_down_alert r) else none)

abbrev pub told : ℕ → Option AlertEvent → List Message → List Message
told c none sent = sent
told c (some e) sent = record { chat_id = c; body = format_alert_message e } ∷ sent

-- A delivery with one result.
abbrev pub single : String → PingResultItem → Option SubmitResultsRequest
single runner r = some (record { runner_pubkey = runner; results = r ∷ [] })

-- On a sound row the rule of the code is that of `message_due`.
advance-message_due :
    (now : ℕ) (r : PingResultItem) (s : MonitorHealthState)
    → IsHealthRow s
    → (advance now r s).1 ≡ message_due r s
unfolding advance
advance-message_due now r s (down, alerted, _) = ground (arith, down, alerted)

-- The write of the state changes nothing but the health states.
state_written-calm :
    (r : PingResultItem) (w : World)
    → state_written r w (calm w) ≡ calm (record w { health = (state_written r w (calm w)).health })
unfolding upsert_health_state
state_written-calm r w = ground arith

handle_delivery-single :
    (runner : String) (r : PingResultItem) (w : World)
    → str_eq r.monitor_id "" ≡ false
    → (handle_delivery (single runner r) w).1 ≡ (process_ping_result r w).1
unfolding handle_delivery process_results
handle_delivery-single runner r w named = ground (arith, process_ping_result_error r w)

-- The alert, if any, is about the monitor.
abbrev IsAbout : String → Option AlertEvent → Type 0
IsAbout id none = Unit {0}
IsAbout id (some e) = e.monitor_id ≡ id

message_due-IsAbout :
    (r : PingResultItem) (s : MonitorHealthState) → IsAbout r.monitor_id (message_due r s)
unfolding build_restored_alert build_down_alert
message_due-IsAbout r s = elim (Bool-cases r.success) [
  | inl success ↦ elim (Bool-cases s.is_down) [
    | inl down ↦ rw (success, down) refl
    | inr up ↦ rw (success, up) tt
  ]
  | inr failure ↦ elim (Bool-cases (s.consecutive_failures == 1)) [
    | inl second ↦ rw (failure, second) refl
    | inr other ↦ rw (failure, other) tt
  ]
]

module _ (id : String) (w : World) {c u : ℕ}
    (on : notification_enabled id w.monitors w.subscriptions ≡ true)
    (owner : owner_chat id w.monitors w.telegram_users ≡ some (some c, u)) (chat : c ≢ 0)
    (known : may_insert u w ≡ true)
    (left : 0 < allowance (today w) (credit_of u (today w) w.telegram_credits)) where
  dispatched-told :
      (o : Option AlertEvent) → IsAbout id o → (dispatched o (calm w)).1.sent ≡ told c o w.sent
  dispatched-told none about = refl
  dispatched-told (some e) about =
      ground (arith, dispatch_alert_sent e w (rw about on) (rw about owner) chat known left)

module _ (r : PingResultItem) (w : World) {c u : ℕ} (h : IsSound (paying []) w)
    (named : str_eq r.monitor_id "" ≡ false)
    (on : notification_enabled r.monitor_id w.monitors w.subscriptions ≡ true)
    (owner : owner_chat r.monitor_id w.monitors w.telegram_users ≡ some (some c, u)) (chat : c ≢ 0)
    (known : may_insert u w ≡ true)
    (left : 0 < allowance (today w) (credit_of u (today w) w.telegram_credits)) where
  process_ping_result-told :
      (process_ping_result r (calm w)).1.sent
      ≡ told c (message_due r (health_of r.monitor_id w)) w.sent
  process_ping_result-told =
      let s = health_of r.monitor_id w in
      let due : next_alert r w ≡ message_due r s =
        advance-message_due w.now r s (health_of-IsHealthRow r.monitor_id w h) in
      rw
        (
          process_settles r w named,
          settle_world (next_state r w) (next_alert r w) (calm w),
          state_written-calm r w,
          due,
        )
        (dispatched-told r.monitor_id (record w { health = (state_written r w (calm w)).health }) on
          owner chat known left (message_due r s) (message_due-IsAbout r s))

-- After any events from a service with a sound world and no sales, a delivery of one result that names a
-- monitor sends one message to the owner's chat if the result is a failure and the stored state counts one
-- failure (SERVICE DOWN), or the result is a success and the stored state is down (SERVICE RESTORED), and
-- none otherwise. It is so where no call of the delivery fails, notifications are on for the monitor, and
-- its owner has a verified chat other than 0, can have a row of credits and has an allowance left today.
-- That state is what the events before have left: where one of their calls failed, it need not count every
-- result that was delivered.
pub run_events-told :
    (es : List Event) (v : Service) (runner : String) (r : PingResultItem) {c u : ℕ}
    → let w = (run_events es v).world in
      IsSound (paying []) v.world
      → str_eq r.monitor_id "" ≡ false
      → notification_enabled r.monitor_id w.monitors w.subscriptions ≡ true
      → owner_chat r.monitor_id w.monitors w.telegram_users ≡ some (some c, u)
      → c ≢ 0
      → may_insert u w ≡ true
      → 0 < allowance (today w) (credit_of u (today w) w.telegram_credits)
      → let v' = happen (delivered (single runner r)) (record v { world = calm w }) in
        v'.world.sent ≡ told c (message_due r (health_of r.monitor_id w)) w.sent
unfolding happen
run_events-told es v runner r h named on owner chat known left =
    let w = (run_events es v).world in
    rw (handle_delivery-single runner r (calm w) named) (
      process_ping_result-told r w (run_events-IsSound es v (λ _. tt) h) named on owner chat known
        left)
