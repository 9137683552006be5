-- ===== src/System/Outages.antt =====
-- The alerts that a history of results calls for (services/alert_service.go,
-- services/consumer_service.go).
use deping_client_service.Base.{
  Bool, List, String, [], arith, false, some, str_eq, sym, true, ℕ, ◌<◌, ◌≡◌, ◌≢◌,
}
use deping_client_service.World.{MonitorHealthState, calm, references_monitor, today}
use deping_client_service.Alert.{PingResultItem}
use deping_client_service.Alert.Machine.{Tracks, alert_due}
use deping_client_service.Alert.Process.{TracksIn}
use deping_client_service.Credits.{may_insert}
use deping_client_service.Credits.Deduct.{allowance, credit_of}
use deping_client_service.Health.{health_of, notification_enabled, owner_chat}
use deping_client_service.Invariant.{IsSound, paying}
use deping_client_service.System.{Event, Service, delivered, happen, run_events}
use deping_client_service.System.Alerts.{message_due, run_events-told, single, told}
use deping_client_service.System.History.{history, run_events-TracksIn, unhindered}

-- A state that tracks a history calls for what the rule says of the history.
message_due-alert_due :
    (h : List Bool) (r : PingResultItem) (s : MonitorHealthState)
    → Tracks h s
    → message_due r s ≡ alert_due h r
unfolding alert_due
message_due-alert_due h r s t = ground (arith, t.counted, t.down)

-- Where no call fails, a result of a monitor that has a row is answered by the history of its results
-- alone, whatever else the service did: with notifications on and an owner that has a verified chat other
-- than 0 and an allowance left today, a delivery of this one result sends SERVICE DOWN to that chat if it
-- is the second failure in a row, SERVICE RESTORED if it is the first success after two failures in a
-- row or more, and no message otherwise.
pub run_events-alert_due :
    (es : List (ℕ × Event)) (v : Service) (runner : String) (r : PingResultItem) (h : List Bool)
    {c u : ℕ}
    → let w = (run_events (unhindered es) v).world in
      IsSound (paying []) v.world
      → str_eq r.monitor_id "" ≡ false
      → references_monitor r.monitor_id v.world ≡ true
      → TracksIn r.monitor_id h v.world
      → notification_enabled r.monitor_id w.monitors w.subscriptions ≡ true
      → owner_chat r.monitor_id w.monitors w.telegram_users ≡ some (some c, u)
      → c ≢ 0
      → may_insert u w ≡ true
      → 0 < allowance (today w) (credit_of u (today w) w.telegram_credits)
      → let v' = happen (delivered (single runner r)) (record v { world = calm w }) in
        v'.world.sent ≡ told c (alert_due (history r.monitor_id es h) r) w.sent
run_events-alert_due es v runner r h sound named known t on owner chat can left =
    let w = (run_events (unhindered es) v).world in
    let now = history r.monitor_id es h in
    let tracks = run_events-TracksIn es v r.monitor_id h sound named known t in
    rw (sym (message_due-alert_due now r (health_of r.monitor_id w) tracks))
      (run_events-told (unhindered es) v runner r sound named on owner chat can left)
