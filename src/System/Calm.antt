-- ===== src/System/Calm.antt =====
-- A delivery makes no call fail that would not have failed (services/alert_service.go).
use deping_client_service.Base.{List, Option, String, [], arith, none, some, ℕ, ◌≡◌}
use deping_client_service.World.{MonitorHealthState, Part, World, get_now, send_message}
use deping_client_service.Alert.{
  AlertEvent, PingResultItem, dispatch_alert, dispatched, process_ping_result, send_credit_reminder,
}
use deping_client_service.Credits.{deduct_credit, mark_reminder_sent, should_send_reminder}
use deping_client_service.Health.{
  get_health_state, get_monitor_owner_chat_id, is_notification_enabled, upsert_health_state,
}
use deping_client_service.Keeping.{Keeps, keeps_rules}

-- No call is to fail.
abbrev pub IsCalm : World → Type 0
IsCalm w = w.faults ≡ []

send_message-IsCalm : (c : ℕ) (body : List Part) → Keeps IsCalm (send_message c body)
unfolding send_message
send_message-IsCalm c body = record { at = λ w h. ground (arith, h) }

should_send_reminder-IsCalm : (u : ℕ) → Keeps IsCalm (should_send_reminder u)
unfolding should_send_reminder
should_send_reminder-IsCalm u = record { at = λ w h. ground (arith, h) }

mark_reminder_sent-IsCalm : (u : ℕ) → Keeps IsCalm (mark_reminder_sent u)
unfolding mark_reminder_sent
mark_reminder_sent-IsCalm u = record { at = λ w h. ground (arith, h) }

is_notification_enabled-IsCalm : (id : String) → Keeps IsCalm (is_notification_enabled id)
unfolding is_notification_enabled
is_notification_enabled-IsCalm id = record { at = λ w h. ground (arith, h) }

get_monitor_owner_chat_id-IsCalm : (id : String) → Keeps IsCalm (get_monitor_owner_chat_id id)
unfolding get_monitor_owner_chat_id
get_monitor_owner_chat_id-IsCalm id = record { at = λ w h. ground (arith, h) }

deduct_credit-IsCalm : (u : ℕ) → Keeps IsCalm (deduct_credit u)
unfolding deduct_credit
deduct_credit-IsCalm u = record { at = λ w h. ground (arith, h) }

send_credit_reminder-IsCalm : (c u : ℕ) → Keeps IsCalm (send_credit_reminder c u)
unfolding send_credit_reminder
send_credit_reminder-IsCalm c u =
    search
      (keeps_rules, should_send_reminder-IsCalm, send_message-IsCalm, mark_reminder_sent-IsCalm)

dispatch_alert-IsCalm : (e : AlertEvent) → Keeps IsCalm (dispatch_alert e)
unfolding dispatch_alert
dispatch_alert-IsCalm e =
    search
      (
        keeps_rules, is_notification_enabled-IsCalm, get_monitor_owner_chat_id-IsCalm,
        deduct_credit-IsCalm, send_message-IsCalm, send_credit_reminder-IsCalm,
      )
      depth 12

dispatched-IsCalm : (o : Option AlertEvent) → Keeps IsCalm (dispatched o)
dispatched-IsCalm none = search keeps_rules
dispatched-IsCalm (some e) = search (keeps_rules, dispatch_alert-IsCalm)

get_health_state-IsCalm : (id : String) → Keeps IsCalm (get_health_state id)
unfolding get_health_state
get_health_state-IsCalm id = record { at = λ w h. ground (arith, h) }

upsert_health_state-IsCalm : (s : MonitorHealthState) → Keeps IsCalm (upsert_health_state s)
unfolding upsert_health_state
upsert_health_state-IsCalm s = record { at = λ w h. ground (arith, h) }

get_now-IsCalm : Keeps IsCalm get_now
get_now-IsCalm = record { at = λ w h. h }

pub process_ping_result-IsCalm : (r : PingResultItem) → Keeps IsCalm (process_ping_result r)
unfolding process_ping_result
process_ping_result-IsCalm r =
    search
      (
        keeps_rules, get_health_state-IsCalm, get_now-IsCalm, upsert_health_state-IsCalm,
        dispatched-IsCalm,
      )
      depth 12
