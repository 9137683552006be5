-- ===== src/Invariant/Alerting.antt =====
-- The alert service and the consumer keep the invariant (services/alert_service.go,
-- services/consumer_service.go).
use deping_client_service.Base.{List, Option, String, [], arith, none, some, ℕ, ◌∷◌, ◌≡◌}
use deping_client_service.World.{
  Error, M, MonitorHealthState, Part, World, ok, pure, send_message, wrap, wrapping, ◌>>=◌,
}
use deping_client_service.Alert.{
  AlertEvent, PingResultItem, dispatch_alert, dispatched, process_ping_result, send_credit_reminder,
}
use deping_client_service.Consumer.{
  Settlement, SubmitResultsRequest, acked, handle_delivery, process_results, settlement,
  with_monitor_id,
}
use deping_client_service.Health.{
  get_health_state, get_monitor_owner_chat_id, is_notification_enabled,
}
use deping_client_service.Invariant.{IsFree, IsHealthRow, IsSound, Marks}
use deping_client_service.Invariant.Ledger.{deduct_credit-IsSound}
use deping_client_service.Invariant.Links.{mark_reminder_sent-IsSound, should_send_reminder-IsSound}
use deping_client_service.Invariant.Monitoring.{
  advance-IsHealthRow, health_of-IsHealthRow, upsert_health_state-IsSound,
}
use deping_client_service.Keeping.{
  Keeps, Keeps-bind, Keeps-bind_with, Keeps-choose, Keeps-pure, Keeps-wrapping, keeps_rules,
}

pub send_message-IsSound :
    {marks : Marks} (chat : ℕ) (body : List Part) → Keeps (IsSound marks) (send_message chat body)
unfolding send_message
send_message-IsSound chat body = record { at = λ w h. ground (arith, h) }

is_notification_enabled-IsSound :
    {marks : Marks} (id : String) → Keeps (IsSound marks) (is_notification_enabled id)
unfolding is_notification_enabled
is_notification_enabled-IsSound id = record { at = λ w h. ground (arith, h) }

get_monitor_owner_chat_id-IsSound :
    {marks : Marks} (id : String) → Keeps (IsSound marks) (get_monitor_owner_chat_id id)
unfolding get_monitor_owner_chat_id
get_monitor_owner_chat_id-IsSound id = record { at = λ w h. ground (arith, h) }

send_credit_reminder-IsSound :
    {marks : Marks} (chat u : ℕ) → Keeps (IsSound marks) (send_credit_reminder chat u)
unfolding send_credit_reminder
send_credit_reminder-IsSound chat u =
    search
      (keeps_rules, should_send_reminder-IsSound, send_message-IsSound, mark_reminder_sent-IsSound)

dispatch_alert-IsSound : {marks : Marks} (e : AlertEvent) → Keeps (IsSound marks) (dispatch_alert e)
unfolding dispatch_alert
dispatch_alert-IsSound e =
    search
      (
        keeps_rules, is_notification_enabled-IsSound, get_monitor_owner_chat_id-IsSound,
        deduct_credit-IsSound, send_message-IsSound, send_credit_reminder-IsSound,
      )
      depth 12

dispatched-IsSound : {marks : Marks} (o : Option AlertEvent) → Keeps (IsSound marks) (dispatched o)
dispatched-IsSound none = search keeps_rules
dispatched-IsSound (some e) = search (keeps_rules, dispatch_alert-IsSound)

stored_state-IsHealthRow :
    {marks : Marks} (id : String) (w : World)
    → IsSound marks w
    → (s : MonitorHealthState) → (wrapping (wrap "state lookup") (get_health_state id) w).0 ≡ ok s
    → IsHealthRow s
unfolding get_health_state
stored_state-IsHealthRow id w h s e = ground (arith, health_of-IsHealthRow id w h, e)

get_health_state-IsSound :
    {marks : Marks} (id : String) → Keeps (IsSound marks) (get_health_state id)
unfolding get_health_state
get_health_state-IsSound id = record { at = λ w h. ground (arith, h) }

pub process_ping_result-IsSound :
    {marks : Marks} (r : PingResultItem)
    → IsFree marks
    → Keeps (IsSound marks) (process_ping_result r)
unfolding process_ping_result
process_ping_result-IsSound r free = Keeps-choose _ _ _ (Keeps-pure tt) (
    Keeps-bind_with IsHealthRow (wrapping (wrap "state lookup") (get_health_state r.monitor_id)) _
      (Keeps-wrapping _ _ (get_health_state-IsSound r.monitor_id))
      (stored_state-IsHealthRow r.monitor_id)
      λ s row.
        search
          (keeps_rules, upsert_health_state-IsSound, free, advance-IsHealthRow, dispatched-IsSound))

process_results-IsSound :
    {marks : Marks} (rs : List PingResultItem) (last : Option Error)
    → IsFree marks
    → Keeps (IsSound marks) (process_results rs last)
unfolding process_results
process_results-IsSound [] last free = search keeps_rules
process_results-IsSound (r ∷ rs) last free =
    Keeps-bind _ _
      (record { at = λ w h. (process_ping_result-IsSound (with_monitor_id r) free).at w h })
      (λ last'. process_results-IsSound rs last' free)

pub handle_delivery-IsSound :
    {marks : Marks} (o : Option SubmitResultsRequest)
    → IsFree marks
    → Keeps (IsSound marks) (handle_delivery o)
unfolding handle_delivery
handle_delivery-IsSound none free = search keeps_rules
handle_delivery-IsSound {marks} (some packet) free =
    let rest =
      Keeps-bind (process_results packet.results none) (λ last. pure (settlement last))
        (process_results-IsSound packet.results none free) (λ last. Keeps-pure (settlement last)) in
    elim packet.results
      as (λ rs. Keeps (IsSound marks) (elim rs as (λ _. M Settlement) [
        | [] ↦ pure acked
        | r ∷ rs ↦ process_results packet.results none >>= λ last. pure (settlement last)
      ])) [ [] ↦ Keeps-pure acked | r ∷ rs ↦ rest ]
