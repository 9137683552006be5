-- ===== src/Alert/Steady.antt =====
-- The dispatch of an alert (services/alert_service.go) leaves the health states alone.
use deping_client_service.Base.{
  Bool, List, Option, String, arith, false, none, not, refl, some, true, ℕ, ◌==◌, ◌∙◌, ◌≡◌, ◌≢◌,
}
use deping_client_service.World.{
  M, Outcome, Part, World, choose, continue, err, ok, panic, pure, send_message, ◌>>=◌,
}
use deping_client_service.Alert.{
  AlertEvent, dispatch_alert, dispatched, format_alert_message, reminder_text, send_credit_reminder,
}
use deping_client_service.Credits.{deduct_credit, mark_reminder_sent, should_send_reminder}
use deping_client_service.Health.{get_monitor_owner_chat_id, is_notification_enabled}

-- A computation that leaves the health states alone and never panics, whichever of its calls fail.
abbrev Steady : {A : Type 0} → M A → Type 0
Steady m = (w : World) → ((m w).1.health ≡ w.health) × ((m w).0 ≢ panic)

module _ {A : Type 0} where
  Steady-bind :
      {B : Type 0} (m : M A) (f : A → M B) → Steady m → ((a : A) → Steady (f a)) → Steady (m >>= f)
  Steady-bind m f h k w = step (m w) (h w)
    where
      step :
          (r : Outcome A × World)
          → (r.1.health ≡ w.health) × (r.0 ≢ panic)
          → ((continue r f).1.health ≡ w.health) × ((continue r f).0 ≢ panic)
      step (ok a, w') (e, _) = ((k a w').0 ∙ e, (k a w').1)
      step (err x, w') (e, _) = (e, λ p. cc)
      step (panic, w') (e, never) = absurd (never refl)

  Steady-choose : (b : Bool) (m k : M A) → Steady m → Steady k → Steady (choose b m k)
  Steady-choose true m k h h' = h
  Steady-choose false m k h h' = h'

done-Steady : Steady (pure tt)
done-Steady w = (refl, λ p. cc)

send_message-Steady : (c : ℕ) (body : List Part) → Steady (send_message c body)
unfolding send_message
send_message-Steady c body w = ground arith

should_send_reminder-Steady : (u : ℕ) → Steady (should_send_reminder u)
unfolding should_send_reminder
should_send_reminder-Steady u w = ground arith

mark_reminder_sent-Steady : (u : ℕ) → Steady (mark_reminder_sent u)
unfolding mark_reminder_sent
mark_reminder_sent-Steady u w = ground arith

is_notification_enabled-Steady : (id : String) → Steady (is_notification_enabled id)
unfolding is_notification_enabled
is_notification_enabled-Steady id w = ground arith

get_monitor_owner_chat_id-Steady : (id : String) → Steady (get_monitor_owner_chat_id id)
unfolding get_monitor_owner_chat_id
get_monitor_owner_chat_id-Steady id w = ground arith

deduct_credit-Steady : (u : ℕ) → Steady (deduct_credit u)
unfolding deduct_credit
deduct_credit-Steady u w = ground arith

send_credit_reminder-Steady : (c u : ℕ) → Steady (send_credit_reminder c u)
unfolding send_credit_reminder
send_credit_reminder-Steady c u =
    Steady-bind (should_send_reminder u) _ (should_send_reminder-Steady u) λ should.
      Steady-choose (not should) (pure tt) _ done-Steady (
        Steady-bind (send_message c reminder_text) _ (send_message-Steady c reminder_text)
          λ _. mark_reminder_sent-Steady u)

dispatch_alert-Steady : (e : AlertEvent) → Steady (dispatch_alert e)
unfolding dispatch_alert
dispatch_alert-Steady e =
    Steady-bind (is_notification_enabled e.monitor_id) _
      (is_notification_enabled-Steady e.monitor_id)
      λ enabled. Steady-choose (not enabled) (pure tt) _ done-Steady (
        Steady-bind (get_monitor_owner_chat_id e.monitor_id) _
          (get_monitor_owner_chat_id-Steady e.monitor_id)
          λ o. Steady-choose (o.0 == 0) (pure tt) _ done-Steady (
            Steady-bind (deduct_credit o.1) _ (deduct_credit-Steady o.1) λ d.
              Steady-choose d.0 _ _ (send_message-Steady o.0 (format_alert_message e))
                (send_credit_reminder-Steady o.0 o.1)))

-- A dispatch reports no error and leaves the health states alone.
pub dispatched_health :
    (o : Option AlertEvent) (w : World)
    → ((dispatched o w).0 ≡ ok tt) × ((dispatched o w).1.health ≡ w.health)
dispatched_health none w = (refl, refl)
dispatched_health (some e) w = ground (arith, dispatch_alert-Steady e w)
