-- ===== src/Alert/Dispatch.antt =====
-- The delivery of an alert: who gets a message, and what it costs (services/alert_service.go).
use deping_client_service.Base.{
  arith, false, if◌then◌else◌, inl, inr, none, refl, select_one, select_one-update_where_self, some,
  true, ℕ, ◌+◌, ◌<◌, ◌∷◌, ◌≡◌, ◌≢◌, ◌⊎◌,
}
use deping_client_service.World.{TelegramUser, World, calm, ok, today}
use deping_client_service.Alert.{
  AlertEvent, dispatch_alert, format_alert_message, reminder_text, send_credit_reminder,
}
use deping_client_service.Credits.{is_user, may_insert, reminder_due}
use deping_client_service.Credits.Deduct.{
  allowance, allowance-spent, credit_of, deduct_telegram_credit-spent,
}
use deping_client_service.Health.{notification_enabled, owner_chat}

-- The tables other than the credits, the users' reminder dates and the messages.
abbrev pub SameElsewhere : World → World → Type 0
SameElsewhere w w' =
    record w' {
      telegram_credits = w.telegram_credits;
      telegram_users = w.telegram_users;
      sent = w.sent;
      faults = w.faults;
    }
    ≡ w

module _ (e : AlertEvent) (w : World) where
  -- Where notifications are off for the monitor, or no verified owner is found, or the owner's chat is
  -- 0, the dispatch succeeds and changes nothing.
  pub dispatch_alert_quiet :
      (notification_enabled e.monitor_id w.monitors w.subscriptions ≡ false)
        ⊎ ((owner_chat e.monitor_id w.monitors w.telegram_users ≡ none)
            ⊎ ((u : ℕ) × (owner_chat e.monitor_id w.monitors w.telegram_users ≡ some (some 0, u))))
      → dispatch_alert e (calm w) ≡ (ok tt, calm w)
  unfolding dispatch_alert
  dispatch_alert_quiet (inl off) = ground arith
  dispatch_alert_quiet (inr (inl nobody)) = ground arith
  dispatch_alert_quiet (inr (inr (u, zero_chat))) = ground arith

  module _ {c u : ℕ} (on : notification_enabled e.monitor_id w.monitors w.subscriptions ≡ true)
      (owner : owner_chat e.monitor_id w.monitors w.telegram_users ≡ some (some c, u))
      (chat : c ≢ 0) (known : may_insert u w ≡ true) where
    -- Where no call fails, notifications are on and the verified owner with a chat has an allowance
    -- left today, the alert goes to that chat as the one new message, and costs the owner one unit of
    -- the allowance.
    pub dispatch_alert_sent :
        0 < allowance (today w) (credit_of u (today w) w.telegram_credits)
        → let (r, w') = dispatch_alert e (calm w) in
          (r ≡ ok tt)
          × (w'.sent ≡ record { chat_id = c; body = format_alert_message e } ∷ w.sent)
          × (allowance (today w) (credit_of u (today w) w'.telegram_credits) + 1
              ≡ allowance (today w) (credit_of u (today w) w.telegram_credits))
          × SameElsewhere (calm w) w'
    unfolding dispatch_alert
    dispatch_alert_sent some_left = ground (
      arith,
      deduct_telegram_credit-spent u (today w) w.telegram_credits,
      allowance-spent (today w) (credit_of u (today w) w.telegram_credits),
    )

    -- Where the allowance is used up the alert itself is not sent. The owner gets a reminder if none
    -- went out in the last seven days, and then the date of the reminder is stored.
    pub dispatch_alert_exhausted :
        {t : TelegramUser}
        → select_one (is_user u) w.telegram_users ≡ some t
        → allowance (today w) (credit_of u (today w) w.telegram_credits) ≡ 0
        → let (r, w') = dispatch_alert e (calm w) in
          (r ≡ ok tt)
          × (w'.sent ≡ (
              if reminder_due w.now t.last_reminded_at
              then record { chat_id = c; body = reminder_text } ∷ w.sent
              else w.sent))
          × (select_one (is_user u) w'.telegram_users
              ≡ some (
                  if reminder_due w.now t.last_reminded_at
                  then record t { last_reminded_at = some w.now }
                  else t))
          × SameElsewhere (calm w) w'
    unfolding dispatch_alert send_credit_reminder
    dispatch_alert_exhausted row used_up = ground (
      arith,
      deduct_telegram_credit-spent u (today w) w.telegram_credits,
      select_one-update_where_self (is_user u) (λ t. record t { last_reminded_at = some w.now })
          w.telegram_users (λ r k. refl),
    )
