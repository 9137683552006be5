-- ===== src/Bot/Alerts.antt =====
-- From the bot to the alerts: what a linked chat gets, and what the button stops (bot/bot.go,
-- services/alert_service.go).
use deping_client_service.Base.{
  Bool, List, String, ap, arith, exists_where, false, inl, not, refl, select_one, some, sym, true,
  ◌&&◌, ◌<◌, ◌∙◌, ◌∷◌, ◌≡◌, ◌≢◌,
}
use deping_client_service.World.{
  Monitor, TelegramSubscription, TelegramUser, World, calm, is_monitor, ok, today,
}
use deping_client_service.Alert.{AlertEvent, dispatch_alert, format_alert_message}
use deping_client_service.Alert.Dispatch.{dispatch_alert_quiet, dispatch_alert_sent}
use deping_client_service.Bot.{Context, handle_verify}
use deping_client_service.Bot.Chat.{
  handle_verify-verified_world, owner_chat-owner, verified_row, verified_world,
}
use deping_client_service.Bot.Notify.{
  can_subscribe, press, press-pressed, pressed, status_of, status_of-with_setting,
}
use deping_client_service.Bot.Text.{trim_space}
use deping_client_service.Credits.{is_user, may_insert}
use deping_client_service.Credits.Deduct.{allowance, credit_of}
use deping_client_service.Health.{is_live_monitor, is_subscription, notification_enabled}
use deping_client_service.Telegram.{has_chat, has_code, has_username, is_chat, verified}
use deping_client_service.Telegram.Service.{enabled_or_default}

notification_enabled-status :
    (id : String) (monitors : List Monitor) (rows : List TelegramSubscription) {m : Monitor}
    → select_one (is_monitor id) monitors ≡ some m
    → notification_enabled id monitors rows
      ≡ enabled_or_default (select_one (is_subscription m.owner_id id) rows)
unfolding notification_enabled
notification_enabled-status id monitors rows monitor = ground arith

module _ (c : Context) (tu : TelegramUser) (is_ok : tu.is_verified ≡ true) (w : World)
    (e : AlertEvent) {m : Monitor}
    (monitor : select_one (is_monitor e.monitor_id) w.monitors ≡ some m)
    (owner : m.owner_id ≡ tu.user_id) where
  -- The owner of a monitor who has its notifications on and presses the button gets no alert of it any
  -- more: where no call fails the dispatch that follows sends nothing and takes no credit.
  press-dispatch_alert :
      c.callback_data ≡ e.monitor_id
      → select_one (is_chat c.sender_id) w.telegram_users ≡ some tu
      → can_subscribe tu.user_id c.callback_data w ≡ true
      → status_of tu.user_id c.callback_data w ≡ true
      → let w' = (press c w).1 in dispatch_alert e (calm w') ≡ (ok tt, calm w')
  press-dispatch_alert same known can on = rw (press-pressed c tu is_ok w known can) (
      dispatch_alert_quiet e (pressed c tu is_ok w) (
        inl (
          notification_enabled-status e.monitor_id w.monitors (pressed c tu is_ok w).subscriptions
            monitor
          ∙ rw (owner, sym same)
              (status_of-with_setting tu.user_id c.callback_data
                  (not (status_of tu.user_id c.callback_data w)) w.subscriptions
                ∙ ap not on))))

module _ (unique_usernames : Bool) (c : Context) (code : String) (more : List String) (w : World)
    (e : AlertEvent) {t : TelegramUser} {m : Monitor}
    (pending : select_one (has_code (trim_space code)) w.telegram_users ≡ some t)
    (own : select_one (is_user t.user_id) w.telegram_users ≡ some t)
    (free : exists_where (has_chat t.user_id c.sender_id) w.telegram_users ≡ false)
    (allowed : (unique_usernames
        && exists_where (has_username t.user_id c.sender_username) w.telegram_users)
      ≡ false)
    (monitor : select_one (is_live_monitor e.monitor_id) w.monitors ≡ some m)
    (owner : m.owner_id ≡ t.user_id) where
  -- Once a user has sent the code of a pending row to the bot, an alert of a monitor of the row's user
  -- arrives in the sender's chat, as the one new message after the bot's reply, where no call fails, the
  -- chat and the name are not another user's, the monitor's notifications are on, and the user has an
  -- allowance left.
  pub handle_verify-dispatch_alert :
      c.args ≡ code ∷ more
      → c.sender_id ≢ 0
      → notification_enabled e.monitor_id w.monitors w.subscriptions ≡ true
      → may_insert t.user_id w ≡ true
      → 0 < allowance (today w) (credit_of t.user_id (today w) w.telegram_credits)
      → let w1 = (handle_verify unique_usernames c (calm w)).1 in
        let (o, w2) = dispatch_alert e (calm w1) in
        (o ≡ ok tt)
        × (w2.sent ≡ record { chat_id = c.sender_id; body = format_alert_message e } ∷ w1.sent)
  handle_verify-dispatch_alert args chat on known some_left =
      let w1 = verified_world unique_usernames c code more w pending own free allowed in
      let row = verified_row unique_usernames c code more w pending own free allowed in
      let found =
        owner_chat-owner e.monitor_id t.user_id c.sender_id w1.monitors w1.telegram_users
          (verified c.sender_id c.sender_username t) monitor owner row refl in
      let result = dispatch_alert_sent e w1 on found chat known some_left in
      rw (handle_verify-verified_world unique_usernames c code more w pending own free allowed args)
        (result.0, result.1)
