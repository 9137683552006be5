-- ===== src/Bot/Notify.antt =====
-- The notification button (bot/bot.go, handleToggleNotify).
use deping_client_service.Base.{
  Bool, List, Option, String, [], ap, arith, eq_refl, exists_where, exists_where-select_one, false,
  is_some, none, not, refl, select_one, select_one-upsert, some, true, upsert, upserted, ℕ, ◌&&◌,
  ◌||◌, ◌∙◌, ◌∷◌, ◌≡◌,
}
use deping_client_service.World.{
  Outcome, TelegramSubscription, TelegramUser, World, calm, ok, references_monitor, references_user,
  responded,
}
use deping_client_service.Bot.{Context, with_auth}
use deping_client_service.Bot.Handlers.{handle_toggle_notify, toggled_text}
use deping_client_service.Health.{is_subscription}
use deping_client_service.Telegram.{is_chat}
use deping_client_service.Telegram.Service.{enabled_or_default}

-- The setting of a user for a monitor, as GetNotificationStatus reads it.
abbrev pub status_of : ℕ → String → World → Bool
status_of u id w = enabled_or_default (select_one (is_subscription u id) w.subscriptions)

-- The subscription's row can be written: it is there, or the user and the monitor are.
abbrev pub can_subscribe : ℕ → String → World → Bool
can_subscribe u id w =
    exists_where (is_subscription u id) w.subscriptions
    || references_user u w && references_monitor id w

abbrev pub press : Context → World → Outcome (Unit {0}) × World
press c w = with_auth handle_toggle_notify c (calm w)

abbrev pub subscription : ℕ → String → Bool → TelegramSubscription
subscription u id enabled = record {
  user_id = u;
  monitor_id = id;
  is_notifications_enabled = enabled;
}

abbrev pub with_setting : ℕ → String → Bool → List TelegramSubscription → List TelegramSubscription
with_setting u id enabled rows =
    upsert (is_subscription u id) (λ s. record s { is_notifications_enabled = enabled })
      (subscription u id enabled) rows

upserted-setting :
    (u : ℕ) (id : String) (enabled : Bool) (o : Option TelegramSubscription)
    → (upserted
        (λ s. record s { is_notifications_enabled = enabled })
        (subscription u id enabled)
        o).is_notifications_enabled
      ≡ enabled
upserted-setting u id enabled none = refl
upserted-setting u id enabled (some s) = refl

select_one-with_setting :
    (u : ℕ) (id : String) (enabled : Bool) (rows : List TelegramSubscription)
    → select_one (is_subscription u id) (with_setting u id enabled rows)
      ≡ some (
          upserted
            (λ s. record s { is_notifications_enabled = enabled })
            (subscription u id enabled)
            (select_one (is_subscription u id) rows))
select_one-with_setting u id enabled rows =
    select_one-upsert (is_subscription u id) (λ s. record s { is_notifications_enabled = enabled })
      (subscription u id enabled) rows (λ r k. refl) (ground (arith, eq_refl id))

pub status_of-with_setting :
    (u : ℕ) (id : String) (enabled : Bool) (rows : List TelegramSubscription)
    → enabled_or_default (select_one (is_subscription u id) (with_setting u id enabled rows))
      ≡ enabled
status_of-with_setting u id enabled rows =
    rw (select_one-with_setting u id enabled rows)
      (upserted-setting u id enabled (select_one (is_subscription u id) rows))

exists_where-with_setting :
    (u : ℕ) (id : String) (enabled : Bool) (rows : List TelegramSubscription)
    → exists_where (is_subscription u id) (with_setting u id enabled rows) ≡ true
exists_where-with_setting u id enabled rows =
    exists_where-select_one (is_subscription u id) (with_setting u id enabled rows)
    ∙ ap is_some (select_one-with_setting u id enabled rows)

not-not : (b : Bool) → not (not b) ≡ b
not-not true = refl
not-not false = refl

module _ (c : Context) (tu : TelegramUser) (is_ok : tu.is_verified ≡ true) where
  abbrev pub pressed : World → World
  pressed w =
      let before = status_of tu.user_id c.callback_data w in
      record w {
        subscriptions = with_setting tu.user_id c.callback_data (not before) w.subscriptions;
        answers = responded c.sender_id (toggled_text before) ∷ w.answers;
        faults = [];
      }

  pub press-pressed :
      (w : World)
      → select_one (is_chat c.sender_id) w.telegram_users ≡ some tu
      → can_subscribe tu.user_id c.callback_data w ≡ true
      → press c w ≡ (ok tt, pressed w)
  unfolding with_auth handle_toggle_notify
  press-pressed w known can = rw (known, is_ok, known, can) refl

  -- A verified user who presses the button below a monitor turns its notifications on where they were
  -- off and off where they were on, where no call fails and the row can be written; the notice says
  -- which, and nothing else changes. Pressing it again restores the setting.
  pub press_flips :
      (w : World)
      → select_one (is_chat c.sender_id) w.telegram_users ≡ some tu
      → can_subscribe tu.user_id c.callback_data w ≡ true
      → let (o, w') = press c w in
        let before = status_of tu.user_id c.callback_data w in
        (o ≡ ok tt)
        × (status_of tu.user_id c.callback_data w' ≡ not before)
        × (w'.answers ≡ responded c.sender_id (toggled_text before) ∷ w.answers)
        × (record w' { subscriptions = w.subscriptions; answers = w.answers } ≡ calm w)
        × (status_of tu.user_id c.callback_data (press c w').1 ≡ before)
  press_flips w known can =
      let u = tu.user_id in
      let id = c.callback_data in
      let before = status_of u id w in
      let again =
        press-pressed (pressed w) known
          (rw (exists_where-with_setting u id (not before) w.subscriptions) refl) in
      rw (press-pressed w known can) (
        refl,
        status_of-with_setting u id (not before) w.subscriptions,
        refl,
        refl,
        ap (λ p. status_of u id p.1) again
            ∙ status_of-with_setting u id (not (status_of u id (pressed w)))
                (pressed w).subscriptions
            ∙ ap not (status_of-with_setting u id (not before) w.subscriptions)
            ∙ not-not before,
      )
