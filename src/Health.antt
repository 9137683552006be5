-- ===== src/Health.antt =====
-- Health states and notification subscriptions: the queries of db/repositories/telegram_repo.go that
-- the alert service and the bot use, with the foreign keys of db/telegram.sql.
use deping_client_service.Base.{
  Bool, List, Option, String, exists_where, false, found_or, if◌then◌else◌, none, not, select_one,
  some, str_eq, true, upsert, ℕ, ◌&&◌, ◌==◌, ◌||◌,
}
use deping_client_service.World.{
  M, Monitor, MonitorHealthState, Outcome, TelegramSubscription, TelegramUser, World, err, external,
  foreign_key_violation, is_monitor, ok, reads, references_monitor, references_user, scan_null,
  scan_optional,
}

abbrev pub is_health : String → MonitorHealthState → Bool
is_health id s = str_eq s.monitor_id id

-- The zero state of a monitor that has no row yet.
abbrev pub zero_state : String → MonitorHealthState
zero_state id = record {
  monitor_id = id;
  is_down = false;
  consecutive_failures = 0;
  alert_sent = false;
  last_alerted_at = none;
}

abbrev pub health_of : String → World → MonitorHealthState
health_of id w = found_or (zero_state id) (select_one (is_health id) w.health)

unfoldable pub get_health_state : String → M MonitorHealthState
get_health_state id = reads (health_of id)

-- EXCLUDED stands for the new row; the key stays that of the old one.
abbrev pub overwrite : MonitorHealthState → MonitorHealthState → MonitorHealthState
overwrite s r = record s { monitor_id = r.monitor_id }

unfoldable pub upsert_health_state : MonitorHealthState → M (Unit {0})
upsert_health_state s = external λ w.
    if exists_where (is_health s.monitor_id) w.health || references_monitor s.monitor_id w
    then (ok tt, record w { health = upsert (is_health s.monitor_id) (overwrite s) s w.health })
    else (err foreign_key_violation, w)

abbrev pub is_subscription : ℕ → String → TelegramSubscription → Bool
is_subscription u id s = s.user_id == u && str_eq s.monitor_id id

unfoldable pub get_subscription : ℕ → String → M (Option TelegramSubscription)
get_subscription u id = scan_optional λ w. select_one (is_subscription u id) w.subscriptions

unfoldable pub upsert_subscription : ℕ → String → Bool → M (Unit {0})
upsert_subscription u id enabled = external λ w.
    let new : TelegramSubscription = record {
      user_id = u;
      monitor_id = id;
      is_notifications_enabled = enabled;
    } in
    if exists_where (is_subscription u id) w.subscriptions
      || references_user u w && references_monitor id w
    then (
      ok tt,
      record w {
        subscriptions =
            upsert (is_subscription u id) (λ s. record s { is_notifications_enabled = enabled }) new
              w.subscriptions;
      },
    )
    else (err foreign_key_violation, w)

-- The subscription of the monitor's owner, if the monitor has a row; enabled where there is none.
unfoldable pub notification_enabled : String → List Monitor → List TelegramSubscription → Bool
notification_enabled id monitors subscriptions = elim (select_one (is_monitor id) monitors) [
  | none ↦ true
  | some m ↦ elim (select_one (is_subscription m.owner_id id) subscriptions) [
    | none ↦ true
    | some s ↦ s.is_notifications_enabled
  ]
]

unfoldable pub is_notification_enabled : String → M Bool
is_notification_enabled id = reads λ w. notification_enabled id w.monitors w.subscriptions

abbrev pub is_live_monitor : String → Monitor → Bool
is_live_monitor id m = str_eq m.id id && not m.deleted

abbrev pub is_verified_user : ℕ → TelegramUser → Bool
is_verified_user u t = t.user_id == u && (t.is_verified && not t.deleted)

-- The row of the join of `monitors` and `telegram_users`.
unfoldable pub owner_chat : String → List Monitor → List TelegramUser → Option (Option ℕ × ℕ)
owner_chat id monitors users = elim (select_one (is_live_monitor id) monitors) [
  | none ↦ none
  | some m ↦ elim (select_one (is_verified_user m.owner_id) users) [
    | none ↦ none
    | some t ↦ some (t.telegram_chat_id, m.owner_id)
  ]
]

-- No row gives (0, 0); a NULL chat id cannot be scanned into an int64.
abbrev pub scan_chat : Option (Option ℕ × ℕ) → Outcome (ℕ × ℕ)
scan_chat none = ok (0, 0)
scan_chat (some (none, u)) = err scan_null
scan_chat (some (some c, u)) = ok (c, u)

unfoldable pub get_monitor_owner_chat_id : String → M (ℕ × ℕ)
get_monitor_owner_chat_id id =
    external λ w. (scan_chat (owner_chat id w.monitors w.telegram_users), w)
