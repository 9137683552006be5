-- ===== src/Alert.antt =====
-- services/alert_service.go: the Two-Packet rule, and the delivery of an alert.
pub mod Machine
pub mod Dispatch
pub mod Steady
pub mod Process
use deping_client_service.Base.{
  Bool, List, Option, String, [], false, if◌then◌else◌, leb, ltb_ℤ, none, not, pos, some, str_eq,
  true, ℕ, ℤ, ◌&&◌, ◌++◌, ◌+◌, ◌==◌, ◌∷◌,
}
use deping_client_service.World.{
  M, MonitorHealthState, Part, choose, get_now, ignoring, num, pure, send_message, text, time, wrap,
  wrapping, ◌>>=◌, ◌>>◌,
}
use deping_client_service.Credits.{deduct_credit, mark_reminder_sent, should_send_reminder}
use deping_client_service.Health.{
  get_health_state, get_monitor_owner_chat_id, is_notification_enabled, upsert_health_state,
}

-- dto/telegram.go, PingResultItem: the fields that the alert service and the consumer read.
pub record PingResultItem : Type 0 where
  pub job_id : String
  pub target_url : String
  pub success : Bool
  pub status_code : ℤ
  pub latency_ms : ℤ
  pub error_kind : String
  pub monitor_id : String
  pub geo_region : String
  pub timestamp_ms : ℤ

-- dto/telegram.go, AlertEvent.
pub record AlertEvent : Type 0 where
  pub monitor_id : String
  pub target_url : String
  pub is_down : Bool
  pub latency_ms : ℤ
  pub status_code : ℤ
  pub error_kind : String
  pub geo_region : String
  pub timestamp : ℤ

unfoldable pub build_down_alert : PingResultItem → AlertEvent
build_down_alert r = record {
  monitor_id = r.monitor_id;
  target_url = r.target_url;
  is_down = true;
  latency_ms = r.latency_ms;
  status_code = r.status_code;
  error_kind = r.error_kind;
  geo_region = r.geo_region;
  timestamp = r.timestamp_ms;
}

unfoldable pub build_restored_alert : PingResultItem → AlertEvent
build_restored_alert r = record {
  monitor_id = r.monitor_id;
  target_url = r.target_url;
  is_down = false;
  latency_ms = r.latency_ms;
  status_code = r.status_code;
  error_kind = "";
  geo_region = "";
  timestamp = r.timestamp_ms;
}

unfoldable pub format_alert_message : AlertEvent → List Part
format_alert_message e =
    if e.is_down
    then text "🔴 *SERVICE DOWN*\n\n🌐 *URL:* "
      ∷ text e.target_url
      ∷ text "\n🌍 *Region:* "
      ∷ text e.geo_region
      ∷ ((if ltb_ℤ (pos 0) e.status_code
            then text "\n📋 *Status:* `" ∷ num e.status_code ∷ text "`" ∷ []
            else [])
          ++ ((if str_eq e.error_kind ""
                then []
                else text "\n🔖 *Error:* `" ∷ text e.error_kind ∷ text "`" ∷ [])
              ++ text "\n🕐 *Detected:* "
                ∷ time e.timestamp
                ∷ text "\n\nYour monitor has failed 2 consecutive checks."
                ∷ []))
    else text "✅ *SERVICE RESTORED*\n\n🌐 *URL:* "
      ∷ text e.target_url
      ∷ text "\n⚡ *Latency:* "
      ∷ num e.latency_ms
      ∷ text "ms\n🕐 *Recovered:* "
      ∷ time e.timestamp
      ∷ text "\n\nYour monitor is back online."
      ∷ []

-- The sign at the start is followed by U+FE0F in the source.
abbrev pub reminder_text : List Part
reminder_text =
    text "⚠ *Notification Paused — Credits Exhausted*\n\n"
    ∷ text "You've used all 3 free daily messages and have no purchased credits left.\n\n"
    ∷ text "Alerts for your monitors are being suppressed until you top up.\n\n"
    ∷ text "👉 Go to your dashboard → *Telegram* section to purchase credits using SOL tokens.\n\n"
    ∷ text "_You'll receive this reminder once a week until credits are added._"
    ∷ []

unfoldable pub send_credit_reminder : ℕ → ℕ → M (Unit {0})
unfolding should_send_reminder send_message mark_reminder_sent
send_credit_reminder chat_id user_id = do
  should ← should_send_reminder user_id
  choose (not should) (pure tt) (do send_message chat_id reminder_text; mark_reminder_sent user_id)

unfoldable pub dispatch_alert : AlertEvent → M (Unit {0})
unfolding is_notification_enabled get_monitor_owner_chat_id deduct_credit send_message
dispatch_alert e = do
  enabled ← is_notification_enabled e.monitor_id
  choose (not enabled) (pure tt) (do
    (chat_id, user_id) ← get_monitor_owner_chat_id e.monitor_id
    choose (chat_id == 0) (pure tt) (do
      (success, _) ← deduct_credit user_id
      choose success (send_message chat_id (format_alert_message e))
          (send_credit_reminder chat_id user_id)))

-- The state and the alert after one result, at time `now`.
unfoldable pub advance :
    ℕ → PingResultItem → MonitorHealthState → MonitorHealthState × Option AlertEvent
advance now r s =
    if not r.success
    then if leb 2 (s.consecutive_failures + 1) && not s.is_down
      then (
        record s {
          is_down = true;
          consecutive_failures = s.consecutive_failures + 1;
          alert_sent = true;
          last_alerted_at = some now;
        },
        some (build_down_alert r),
      )
      else (record s { consecutive_failures = s.consecutive_failures + 1 }, none)
    else (
      record s { is_down = false; consecutive_failures = 0; alert_sent = false },
      if s.is_down && s.alert_sent then some (build_restored_alert r) else none,
    )

abbrev pub dispatched : Option AlertEvent → M (Unit {0})
dispatched none = pure tt
dispatched (some e) = ignoring (dispatch_alert e)

unfoldable pub process_ping_result : PingResultItem → M (Unit {0})
unfolding get_health_state upsert_health_state
process_ping_result r = choose (str_eq r.monitor_id "") (pure tt) (do
  state ← wrapping (wrap "state lookup") (get_health_state r.monitor_id)
  now ← get_now
  let (state', event) = advance now r state
  ignoring (upsert_health_state state')
  dispatched event)

unfoldable pub send_direct_message : ℕ → ℕ → List Part → M (Unit {0})
unfolding send_message
send_direct_message chat_id user_id body = send_message chat_id body
