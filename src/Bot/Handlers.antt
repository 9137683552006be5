-- ===== src/Bot/Handlers.antt =====
-- The commands and callbacks about monitors, notifications and credits, and the table of the
-- handlers (bot/bot.go).
use Prim.Native.String.{◌++◌ as concat}
use deping_client_service.Base.{
  Bool, List, Option, String, [], false, if◌then◌else◌, length, ltb, none, not, pos, some, str_eq,
  ◌++◌, ◌==◌, ◌∷◌,
}
use deping_client_service.World.{
  M, Outcome, Part, TelegramUser, attempt, button, day, first_bytes, hour_minute, lift, num, ok,
  or_zero, padded, panic, panics, pure, send_message, text, ◌>>=◌,
}
use deping_client_service.Bot.{
  Context, HandlerFunc, edit, handle_help, handle_start, handle_verify, respond, send, with_auth,
}
use deping_client_service.Credits.{get_credit_status}
use deping_client_service.Env.{byte_length}
use deping_client_service.Health.{get_subscription, upsert_subscription}
use deping_client_service.PingLogs.{
  MonitorSummary, RecentPingRow, get_recent_pings, get_user_monitor_summaries,
}
use deping_client_service.Telegram.{get_telegram_user_by_chat_id}
use deping_client_service.Telegram.Service.{get_notification_status, toggle_notification}

unfoldable pub monitor_buttons : List MonitorSummary → List Part
monitor_buttons [] = []
monitor_buttons (s ∷ shown) =
    button (concat "📡 " s.target_url) "show_monitor" s.id ∷ monitor_buttons shown

abbrev pub monitor_menu : List MonitorSummary → List Part
monitor_menu [] = text "🔍 *No monitors found.* Add them at [deping.xyz](https://deping.xyz)." ∷ []
monitor_menu (s ∷ shown) = text "📋 *Select a monitor to inspect:*" ∷ monitor_buttons (s ∷ shown)

unfoldable pub handle_monitor : HandlerFunc
unfolding get_user_monitor_summaries monitor_buttons send_message
handle_monitor c = do
  shown ← or_zero [] (get_user_monitor_summaries c.sender_id)
  send c (monitor_menu shown)

unfoldable pub dots : List RecentPingRow → List Part
dots [] = []
dots (p ∷ pings) = dots pings ++ text (if p.success then "🟢" else "🔴") ∷ []

-- `p.GeoRegion[:4]` panics on a text of one to three bytes.
unfoldable pub region_part : String → Outcome Part
unfolding byte_length
region_part region =
    if byte_length region == 0
    then ok (text "N/A")
    else if ltb (byte_length region) 4
    then panic
    else ok (first_bytes 3 4 region)

abbrev pub ping_line : RecentPingRow → Part → List Part
ping_line p region =
    text (if p.success then "`OK   | " else "`DOWN | ")
    ∷ region
    ∷ text " | "
    ∷ (if p.success then padded 4 "" p.latency_ms "ms" else padded 4 "E:" p.status_code "")
    ∷ text " | "
    ∷ hour_minute p.timestamp
    ∷ text "`\n"
    ∷ []

unfoldable pub ping_lines : List RecentPingRow → M (List Part)
unfolding region_part
ping_lines [] = pure []
ping_lines (p ∷ pings) = do
  region ← lift (region_part p.geo_region)
  rest ← ping_lines pings
  pure (ping_line p region ++ rest)

unfoldable pub handle_show_monitor : HandlerFunc
unfolding get_recent_pings dots ping_lines
handle_show_monitor c = do
  pings ← or_zero [] (get_recent_pings c.callback_data 5)
  lines ← ping_lines pings
  edit c (
      text "🛰 *Monitor Health*\n" ∷ dots pings
      ++ text "\n\n`STAT | REG | LATE | TIME`\n`-------------------------`\n" ∷ lines
      ++ button "🔔 Toggle Notifications" "toggle_notify" c.callback_data ∷ [])

abbrev pub toggled_text : Bool → String
toggled_text current = if not current then "Notifications Enabled 🔔" else "Notifications Disabled 🔕"

-- `tu.UserID` of a nil user panics.
abbrev pub toggle_found : Context → Option TelegramUser → M (Unit {0})
toggle_found c none = panics
toggle_found c (some tu) = do
  current ← or_zero false (get_notification_status tu.user_id c.callback_data)
  attempt (toggle_notification tu.user_id c.callback_data (not current))
      (λ e. respond c "❌ Update Failed") (λ _. respond c (toggled_text current))

unfoldable pub handle_toggle_notify : HandlerFunc
unfolding get_telegram_user_by_chat_id get_notification_status toggle_notification get_subscription
    upsert_subscription
handle_toggle_notify c = do
  tu ← or_zero none (get_telegram_user_by_chat_id c.sender_id)
  toggle_found c tu

abbrev pub credits_found : Context → Option TelegramUser → M (Unit {0})
credits_found c none = panics
credits_found c (some tu) =
    attempt (get_credit_status tu.user_id)
      (λ e. send c (text "⚠ *Could not retrieve credit data.*" ∷ []))
      λ status. send c (
        text "💰 *Credit Summary*\n\nAvailable: `"
        ∷ num status.total_credits_left
        ∷ text "`\nFree Used: `"
        ∷ num (pos status.free_credits_used)
        ∷ text "`\nNext Reset: `"
        ∷ day status.free_reset_date
        ∷ text "`"
        ∷ [])

unfoldable pub handle_credits : HandlerFunc
unfolding get_telegram_user_by_chat_id get_credit_status send_message
handle_credits c = do
  tu ← or_zero none (get_telegram_user_by_chat_id c.sender_id)
  credits_found c tu

unfoldable pub handle_status : HandlerFunc
unfolding get_user_monitor_summaries send_message
handle_status c = do
  shown ← or_zero [] (get_user_monitor_summaries c.sender_id)
  send c (
      text "📊 *System Overview*\nTotal Active Monitors: `"
      ∷ num (pos (length shown))
      ∷ text "`"
      ∷ [])

-- registerHandlers: the handler of a command, or of the button with a unique name.
unfoldable pub register_handlers : Bool → String → Option HandlerFunc
register_handlers unique_usernames endpoint =
    if str_eq endpoint "/start"
    then some handle_start
    else if str_eq endpoint "/help"
    then some handle_help
    else if str_eq endpoint "/verify"
    then some (handle_verify unique_usernames)
    else if str_eq endpoint "/monitor"
    then some (with_auth handle_monitor)
    else if str_eq endpoint "/credits"
    then some (with_auth handle_credits)
    else if str_eq endpoint "/status"
    then some (with_auth handle_status)
    else if str_eq endpoint "show_monitor"
    then some (with_auth handle_show_monitor)
    else if str_eq endpoint "toggle_notify"
    then some (with_auth handle_toggle_notify)
    else none
