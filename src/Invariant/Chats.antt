-- ===== src/Invariant/Chats.antt =====
-- The commands and the buttons of the bot keep the invariant (bot/bot.go).
use deping_client_service.Base.{
  Bool, List, Option, String, [], arith, false, if◌then◌else◌, none, some, true, ℕ, ◌++◌, ◌∷◌,
}
use deping_client_service.World.{Part, TelegramUser, lift, pure}
use deping_client_service.Bot.{
  Context, HandlerFunc, auth_found, edit, handle_help, handle_start, handle_verify, respond,
  start_found, verify_args, with_auth,
}
use deping_client_service.Bot.Handlers.{
  credits_found, handle_credits, handle_monitor, handle_show_monitor, handle_status,
  handle_toggle_notify, ping_line, ping_lines, region_part, register_handlers, toggle_found,
}
use deping_client_service.Invariant.{IsSound, Marks}
use deping_client_service.Invariant.Alerting.{send_message-IsSound}
use deping_client_service.Invariant.Links.{
  get_telegram_user_by_chat_id-IsSound, get_telegram_user_by_username-IsSound,
  update_chat_id-IsSound, verify_link-IsSound,
}
use deping_client_service.Invariant.Services.{
  get_credit_status-IsSound, get_notification_status-IsSound, toggle_notification-IsSound,
}
use deping_client_service.Keeping.{Keeps, Keeps-bind, Keeps-lift, Keeps-pure, keeps_rules}
use deping_client_service.PingLogs.{RecentPingRow, get_recent_pings, get_user_monitor_summaries}

edit-IsSound :
    {marks : Marks} (c : Context) (body : List Part) → Keeps (IsSound marks) (edit c body)
edit-IsSound c body = record { at = λ w h. ground (arith, h) }

respond-IsSound :
    {marks : Marks} (c : Context) (body : String) → Keeps (IsSound marks) (respond c body)
respond-IsSound c body = record { at = λ w h. ground (arith, h) }

auth_found-IsSound :
    {marks : Marks} (handler : HandlerFunc) (c : Context) (o : Option TelegramUser)
    → ((d : Context) → Keeps (IsSound marks) (handler d))
    → Keeps (IsSound marks) (auth_found handler c o)
auth_found-IsSound handler c none k = search send_message-IsSound
auth_found-IsSound handler c (some t) k = search (keeps_rules, send_message-IsSound, k)

with_auth-IsSound :
    {marks : Marks} (handler : HandlerFunc) (c : Context)
    → ((d : Context) → Keeps (IsSound marks) (handler d))
    → Keeps (IsSound marks) (with_auth handler c)
unfolding with_auth
with_auth-IsSound handler c k =
    search (
      keeps_rules, get_telegram_user_by_chat_id-IsSound, send_message-IsSound, auth_found-IsSound,
      k,
    )

start_found-IsSound :
    {marks : Marks} (c : Context) (o : Option TelegramUser)
    → Keeps (IsSound marks) (start_found c o)
start_found-IsSound c none = search send_message-IsSound
start_found-IsSound c (some t) = search (keeps_rules, update_chat_id-IsSound, send_message-IsSound)

handle_start-IsSound : {marks : Marks} (c : Context) → Keeps (IsSound marks) (handle_start c)
unfolding handle_start
handle_start-IsSound c =
    search (keeps_rules, get_telegram_user_by_username-IsSound, start_found-IsSound)

handle_help-IsSound : {marks : Marks} (c : Context) → Keeps (IsSound marks) (handle_help c)
unfolding handle_help
handle_help-IsSound c = search send_message-IsSound

verify_args-IsSound :
    {marks : Marks} (unique_usernames : Bool) (c : Context) (args : List String)
    → Keeps (IsSound marks) (verify_args unique_usernames c args)
verify_args-IsSound unique_usernames c [] = search send_message-IsSound
verify_args-IsSound unique_usernames c (code ∷ args) =
    search (keeps_rules, verify_link-IsSound, send_message-IsSound)

handle_verify-IsSound :
    {marks : Marks} (unique_usernames : Bool) (c : Context)
    → Keeps (IsSound marks) (handle_verify unique_usernames c)
unfolding handle_verify
handle_verify-IsSound unique_usernames c = verify_args-IsSound unique_usernames c c.args

get_user_monitor_summaries-IsSound :
    {marks : Marks} (chat : ℕ) → Keeps (IsSound marks) (get_user_monitor_summaries chat)
unfolding get_user_monitor_summaries
get_user_monitor_summaries-IsSound chat = record { at = λ w h. ground (arith, h) }

handle_monitor-IsSound : {marks : Marks} (c : Context) → Keeps (IsSound marks) (handle_monitor c)
unfolding handle_monitor
handle_monitor-IsSound c =
    search (keeps_rules, get_user_monitor_summaries-IsSound, send_message-IsSound)

handle_status-IsSound : {marks : Marks} (c : Context) → Keeps (IsSound marks) (handle_status c)
unfolding handle_status
handle_status-IsSound c =
    search (keeps_rules, get_user_monitor_summaries-IsSound, send_message-IsSound)

get_recent_pings-IsSound :
    {marks : Marks} (id : String) (limit : ℕ) → Keeps (IsSound marks) (get_recent_pings id limit)
unfolding get_recent_pings
get_recent_pings-IsSound id limit = record { at = λ w h. ground (arith, h) }

ping_lines-IsSound :
    {marks : Marks} (pings : List RecentPingRow) → Keeps (IsSound marks) (ping_lines pings)
unfolding ping_lines
ping_lines-IsSound [] = search keeps_rules
ping_lines-IsSound (p ∷ pings) =
    Keeps-bind (lift (region_part p.geo_region)) _ (Keeps-lift (region_part p.geo_region)) λ region.
      Keeps-bind (ping_lines pings) (λ rest. pure (ping_line p region ++ rest))
        (ping_lines-IsSound pings) (λ rest. Keeps-pure (ping_line p region ++ rest))

handle_show_monitor-IsSound :
    {marks : Marks} (c : Context) → Keeps (IsSound marks) (handle_show_monitor c)
unfolding handle_show_monitor
handle_show_monitor-IsSound c =
    search (keeps_rules, get_recent_pings-IsSound, ping_lines-IsSound, edit-IsSound)

toggle_found-IsSound :
    {marks : Marks} (c : Context) (o : Option TelegramUser)
    → Keeps (IsSound marks) (toggle_found c o)
toggle_found-IsSound c none = record { at = λ w h. h }
toggle_found-IsSound c (some t) =
    search
      (keeps_rules, get_notification_status-IsSound, toggle_notification-IsSound, respond-IsSound)
      depth 12

handle_toggle_notify-IsSound :
    {marks : Marks} (c : Context) → Keeps (IsSound marks) (handle_toggle_notify c)
unfolding handle_toggle_notify
handle_toggle_notify-IsSound c =
    search (keeps_rules, get_telegram_user_by_chat_id-IsSound, toggle_found-IsSound)

credits_found-IsSound :
    {marks : Marks} (c : Context) (o : Option TelegramUser)
    → Keeps (IsSound marks) (credits_found c o)
credits_found-IsSound c none = record { at = λ w h. h }
credits_found-IsSound c (some t) =
    search (keeps_rules, get_credit_status-IsSound, send_message-IsSound)

handle_credits-IsSound : {marks : Marks} (c : Context) → Keeps (IsSound marks) (handle_credits c)
unfolding handle_credits
handle_credits-IsSound c =
    search (keeps_rules, get_telegram_user_by_chat_id-IsSound, credits_found-IsSound)

pub data KeepsAny (marks : Marks) : Option HandlerFunc → Type 0 where
  no_handler : KeepsAny marks none
  has_handler :
      (handler : HandlerFunc)
      → ((c : Context) → Keeps (IsSound marks) (handler c))
      → KeepsAny marks (some handler)

if-KeepsAny :
    {marks : Marks} (b : Bool) (o rest : Option HandlerFunc)
    → KeepsAny marks o
    → KeepsAny marks rest
    → KeepsAny marks (if b then o else rest)
if-KeepsAny true o rest k l = k
if-KeepsAny false o rest k l = l

-- Every endpoint's handler.
pub register_handlers-KeepsAny :
    {marks : Marks} (unique_usernames : Bool) (endpoint : String)
    → KeepsAny marks (register_handlers unique_usernames endpoint)
unfolding register_handlers
register_handlers-KeepsAny unique_usernames endpoint =
    search
      (
        if-KeepsAny, no_handler, has_handler, with_auth-IsSound, handle_start-IsSound,
        handle_help-IsSound, handle_verify-IsSound, handle_monitor-IsSound, handle_credits-IsSound,
        handle_status-IsSound, handle_show_monitor-IsSound, handle_toggle_notify-IsSound,
      )
      depth 30
