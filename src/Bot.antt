-- ===== src/Bot.antt =====
-- The commands and callbacks of the Telegram bot: bot/bot.go. The library's context is given by the
-- sender, the chat, the arguments of a command and the data of a callback; the parse mode of a message
-- is not kept, nor the variation selector after a warning sign. `c.Send` is a message to the chat, `c.Edit` and `c.Respond` are answers.
pub mod Text
pub mod Handlers
pub mod Guard
pub mod Notify
pub mod Show
pub mod Chat
pub mod Alerts
use deping_client_service.Base.{Bool, List, Option, String, [], none, not, some, ℕ, ◌∷◌}
use deping_client_service.World.{
  M, Part, TelegramUser, attempt, choose, edited, exec, ignoring, or_zero, responded, send_message,
  text, ◌>>=◌, ◌>>◌,
}
use deping_client_service.Bot.Text.{trim_space}
use deping_client_service.Telegram.{
  get_telegram_user_by_chat_id, get_telegram_user_by_username, update_chat_id,
}
use deping_client_service.Telegram.Service.{verify_link}

pub record Context : Type 0 where
  pub sender_id : ℕ
  pub sender_username : String
  pub chat_id : ℕ
  pub args : List String
  pub callback_data : String

abbrev pub HandlerFunc : Type 0
HandlerFunc = Context → M (Unit {0})

abbrev pub send : Context → List Part → M (Unit {0})
send c body = send_message c.chat_id body

abbrev pub edit : Context → List Part → M (Unit {0})
edit c body = exec λ w. record w { answers = edited c.chat_id body ∷ w.answers }

abbrev pub respond : Context → String → M (Unit {0})
respond c body = exec λ w. record w { answers = responded c.sender_id body ∷ w.answers }

abbrev pub busy_text : List Part
busy_text = text "⚠ System busy. Please try again." ∷ []

abbrev pub denied_text : List Part
denied_text =
    text
      "🚫 *Access Denied*\nPlease link your account at [deping.xyz/settings](https://deping.xyz/settings)"
    ∷ []

abbrev pub auth_found : HandlerFunc → Context → Option TelegramUser → M (Unit {0})
auth_found handler c none = send c denied_text
auth_found handler c (some tu) = choose (not tu.is_verified) (send c denied_text) (handler c)

unfoldable pub with_auth : HandlerFunc → HandlerFunc
unfolding get_telegram_user_by_chat_id send_message
with_auth handler c =
    attempt (get_telegram_user_by_chat_id c.sender_id) (λ e. send c busy_text)
      (auth_found handler c)

abbrev pub welcome_text : List Part
welcome_text =
    text
      "👋 *Welcome to DePIN Monitor*\n\nPlease link your Telegram via [deping.xyz](https://deping.xyz/settings) to begin."
    ∷ []

abbrev pub start_found : Context → Option TelegramUser → M (Unit {0})
start_found c none = send c welcome_text
start_found c (some tu) = do
  ignoring (update_chat_id tu.user_id c.sender_id)
  choose tu.is_verified (send c (text "✅ *Account Linked!*\nUse /help to see commands." ∷ []))
      (send c (text "⚠ *Pending Verification*\nVerify using: `/verify <code>`" ∷ []))

unfoldable pub handle_start : HandlerFunc
unfolding get_telegram_user_by_username update_chat_id send_message
handle_start c = do
  tu ← or_zero none (get_telegram_user_by_username c.sender_username)
  start_found c tu

unfoldable pub handle_help : HandlerFunc
unfolding send_message
handle_help c = send c (
    text
      "🤖 *DePIN Assistant Commands*\n\n📡 /monitor - View active infrastructure\n📊 /status - System summary\n💰 /credits - Check balance"
    ∷ [])

-- The command without an argument, and with a code.
abbrev pub verify_args : Bool → Context → List String → M (Unit {0})
verify_args unique_usernames c [] = send c (text "Usage: `/verify <code>`" ∷ [])
verify_args unique_usernames c (code ∷ args) =
    attempt (verify_link unique_usernames (trim_space code) c.sender_id c.sender_username)
      (λ e. send c (text "❌ *Verification failed.* Please check your code." ∷ []))
      (λ user_id. send c (text "✨ *Account successfully linked!*" ∷ []))

unfoldable pub handle_verify : Bool → HandlerFunc
unfolding verify_link trim_space send_message
handle_verify unique_usernames c = verify_args unique_usernames c c.args
