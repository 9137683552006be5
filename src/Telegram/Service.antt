-- ===== src/Telegram/Service.antt =====
-- The linking of an account and the notification settings (services/telegram_service.go).
use Prim.Native.Char.{Char}
use deping_client_service.Base.{
  Bool, List, Option, String, [], if◌then◌else◌, none, some, str_eq, suc, true, zero, ℕ, ◌%◌, ◌/◌,
  ◌∷◌,
}
use deping_client_service.World.{
  Error, M, Outcome, TelegramSubscription, TelegramUser, err, fail, lift, message, ok, pure,
  unavailable, wrap, wrapping, ◌>>=◌, ◌>>◌,
}
use deping_client_service.Health.{get_subscription, upsert_subscription}
use deping_client_service.Telegram.{
  TelegramUserMe, get_telegram_for_user_for_me_by_user_id, get_telegram_user_by_chat_id,
  get_telegram_user_by_code, upsert_telegram_user, verify_telegram_user,
}

-- hex.EncodeToString
abbrev pub hex_digits : String
hex_digits = "0123456789abcdef"

-- The digit at an index below 16.
unfoldable pub hex_char : String → ℕ → Char
hex_char String.[] n = "0"
hex_char (String.◌∷◌ c s) zero = c
hex_char (String.◌∷◌ c s) (suc n) = hex_char s n

unfoldable pub encode_to_string : List ℕ → String
unfolding hex_char
encode_to_string [] = String.[]
encode_to_string (b ∷ bs) =
    String.◌∷◌ (hex_char hex_digits (b / 16))
      (String.◌∷◌ (hex_char hex_digits (b % 16)) (encode_to_string bs))

-- `rand.Read` fails or yields four bytes.
abbrev pub generate_verification_code : Option (List ℕ) → Outcome String
generate_verification_code none = err unavailable
generate_verification_code (some bytes) = ok (encode_to_string bytes)

-- dto/telegram.go, LinkTelegramResponse.
pub record LinkTelegramResponse : Type 0 where
  pub verification_code : String
  pub bot_username : String
  pub message : String

-- The service passes one error on as it is, which it knows by its text.
abbrev pub link_error : Error → Error
link_error (message s) =
    if str_eq s "username already linked with other account"
    then message s
    else wrap "repository upsert failed" (message s)
link_error e = wrap "repository upsert failed" e

unfoldable pub initiate_link : Bool → String → Option (List ℕ) → ℕ → String → M LinkTelegramResponse
unfolding upsert_telegram_user
initiate_link unique_usernames bot_username random u name = do
  code ← wrapping (wrap "failed to generate code") (lift (generate_verification_code random))
  wrapping link_error (upsert_telegram_user unique_usernames u name code)
  pure (record {
    verification_code = code;
    bot_username = String.◌∷◌ "@" bot_username;
    message = "Verification code generated successfully.";
  })

abbrev pub verify_found : Bool → ℕ → String → Option TelegramUser → M ℕ
verify_found unique_usernames chat name none = fail (message "invalid or expired verification code")
verify_found unique_usernames chat name (some tu) = do
  wrapping (wrap "verify user") (verify_telegram_user unique_usernames tu.user_id chat name)
  pure tu.user_id

unfoldable pub verify_link : Bool → String → ℕ → String → M ℕ
unfolding get_telegram_user_by_code verify_telegram_user
verify_link unique_usernames code chat name = do
  tu ← wrapping (wrap "lookup code") (get_telegram_user_by_code code)
  verify_found unique_usernames chat name tu

unfoldable pub toggle_notification : ℕ → String → Bool → M (Unit {0})
toggle_notification u id enabled = upsert_subscription u id enabled

abbrev pub enabled_or_default : Option TelegramSubscription → Bool
enabled_or_default none = true
enabled_or_default (some s) = s.is_notifications_enabled

unfoldable pub get_notification_status : ℕ → String → M Bool
get_notification_status u id = do sub ← get_subscription u id; pure (enabled_or_default sub)

abbrev pub linked_user : Option TelegramUser → M ℕ
linked_user none = fail (message "telegram account not linked")
linked_user (some tu) = pure tu.user_id

unfoldable pub get_user_id_from_chat_id : ℕ → M ℕ
unfolding get_telegram_user_by_chat_id
get_user_id_from_chat_id chat = do tu ← get_telegram_user_by_chat_id chat; linked_user tu

-- dto/noderunner.go, ResponseEnvelope around the user, which is null where there is none.
pub record ResponseEnvelope : Type 0 where
  pub success : Bool
  pub payload : Option TelegramUserMe

unfoldable pub get_telegram_user_status : ℕ → M ResponseEnvelope
unfolding get_telegram_for_user_for_me_by_user_id
get_telegram_user_status u = do
  user ← get_telegram_for_user_for_me_by_user_id u
  pure (record { success = true; payload = user })
