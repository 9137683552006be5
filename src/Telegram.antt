-- ===== src/Telegram.antt =====
-- Telegram accounts: the account queries of db/repositories/telegram_repo.go. `unique_usernames` says
-- whether the database has the constraint unique_telegram_username, which the code expects and
-- db/telegram.sql does not declare; that telegram_chat_id is unique is declared there.
pub mod Service
pub mod Code
pub mod Link
use mathlib.Core.Option
use Prim.Native.Char.{Char}
use deping_client_service.Base.{
  Bool, Option, String, [], exists_where, false, if◌then◌else◌, map, none, not, pos, select_one,
  some, str_eq, true, update_where, upsert, ℕ, ◌&&◌, ◌+◌, ◌==◌, ◌∷◌,
}
use deping_client_service.World.{
  Error, M, TelegramUser, User, World, choose, err, external, fail, formatted, message, num, ok,
  reads, scan_optional, unique_violation, wrap, wrapping, ◌>>=◌, ◌>>◌,
}
use deping_client_service.Credits.{is_user}
use deping_client_service.Health.{is_verified_user}

-- Another user's row has the name, or the chat.
abbrev pub has_username : ℕ → String → TelegramUser → Bool
has_username u name t =
    not (t.user_id == u) && elim t.telegram_username [ none ↦ false | some n ↦ str_eq n name ]

abbrev pub has_chat : ℕ → ℕ → TelegramUser → Bool
has_chat u chat t =
    not (t.user_id == u) && elim t.telegram_chat_id [ none ↦ false | some c ↦ c == chat ]

abbrev pub owns_row : ℕ → TelegramUser → Bool
owns_row u t = t.user_id == u

abbrev pub is_live_account : ℕ → User → Bool
is_live_account u r = r.id == u && not r.deleted

abbrev pub relink : String → String → TelegramUser → TelegramUser
relink name code t = record t {
  telegram_username = some name;
  verification_code = some code;
  is_verified = false;
}

abbrev pub new_link : ℕ → ℕ → ℕ → String → String → TelegramUser
new_link id now u name code = record {
  id = id;
  user_id = u;
  telegram_chat_id = none;
  telegram_username = some name;
  verification_code = some code;
  is_verified = false;
  last_reminded_at = none;
  created_at = now;
  deleted = false;
}

abbrev pub taken_error : Error
taken_error = message "username already linked with other account"

-- The test of the driver's error: code 23505 on the constraint of the user name.
abbrev pub upsert_error : Error → Error
upsert_error (unique_violation c) =
    if str_eq c "unique_telegram_username"
    then taken_error
    else wrap "telegram upsert failed" (unique_violation c)
upsert_error e = wrap "telegram upsert failed" e

unfoldable pub upsert_telegram_user : Bool → ℕ → String → String → M (Unit {0})
upsert_telegram_user unique_usernames u name code = do
  exists ←
      wrapping (wrap "failed checking user existence")
        (reads λ w. exists_where (is_live_account u) w.users)
  choose (not exists) (fail (formatted "user does not exist: %d" (num (pos u) ∷ []))) (
      wrapping upsert_error (
        external λ w.
          if unique_usernames && exists_where (has_username u name) w.telegram_users
          then (err (unique_violation "unique_telegram_username"), w)
          else (
            ok tt,
            record w {
              telegram_users =
                  upsert (owns_row u) (relink name code) (new_link w.serial w.now u name code)
                    w.telegram_users;
              serial = w.serial + 1;
            },
          )))

unfoldable pub get_telegram_user_by_user_id : ℕ → M (Option TelegramUser)
get_telegram_user_by_user_id u =
    scan_optional λ w. select_one (λ t. t.user_id == u && not t.deleted) w.telegram_users

-- TelegramUserMe: four columns of a verified user.
pub record TelegramUserMe : Type 0 where
  pub id : ℕ
  pub user_id : ℕ
  pub telegram_username : Option String
  pub is_verified : Bool

unfoldable pub get_telegram_for_user_for_me_by_user_id : ℕ → M (Option TelegramUserMe)
get_telegram_for_user_for_me_by_user_id u = scan_optional λ w.
    Option.map
      (λ t. record {
        id = t.id;
        user_id = t.user_id;
        telegram_username = t.telegram_username;
        is_verified = t.is_verified;
      })
      (select_one (is_verified_user u) w.telegram_users)

abbrev pub has_code : String → TelegramUser → Bool
has_code code t =
    elim t.verification_code [ none ↦ false | some c ↦ str_eq c code ]
    && (not t.is_verified && not t.deleted)

unfoldable pub get_telegram_user_by_code : String → M (Option TelegramUser)
get_telegram_user_by_code code = scan_optional λ w. select_one (has_code code) w.telegram_users

abbrev pub is_chat : ℕ → TelegramUser → Bool
is_chat chat t = elim t.telegram_chat_id [ none ↦ false | some c ↦ c == chat ] && not t.deleted

unfoldable pub get_telegram_user_by_chat_id : ℕ → M (Option TelegramUser)
get_telegram_user_by_chat_id chat = scan_optional λ w. select_one (is_chat chat) w.telegram_users

abbrev pub is_username : String → TelegramUser → Bool
is_username name t =
    elim t.telegram_username [ none ↦ false | some n ↦ str_eq n name ] && not t.deleted

unfoldable pub get_telegram_user_by_username : String → M (Option TelegramUser)
get_telegram_user_by_username name =
    scan_optional λ w. select_one (is_username name) w.telegram_users

-- The UNIQUE column telegram_chat_id, for an update of the rows of one user.
abbrev pub chat_taken : ℕ → ℕ → World → Bool
chat_taken u chat w =
    exists_where (owns_row u) w.telegram_users && exists_where (has_chat u chat) w.telegram_users

unfoldable pub update_chat_id : ℕ → ℕ → M (Unit {0})
update_chat_id u chat = external λ w.
    if chat_taken u chat w
    then (err (unique_violation "telegram_users_telegram_chat_id_key"), w)
    else (
      ok tt,
      record w {
        telegram_users =
            update_where (owns_row u) (λ t. record t { telegram_chat_id = some chat })
              w.telegram_users;
      },
    )

abbrev pub verified : ℕ → String → TelegramUser → TelegramUser
verified chat name t = record t {
  telegram_chat_id = some chat;
  telegram_username = some name;
  verification_code = none;
  is_verified = true;
}

unfoldable pub verify_telegram_user : Bool → ℕ → ℕ → String → M (Unit {0})
verify_telegram_user unique_usernames u chat name = external λ w.
    if not (exists_where (is_user u) w.telegram_users)
    then (err (formatted "telegram_user not found for user_id=%d" (num (pos u) ∷ [])), w)
    else if exists_where (has_chat u chat) w.telegram_users
    then (err (unique_violation "telegram_users_telegram_chat_id_key"), w)
    else if unique_usernames && exists_where (has_username u name) w.telegram_users
    then (err (unique_violation "unique_telegram_username"), w)
    else (
      ok tt,
      record w { telegram_users = update_where (is_user u) (verified chat name) w.telegram_users },
    )
