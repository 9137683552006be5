-- ===== src/Telegram/Link.antt =====
-- The linking of an account, from the code to the verified chat (services/telegram_service.go).
use deping_client_service.Base.{
  Bool, List, Option, String, arith, exists_where, exists_where-select_one, false, none, not, refl,
  select_one, select_one-update_where-none, select_one-update_where_self, select_one-upsert, some,
  true, upserted, ℕ, ◌&&◌, ◌≡◌,
}
use deping_client_service.World.{TelegramUser, World, calm, err, message, ok}
use deping_client_service.Credits.{is_user}
use deping_client_service.Telegram.{
  has_chat, has_code, has_username, is_live_account, new_link, owns_row, relink, taken_error,
  verified,
}
use deping_client_service.Telegram.Service.{encode_to_string, initiate_link, verify_link}

upserted_pending :
    (u id now : ℕ) (name code : String) (o : Option TelegramUser)
    → let row = upserted (relink name code) (new_link id now u name code) o in
      (row.is_verified ≡ false) × (row.verification_code ≡ some code)
upserted_pending u id now name code none = (refl, refl)
upserted_pending u id now name code (some t) = (refl, refl)

module _ (unique_usernames : Bool) (bot_username : String) (bytes : List ℕ) (u : ℕ) (name : String)
    (w : World) where
  abbrev pub link_code : String
  link_code = encode_to_string bytes

  -- What the user's row becomes: the old row, or a new one, with the new name and code, unverified.
  abbrev pub linked_row : TelegramUser
  linked_row =
      upserted (relink name link_code) (new_link w.serial w.now u name link_code)
        (select_one (owns_row u) w.telegram_users)

  -- For a user that exists, and a name that the constraint on names does not refuse, the response
  -- holds the code of the four random bytes, and the user's row is pending under it: the row is not
  -- verified any more, and a chat that it had stays in it.
  pub initiate_link_pending :
      exists_where (is_live_account u) w.users ≡ true
      → (unique_usernames && exists_where (has_username u name) w.telegram_users) ≡ false
      → let (o, w') = initiate_link unique_usernames bot_username (some bytes) u name (calm w) in
        (o
          ≡ ok (record {
            verification_code = link_code;
            bot_username = String.◌∷◌ "@" bot_username;
            message = "Verification code generated successfully.";
          }))
        × (select_one (owns_row u) w'.telegram_users ≡ some linked_row)
        × (linked_row.is_verified ≡ false)
        × (linked_row.verification_code ≡ some link_code)
  unfolding initiate_link
  initiate_link_pending exists allowed =
      let stored =
        select_one-upsert (owns_row u) (relink name link_code)
          (new_link w.serial w.now u name link_code) w.telegram_users (λ r k. refl)
          (ground arith) in
      let pending =
        upserted_pending u w.serial w.now name link_code
          (select_one (owns_row u) w.telegram_users) in
      (ground arith, ground (arith, stored), pending.0, pending.1)

-- A name that another row has is refused where the database has the constraint: the service returns
-- the repository's own error, and nothing is stored.
pub initiate_link_taken :
    (bot_username : String) (bytes : List ℕ) (u : ℕ) (name : String) (w : World)
    → exists_where (is_live_account u) w.users ≡ true
    → exists_where (has_username u name) w.telegram_users ≡ true
    → initiate_link true bot_username (some bytes) u name (calm w) ≡ (err taken_error, calm w)
unfolding initiate_link
initiate_link_taken bot_username bytes u name w exists taken = ground arith

module _ (unique_usernames : Bool) (code : String) (chat : ℕ) (name : String) (w : World)
    {t : TelegramUser} (pending : select_one (has_code code) w.telegram_users ≡ some t)
    (own : select_one (is_user t.user_id) w.telegram_users ≡ some t)
    (free : exists_where (has_chat t.user_id chat) w.telegram_users ≡ false)
    (allowed : (unique_usernames && exists_where (has_username t.user_id name) w.telegram_users)
      ≡ false) where
  -- The code of a pending row verifies it: the sender's chat and name are stored, the code is
  -- cleared, and no other table changes. The call returns the row's user.
  pub verify_link-verified :
      let (o, w') = verify_link unique_usernames code chat name (calm w) in
      (o ≡ ok t.user_id)
      × (select_one (is_user t.user_id) w'.telegram_users ≡ some (verified chat name t))
      × (record w' { telegram_users = w.telegram_users } ≡ calm w)
  unfolding verify_link
  verify_link-verified = ground (
    arith,
    exists_where-select_one (is_user t.user_id) w.telegram_users,
    select_one-update_where_self (is_user t.user_id) (verified chat name) w.telegram_users
        (λ r k. refl),
  )

  -- The code is good for one use: where no other pending row has it, sending it again is refused and
  -- changes nothing.
  pub verify_link_once :
      exists_where (λ r. has_code code r && not (is_user t.user_id r)) w.telegram_users ≡ false
      → let w' = (verify_link unique_usernames code chat name (calm w)).1 in
        verify_link unique_usernames code chat name (calm w')
        ≡ (err (message "invalid or expired verification code"), w')
  unfolding verify_link
  verify_link_once unique = ground (
    arith,
    exists_where-select_one (is_user t.user_id) w.telegram_users,
    select_one-update_where-none (is_user t.user_id) (has_code code) (verified chat name)
        w.telegram_users (λ r k. refl),
  )
