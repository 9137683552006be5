-- ===== src/Invariant/Links.antt =====
-- The linked accounts keep the invariant (db/repositories/telegram_repo.go, services/telegram_service.go).
use deping_client_service.Base.{
  Bool, Bool-cases, List, Option, String, arith, exists_where, false, inl, inr, none, not, refl,
  select_one, some, update_where, update_where-missing, upsert, ℕ, ◌&&◌, ◌+◌, ◌≡◌,
}
use deping_client_service.World.{
  TelegramUser, World, called, next_fails, scan_optional, unique_violation,
}
use deping_client_service.Credits.{is_user, mark_reminder_sent, should_send_reminder}
use deping_client_service.Invariant.{IsSound, IsSound-IsStable, Marks}
use deping_client_service.Invariant.Owners.{
  AreLinkRows, given-AreLinkRows, update_where-AreLinkRows, upsert-AreLinkRows,
}
use deping_client_service.Keeping.{
  Keeps, Keeps-bind, Keeps-choose, Keeps-exec, Keeps-fail, Keeps-reads, Keeps-refused,
  Keeps-scan_optional, Keeps-wrapping, keeps_rules,
}
use deping_client_service.Telegram.{
  chat_taken, get_telegram_for_user_for_me_by_user_id, get_telegram_user_by_chat_id,
  get_telegram_user_by_code, get_telegram_user_by_username, has_chat, has_code, has_username,
  is_chat, is_live_account, is_username, new_link, owns_row, relink, update_chat_id,
  upsert_telegram_user, verified, verify_telegram_user,
}
use deping_client_service.Telegram.Service.{
  get_telegram_user_status, initiate_link, verify_found, verify_link,
}

-- A change of the linked accounts that keeps every row as it must be.
links_kept :
    {marks : Marks} (w : World) (h : IsSound marks w) (rows : List TelegramUser)
    → AreLinkRows rows
    → IsSound marks (record w { telegram_users = rows })
links_kept w h rows (all, owners, chats) = record {
  credit_rows = h.credit_rows;
  credit_keys = h.credit_keys;
  link_rows = all;
  link_owners = owners;
  link_chats = chats;
  health_rows = h.health_rows;
  monitor_rows = h.monitor_rows;
  payment_rows = h.payment_rows;
  payment_keys = h.payment_keys;
  paid_rows = h.paid_rows;
  known_rows = h.known_rows;
  health_as = h.health_as;
}

link_rows_of : {marks : Marks} (w : World) → IsSound marks w → AreLinkRows w.telegram_users
link_rows_of w h = (h.link_rows, h.link_owners, h.link_chats)

pub mark_reminder_sent-IsSound :
    {marks : Marks} (u : ℕ) → Keeps (IsSound marks) (mark_reminder_sent u)
unfolding mark_reminder_sent
mark_reminder_sent-IsSound u =
    Keeps-exec
      (λ w. record w {
        telegram_users =
            update_where (is_user u) (λ t. record t { last_reminded_at = some w.now })
              w.telegram_users;
      })
      IsSound-IsStable
      λ w h. links_kept w h _ (
        update_where-AreLinkRows (is_user u) (λ t. record t { last_reminded_at = some w.now })
          w.telegram_users (λ t. refl) (λ t. refl) (λ t _ row. row) (link_rows_of w h))

upsert_telegram_user-IsSound :
    {marks : Marks} (unique_usernames : Bool) (u : ℕ) (name code : String)
    → Keeps (IsSound marks) (upsert_telegram_user unique_usernames u name code)
unfolding upsert_telegram_user
upsert_telegram_user-IsSound unique_usernames u name code =
    Keeps-bind _ _
      (Keeps-wrapping _ _
        (Keeps-reads (λ w. exists_where (is_live_account u) w.users) IsSound-IsStable))
      λ exists. Keeps-choose (not exists) _ _ (Keeps-fail _) (
        Keeps-wrapping _ _ (
          Keeps-refused
            (λ w. unique_usernames && exists_where (has_username u name) w.telegram_users) (λ w. tt)
            (λ w. record w {
              telegram_users =
                  upsert (owns_row u) (relink name code) (new_link w.serial w.now u name code)
                    w.telegram_users;
              serial = w.serial + 1;
            })
            (λ w. unique_violation "unique_telegram_username") IsSound-IsStable
            λ w h _.
              links_kept w h _ (
                upsert-AreLinkRows u w.serial w.now name code w.telegram_users (link_rows_of w h))))

-- The chat is given to the user's row, if there is one.
chat_given-AreLinkRows :
    (u chat : ℕ) (rows : List TelegramUser)
    → (exists_where (owns_row u) rows && exists_where (has_chat u chat) rows) ≡ false
    → AreLinkRows rows
    → AreLinkRows (update_where (owns_row u) (λ t. record t { telegram_chat_id = some chat }) rows)
chat_given-AreLinkRows u chat rows open_chat h =
    let f : TelegramUser → TelegramUser = λ t. record t { telegram_chat_id = some chat } in
    elim (Bool-cases (exists_where (owns_row u) rows)) [
      | inr nobody ↦ rw (update_where-missing (owns_row u) f rows nobody) h
      | inl known ↦
          given-AreLinkRows u chat (owns_row u) f (λ t own. own) (λ t. refl) (λ t. refl) rows
            (λ t _ row. (row.0, ground arith)) (ground (arith, known, open_chat)) h
    ]

pub update_chat_id-IsSound :
    {marks : Marks} (u chat : ℕ) → Keeps (IsSound marks) (update_chat_id u chat)
unfolding update_chat_id
update_chat_id-IsSound u chat =
    Keeps-refused (chat_taken u chat) (λ w. tt)
      (λ w. record w {
        telegram_users =
            update_where (owns_row u) (λ t. record t { telegram_chat_id = some chat })
              w.telegram_users;
      })
      (λ w. unique_violation "telegram_users_telegram_chat_id_key") IsSound-IsStable
      λ w h open_chat.
        links_kept w h _
          (chat_given-AreLinkRows u chat w.telegram_users open_chat (link_rows_of w h))

verified-AreLinkRows :
    (u chat : ℕ) (name : String) (rows : List TelegramUser)
    → exists_where (has_chat u chat) rows ≡ false
    → AreLinkRows rows
    → AreLinkRows (update_where (is_user u) (verified chat name) rows)
verified-AreLinkRows u chat name rows free h =
    given-AreLinkRows u chat (is_user u) (verified chat name) (λ t own. ground (arith, own))
      (λ t. refl) (λ t. refl) rows (λ t _ row. (refl, refl)) free h

verify_telegram_user-IsSound :
    {marks : Marks} (unique_usernames : Bool) (u chat : ℕ) (name : String)
    → Keeps (IsSound marks) (verify_telegram_user unique_usernames u chat name)
unfolding verify_telegram_user
verify_telegram_user-IsSound unique_usernames u chat name = record {
  at = λ w h. elim (Bool-cases (next_fails w.faults)) [
    | inl fails ↦ rw fails h
    | inr works ↦ elim (Bool-cases (exists_where (is_user u) w.telegram_users)) [
      | inr unknown ↦ rw (works, unknown) h
      | inl known ↦ elim (Bool-cases (exists_where (has_chat u chat) w.telegram_users)) [
        | inl taken ↦ rw (works, known, taken) h
        | inr open_chat ↦
            elim (Bool-cases
              (unique_usernames && exists_where (has_username u name) w.telegram_users)) [
                | inl named ↦ rw (works, known, open_chat, named) h
                | inr unnamed ↦
                    rw (works, known, open_chat, unnamed)
                      (links_kept (called w) h _ (
                        verified-AreLinkRows u chat name w.telegram_users open_chat
                          (link_rows_of w h)))
              ]
      ]
    ]
  ];
}

pub should_send_reminder-IsSound :
    {marks : Marks} (u : ℕ) → Keeps (IsSound marks) (should_send_reminder u)
unfolding should_send_reminder
should_send_reminder-IsSound u = record { at = λ w h. ground (arith, h) }

-- A query for a linked account, whatever it asks for.
find_link-IsSound :
    {marks : Marks} (p : TelegramUser → Bool)
    → Keeps (IsSound marks) (scan_optional λ w. select_one p w.telegram_users)
find_link-IsSound p = Keeps-scan_optional (λ w. select_one p w.telegram_users) IsSound-IsStable

pub get_telegram_user_by_chat_id-IsSound :
    {marks : Marks} (chat : ℕ) → Keeps (IsSound marks) (get_telegram_user_by_chat_id chat)
unfolding get_telegram_user_by_chat_id
get_telegram_user_by_chat_id-IsSound chat = find_link-IsSound (is_chat chat)

pub get_telegram_user_by_username-IsSound :
    {marks : Marks} (name : String) → Keeps (IsSound marks) (get_telegram_user_by_username name)
unfolding get_telegram_user_by_username
get_telegram_user_by_username-IsSound name = find_link-IsSound (is_username name)

get_telegram_user_by_code-IsSound :
    {marks : Marks} (code : String) → Keeps (IsSound marks) (get_telegram_user_by_code code)
unfolding get_telegram_user_by_code
get_telegram_user_by_code-IsSound code = find_link-IsSound (has_code code)

pub initiate_link-IsSound :
    {marks : Marks} (unique_usernames : Bool) (bot_username : String) (random : Option (List ℕ))
    (u : ℕ) (name : String)
    → Keeps (IsSound marks) (initiate_link unique_usernames bot_username random u name)
unfolding initiate_link
initiate_link-IsSound unique_usernames bot_username random u name =
    search (keeps_rules, upsert_telegram_user-IsSound)

verify_found-IsSound :
    {marks : Marks} (unique_usernames : Bool) (chat : ℕ) (name : String) (o : Option TelegramUser)
    → Keeps (IsSound marks) (verify_found unique_usernames chat name o)
verify_found-IsSound unique_usernames chat name none = search keeps_rules
verify_found-IsSound unique_usernames chat name (some t) =
    search (keeps_rules, verify_telegram_user-IsSound)

pub verify_link-IsSound :
    {marks : Marks} (unique_usernames : Bool) (code : String) (chat : ℕ) (name : String)
    → Keeps (IsSound marks) (verify_link unique_usernames code chat name)
unfolding verify_link
verify_link-IsSound unique_usernames code chat name =
    search (keeps_rules, get_telegram_user_by_code-IsSound, verify_found-IsSound)

pub get_telegram_user_status-IsSound :
    {marks : Marks} (u : ℕ) → Keeps (IsSound marks) (get_telegram_user_status u)
unfolding get_telegram_user_status get_telegram_for_user_for_me_by_user_id
get_telegram_user_status-IsSound u = record { at = λ w h. ground (arith, h) }
