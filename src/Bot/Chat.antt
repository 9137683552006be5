-- ===== src/Bot/Chat.antt =====
-- Which chat gets the alerts of a user (bot/bot.go, handleVerify and handleStart).
use deping_client_service.Base.{
  Bool, Bool-cases, List, String, [], ap, arith, exists_where, exists_where-select_one, false, inl,
  inr, refl, select_one, select_one-update_where, select_one-update_where-into, some, true,
  update_where, ℕ, ◌&&◌, ◌∙◌, ◌∷◌, ◌≡◌,
}
use deping_client_service.World.{Monitor, TelegramUser, World, calm, ok, text}
use deping_client_service.Bot.{Context, handle_start, handle_verify}
use deping_client_service.Bot.Text.{trim_space}
use deping_client_service.Credits.{is_user}
use deping_client_service.Health.{
  get_monitor_owner_chat_id, is_live_monitor, is_verified_user, owner_chat, scan_chat,
}
use deping_client_service.Telegram.{
  has_chat, has_code, has_username, is_username, owns_row, verified,
}

pub owner_chat-owner :
    (id : String) (u chat : ℕ) (monitors : List Monitor) (users : List TelegramUser) {m : Monitor}
    (t : TelegramUser)
    → select_one (is_live_monitor id) monitors ≡ some m
    → m.owner_id ≡ u
    → select_one (is_verified_user u) users ≡ some t
    → t.telegram_chat_id ≡ some chat
    → owner_chat id monitors users ≡ some (some chat, u)
unfolding owner_chat
owner_chat-owner id u chat monitors users t monitor owner own has_it = ground arith

chat_of-owner :
    (id : String) (u chat : ℕ) (w : World) {m : Monitor} (t : TelegramUser)
    → select_one (is_live_monitor id) w.monitors ≡ some m
    → m.owner_id ≡ u
    → select_one (is_verified_user u) w.telegram_users ≡ some t
    → t.telegram_chat_id ≡ some chat
    → get_monitor_owner_chat_id id (calm w) ≡ (ok (chat, u), calm w)
unfolding get_monitor_owner_chat_id
chat_of-owner id u chat w t monitor owner own has_it =
    ap (λ o. (scan_chat o, calm w))
      (owner_chat-owner id u chat w.monitors w.telegram_users t monitor owner own has_it)

module _ (unique_usernames : Bool) (c : Context) (code : String) (more : List String) (w : World)
    {t : TelegramUser} (pending : select_one (has_code (trim_space code)) w.telegram_users ≡ some t)
    (own : select_one (is_user t.user_id) w.telegram_users ≡ some t)
    (free : exists_where (has_chat t.user_id c.sender_id) w.telegram_users ≡ false)
    (allowed : (unique_usernames
        && exists_where (has_username t.user_id c.sender_username) w.telegram_users)
      ≡ false) where
  abbrev pub verified_world : World
  verified_world = record w {
    telegram_users =
        update_where (is_user t.user_id) (verified c.sender_id c.sender_username) w.telegram_users;
    sent =
        record { chat_id = c.chat_id; body = text "✨ *Account successfully linked!*" ∷ [] }
        ∷ w.sent;
    faults = [];
  }

  pub verified_row :
      select_one (is_verified_user t.user_id) verified_world.telegram_users
      ≡ some (verified c.sender_id c.sender_username t)
  verified_row =
      select_one-update_where-into (is_user t.user_id) (is_verified_user t.user_id)
        (verified c.sender_id c.sender_username) w.telegram_users (λ r k. ground arith)
        (λ r k. ground arith)
      ∙ rw own refl

  pub handle_verify-verified_world :
      c.args ≡ code ∷ more → handle_verify unique_usernames c (calm w) ≡ (ok tt, verified_world)
  unfolding handle_verify
  handle_verify-verified_world args =
      rw args (ground (arith, exists_where-select_one (is_user t.user_id) w.telegram_users))

  -- A user who sends `/verify` with the code of a pending row, blanks around it or not, gets the alerts
  -- of every monitor of the row's user in the sender's chat, where no call fails and the chat and the
  -- name are not another user's.
  pub handle_verify-get_monitor_owner_chat_id :
      (id : String) {m : Monitor}
      → c.args ≡ code ∷ more
      → select_one (is_live_monitor id) w.monitors ≡ some m
      → m.owner_id ≡ t.user_id
      → let (o, w') = handle_verify unique_usernames c (calm w) in
        (o ≡ ok tt) × (get_monitor_owner_chat_id id (calm w') ≡ (ok (c.sender_id, t.user_id), w'))
  handle_verify-get_monitor_owner_chat_id id args monitor owner =
      rw (handle_verify-verified_world args) (
        refl,
        chat_of-owner id t.user_id c.sender_id verified_world
            (verified c.sender_id c.sender_username t) monitor owner verified_row refl,
      )

module _ (c : Context) (w : World) {t : TelegramUser}
    (known : select_one (is_username c.sender_username) w.telegram_users ≡ some t)
    (is_ok : t.is_verified ≡ true)
    (free : exists_where (has_chat t.user_id c.sender_id) w.telegram_users ≡ false)
    (own : select_one (is_verified_user t.user_id) w.telegram_users ≡ some t) where
  abbrev pub started_world : World
  started_world = record w {
    telegram_users =
        update_where (owns_row t.user_id) (λ r. record r { telegram_chat_id = some c.sender_id })
          w.telegram_users;
    sent =
        record {
          chat_id = c.chat_id;
          body = text "✅ *Account Linked!*\nUse /help to see commands." ∷ [];
        }
        ∷ w.sent;
    faults = [];
  }

  handle_start-started_world : handle_start c (calm w) ≡ (ok tt, started_world)
  unfolding handle_start
  handle_start-started_world =
      elim (Bool-cases (exists_where (owns_row t.user_id) w.telegram_users)) [
        | inl stored ↦ rw (known, stored, free, is_ok) refl
        | inr missing ↦ rw (known, missing, is_ok) refl
      ]

  -- `/start` needs no code: whoever has the user name of a verified row gets the alerts of every monitor
  -- of the row's user in the own chat from then on, and the chat that had them does not, where no call
  -- fails and the chat is not another user's.
  pub handle_start-get_monitor_owner_chat_id :
      (id : String) {m : Monitor}
      → select_one (is_live_monitor id) w.monitors ≡ some m
      → m.owner_id ≡ t.user_id
      → let (o, w') = handle_start c (calm w) in
        (o ≡ ok tt) × (get_monitor_owner_chat_id id (calm w') ≡ (ok (c.sender_id, t.user_id), w'))
  handle_start-get_monitor_owner_chat_id id monitor owner = rw handle_start-started_world (
    refl,
    chat_of-owner id t.user_id c.sender_id started_world
        (record t { telegram_chat_id = some c.sender_id }) monitor owner
        (select_one-update_where (owns_row t.user_id) (is_verified_user t.user_id)
            (λ r. record r { telegram_chat_id = some c.sender_id }) w.telegram_users (λ r k. refl)
          ∙ rw own (ground arith))
        refl,
  )
