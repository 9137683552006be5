-- ===== src/System/Chats.antt =====
-- Alerts and commands meet in the same chat (db/repositories/telegram_repo.go, bot/bot.go).
use deping_client_service.Base.{
  IsUnique, List, Option-cases, String, [], arith, inl, inr, refl, select_one, select_one-holds,
  select_one_unique, some, sym, true, ℕ, ◌≡◌,
}
use deping_client_service.World.{Monitor, TelegramUser, calm, ok}
use deping_client_service.Bot.{Context, HandlerFunc, with_auth}
use deping_client_service.Health.{is_live_monitor, is_verified_user, owner_chat}
use deping_client_service.Invariant.{IsSound, paying, same_chat}
use deping_client_service.System.{Event, Service, run_events}
use deping_client_service.System.Reachable.{run_events-IsSound}
use deping_client_service.Telegram.{get_telegram_user_by_chat_id, is_chat}
use deping_client_service.Telegram.Service.{get_user_id_from_chat_id}

-- The account that the join behind an alert takes.
owner_chat_row :
    (id : String) (monitors : List Monitor) (links : List TelegramUser) {c u : ℕ}
    → owner_chat id monitors links ≡ some (some c, u)
    → (t : TelegramUser) × (select_one (is_verified_user u) links ≡ some t)
      × (t.telegram_chat_id ≡ some c)
unfolding owner_chat
owner_chat_row id monitors links {c} {u} found =
    elim (Option-cases (select_one (is_live_monitor id) monitors)) [
      | inl no_monitor ↦ absurd (ground (arith, no_monitor, found))
      | inr (m, there) ↦ elim (Option-cases (select_one (is_verified_user m.owner_id) links)) [
        | inl no_link ↦ absurd (ground (arith, there, no_link, found))
        | inr (t, link) ↦
            let pair : some (t.telegram_chat_id, m.owner_id) ≡ some (some c, u) =
              rw (there, link, owner_chat) at found in
            let owner : m.owner_id ≡ u = ground (arith, pair) in
            let chat : t.telegram_chat_id ≡ some c = ground (arith, pair) in
            (t, rw (sym owner) link, chat)
      ]
    ]

-- The row of the chat is the owner's.
chat_row :
    (links : List TelegramUser) (t : TelegramUser) (u : ℕ) {c : ℕ}
    → IsUnique same_chat links
    → select_one (is_verified_user u) links ≡ some t
    → t.telegram_chat_id ≡ some c
    → select_one (is_chat c) links ≡ some t
chat_row links t u {c} unique found chat =
    let own = select_one-holds (is_verified_user u) links t found in
    select_one_unique same_chat (is_verified_user u) (is_chat c) links t unique
      (λ s h. elim (Option-cases s.telegram_chat_id) [
        | inl unknown ↦ absurd (ground (arith, h, unknown))
        | inr (d, known) ↦ rw (known, chat) (ground (arith, h, known))
      ])
      (ground (arith, own, chat)) found

-- After any events, where no call fails: whoever writes to the bot from the chat that the alerts of a
-- monitor go to is taken for the owner of that monitor, and passes the guard of every command.
pub run_events-owner_chat :
    (es : List Event) (v : Service) (id : String) (handler : HandlerFunc) (context : Context)
    {u : ℕ}
    → let w = (run_events es v).world in
      IsSound (paying []) v.world
      → owner_chat id w.monitors w.telegram_users ≡ some (some context.sender_id, u)
      → ((get_user_id_from_chat_id context.sender_id (calm w)).0 ≡ ok u)
        × (with_auth handler context (calm w) ≡ handler context (calm w))
unfolding get_user_id_from_chat_id get_telegram_user_by_chat_id with_auth
run_events-owner_chat es v id handler context {u} h found =
    let w = (run_events es v).world in
    let sound = run_events-IsSound es v (λ _. tt) h in
    let (t, link, chat) = owner_chat_row id w.monitors w.telegram_users found in
    let own = select_one-holds (is_verified_user u) w.telegram_users t link in
    let row = chat_row w.telegram_users t u sound.link_chats link chat in
    let is_ok : t.is_verified ≡ true = ground (arith, own) in
    (ground (arith, row, own), rw (row, is_ok) refl)
