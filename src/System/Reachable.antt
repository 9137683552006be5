-- ===== src/System/Reachable.antt =====
-- What holds of the tables at any time (app/application.go, Run).
use deping_client_service.Base.{
  All, All-select_one, List, Option, Option-cases, String, [], arith, inl, inr, none, refl,
  select_one, select_one-holds, some, true, ℕ, ◌∷◌, ◌≡◌,
}
use deping_client_service.World.{Monitor, TelegramUser, World, calm, ok}
use deping_client_service.Bot.{Context, HandlerFunc}
use deping_client_service.Bot.Handlers.{register_handlers}
use deping_client_service.Health.{
  get_monitor_owner_chat_id, is_live_monitor, is_verified_user, owner_chat, scan_chat,
}
use deping_client_service.Invariant.{IsFree, IsLinkRow, IsSound, Marks, paying}
use deping_client_service.Invariant.Alerting.{handle_delivery-IsSound}
use deping_client_service.Invariant.Chats.{
  KeepsAny, has_handler, no_handler, register_handlers-KeepsAny,
}
use deping_client_service.Invariant.Requests.{serve-IsSound}
use deping_client_service.System.{
  Event, Service, delivered, eviction_tick, handled, happen, logged, meanwhile, request, run_events,
  update,
}

handled-IsSound :
    {marks : Marks} (o : Option HandlerFunc) (c : Context) (w : World)
    → KeepsAny marks o
    → IsSound marks w
    → IsSound marks (handled o c w)
handled-IsSound _ c w no_handler h = h
handled-IsSound _ c w (has_handler handler k) h = (k c).at w h

pub happen-IsSound :
    {marks : Marks} (e : Event) (v : Service)
    → IsFree marks
    → IsSound marks v.world
    → IsSound marks (happen e v).world
unfolding happen
happen-IsSound (request s req) v free h = (serve-IsSound s req v.registry).at v.world h
happen-IsSound (update unique_usernames endpoint c) v free h =
    handled-IsSound (register_handlers unique_usernames endpoint) c v.world
      (register_handlers-KeepsAny unique_usernames endpoint) h
happen-IsSound (delivered packet) v free h = (handle_delivery-IsSound packet free).at v.world h
happen-IsSound (eviction_tick now) v free h = h
happen-IsSound (meanwhile now faults) v free h = h
happen-IsSound (logged l) v free h = h

-- Whatever requests, updates of the bot, deliveries and ticks come, in whatever order, whatever calls fail
-- and wherever a handler panics: no user has more than three free messages used, two rows of credits, or
-- more purchased credits left than were ever purchased, and these are an INT; no user has two linked
-- accounts and no chat is that of two; a linked account has a code
-- exactly as long as it is not verified, and a verified one a chat; a monitor is down exactly from its
-- second failure in a row on, and then has its alert marked with a time; no monitor is checked more often
-- than every 30 seconds; no transaction is recorded twice, and the payments and monitors in `marks` stay
-- recorded. All this is supposed of the tables before.
pub run_events-IsSound :
    {marks : Marks} (es : List Event) (v : Service)
    → IsFree marks
    → IsSound marks v.world
    → IsSound marks (run_events es v).world
unfolding run_events
run_events-IsSound [] v free h = h
run_events-IsSound (e ∷ es) v free h =
    run_events-IsSound es (happen e v) free (happen-IsSound e v free h)

-- The chat that is found is not NULL.
abbrev HasChat : Option (Option ℕ × ℕ) → Type 0
HasChat none = Unit {0}
HasChat (some (none, u)) = ⊥
HasChat (some (some c, u)) = Unit {0}

verified-HasChat :
    (t : TelegramUser) (u : ℕ)
    → IsLinkRow t
    → t.is_verified ≡ true
    → HasChat (some (t.telegram_chat_id, u))
verified-HasChat t u row is_verified = elim (Option-cases t.telegram_chat_id) [
  | inl unknown ↦ absurd (ground (arith, row.1, is_verified, unknown))
  | inr (c, known) ↦ rw known tt
]

owner_chat-HasChat :
    (id : String) (monitors : List Monitor) (links : List TelegramUser)
    → All IsLinkRow links
    → HasChat (owner_chat id monitors links)
unfolding owner_chat
owner_chat-HasChat id monitors links rows =
    elim (Option-cases (select_one (is_live_monitor id) monitors)) [
      | inl no_monitor ↦ rw (no_monitor, owner_chat) tt
      | inr (m, is_there) ↦ elim (Option-cases (select_one (is_verified_user m.owner_id) links)) [
        | inl no_link ↦ rw (is_there, no_link, owner_chat) tt
        | inr (t, link) ↦
            let row = All-select_one IsLinkRow (is_verified_user m.owner_id) links t link rows in
            let matched = select_one-holds (is_verified_user m.owner_id) links t link in
            rw (is_there, link, owner_chat)
              (verified-HasChat t m.owner_id row (ground (arith, matched)))
      ]
    ]

scan_chat_ok : (o : Option (Option ℕ × ℕ)) → HasChat o → (found : ℕ × ℕ) × (scan_chat o ≡ ok found)
scan_chat_ok none h = ((0, 0), refl)
scan_chat_ok (some (none, u)) h = absurd h
scan_chat_ok (some (some c, u)) h = ((c, u), refl)

-- The lookup of the chat for an alert cannot meet a NULL: after any events it succeeds where no call
-- fails, whatever monitor the alert is about.
pub run_events-get_monitor_owner_chat_id :
    (es : List Event) (v : Service) (id : String)
    → IsSound (paying []) v.world
    → (found : ℕ × ℕ) × ((get_monitor_owner_chat_id id (calm (run_events es v).world)).0 ≡ ok found)
unfolding get_monitor_owner_chat_id
run_events-get_monitor_owner_chat_id es v id h =
    let w = (run_events es v).world in
    scan_chat_ok (owner_chat id w.monitors w.telegram_users) (
      owner_chat-HasChat id w.monitors w.telegram_users
        (run_events-IsSound es v (λ _. tt) h).link_rows)
