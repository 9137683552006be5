-- ===== src/Bot/Guard.antt =====
-- Who reaches the handlers of the bot (bot/bot.go, withAuth and registerHandlers).
use deping_client_service.Base.{
  Bool, Bool-cases, List, Option, String, arith, false, if◌then◌else◌, inl, inr, none, refl,
  select_one, some, str_eq, true, ◌||◌, ◌∷◌, ◌≡◌, ◌⊎◌,
}
use deping_client_service.World.{
  Part, TelegramUser, World, called, later_faults, next_fails, send_message,
}
use deping_client_service.Bot.{
  Context, HandlerFunc, auth_found, busy_text, denied_text, send, with_auth,
}
use deping_client_service.Bot.Handlers.{register_handlers}
use deping_client_service.Telegram.{is_chat}

-- The texts that turn a sender away.
abbrev pub IsRefusal : List Part → Type 0
IsRefusal body = (body ≡ denied_text) ⊎ (body ≡ busy_text)

-- Nothing has changed but, where Telegram took it, one message to the chat that turns the sender away.
abbrev pub TurnedAway : Context → World → World → Type 0
TurnedAway c w w' =
    (record w' { faults = w.faults } ≡ w)
    ⊎ ((body : List Part) × IsRefusal body
        × (record w' { faults = w.faults }
            ≡ record w { sent = record { chat_id = c.chat_id; body = body } ∷ w.sent }))

-- No row of a verified user has the chat of the sender.
abbrev pub IsStranger : Context → World → Type 0
IsStranger c w = elim (select_one (is_chat c.sender_id) w.telegram_users) [
  | none ↦ Unit {0}
  | some tu ↦ tu.is_verified ≡ false
]

send-TurnedAway :
    (c : Context) (body : List Part) (w : World)
    → IsRefusal body
    → TurnedAway c w (send c body (called w)).1
unfolding send_message
send-TurnedAway c body w refusal = elim (Bool-cases (next_fails (later_faults w.faults))) [
  | inl fails ↦ rw fails (inl refl)
  | inr works ↦ rw works (inr (body, refusal, refl))
]

found-TurnedAway :
    (handler : HandlerFunc) (c : Context) (w : World) (o : Option TelegramUser)
    → elim o as (λ _. Type 0) [ none ↦ Unit {0} | some tu ↦ tu.is_verified ≡ false ]
    → TurnedAway c w (auth_found handler c o (called w)).1
found-TurnedAway handler c w none stranger = send-TurnedAway c denied_text w (inl refl)
found-TurnedAway handler c w (some tu) stranger =
    rw stranger (send-TurnedAway c denied_text w (inl refl))

with_auth-TurnedAway :
    (handler : HandlerFunc) (c : Context) (w : World)
    → IsStranger c w
    → TurnedAway c w (with_auth handler c w).1
unfolding with_auth
with_auth-TurnedAway handler c w stranger = elim (Bool-cases (next_fails w.faults)) [
  | inl fails ↦ rw fails (send-TurnedAway c busy_text w (inr refl))
  | inr works ↦
      rw works
        (found-TurnedAway handler c w (select_one (is_chat c.sender_id) w.telegram_users) stranger)
]

-- What is open to everybody.
abbrev pub is_open_command : String → Bool
is_open_command endpoint =
    str_eq endpoint "/start" || (str_eq endpoint "/help" || str_eq endpoint "/verify")

-- The handler, if any, turns every stranger away.
pub data TurnsAway : Option HandlerFunc → Type 0 where
  no_command : TurnsAway none
  turns_away :
      (handler : HandlerFunc)
      → ((c : Context) (w : World) → IsStranger c w → TurnedAway c w (handler c w).1)
      → TurnsAway (some handler)

if-TurnsAway :
    (b : Bool) (o rest : Option HandlerFunc)
    → TurnsAway o
    → TurnsAway rest
    → TurnsAway (if b then o else rest)
if-TurnsAway true o rest t u = t
if-TurnsAway false o rest t u = u

guarded-TurnsAway : (handler : HandlerFunc) → TurnsAway (some (with_auth handler))
guarded-TurnsAway handler = turns_away (with_auth handler) (with_auth-TurnedAway handler)

skip-TurnsAway :
    (o rest : Option HandlerFunc) → TurnsAway rest → TurnsAway (if false then o else rest)
skip-TurnsAway o rest t = t

pub register_handlers-TurnsAway :
    (unique_usernames : Bool) (endpoint : String)
    → is_open_command endpoint ≡ false
    → TurnsAway (register_handlers unique_usernames endpoint)
unfolding register_handlers
register_handlers-TurnsAway unique_usernames endpoint guarded =
    let start : str_eq endpoint "/start" ≡ false = ground (arith, guarded) in
    let help : str_eq endpoint "/help" ≡ false = ground (arith, guarded) in
    let verify : str_eq endpoint "/verify" ≡ false = ground (arith, guarded) in
    rw (start, help, verify)
      (search (skip-TurnsAway, if-TurnsAway, no_command, guarded-TurnsAway) depth 14)
