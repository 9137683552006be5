-- ===== src/World/Calls.antt =====
-- The outcomes of the functions and the calls to PostgreSQL, Redis and Telegram (db/repositories,
-- bot/bot.go), with the composition of Go statements that may return early.
use deping_client_service.Base.{
  Bool, List, Option, String, [], exists_where, false, if◌then◌else◌, none, some, str_eq, true, ℕ,
  ◌==◌, ◌∷◌,
}
use deping_client_service.World.Tables.{Monitor, Part, World}

-- The errors of the program and of what it calls.
pub data Error : Type 0 where
  unavailable no_rows out_of_range scan_null foreign_key_violation : Error
  unique_violation : String → Error
  message : String → Error
  formatted : String → List Part → Error
  wrap : String → Error → Error
  duplicate_email duplicate_wallet : Error
  email_taken wallet_taken not_found bad_password invalid_token expired_token : Error

-- A call returns a value, returns an error, or panics.
pub data Outcome {ℓ} (A : Type ℓ) : Type ℓ where
  ok : A → Outcome A
  err : Error → Outcome A
  panic : Outcome A

-- `errors.Is` for a target that is compared by identity.
abbrev pub is_duplicate_email : Error → Bool
is_duplicate_email duplicate_email = true
is_duplicate_email (wrap s e) = is_duplicate_email e
is_duplicate_email _ = false

abbrev pub is_duplicate_wallet : Error → Bool
is_duplicate_wallet duplicate_wallet = true
is_duplicate_wallet (wrap s e) = is_duplicate_wallet e
is_duplicate_wallet _ = false

abbrev pub is_no_rows : Error → Bool
is_no_rows no_rows = true
is_no_rows (wrap s e) = is_no_rows e
is_no_rows _ = false

abbrev pub M : Type 0 → Type 0
M A = World → Outcome A × World

abbrev pub continue : {A B : Type 0} → Outcome A × World → (A → M B) → Outcome B × World
continue (ok a, w) f = f a w
continue (err e, w) f = (err e, w)
continue (panic, w) f = (panic, w)

infixl 5 ◌>>=◌ ◌>>◌
abbrev pub ◌>>=◌ : {A B : Type 0} → M A → (A → M B) → M B
◌>>=◌ m f w = continue (m w) f

abbrev pub ◌>>◌ : {A B : Type 0} → M A → M B → M B
m >> k = m >>= λ _. k

abbrev pub pure : {A : Type 0} → A → M A
pure a w = (ok a, w)

abbrev pub fail : {A : Type 0} → Error → M A
fail e w = (err e, w)

-- A computation that does not touch the world.
abbrev pub lift : {A : Type 0} → Outcome A → M A
lift o w = (o, w)

abbrev pub panics : {A : Type 0} → M A
panics w = (panic, w)

abbrev pub wrap_error : {A : Type 0} → (Error → Error) → Outcome A × World → Outcome A × World
wrap_error f (ok a, w) = (ok a, w)
wrap_error f (err e, w) = (err (f e), w)
wrap_error f (panic, w) = (panic, w)

-- `if err != nil { return fmt.Errorf("…: %w", err) }`
abbrev pub wrapping : {A : Type 0} → (Error → Error) → M A → M A
wrapping f m w = wrap_error f (m w)

-- `_ = f()` and `if err := f(); err != nil { log }`: the error is dropped.
abbrev pub drop_error : Outcome (Unit {0}) × World → Outcome (Unit {0}) × World
drop_error (ok a, w) = (ok tt, w)
drop_error (err e, w) = (ok tt, w)
drop_error (panic, w) = (panic, w)

abbrev pub ignoring : M (Unit {0}) → M (Unit {0})
ignoring m w = drop_error (m w)

-- `v, _ := f()`: the error is dropped, and the value is the zero value of its type.
abbrev pub value_or : {A : Type 0} → A → Outcome A × World → Outcome A × World
value_or z (ok a, w) = (ok a, w)
value_or z (err e, w) = (ok z, w)
value_or z (panic, w) = (panic, w)

abbrev pub or_zero : {A : Type 0} → A → M A → M A
or_zero z m w = value_or z (m w)

-- `v, err := m()`, then `if err != nil { handle }` and the rest of the function.
abbrev pub branch :
    {A B : Type 0} → Outcome A × World → (Error → M B) → (A → M B) → Outcome B × World
branch (ok a, w) handle rest = rest a w
branch (err e, w) handle rest = handle e w
branch (panic, w) handle rest = (panic, w)

abbrev pub attempt : {A B : Type 0} → M A → (Error → M B) → (A → M B) → M B
attempt m handle rest w = branch (m w) handle rest

-- `if b { m } else { k }`
abbrev pub choose : {A : Type 0} → Bool → M A → M A → M A
choose true m k w = m w
choose false m k w = k w

abbrev pub next_fails : List Bool → Bool
next_fails [] = false
next_fails (b ∷ bs) = b

abbrev pub later_faults : List Bool → List Bool
later_faults [] = []
later_faults (b ∷ bs) = bs

abbrev pub called : World → World
called w = record w { faults = later_faults w.faults }

-- The world in which no call fails from now on.
abbrev pub calm : World → World
calm w = record w { faults = [] }

-- One call to a system outside the program.
abbrev pub external : {A : Type 0} → M A → M A
external m w = if next_fails w.faults then (err unavailable, called w) else m (called w)

-- `QueryRow(…).Scan(…)`: `sql.ErrNoRows` where no row matches.
abbrev pub scan_row : {A : Type 0} → (World → Option A) → M A
scan_row q = external λ w. elim (q w) [ none ↦ (err no_rows, w) | some a ↦ (ok a, w) ]

-- The same where the code turns `sql.ErrNoRows` into `nil`.
abbrev pub scan_optional : {A : Type 0} → (World → Option A) → M (Option A)
scan_optional q = external λ w. (ok (q w), w)

abbrev pub reads : {A : Type 0} → (World → A) → M A
reads q = external λ w. (ok (q w), w)

-- `ExecContext` of a statement that no constraint refuses.
abbrev pub exec : (World → World) → M (Unit {0})
exec f = external λ w. (ok tt, f w)

-- What stands between Begin and Commit: an error, or a Commit that fails, restores the tables.
abbrev pub commit : {A : Type 0} → World → Outcome A × World → Outcome A × World
commit w (ok a, w') =
    if next_fails w'.faults
    then (err unavailable, record w { faults = later_faults w'.faults })
    else (ok a, called w')
commit w (err e, w') = (err e, record w { faults = w'.faults })
commit w (panic, w') = (panic, record w { faults = w'.faults })

abbrev pub committed : {A : Type 0} → M A → M A
committed m w = commit w (m w)

-- `BeginTx` … `tx.Commit()`
abbrev pub transaction : {A : Type 0} → M A → M A
transaction m = external (committed m)

-- A row of `users` with the id, deleted or not: what a foreign key asks for.
abbrev pub references_user : ℕ → World → Bool
references_user u w = exists_where (λ r. r.id == u) w.users

abbrev pub is_monitor : String → Monitor → Bool
is_monitor id m = str_eq m.id id

abbrev pub references_monitor : String → World → Bool
references_monitor id w = exists_where (is_monitor id) w.monitors

abbrev pub get_now : M ℕ
get_now w = (ok w.now, w)

-- `MessageSender.SendMessage` (bot/bot.go): Telegram takes the message or the call fails.
unfoldable pub send_message : ℕ → List Part → M (Unit {0})
send_message chat_id body =
    exec λ w. record w { sent = record { chat_id = chat_id; body = body } ∷ w.sent }
