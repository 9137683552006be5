-- ===== src/Hub/Busy.antt =====
-- How long the hub (ws/hub.go) stays away from its select.
use deping_client_service.Base.{
  Bool, List, String, [], ap, arith, false, length, refl, suc, true, ℕ, ◌++◌, ◌+◌, ◌-◌, ◌<◌, ◌∷◌,
  ◌≡◌, ◌≤◌,
}
use deping_client_service.Hub.{
  Hub, Phase, Step, buffer_size, finish, queue, receive, register_client, selecting,
  unregister_client, unregistering, write, write_error, writing,
}

abbrev pub is_selecting : Phase → Bool
is_selecting selecting = true
is_selecting (writing m cs) = false
is_selecting (unregistering c m cs) = false

-- A number of steps, none of them taken while Run stands in its select.
pub data Busy : ℕ → Hub → Hub → Type 0 where
  no_step : (h : Hub) → Busy 0 h h
  one_step :
      (n : ℕ) (h h' h'' : Hub)
      → is_selecting h.phase ≡ false
      → Step h h'
      → Busy n h' h''
      → Busy (suc n) h h''

-- The writes of the loop that are left, and its end.
abbrev pub pending : Phase → ℕ
pending selecting = 0
pending (writing m cs) = suc (length cs)
pending (unregistering c m cs) = 0

-- The steps that are left: those of Run, and the messages that the buffer has room for.
abbrev pub left_over : Hub → ℕ
left_over h = pending h.phase + (buffer_size - length h.broadcast)

pub length-append : (xs : List String) (m : String) → length (xs ++ m ∷ []) ≡ suc (length xs)
length-append [] m = refl
length-append (x ∷ xs) m = ap suc (length-append xs m)

Busy-Step : (h h' : Hub) → is_selecting h.phase ≡ false → Step h h' → left_over h' < left_over h
Busy-Step h _ b (register_client c _ e) = absurd (ground (arith, b, e))
Busy-Step h _ b (unregister_client c _ e) = absurd (ground (arith, b, e))
Busy-Step h _ b (queue m _ e) = omega (arith, e, length-append h.broadcast m)
Busy-Step h _ b (receive m ms _ e _) = absurd (ground (arith, b, e))
Busy-Step h _ b (write m c cs _ e) = rw e (omega arith)
Busy-Step h _ b (write_error m c cs _ e) = rw e (omega arith)
Busy-Step h _ b (finish m _ e) = rw e (omega arith)

-- Run gets back to its select or stands still: out of it, whatever the other goroutines do, there are
-- at most as many steps as there are clients left to write to, one for the end of the loop, and one for
-- each message that the buffer still takes.
pub Busy-bound : (n : ℕ) (h h' : Hub) → Busy n h h' → n ≤ left_over h
Busy-bound _ h _ (no_step _) = omega arith
Busy-bound _ h h'' (one_step n _ h' _ b s more) =
    omega (arith, Busy-Step h h' b s, Busy-bound n h' h'' more)
