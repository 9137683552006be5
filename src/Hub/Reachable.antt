-- ===== src/Hub/Reachable.antt =====
-- What holds of the hub (ws/hub.go) at any time.
use deping_client_service.Base.{
  Bool, Bool-cases, List, [], ap, arith, delete_where, exists_where, false, inl, inr,
  insert_missing, length, refl, ℕ, ◌++◌, ◌==◌, ◌∷◌, ◌≡◌, ◌≤◌,
}
use deping_client_service.Hub.{
  Hub, Step, Steps, add_client, buffer_size, drop_client, finish, next, queue, receive,
  register_client, stop, unregister_client, write, write_error,
}
use deping_client_service.Hub.Busy.{length-append}

-- No connection is registered twice.
abbrev pub AreDistinct : List ℕ → Type 0
AreDistinct [] = Unit {0}
AreDistinct (c ∷ cs) = (exists_where (λ x. x == c) cs ≡ false) × AreDistinct cs

delete_where-absent :
    (p q : ℕ → Bool) (cs : List ℕ)
    → exists_where q cs ≡ false
    → exists_where q (delete_where p cs) ≡ false
unfolding exists_where delete_where
delete_where-absent p q [] h = refl
delete_where-absent p q (c ∷ cs) h = ground (arith, delete_where-absent p q cs)

drop_client-AreDistinct : (c : ℕ) (cs : List ℕ) → AreDistinct cs → AreDistinct (drop_client c cs)
unfolding delete_where
drop_client-AreDistinct c [] d = tt
drop_client-AreDistinct c (x ∷ cs) d = elim (Bool-cases (x == c)) [
  | inl same ↦ rw same (drop_client-AreDistinct c cs d.1)
  | inr other ↦
      rw other
        (delete_where-absent (λ y. y == c) (λ y. y == x) cs d.0, drop_client-AreDistinct c cs d.1)
]

append-absent :
    (p : ℕ → Bool) (cs : List ℕ) (c : ℕ)
    → exists_where p cs ≡ false
    → p c ≡ false
    → exists_where p (cs ++ c ∷ []) ≡ false
unfolding exists_where
append-absent p [] c h k = rw k refl
append-absent p (x ∷ cs) c h k = ground (arith, append-absent p cs c)

append-AreDistinct :
    (c : ℕ) (cs : List ℕ)
    → exists_where (λ x. x == c) cs ≡ false
    → AreDistinct cs
    → AreDistinct (cs ++ c ∷ [])
unfolding exists_where
append-AreDistinct c [] h d = (refl, tt)
append-AreDistinct c (x ∷ cs) h d = (
  append-absent (λ y. y == x) cs c d.0 (ground (arith, h)),
  append-AreDistinct c cs (ground (arith, h)) d.1,
)

add_client-AreDistinct : (c : ℕ) (cs : List ℕ) → AreDistinct cs → AreDistinct (add_client c cs)
unfolding insert_missing
add_client-AreDistinct c cs d = elim (Bool-cases (exists_where (λ x. x == c) cs)) [
  | inl known ↦ rw known d
  | inr new ↦ rw new (append-AreDistinct c cs new d)
]

abbrev pub IsSound : Hub → Type 0
IsSound h = AreDistinct h.clients × (length h.broadcast ≤ buffer_size)

Step-IsSound : (h h' : Hub) → IsSound h → Step h h' → IsSound h'
Step-IsSound h _ s (register_client c _ e) = (add_client-AreDistinct c h.clients s.0, s.1)
Step-IsSound h _ s (unregister_client c _ e) = (drop_client-AreDistinct c h.clients s.0, s.1)
Step-IsSound h _ s (queue m _ e) = (s.0, omega (arith, length-append h.broadcast m, e))
Step-IsSound h _ s (receive m ms _ e q) = (s.0, omega (arith, s.1, ap length q))
Step-IsSound h _ s (write m c cs _ e) = s
Step-IsSound h _ s (write_error m c cs _ e) = s
Step-IsSound h _ s (finish m _ e) = s

-- Whatever steps the hub and the other goroutines take from a sound hub, such as the new one, no
-- connection is registered twice and the buffer holds no more messages than it has room for.
pub Steps-IsSound : (h h' : Hub) → IsSound h → Steps h h' → IsSound h'
Steps-IsSound h _ s (stop _) = s
Steps-IsSound h h'' s (next _ h' _ step more) = Steps-IsSound h' h'' (Step-IsSound h h' s step) more
