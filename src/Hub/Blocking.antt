-- ===== src/Hub/Blocking.antt =====
-- What the hub (ws/hub.go) does after a failed write, and without one.
use mathlib.Core.Path.{subst}
use deping_client_service.Base.{List, String, [], refl, sym, ℕ, ◌∙◌, ◌∷◌, ◌≡◌, ◌≢◌}
use deping_client_service.Hub.{
  Hub, Phase, Step, Steps, finish, next, queue, receive, register_client, selecting, stop,
  unregister_client, unregistering, write, write_error, writing,
}

abbrev pub IsUnregistering : Phase → Type 0
IsUnregistering selecting = ⊥
IsUnregistering (writing m cs) = ⊥
IsUnregistering (unregistering c m cs) = Unit {0}

-- What stays as it is.
abbrev pub SameHub : Hub → Hub → Type 0
SameHub h h' = (h'.phase ≡ h.phase) × (h'.clients ≡ h.clients) × (h'.written ≡ h.written)

pub selecting_apart : (h : Hub) → IsUnregistering h.phase → h.phase ≢ selecting
selecting_apart h b e = subst IsUnregistering e b

writing_apart :
    (h : Hub) (m : String) (cs : List ℕ) → IsUnregistering h.phase → h.phase ≢ writing m cs
writing_apart h m cs b e = subst IsUnregistering e b

blocked-Step : (h h' : Hub) → IsUnregistering h.phase → Step h h' → SameHub h h'
blocked-Step h _ b (register_client c _ e) = absurd (selecting_apart h b e)
blocked-Step h _ b (unregister_client c _ e) = absurd (selecting_apart h b e)
blocked-Step h _ b (queue m _ e) = (refl, refl, refl)
blocked-Step h _ b (receive m ms _ e _) = absurd (selecting_apart h b e)
blocked-Step h _ b (write m c cs _ e) = absurd (writing_apart h m (c ∷ cs) b e)
blocked-Step h _ b (write_error m c cs _ e) = absurd (writing_apart h m (c ∷ cs) b e)
blocked-Step h _ b (finish m _ e) = absurd (writing_apart h m [] b e)

-- After one failed write the hub is stuck for good: it waits at its own channel, which nothing else
-- receives from. Whatever steps the other goroutines take, no client is registered or unregistered
-- any more and no message is written.
pub blocked-SameHub : (h h' : Hub) → IsUnregistering h.phase → Steps h h' → SameHub h h'
blocked-SameHub h _ b (stop _) = (refl, refl, refl)
blocked-SameHub h h'' b (next _ h' _ s rest) =
    let (p, c, w) = blocked-Step h h' b s in
    let (p', c', w') = blocked-SameHub h' h'' (rw p b) rest in (p' ∙ p, c' ∙ c, w' ∙ w)

-- The message, written to each of the clients.
abbrev pub written_to : String → List ℕ → List (ℕ × String) → List (ℕ × String)
written_to m [] log = log
written_to m (c ∷ cs) log = written_to m cs ((c, m) ∷ log)

all_written :
    (m : String) (cs : List ℕ) (h : Hub)
    → h.phase ≡ writing m cs
    → Steps h (record h { phase = selecting; written = written_to m cs h.written })
all_written m [] h e = next h _ _ (finish m h e) (stop _)
all_written m (c ∷ cs) h e =
    next h _ _ (write m c cs h e)
      (all_written m cs (record h { phase = writing m cs; written = (c, m) ∷ h.written }) refl)

-- As long as no write fails the hub gets back to its select: a queued message is written once to each
-- client that was registered when the hub took it.
broadcast-Steps :
    (m : String) (ms : List String) (h : Hub)
    → h.phase ≡ selecting
    → h.broadcast ≡ m ∷ ms
    → Steps h (record h { broadcast = ms; written = written_to m h.clients h.written })
broadcast-Steps m ms h idle queued =
    let taken = record h { broadcast = ms; phase = writing m h.clients } in
    let back : Steps h (record h {
      broadcast = ms;
      phase = selecting;
      written = written_to m h.clients h.written;
    }) =
      next h taken _ (receive m ms h idle queued) (all_written m h.clients taken refl) in
    subst
      (λ (p : Phase).
        Steps h
          (record h { broadcast = ms; phase = p; written = written_to m h.clients h.written }))
      (sym idle) back
