-- ===== src/Hub/Connections.antt =====
-- ServeWs of ws/hub.go: one goroutine for each connection, beside the hub. A connection that is upgraded
-- waits to register, reads until an error, and waits to unregister, which is the end of its goroutine.
-- An upgrade that fails starts none of this, and a message that is read is thrown away.
use deping_client_service.Base.{
  Bool, Bool-cases, List, [], ap, arith, delete_where, exists_where, false, if◌then◌else◌, inl, inr,
  insert_missing, refl, sym, true, ℕ, ◌++◌, ◌==◌, ◌||◌, ◌∙◌, ◌∷◌, ◌≡◌,
}
use deping_client_service.App.{steps}
use deping_client_service.Hub.{
  Hub, Step, Steps, add_client, drop_client, finish, new_hub, next, queue, receive, register_client,
  selecting, stop, unregister_client, write, write_error,
}
use deping_client_service.Hub.Reachable.{IsSound, Steps-IsSound}
use deping_client_service.Registry.Online.{tracked}

pub data Stage : Type 0 where
  unopened registering reading leaving gone : Stage

pub record Server : Type 0 where
  pub hub : Hub
  pub stage : ℕ → Stage

abbrev pub new_server : Server
new_server = record { hub = new_hub; stage = λ c. unopened }

abbrev pub set_stage : ℕ → Stage → (ℕ → Stage) → ℕ → Stage
set_stage c st stage x = if x == c then st else stage x

-- The steps that are the hub's and the bridge's own.
abbrev pub IsInternal : (h h' : Hub) → Step h h' → Type 0
IsInternal h _ (register_client c _ e) = ⊥
IsInternal h _ (unregister_client c _ e) = ⊥
IsInternal h _ (queue m _ e) = Unit {0}
IsInternal h _ (receive m ms _ e q) = Unit {0}
IsInternal h _ (write m c cs _ e) = Unit {0}
IsInternal h _ (write_error m c cs _ e) = Unit {0}
IsInternal h _ (finish m _ e) = Unit {0}

pub data ServerStep : Server → Server → Type 0 where
  hub_step :
      (h' : Hub) (s : Server) (step : Step s.hub h')
      → IsInternal s.hub h' step
      → ServerStep s (record s { hub = h' })
  upgrade :
      (c : ℕ) (s : Server)
      → s.stage c ≡ unopened
      → ServerStep s (record s { stage = set_stage c registering s.stage })
  register_conn :
      (c : ℕ) (s : Server)
      → s.stage c ≡ registering
      → s.hub.phase ≡ selecting
      → ServerStep s (record {
        hub = record s.hub { clients = add_client c s.hub.clients };
        stage = set_stage c reading s.stage;
      })
  read_error :
      (c : ℕ) (s : Server)
      → s.stage c ≡ reading
      → ServerStep s (record s { stage = set_stage c leaving s.stage })
  unregister_conn :
      (c : ℕ) (s : Server)
      → s.stage c ≡ leaving
      → s.hub.phase ≡ selecting
      → ServerStep s (record {
        hub = record s.hub { clients = drop_client c s.hub.clients };
        stage = set_stage c gone s.stage;
      })

-- Any number of steps.
pub data ServerSteps : Server → Server → Type 0 where
  no_more : (s : Server) → ServerSteps s s
  one_more : (s s' s'' : Server) → ServerStep s s' → ServerSteps s' s'' → ServerSteps s s''

-- The connections between their registration and its end.
abbrev pub is_served : Stage → Bool
is_served unopened = false
is_served registering = false
is_served reading = true
is_served leaving = true
is_served gone = false

exists_where-append_one :
    (c d : ℕ) (cs : List ℕ)
    → exists_where (λ x. x == c) (cs ++ d ∷ []) ≡ (exists_where (λ x. x == c) cs || c == d)
unfolding exists_where
exists_where-append_one c d [] = ground arith
exists_where-append_one c d (x ∷ cs) = ground (arith, exists_where-append_one c d cs)

add_client_lem :
    (c d : ℕ) (cs : List ℕ)
    → exists_where (λ x. x == c) (add_client d cs)
      ≡ (if c == d then true else exists_where (λ x. x == c) cs)
unfolding insert_missing
add_client_lem c d cs = elim (Bool-cases (c == d)) [
  | inl same ↦
      let equal : c ≡ d = ground (arith, same) in
      rw equal (ground (arith, exists_where-append_one d d cs))
  | inr other ↦ ground (arith, exists_where-append_one c d cs)
]

drop_client_lem :
    (c d : ℕ) (cs : List ℕ)
    → exists_where (λ x. x == c) (drop_client d cs)
      ≡ (if c == d then false else exists_where (λ x. x == c) cs)
unfolding exists_where delete_where
drop_client_lem c d [] = ground arith
drop_client_lem c d (x ∷ cs) = ground (arith, drop_client_lem c d cs)

-- The hub's clients are these connections.
abbrev pub Tracked : Server → Type 0
Tracked s = (c : ℕ) → exists_where (λ x. x == c) s.hub.clients ≡ is_served (s.stage c)

internal_clients : (h h' : Hub) (step : Step h h') → IsInternal h h' step → h'.clients ≡ h.clients
internal_clients h _ (register_client c _ e) i = absurd i
internal_clients h _ (unregister_client c _ e) i = absurd i
internal_clients h _ (queue m _ e) i = refl
internal_clients h _ (receive m ms _ e q) i = refl
internal_clients h _ (write m c cs _ e) i = refl
internal_clients h _ (write_error m c cs _ e) i = refl
internal_clients h _ (finish m _ e) i = refl

is_served-set_stage :
    (d : ℕ) (st : Stage) (stage : ℕ → Stage) (c : ℕ)
    → is_served (set_stage d st stage c) ≡ (if c == d then is_served st else is_served (stage c))
is_served-set_stage d st stage c = elim (Bool-cases (c == d)) [
  | inl same ↦ rw same refl
  | inr other ↦ rw other refl
]

-- A stage may change to one that looks the same.
pub same_look :
    (look : Stage → Bool) (d : ℕ) (st : Stage) (stage : ℕ → Stage) (c : ℕ)
    → look (stage d) ≡ look st
    → look (set_stage d st stage c) ≡ look (stage c)
same_look look d st stage c h = elim (Bool-cases (c == d)) [
  | inl same ↦ let equal : c ≡ d = ground (arith, same) in rw (same, equal) (sym h)
  | inr other ↦ rw other refl
]

ServerStep-Tracked : (s s' : Server) → Tracked s → ServerStep s s' → Tracked s'
ServerStep-Tracked s _ t (hub_step h' _ step i) c = rw (internal_clients s.hub h' step i) (t c)
ServerStep-Tracked s _ t (upgrade d _ e) c =
    t c ∙ sym (same_look is_served d registering s.stage c (ap is_served e))
ServerStep-Tracked s _ t (read_error d _ e) c =
    t c ∙ sym (same_look is_served d leaving s.stage c (ap is_served e))
ServerStep-Tracked s _ t (register_conn d _ e p) c =
    rw (add_client_lem c d s.hub.clients, t c, is_served-set_stage d reading s.stage c) refl
ServerStep-Tracked s _ t (unregister_conn d _ e p) c =
    rw (drop_client_lem c d s.hub.clients, t c, is_served-set_stage d gone s.stage c) refl

ServerSteps-Tracked : (s s' : Server) → Tracked s → ServerSteps s s' → Tracked s'
ServerSteps-Tracked s _ t (no_more _) = t
ServerSteps-Tracked s s'' t (one_more _ s' _ step more) =
    ServerSteps-Tracked s' s'' (ServerStep-Tracked s s' t step) more

-- A step of the server is a step of its hub or none.
on_hub : (s s' : Server) (h : Hub) → ServerStep s s' → Steps s'.hub h → Steps s.hub h
on_hub s _ h (hub_step h' _ step i) rest = next s.hub h' h step rest
on_hub s _ h (upgrade c _ e) rest = rest
on_hub s _ h (register_conn c _ e p) rest = next s.hub _ h (register_client c s.hub p) rest
on_hub s _ h (read_error c _ e) rest = rest
on_hub s _ h (unregister_conn c _ e p) rest = next s.hub _ h (unregister_client c s.hub p) rest

pub hub-Steps : (s s' : Server) → ServerSteps s s' → Steps s.hub s'.hub
hub-Steps s _ (no_more _) = stop s.hub
hub-Steps s s'' (one_more _ s' _ step more) = on_hub s s' s''.hub step (hub-Steps s' s'' more)

abbrev pub IsConsistent : Server → Type 0
IsConsistent s = Tracked s × IsSound s.hub

-- Whatever steps the hub and the goroutines of the connections take from a consistent state, such as the
-- new server, the hub's clients are exactly the connections that have registered and not yet ended,
-- none of them twice, and the buffer holds no more messages than it has room for.
pub ServerSteps-IsConsistent : (s s' : Server) → IsConsistent s → ServerSteps s s' → IsConsistent s'
ServerSteps-IsConsistent s s' (tracked, sound) steps = (
  ServerSteps-Tracked s s' tracked steps,
  Steps-IsSound s.hub s'.hub sound (hub-Steps s s' steps),
)
