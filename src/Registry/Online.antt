-- ===== src/Registry/Online.antt =====
-- What the registry (services/registry.go) reports as online, against the history of its heartbeats
-- and evictions.
use mathlib.Core.Path.{subst}
use deping_client_service.Base.{
  Bool-cases, List, Option, String, [], arith, eq_iff, eq_refl, false, if◌then◌else◌, inl, inr,
  none, refl, select_one, select_one-upsert, select_one-upsert_other, some, str_eq, true, upsert, ℕ,
  ◌∷◌, ◌≡◌, ◌≤◌, ◌⊎◌,
}
use deping_client_service.Registry.{
  ActiveNode, evict, get_online_nodes, is_node, is_online, is_stale, track_heartbeat,
}
use deping_client_service.Registry.Maps.{
  IsMap, append-IsMap, delete_where-IsMap, select_one-delete_where, select_one-select_where,
  update_where-IsMap,
}

-- What happens to the registry, with its time.
pub data Event : Type 0 where
  beat : ℕ → ActiveNode → Event
  eviction : ℕ → Event

abbrev pub handle_event : Event → List ActiveNode → List ActiveNode
handle_event (beat t n) nodes = track_heartbeat t n.pubkey n.email n.latitude n.longitude nodes
handle_event (eviction t) nodes = evict t nodes

-- A history has its newest event first; this is the registry after it.
pub registry_after : List Event → List ActiveNode
registry_after [] = []
registry_after (e ∷ es) = handle_event e (registry_after es)

abbrev pub event_time : Event → ℕ
event_time (beat t n) = t
event_time (eviction t) = t

-- No event is later than `now`, and the events are in order.
abbrev pub InOrder : ℕ → List Event → Type 0
InOrder now [] = Unit {0}
InOrder now (e ∷ es) = (event_time e ≤ now) × InOrder (event_time e) es

-- The newest heartbeat of a node.
unfoldable pub last_heartbeat : String → List Event → Option ActiveNode
last_heartbeat key [] = none
last_heartbeat key (beat t n ∷ es) =
    if str_eq n.pubkey key then some (record n { last_seen = t }) else last_heartbeat key es
last_heartbeat key (eviction t ∷ es) = last_heartbeat key es

abbrev pub if_online : ℕ → Option ActiveNode → Option ActiveNode
if_online now none = none
if_online now (some n) = if is_online now n then some n else none

handle_event-IsMap : (e : Event) (ns : List ActiveNode) → IsMap ns → IsMap (handle_event e ns)
unfolding track_heartbeat evict upsert
handle_event-IsMap (beat t n) ns h =
    let new = record n { last_seen = t } in
    ground (arith, update_where-IsMap n.pubkey new refl ns h, append-IsMap new ns)
handle_event-IsMap (eviction t) ns h = delete_where-IsMap (is_stale t) ns h

registry_after-IsMap : (es : List Event) → IsMap (registry_after es)
unfolding registry_after
registry_after-IsMap [] = tt
registry_after-IsMap (e ∷ es) = handle_event-IsMap e (registry_after es) (registry_after-IsMap es)

-- The registry's entry is the newest heartbeat, or that heartbeat is too old and the entry gone.
abbrev Agrees : ℕ → Option ActiveNode → Option ActiveNode → Type 0
Agrees now entry last = (entry ≡ last) ⊎ ((entry ≡ none) × (if_online now last ≡ none))

Agrees-later :
    (t now : ℕ) (entry last : Option ActiveNode)
    → t ≤ now
    → Agrees t entry last
    → Agrees now entry last
Agrees-later t now entry none h a = ground arith
Agrees-later t now entry (some n) h a = ground arith

Agrees-evicted :
    (t : ℕ) (entry last : Option ActiveNode)
    → Agrees t entry last
    → Agrees t (elim entry [ none ↦ none | some n ↦ if is_stale t n then none else some n ]) last
Agrees-evicted t none last a = a
Agrees-evicted t (some n) last a = ground arith

module _ (t : ℕ) (n : ActiveNode) (ns : List ActiveNode) where
  abbrev pub tracked : List ActiveNode
  tracked = track_heartbeat t n.pubkey n.email n.latitude n.longitude ns

  abbrev pub seen : ActiveNode
  seen = record n { last_seen = t }

  pub tracked_own :
      (key : String) → str_eq n.pubkey key ≡ true → select_one (is_node key) tracked ≡ some seen
  unfolding track_heartbeat
  tracked_own key own =
      let same : n.pubkey ≡ key = ground (arith, eq_iff n.pubkey key) in
      let stored =
        select_one-upsert (is_node n.pubkey) (λ _. seen) seen ns
          (λ r h. ground (arith, eq_refl n.pubkey)) (eq_refl n.pubkey) in
      let found : select_one (is_node n.pubkey) tracked ≡ some seen = ground (arith, stored) in
      subst (λ (k : String). select_one (is_node k) tracked ≡ some seen) same found

  tracked_other :
      (key : String)
      → str_eq n.pubkey key ≡ false
      → select_one (is_node key) tracked ≡ select_one (is_node key) ns
  unfolding track_heartbeat
  tracked_other key other =
      select_one-upsert_other (is_node n.pubkey) (is_node key) (λ _. seen) seen ns
        (λ r h. ground (arith, eq_iff r.pubkey n.pubkey))
        (λ r h. ground (arith, eq_iff r.pubkey n.pubkey)) other

registry_after-Agrees :
    (now : ℕ) (es : List Event) (key : String)
    → InOrder now es
    → Agrees now (select_one (is_node key) (registry_after es)) (last_heartbeat key es)
unfolding registry_after last_heartbeat select_one evict
registry_after-Agrees now [] key h = inl refl
registry_after-Agrees now (beat t n ∷ es) key (first, before) =
    let older = registry_after-Agrees t es key before in
    let later =
      Agrees-later t now (select_one (is_node key) (registry_after es)) (last_heartbeat key es)
        first older in
    elim (Bool-cases (str_eq n.pubkey key)) [
      | inl own ↦ rw (own, tracked_own t n (registry_after es) key own) (inl refl)
      | inr other ↦ rw (other, tracked_other t n (registry_after es) key other) later
    ]
registry_after-Agrees now (eviction t ∷ es) key (first, before) =
    let older = registry_after-Agrees t es key before in
    let entry = select_one (is_node key) (registry_after es) in
    rw (select_one-delete_where (is_stale t) key (registry_after es) (registry_after-IsMap es)) (
      Agrees-later t now _ (last_heartbeat key es) first
        (Agrees-evicted t entry (last_heartbeat key es) older))

-- Evictions are invisible: for every history in order, the nodes reported as online are those whose
-- newest heartbeat is at most five minutes old, each with the data of that heartbeat.
pub get_online_nodes-last_heartbeat :
    (now : ℕ) (es : List Event) (key : String)
    → InOrder now es
    → select_one (is_node key) (get_online_nodes now (registry_after es))
      ≡ if_online now (last_heartbeat key es)
unfolding get_online_nodes
get_online_nodes-last_heartbeat now es key h = ground (
  arith,
  select_one-select_where (is_online now) key (registry_after es) (registry_after-IsMap es),
  registry_after-Agrees now es key h,
)
