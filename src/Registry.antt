-- ===== src/Registry.antt =====
-- services/registry.go: the in-memory registry of the nodes and the scheduler that assigns monitors
-- to them. Times are in nanoseconds; `now - last` stops at 0 where Go's Sub is negative, and both are
-- then below the five minutes. A Go map is a list of its entries, in the order in which a loop visits
-- them, or a function where the code only looks keys up. The parsing and lower-casing of a URL
-- (net/url, strings) are the parameters of `Urls`.
pub mod Maps
pub mod Online
pub mod Batch
use deping_client_service.Base.{
  Bool, List, Option, String, [], delete_where, exists_where, if◌then◌else◌, leb, ltb, none,
  select_where, some, str_eq, upsert, ℕ, ◌+◌, ◌-◌, ◌||◌, ◌∷◌,
}
use deping_client_service.World.{Monitor}

pub record ActiveNode : Type 0 where
  pub pubkey : String
  pub email : String
  pub latitude : ℕ
  pub longitude : ℕ
  pub last_seen : ℕ

abbrev pub is_node : String → ActiveNode → Bool
is_node key n = str_eq n.pubkey key

abbrev pub five_minutes : ℕ
five_minutes = 300000000000

unfoldable pub track_heartbeat : ℕ → String → String → ℕ → ℕ → List ActiveNode → List ActiveNode
track_heartbeat now pubkey email latitude longitude nodes =
    let node : ActiveNode = record {
      pubkey = pubkey;
      email = email;
      latitude = latitude;
      longitude = longitude;
      last_seen = now;
    } in
    upsert (is_node pubkey) (λ _. node) node nodes

abbrev pub is_online : ℕ → ActiveNode → Bool
is_online now n = leb (now - n.last_seen) five_minutes

unfoldable pub get_online_nodes : ℕ → List ActiveNode → List ActiveNode
get_online_nodes now nodes = select_where (is_online now) nodes

abbrev pub is_stale : ℕ → ActiveNode → Bool
is_stale now n = ltb five_minutes (now - n.last_seen)

-- One tick of startEvictionLoop.
unfoldable pub evict : ℕ → List ActiveNode → List ActiveNode
evict now nodes = delete_where (is_stale now) nodes

-- url.Parse and Hostname, `none` where the parse fails; strings.ToLower.
pub record Urls : Type 0 where
  pub hostname : String → Option String
  pub to_lower : String → String

unfoldable pub clean_domain : Urls → String → String
clean_domain urls raw_url = elim (urls.hostname raw_url) [
  | none ↦ urls.to_lower raw_url
  | some host ↦ urls.to_lower host
]

-- An entry of `assignments`.
pub record Assignment : Type 0 where
  pub node : String
  pub monitor : Monitor

-- The variables of MatchBatch, and `lastUsedNodes`; a missing key reads as 0 or "".
pub record Matching : Type 0 where
  pub assignments : List Assignment
  pub domain_counts : String → ℕ
  pub last_used_nodes : String → String

abbrev pub is_assigned : String → Assignment → Bool
is_assigned key a = str_eq a.node key

-- The inner loop: the first node that is neither busy nor the last one used for the domain.
unfoldable pub next_node : List ActiveNode → List Assignment → String → Option String
next_node [] assignments last = none
next_node (n ∷ ns) assignments last =
    if exists_where (is_assigned n.pubkey) assignments || str_eq n.pubkey last
    then next_node ns assignments last
    else some n.pubkey

abbrev pub set_key {ℓ} : {A : Type ℓ} → String → A → (String → A) → String → A
set_key key value f k = if str_eq k key then value else f k

abbrev pub assign : String → Monitor → String → Matching → Matching
assign domain m node s = record {
  assignments = record { node = node; monitor = m } ∷ s.assignments;
  domain_counts = set_key domain (s.domain_counts domain + 1) s.domain_counts;
  last_used_nodes = set_key domain node s.last_used_nodes;
}

-- One round of the outer loop.
unfoldable pub match_monitor : Urls → List ActiveNode → Monitor → Matching → Matching
match_monitor urls nodes m s =
    let domain = clean_domain urls m.target_url in
    if leb 5 (s.domain_counts domain)
    then s
    else elim (next_node nodes s.assignments (s.last_used_nodes domain)) [
      | none ↦ s
      | some node ↦ assign domain m node s
    ]

unfoldable pub match_monitors : Urls → List ActiveNode → List Monitor → Matching → Matching
match_monitors urls nodes [] s = s
match_monitors urls nodes (m ∷ ms) s = match_monitors urls nodes ms (match_monitor urls nodes m s)

abbrev pub new_matching : (String → String) → Matching
new_matching last_used_nodes = record {
  assignments = [];
  domain_counts = λ domain. 0;
  last_used_nodes = last_used_nodes;
}

-- MatchBatch on the nodes that are online: the assignments, and `lastUsedNodes` afterwards.
abbrev pub match_online :
    Urls → List ActiveNode → List Monitor → (String → String) → List Assignment × (String → String)
match_online urls [] monitors last_used_nodes = ([], last_used_nodes)
match_online urls (n ∷ ns) monitors last_used_nodes =
    let s = match_monitors urls (n ∷ ns) monitors (new_matching last_used_nodes) in
    (s.assignments, s.last_used_nodes)

unfoldable pub match_batch :
    Urls
    → ℕ
    → List ActiveNode
    → List Monitor
    → (String → String)
    → List Assignment × (String → String)
match_batch urls now nodes monitors last_used_nodes =
    match_online urls (get_online_nodes now nodes) monitors last_used_nodes
