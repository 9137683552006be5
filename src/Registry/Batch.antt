-- ===== src/Registry/Batch.antt =====
-- What MatchBatch (services/registry.go) assigns.
use deping_client_service.Base.{
  Bool, Bool-cases, List, Option-cases, String, [], arith, eq_iff, eq_refl, exists_where, false,
  if◌then◌else◌, inl, inr, leb, refl, some, str_eq, true, ℕ, ◌+◌, ◌∷◌, ◌≡◌, ◌≤◌,
}
use deping_client_service.World.{Monitor}
use deping_client_service.Registry.{
  ActiveNode, Assignment, Matching, Urls, assign, clean_domain, get_online_nodes, is_assigned,
  is_node, match_batch, match_monitor, match_monitors, match_online, new_matching, next_node,
}

module _ {ℓ} {A : Type ℓ} where
  -- Every entry of the list has the property.
  abbrev pub All : (A → Type 0) → List A → Type 0
  All P [] = Unit {0}
  All P (x ∷ xs) = P x × All P xs

  unfoldable pub count_where : (A → Bool) → List A → ℕ
  count_where p [] = 0
  count_where p (x ∷ xs) = (if p x then 1 else 0) + count_where p xs

-- No node has two monitors.
abbrev pub IsExclusive : List Assignment → Type 0
IsExclusive [] = Unit {0}
IsExclusive (a ∷ rest) = (exists_where (is_assigned a.node) rest ≡ false) × IsExclusive rest

module _ (urls : Urls) (nodes : List ActiveNode) (batch : List Monitor) where
  abbrev pub in_domain : String → Assignment → Bool
  in_domain domain a = str_eq (clean_domain urls a.monitor.target_url) domain

  -- The assigned node is one of the nodes, and the monitor one of the batch.
  abbrev pub IsFrom : Assignment → Type 0
  IsFrom a =
      (exists_where (is_node a.node) nodes ≡ true)
      × (exists_where (λ m. str_eq m.id a.monitor.id) batch ≡ true)

  pub record IsMatching (assignments : List Assignment) : Type 0 where
    pub from_batch : All IsFrom assignments
    pub exclusive : IsExclusive assignments
    pub at_most_five : (domain : String) → count_where (in_domain domain) assignments ≤ 5

  -- The counters of the loop count.
  record Counted (s : Matching) : Type 0 where
    matching : IsMatching s.assignments
    counted :
        (domain : String) → s.domain_counts domain ≡ count_where (in_domain domain) s.assignments

  next_node-free :
      (ns : List ActiveNode) (assignments : List Assignment) (last node : String)
      → next_node ns assignments last ≡ some node
      → (exists_where (is_node node) ns ≡ true)
        × (exists_where (is_assigned node) assignments ≡ false)
        × (str_eq node last ≡ false)
  unfolding next_node exists_where
  next_node-free [] assignments last node h = absurd (ground arith)
  next_node-free (n ∷ ns) assignments last node h =
      ground (arith, eq_refl n.pubkey, next_node-free ns assignments last node)

  assign-Counted :
      (m : Monitor) (node : String) (s : Matching)
      → let domain = clean_domain urls m.target_url in
        exists_where (λ x. str_eq x.id m.id) batch ≡ true
        → exists_where (is_node node) nodes ≡ true
        → exists_where (is_assigned node) s.assignments ≡ false
        → leb 5 (s.domain_counts domain) ≡ false
        → Counted s
        → Counted (assign domain m node s)
  unfolding count_where
  assign-Counted m node s h online free below c =
      let domain = clean_domain urls m.target_url in
      record {
        matching = record {
          from_batch = ((online, h), c.matching.from_batch);
          exclusive = (free, c.matching.exclusive);
          at_most_five =
              λ d. ground (arith, c.counted domain, c.matching.at_most_five d, eq_iff domain d);
        };
        counted =
            λ d. ground (arith, c.counted d, c.counted domain, eq_iff domain d, eq_iff d domain);
      }

  match_monitor-Counted :
      (m : Monitor) (s : Matching)
      → exists_where (λ x. str_eq x.id m.id) batch ≡ true
      → Counted s
      → Counted (match_monitor urls nodes m s)
  unfolding match_monitor
  match_monitor-Counted m s h c =
      let domain = clean_domain urls m.target_url in
      let last = s.last_used_nodes domain in
      elim (Bool-cases (leb 5 (s.domain_counts domain))) [
        | inl full ↦ rw full c
        | inr below ↦ elim (Option-cases (next_node nodes s.assignments last)) [
          | inl busy ↦ rw (below, busy) c
          | inr (node, found) ↦
              let (online, free, _) = next_node-free nodes s.assignments last node found in
              rw (below, found) (assign-Counted m node s h online free below c)
        ]
      ]

  match_monitors-Counted :
      (ms : List Monitor) (s : Matching)
      → All (λ m. exists_where (λ x. str_eq x.id m.id) batch ≡ true) ms
      → Counted s
      → Counted (match_monitors urls nodes ms s)
  unfolding match_monitors
  match_monitors-Counted [] s h c = c
  match_monitors-Counted (m ∷ ms) s h c =
      match_monitors-Counted ms (match_monitor urls nodes m s) h.1 (match_monitor-Counted m s h.0 c)

  new_matching-Counted :
      (last_used_nodes : String → String) → Counted (new_matching last_used_nodes)
  unfolding count_where
  new_matching-Counted last_used_nodes = record {
    matching = record { from_batch = tt; exclusive = tt; at_most_five = λ d. omega arith };
    counted = λ d. refl;
  }

All-weaken :
    {A : Type 0} (P Q : A → Type 0) (xs : List A) → ((x : A) → P x → Q x) → All P xs → All Q xs
All-weaken P Q [] f h = tt
All-weaken P Q (x ∷ xs) f h = (f x h.0, All-weaken P Q xs f h.1)

members : (ms : List Monitor) → All (λ m. exists_where (λ x. str_eq x.id m.id) ms ≡ true) ms
unfolding exists_where
members [] = tt
members (m ∷ ms) = (
  ground (arith, eq_refl m.id),
  All-weaken _ (λ x. exists_where (λ y. str_eq y.id x.id) (m ∷ ms) ≡ true) ms (λ x k. ground arith)
      (members ms),
)

match_online-IsMatching :
    (urls : Urls) (online : List ActiveNode) (monitors : List Monitor)
    (last_used_nodes : String → String)
    → IsMatching urls online monitors (match_online urls online monitors last_used_nodes).0
match_online-IsMatching urls [] monitors last_used_nodes =
    (new_matching-Counted urls [] monitors last_used_nodes).matching
match_online-IsMatching urls (n ∷ ns) monitors last_used_nodes =
    (match_monitors-Counted urls (n ∷ ns) monitors monitors (new_matching last_used_nodes)
      (members monitors) (new_matching-Counted urls (n ∷ ns) monitors last_used_nodes)).matching

-- For every batch, every history of the domains and every order of the nodes: a node that is
-- assigned is online and has one monitor, the monitors are those of the batch, and no domain gets
-- more than five.
pub match_batch-IsMatching :
    (urls : Urls) (now : ℕ) (nodes : List ActiveNode) (monitors : List Monitor)
    (last_used_nodes : String → String)
    → IsMatching urls
        (get_online_nodes now nodes)
        monitors
        (match_batch urls now nodes monitors last_used_nodes).0
unfolding match_batch
match_batch-IsMatching urls now nodes monitors last_used_nodes =
    match_online-IsMatching urls (get_online_nodes now nodes) monitors last_used_nodes

-- Every domain of the batch was last given to the node.
abbrev pub LastUsed : Urls → String → (String → String) → List Monitor → Type 0
LastUsed urls key last_used_nodes monitors =
    All (λ m. str_eq key (last_used_nodes (clean_domain urls m.target_url)) ≡ true) monitors

match_monitors_lone :
    (urls : Urls) (n : ActiveNode) (monitors : List Monitor) (s : Matching)
    → LastUsed urls n.pubkey s.last_used_nodes monitors
    → match_monitors urls (n ∷ []) monitors s ≡ s
unfolding match_monitors match_monitor next_node
match_monitors_lone urls n [] s used = refl
match_monitors_lone urls n (m ∷ ms) s used =
    ground (arith, used.0, match_monitors_lone urls n ms s used.1)

-- Where one node is online and every domain of the batch was last given to it, nothing is assigned
-- and the memory of the last nodes stays as it was: the rotation leaves these domains without checks
-- until another node is online.
pub match_batch_lone_node :
    (urls : Urls) (now : ℕ) (nodes : List ActiveNode) (n : ActiveNode) (monitors : List Monitor)
    (last_used_nodes : String → String)
    → get_online_nodes now nodes ≡ n ∷ []
    → LastUsed urls n.pubkey last_used_nodes monitors
    → match_batch urls now nodes monitors last_used_nodes ≡ ([], last_used_nodes)
unfolding match_batch
match_batch_lone_node urls now nodes n monitors last_used_nodes lone used =
    ground (arith, lone, match_monitors_lone urls n monitors (new_matching last_used_nodes) used)
