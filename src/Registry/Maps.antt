-- ===== src/Registry/Maps.antt =====
-- The registry of services/registry.go as a map: one entry for each key.
use deping_client_service.Base.{
  Bool, Bool-cases, List, String, [], arith, delete_where, eq_iff, exists_where,
  exists_where-select_one, false, if◌then◌else◌, inl, inr, none, refl, select_one, select_where,
  some, str_eq, sym, true, update_where, ◌++◌, ◌||◌, ◌∙◌, ◌∷◌, ◌≡◌,
}
use deping_client_service.Registry.{ActiveNode, is_node}

-- A map has one entry for each key.
abbrev pub IsMap : List ActiveNode → Type 0
IsMap [] = Unit {0}
IsMap (n ∷ ns) = (exists_where (is_node n.pubkey) ns ≡ false) × IsMap ns

-- In a map, the entries after a node's have other keys.
none_after :
    (key : String) (n : ActiveNode) (ns : List ActiveNode)
    → exists_where (is_node n.pubkey) ns ≡ false
    → str_eq n.pubkey key ≡ true
    → select_one (is_node key) ns ≡ none
none_after key n ns h k =
    let same : n.pubkey ≡ key = ground (arith, eq_iff n.pubkey key) in
    let gone : exists_where (is_node key) ns ≡ false = rw (sym same) h in
    ground (arith, exists_where-select_one (is_node key) ns)

module _ (p : ActiveNode → Bool) where
  exists_where-delete_where :
      (q : ActiveNode → Bool) (ns : List ActiveNode)
      → exists_where q ns ≡ false
      → exists_where q (delete_where p ns) ≡ false
  unfolding exists_where delete_where
  exists_where-delete_where q [] h = refl
  exists_where-delete_where q (n ∷ ns) h = ground (arith, exists_where-delete_where q ns)

  pub delete_where-IsMap : (ns : List ActiveNode) → IsMap ns → IsMap (delete_where p ns)
  unfolding delete_where
  delete_where-IsMap [] h = tt
  delete_where-IsMap (n ∷ ns) h =
      ground (arith, exists_where-delete_where (is_node n.pubkey) ns h.0, delete_where-IsMap ns h.1)

  pub select_one-delete_where :
      (key : String) (ns : List ActiveNode)
      → IsMap ns
      → select_one (is_node key) (delete_where p ns)
        ≡ elim (select_one (is_node key) ns) [ none ↦ none | some n ↦ if p n then none else some n ]
  unfolding select_one delete_where
  select_one-delete_where key [] h = refl
  select_one-delete_where key (n ∷ ns) h =
      ground (arith, none_after key n ns h.0, select_one-delete_where key ns h.1)

  pub select_one-select_where :
      (key : String) (ns : List ActiveNode)
      → IsMap ns
      → select_one (is_node key) (select_where p ns)
        ≡ elim (select_one (is_node key) ns) [ none ↦ none | some n ↦ if p n then some n else none ]
  unfolding select_one select_where
  select_one-select_where key [] h = refl
  select_one-select_where key (n ∷ ns) h =
      ground (arith, none_after key n ns h.0, select_one-select_where key ns h.1)

module _ (key : String) (new : ActiveNode) (named : new.pubkey ≡ key) where
  exists_where-update_where :
      (k : String) (ns : List ActiveNode)
      → exists_where (is_node k) (update_where (is_node key) (λ _. new) ns)
        ≡ exists_where (is_node k) ns
  unfolding exists_where update_where
  exists_where-update_where k [] = refl
  exists_where-update_where k (n ∷ ns) =
      ground (arith, named, eq_iff n.pubkey key, exists_where-update_where k ns)

  pub update_where-IsMap :
      (ns : List ActiveNode) → IsMap ns → IsMap (update_where (is_node key) (λ _. new) ns)
  unfolding update_where
  update_where-IsMap [] h = tt
  update_where-IsMap (n ∷ ns) h = elim (Bool-cases (str_eq n.pubkey key)) [
    | inl own ↦
        let same : n.pubkey ≡ new.pubkey = ground (arith, named, eq_iff n.pubkey key) in
        rw own
          (exists_where-update_where new.pubkey ns ∙ rw (sym same) h.0, update_where-IsMap ns h.1)
    | inr other ↦ rw other (exists_where-update_where n.pubkey ns ∙ h.0, update_where-IsMap ns h.1)
  ]

exists_where-append :
    (q : ActiveNode → Bool) (new : ActiveNode) (ns : List ActiveNode)
    → exists_where q (ns ++ new ∷ []) ≡ (exists_where q ns || q new)
unfolding exists_where
exists_where-append q new [] = ground arith
exists_where-append q new (n ∷ ns) = ground (arith, exists_where-append q new ns)

pub append-IsMap :
    (new : ActiveNode) (ns : List ActiveNode)
    → exists_where (is_node new.pubkey) ns ≡ false
    → IsMap ns
    → IsMap (ns ++ new ∷ [])
unfolding exists_where
append-IsMap new [] h m = (refl, tt)
append-IsMap new (n ∷ ns) h m = ground (
  arith,
  exists_where-append (is_node n.pubkey) new ns,
  eq_iff n.pubkey new.pubkey,
  eq_iff new.pubkey n.pubkey,
  append-IsMap new ns,
)
