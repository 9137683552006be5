-- ===== src/Base/Unique.antt =====
-- Tables in which no two rows have the same key.
use mathlib.Core.Path.{◌≡◌, refl, ◌∙◌}
use mathlib.Core.Logic.{inl, inr}
use mathlib.Core.Bool.{Bool, true, false, ◌||◌}
use mathlib.Core.Option.{some}
use mathlib.Core.List.{List, [], ◌∷◌, ◌++◌}
use native.Mathlib.Omega.{arith}
use deping_client_service.Base.Tests.{Bool-cases}
use deping_client_service.Base.Rows.{exists_where, insert_missing, select_one, update_where, upsert}
use deping_client_service.Base.Every.{All}

module _ {ℓ} {A : Type ℓ} where
  -- `same y x` says that `y` has the key of `x`.
  abbrev pub IsUnique : (A → A → Bool) → List A → Type 0
  IsUnique same [] = Unit {0}
  IsUnique same (x ∷ xs) = (exists_where (λ y. same y x) xs ≡ false) × IsUnique same xs

  pub update_where-missing :
      (p : A → Bool) (f : A → A) (xs : List A)
      → exists_where p xs ≡ false
      → update_where p f xs ≡ xs
  unfolding update_where exists_where
  update_where-missing p f [] h = refl
  update_where-missing p f (x ∷ xs) h = ground (arith, update_where-missing p f xs)

  exists_where-same :
      (p q : A → Bool) (xs : List A) → ((x : A) → p x ≡ q x) → exists_where p xs ≡ exists_where q xs
  unfolding exists_where
  exists_where-same p q [] h = refl
  exists_where-same p q (x ∷ xs) h = ground (arith, h x, exists_where-same p q xs h)

  pub exists_where_longer :
      (p : A → Bool) (xs ys : List A) → exists_where p xs ≡ true → exists_where p (xs ++ ys) ≡ true
  unfolding exists_where
  exists_where_longer p [] ys h = absurd (ground (arith, h))
  exists_where_longer p (x ∷ xs) ys h = elim (Bool-cases (p x)) [
    | inl here ↦ rw here refl
    | inr there ↦ rw there (exists_where_longer p xs ys (rw there at h))
  ]

  -- What follows from one of two tests that no row meets is met by no row.
  pub exists_where_neither :
      (p q r : A → Bool) (xs : List A)
      → ((x : A) → r x ≡ true → (p x || q x) ≡ true)
      → exists_where p xs ≡ false
      → exists_where q xs ≡ false
      → exists_where r xs ≡ false
  unfolding exists_where
  exists_where_neither p q r [] h a b = refl
  exists_where_neither p q r (x ∷ xs) h a b = elim (Bool-cases (r x)) [
    | inl here ↦ absurd (ground (arith, h x here, a, b))
    | inr there ↦ ground (arith, there, exists_where_neither p q r xs h, a, b)
  ]

  pub exists_where_apart :
      (q p : A → Bool) (f : A → A) (xs : List A)
      → ((x : A) → q (f x) ≡ false)
      → exists_where q xs ≡ false
      → exists_where q (update_where p f xs) ≡ false
  unfolding exists_where update_where
  exists_where_apart q p f [] h a = refl
  exists_where_apart q p f (x ∷ xs) h a = ground (arith, h x, exists_where_apart q p f xs h, a)

  exists_where_selected :
      (p q : A → Bool) (xs : List A) (t : A)
      → q t ≡ true
      → select_one p xs ≡ some t
      → exists_where q xs ≡ true
  unfolding select_one exists_where
  exists_where_selected p q [] t k found = absurd (ground (arith, found))
  exists_where_selected p q (x ∷ xs) t k found = elim (Bool-cases (p x)) [
    | inl here ↦
        let same : some x ≡ some t = rw here at found in
        let there : q x ≡ true = let e : x ≡ t = cc in rw e k in rw there refl
    | inr other ↦
        let rest = exists_where_selected p q xs t k (rw other at found) in ground (arith, rest)
  ]

  -- The one row under a key is found by any test that tells the key.
  pub select_one_unique :
      (same : A → A → Bool) (p q : A → Bool) (xs : List A) (t : A)
      → IsUnique same xs
      → ((x : A) → q x ≡ true → same t x ≡ true)
      → q t ≡ true
      → select_one p xs ≡ some t
      → select_one q xs ≡ some t
  unfolding select_one
  select_one_unique same p q [] t unique h k found = absurd (ground (arith, found))
  select_one_unique same p q (x ∷ xs) t unique h k found = elim (Bool-cases (p x)) [
    | inl here ↦
        let same_row : some x ≡ some t = rw here at found in
        let there : q x ≡ true = let e : x ≡ t = cc in rw e k in rw there same_row
    | inr other ↦
        let later : select_one p xs ≡ some t = rw other at found in
        elim (Bool-cases (q x)) [
          | inl hit ↦
              let twice = exists_where_selected p (λ y. same y x) xs t (h x hit) later in
              absurd (ground (arith, twice, unique.0))
          | inr miss ↦ rw miss (select_one_unique same p q xs t unique.1 h k later)
        ]
  ]

  exists_where-append :
      (p : A → Bool) (xs : List A) (new : A)
      → exists_where p xs ≡ false
      → p new ≡ false
      → exists_where p (xs ++ new ∷ []) ≡ false
  unfolding exists_where
  exists_where-append p [] new h k = ground (arith, k)
  exists_where-append p (x ∷ xs) new h k = ground (arith, exists_where-append p xs new)

  pub exists_where-update_where :
      (q p : A → Bool) (f : A → A) (xs : List A)
      → ((x : A) → q (f x) ≡ q x)
      → exists_where q (update_where p f xs) ≡ exists_where q xs
  unfolding exists_where update_where
  exists_where-update_where q p f [] h = refl
  exists_where-update_where q p f (x ∷ xs) h =
      ground (arith, h x, exists_where-update_where q p f xs h)

  -- An update of the one row under a key.
  pub All-update_where_one :
      (Q : A → Type 0) (same : A → A → Bool) (p : A → Bool) (f : A → A) (xs : List A)
      → IsUnique same xs
      → ((x : A) → p x ≡ true → (y : A) → p y ≡ same y x)
      → ((x : A) → select_one p xs ≡ some x → Q (f x))
      → All Q xs
      → All Q (update_where p f xs)
  unfolding update_where select_one
  All-update_where_one Q same p f [] unique key h all = tt
  All-update_where_one Q same p f (x ∷ xs) unique key h all = elim (Bool-cases (p x)) [
    | inl here ↦
        let rest : exists_where p xs ≡ false =
          exists_where-same p (λ y. same y x) xs (key x here) ∙ unique.0 in
        rw (here, update_where-missing p f xs rest) ((rw here at h) x refl, all.1)
    | inr there ↦
        rw there (all.0, All-update_where_one Q same p f xs unique.1 key (rw there at h) all.1)
  ]

  pub IsUnique-update_where :
      (same : A → A → Bool) (p : A → Bool) (f : A → A) (xs : List A)
      → ((x y : A) → (same (f x) y ≡ same x y) × (same y (f x) ≡ same y x))
      → IsUnique same xs
      → IsUnique same (update_where p f xs)
  unfolding update_where
  IsUnique-update_where same p f [] h unique = tt
  IsUnique-update_where same p f (x ∷ xs) h unique =
      let here = exists_where-update_where (λ y. same y x) p f xs (λ y. (h y x).0) ∙ unique.0 in
      let moved =
        exists_where-update_where (λ y. same y (f x)) p f xs (λ y. (h y (f x)).0)
        ∙ exists_where-same (λ y. same y (f x)) (λ y. same y x) xs (λ y. (h x y).1)
        ∙ unique.0 in
      let rest = IsUnique-update_where same p f xs h unique.1 in
      elim (Bool-cases (p x)) [
        | inl changed ↦ rw changed (moved, rest)
        | inr kept ↦ rw kept (here, rest)
      ]

  pub IsUnique-append :
      (same : A → A → Bool) (xs : List A) (new : A)
      → ((x : A) → same new x ≡ same x new)
      → exists_where (λ x. same x new) xs ≡ false
      → IsUnique same xs
      → IsUnique same (xs ++ new ∷ [])
  unfolding exists_where
  IsUnique-append same [] new h k unique = (refl, tt)
  IsUnique-append same (x ∷ xs) new h k unique = (
    exists_where-append (λ y. same y x) xs new unique.0 (ground (arith, h x, k)),
    IsUnique-append same xs new h (ground (arith, k)) unique.1,
  )

  pub IsUnique-insert_missing :
      (same : A → A → Bool) (new : A) (xs : List A)
      → ((x : A) → same new x ≡ same x new)
      → IsUnique same xs
      → IsUnique same (insert_missing (λ x. same x new) new xs)
  unfolding insert_missing
  IsUnique-insert_missing same new xs h unique =
      elim (Bool-cases (exists_where (λ x. same x new) xs)) [
        | inl known ↦ rw known unique
        | inr missing ↦ rw missing (IsUnique-append same xs new h missing unique)
      ]

  pub IsUnique-upsert :
      (same : A → A → Bool) (f : A → A) (new : A) (xs : List A)
      → ((x : A) → same new x ≡ same x new)
      → ((x y : A) → (same (f x) y ≡ same x y) × (same y (f x) ≡ same y x))
      → IsUnique same xs
      → IsUnique same (upsert (λ x. same x new) f new xs)
  unfolding upsert
  IsUnique-upsert same f new xs h k unique = elim (Bool-cases (exists_where (λ x. same x new) xs)) [
    | inl known ↦ rw known (IsUnique-update_where same (λ x. same x new) f xs k unique)
    | inr missing ↦ rw missing (IsUnique-append same xs new h missing unique)
  ]
