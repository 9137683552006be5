-- ===== src/Base/Rows.antt =====
-- Tables as lists of rows, and the statements of SQL that the repositories use on them.
use Prim.Native.Nat.{ℕ, suc}
use mathlib.Core.Path.{◌≡◌, refl}
use mathlib.Core.Bool.{Bool, true, false, not, ◌&&◌}
use mathlib.Core.Option.{Option, none, some}
use mathlib.Core.List.{List, [], ◌∷◌, ◌++◌, map}
use native.Mathlib.Omega.{arith}
use deping_client_service.Base.Tests.{if◌then◌else◌}

module _ {ℓ} {A : Type ℓ} where
  abbrev pub length : List A → ℕ
  length [] = 0
  length (x ∷ xs) = suc (length xs)

  -- The first row that `QueryRow` scans.
  unfoldable pub select_one : (A → Bool) → List A → Option A
  select_one p [] = none
  select_one p (r ∷ rs) = if p r then some r else select_one p rs

  -- SELECT … WHERE p
  unfoldable pub select_where : (A → Bool) → List A → List A
  select_where p [] = []
  select_where p (r ∷ rs) = let rest = select_where p rs in if p r then r ∷ rest else rest

  -- UPDATE … SET f WHERE p
  unfoldable pub update_where : (A → Bool) → (A → A) → List A → List A
  update_where p f [] = []
  update_where p f (r ∷ rs) = (if p r then f r else r) ∷ update_where p f rs

  -- DELETE … WHERE p
  unfoldable pub delete_where : (A → Bool) → List A → List A
  delete_where p [] = []
  delete_where p (r ∷ rs) = let rest = delete_where p rs in if p r then rest else r ∷ rest

  -- SELECT EXISTS(… WHERE p)
  unfoldable pub exists_where : (A → Bool) → List A → Bool
  exists_where p [] = false
  exists_where p (r ∷ rs) = if p r then true else exists_where p rs

  -- INSERT new ON CONFLICT (p) DO UPDATE SET f
  unfoldable pub upsert : (A → Bool) → (A → A) → A → List A → List A
  upsert p f new rs = if exists_where p rs then update_where p f rs else rs ++ new ∷ []

  -- INSERT new ON CONFLICT (p) DO NOTHING
  unfoldable pub insert_missing : (A → Bool) → A → List A → List A
  insert_missing p new rs = if exists_where p rs then rs else rs ++ new ∷ []

  -- What an upsert leaves under the key.
  abbrev pub upserted : (A → A) → A → Option A → A
  upserted f new none = new
  upserted f new (some r) = f r

  abbrev pub found_or : A → Option A → A
  found_or new none = new
  found_or new (some r) = r

  abbrev pub is_some : Option A → Bool
  is_some none = false
  is_some (some a) = true

  pub exists_where-select_one :
      (p : A → Bool) (rs : List A) → exists_where p rs ≡ is_some (select_one p rs)
  unfolding exists_where select_one
  exists_where-select_one p [] = refl
  exists_where-select_one p (r ∷ rs) = ground (arith, exists_where-select_one p rs)

  pub select_one-holds :
      (p : A → Bool) (rs : List A) (r : A) → select_one p rs ≡ some r → p r ≡ true
  unfolding select_one
  select_one-holds p [] r h = cc
  select_one-holds p (x ∷ rs) r h = ground (arith, select_one-holds p rs r)

  pub select_one-append :
      (p : A → Bool) (rs : List A) (r : A)
      → select_one p (rs ++ r ∷ [])
        ≡ elim (select_one p rs) [ some x ↦ some x | none ↦ if p r then some r else none ]
  unfolding select_one
  select_one-append p [] r = ground arith
  select_one-append p (x ∷ rs) r = ground (arith, select_one-append p rs r)

  -- An update that moves no row into or out of the selection.
  pub select_one-update_where :
      (p q : A → Bool) (f : A → A) (rs : List A)
      → ((r : A) → p r ≡ true → q (f r) ≡ q r)
      → select_one q (update_where p f rs)
        ≡ elim (select_one q rs) [ some r ↦ some (if p r then f r else r) | none ↦ none ]
  unfolding select_one update_where
  select_one-update_where p q f [] h = refl
  select_one-update_where p q f (x ∷ rs) h = ground (arith, h x, select_one-update_where p q f rs h)

  pub select_one-update_where_other :
      (p q : A → Bool) (f : A → A) (rs : List A)
      → ((r : A) → p r ≡ true → q (f r) ≡ q r)
      → ((r : A) → p r ≡ true → q r ≡ false)
      → select_one q (update_where p f rs) ≡ select_one q rs
  unfolding select_one update_where
  select_one-update_where_other p q f [] h k = refl
  select_one-update_where_other p q f (x ∷ rs) h k =
      ground (arith, h x, k x, select_one-update_where_other p q f rs h k)

  -- The updated row is found under its key again.
  pub select_one-update_where_self :
      (p : A → Bool) (f : A → A) (rs : List A)
      → ((r : A) → p r ≡ true → p (f r) ≡ p r)
      → select_one p (update_where p f rs)
        ≡ elim (select_one p rs) [ some r ↦ some (f r) | none ↦ none ]
  unfolding select_one update_where
  select_one-update_where_self p f [] h = refl
  select_one-update_where_self p f (x ∷ rs) h =
      ground (arith, h x, select_one-update_where_self p f rs h)

  pub select_one-upsert :
      (p : A → Bool) (f : A → A) (new : A) (rs : List A)
      → ((r : A) → p r ≡ true → p (f r) ≡ p r)
      → p new ≡ true
      → select_one p (upsert p f new rs) ≡ some (upserted f new (select_one p rs))
  unfolding upsert
  select_one-upsert p f new rs h k = ground (
    arith,
    exists_where-select_one p rs,
    select_one-append p rs new,
    select_one-update_where_self p f rs h,
  )

  pub select_one-upsert_other :
      (p q : A → Bool) (f : A → A) (new : A) (rs : List A)
      → ((r : A) → p r ≡ true → q (f r) ≡ q r)
      → ((r : A) → p r ≡ true → q r ≡ false)
      → q new ≡ false
      → select_one q (upsert p f new rs) ≡ select_one q rs
  unfolding upsert
  select_one-upsert_other p q f new rs h k n =
      ground (arith, select_one-append q rs new, select_one-update_where_other p q f rs h k)

  pub select_one-insert_missing :
      (p : A → Bool) (new : A) (rs : List A)
      → p new ≡ true
      → select_one p (insert_missing p new rs) ≡ some (found_or new (select_one p rs))
  unfolding insert_missing
  select_one-insert_missing p new rs k =
      ground (arith, exists_where-select_one p rs, select_one-append p rs new)

  pub select_one-insert_missing_other :
      (p q : A → Bool) (new : A) (rs : List A)
      → q new ≡ false
      → select_one q (insert_missing p new rs) ≡ select_one q rs
  unfolding insert_missing
  select_one-insert_missing_other p q new rs k = ground (arith, select_one-append q rs new)

  -- An update that takes every selected row of the table out of the selection.
  pub select_one-update_where-none :
      (p q : A → Bool) (f : A → A) (rs : List A)
      → ((r : A) → p r ≡ true → q (f r) ≡ false)
      → exists_where (λ r. q r && not (p r)) rs ≡ false
      → select_one q (update_where p f rs) ≡ none
  unfolding select_one update_where exists_where
  select_one-update_where-none p q f [] h k = refl
  select_one-update_where-none p q f (x ∷ rs) h k =
      ground (arith, h x, select_one-update_where-none p q f rs h)

  -- An update that moves no row into or out of the selection, on a selection within what it updates.
  pub select_where-update_where :
      (p q : A → Bool) (f : A → A) (rs : List A)
      → ((r : A) → q r ≡ true → p r ≡ true)
      → ((r : A) → p r ≡ true → q (f r) ≡ q r)
      → select_where q (update_where p f rs) ≡ map f (select_where q rs)
  unfolding select_where update_where
  select_where-update_where p q f [] h k = refl
  select_where-update_where p q f (x ∷ rs) h k =
      ground (arith, h x, k x, select_where-update_where p q f rs h k)

  pub select_where-append :
      (q : A → Bool) (rs : List A) (r : A)
      → select_where q (rs ++ r ∷ []) ≡ select_where q rs ++ (if q r then r ∷ [] else [])
  unfolding select_where
  select_where-append q [] r = ground arith
  select_where-append q (x ∷ rs) r = ground (arith, select_where-append q rs r)

  pub exists_where-delete_where_self :
      (p : A → Bool) (rs : List A) → exists_where p (delete_where p rs) ≡ false
  unfolding exists_where delete_where
  exists_where-delete_where_self p [] = refl
  exists_where-delete_where_self p (x ∷ rs) = ground (arith, exists_where-delete_where_self p rs)

  pub exists_where-select_where :
      (q : A → Bool) (rs : List A) (r : A) (more : List A)
      → select_where q rs ≡ r ∷ more
      → exists_where q rs ≡ true
  unfolding exists_where select_where
  exists_where-select_where q [] r more h = absurd (ground arith)
  exists_where-select_where q (x ∷ rs) r more h =
      ground (arith, exists_where-select_where q rs r more)

  -- An update that moves every row that it updates into a selection that had no other rows.
  pub select_one-update_where-into :
      (p q : A → Bool) (f : A → A) (rs : List A)
      → ((r : A) → p r ≡ true → q (f r) ≡ true)
      → ((r : A) → q r ≡ true → p r ≡ true)
      → select_one q (update_where p f rs)
        ≡ elim (select_one p rs) [ some r ↦ some (f r) | none ↦ none ]
  unfolding select_one update_where
  select_one-update_where-into p q f [] h k = refl
  select_one-update_where-into p q f (x ∷ rs) h k =
      ground (arith, h x, k x, select_one-update_where-into p q f rs h k)
