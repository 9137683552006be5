-- ===== src/Base/Sorting.antt =====
-- ORDER BY … DESC, and LIMIT.
use Prim.Native.Nat.{ℕ, zero, suc, ◌≤◌}
use mathlib.Core.Logic.{inl, inr}
use mathlib.Core.List.{List, [], ◌∷◌, Perm}
use native.Mathlib.Omega.{arith}
use deping_client_service.Base.Tests.{leb, if◌then◌else◌, Bool-cases}
use mathlib.Core.List.Perm

module _ {ℓ} {A : Type ℓ} (key : A → ℕ) where
  unfoldable pub insert_desc : A → List A → List A
  insert_desc x [] = x ∷ []
  insert_desc x (y ∷ ys) = if leb (key y) (key x) then x ∷ y ∷ ys else y ∷ insert_desc x ys

  unfoldable pub order_desc : List A → List A
  order_desc [] = []
  order_desc (x ∷ xs) = insert_desc x (order_desc xs)

  -- No entry of the list has a key above the bound.
  abbrev pub AtMost : ℕ → List A → Type 0
  AtMost n [] = Unit {0}
  AtMost n (x ∷ xs) = (key x ≤ n) × AtMost n xs

  abbrev pub IsDescending : List A → Type 0
  IsDescending [] = Unit {0}
  IsDescending (x ∷ xs) = AtMost (key x) xs × IsDescending xs

  AtMost-mono : (m n : ℕ) (xs : List A) → m ≤ n → AtMost m xs → AtMost n xs
  AtMost-mono m n [] h a = tt
  AtMost-mono m n (x ∷ xs) h a = (omega arith, AtMost-mono m n xs h a.1)

  insert_desc-AtMost :
      (n : ℕ) (x : A) (xs : List A) → key x ≤ n → AtMost n xs → AtMost n (insert_desc x xs)
  unfolding insert_desc
  insert_desc-AtMost n x [] h a = (h, tt)
  insert_desc-AtMost n x (y ∷ ys) h a = ground (arith, insert_desc-AtMost n x ys h a.1)

  insert_desc-IsDescending :
      (x : A) (xs : List A) → IsDescending xs → IsDescending (insert_desc x xs)
  unfolding insert_desc
  insert_desc-IsDescending x [] d = (tt, tt)
  insert_desc-IsDescending x (y ∷ ys) d = ground (
    arith,
    AtMost-mono (key y) (key x) ys,
    insert_desc-AtMost (key y) x ys,
    insert_desc-IsDescending x ys d.1,
  )

  pub order_desc-IsDescending : (xs : List A) → IsDescending (order_desc xs)
  unfolding order_desc
  order_desc-IsDescending [] = tt
  order_desc-IsDescending (x ∷ xs) =
      insert_desc-IsDescending x (order_desc xs) (order_desc-IsDescending xs)

  insert_desc-perm : (x : A) (xs : List A) → Perm (insert_desc x xs) (x ∷ xs)
  unfolding insert_desc
  insert_desc-perm x [] = Perm.refl (x ∷ [])
  insert_desc-perm x (y ∷ ys) = elim (Bool-cases (leb (key y) (key x))) [
    | inl before ↦ rw before (Perm.refl (x ∷ y ∷ ys))
    | inr after ↦ rw after (Perm.trans (Perm.cons y (insert_desc-perm x ys)) (Perm.swap x y ys))
  ]

  pub order_desc-perm : (xs : List A) → Perm (order_desc xs) xs
  unfolding order_desc
  order_desc-perm [] = Perm.refl []
  order_desc-perm (x ∷ xs) =
      Perm.trans (insert_desc-perm x (order_desc xs)) (Perm.cons x (order_desc-perm xs))

module _ {ℓ} {A : Type ℓ} where
  abbrev pub take : ℕ → List A → List A
  take zero xs = []
  take (suc n) [] = []
  take (suc n) (x ∷ xs) = x ∷ take n xs
