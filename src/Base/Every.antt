-- ===== src/Base/Every.antt =====
-- A property of every entry of a list.
use mathlib.Core.Path.{◌≡◌}
use mathlib.Core.Logic.{inl, inr}
use mathlib.Core.Bool.{Bool, true}
use mathlib.Core.Option.{some}
use mathlib.Core.List.{List, [], ◌∷◌, ◌++◌, map}
use deping_client_service.Base.Tests.{Bool-cases}
use deping_client_service.Base.Rows.{exists_where, insert_missing, select_one, update_where, upsert}

abbrev pub All {ℓ} : {A : Type ℓ} → (A → Type 0) → List A → Type 0
All p [] = Unit {0}
All p (x ∷ xs) = p x × All p xs

pub All-map {ℓ κ} :
    {A : Type ℓ} {B : Type κ} (f : A → B) (p : B → Type 0) (xs : List A)
    → ((a : A) → p (f a))
    → All p (map f xs)
All-map f p [] h = tt
All-map f p (x ∷ xs) h = (h x, All-map f p xs h)

pub All-append {ℓ} :
    {A : Type ℓ} (p : A → Type 0) (xs ys : List A) → All p xs → All p ys → All p (xs ++ ys)
All-append p [] ys a b = b
All-append p (x ∷ xs) ys a b = (a.0, All-append p xs ys a.1 b)

pub All-mono {ℓ} :
    {A : Type ℓ} (p q : A → Type 0) (xs : List A) → ((x : A) → p x → q x) → All p xs → All q xs
All-mono p q [] f h = tt
All-mono p q (x ∷ xs) f h = (f x h.0, All-mono p q xs f h.1)

module _ {ℓ} {A : Type ℓ} (Q : A → Type 0) where
  pub All-select_one :
      (p : A → Bool) (xs : List A) (x : A) → select_one p xs ≡ some x → All Q xs → Q x
  unfolding select_one
  All-select_one p [] x h all = cc
  All-select_one p (y ∷ xs) x h all = elim (Bool-cases (p y)) [
    | inl here ↦
        let found : some y ≡ some x = rw here at h in let same : x ≡ y = cc in rw same all.0
    | inr there ↦ All-select_one p xs x (rw there at h) all.1
  ]

  pub All-update_where :
      (p : A → Bool) (f : A → A) (xs : List A)
      → ((x : A) → p x ≡ true → Q x → Q (f x))
      → All Q xs
      → All Q (update_where p f xs)
  unfolding update_where
  All-update_where p f [] h all = tt
  All-update_where p f (x ∷ xs) h all = elim (Bool-cases (p x)) [
    | inl changed ↦ rw changed (h x changed all.0, All-update_where p f xs h all.1)
    | inr kept ↦ rw kept (all.0, All-update_where p f xs h all.1)
  ]

  pub All-upsert :
      (p : A → Bool) (f : A → A) (new : A) (xs : List A)
      → ((x : A) → p x ≡ true → Q x → Q (f x))
      → Q new
      → All Q xs
      → All Q (upsert p f new xs)
  unfolding upsert
  All-upsert p f new xs h n all = elim (Bool-cases (exists_where p xs)) [
    | inl known ↦ rw known (All-update_where p f xs h all)
    | inr missing ↦ rw missing (All-append Q xs (new ∷ []) all (n, tt))
  ]

  pub All-insert_missing :
      (p : A → Bool) (new : A) (xs : List A) → Q new → All Q xs → All Q (insert_missing p new xs)
  unfolding insert_missing
  All-insert_missing p new xs n all = elim (Bool-cases (exists_where p xs)) [
    | inl known ↦ rw known all
    | inr missing ↦ rw missing (All-append Q xs (new ∷ []) all (n, tt))
  ]
