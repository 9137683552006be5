-- ===== src/App/Declared.antt =====
-- What a declaration leaves declared (app/application.go, declareQueues).
use deping_client_service.Base.{
  Bool, Bool-cases, List, String, [], arith, eq_iff, eq_refl, exists_where, inl, inr,
  insert_missing, refl, str_eq, true, ◌++◌, ◌||◌, ◌∙◌, ◌∷◌, ◌≡◌,
}
use deping_client_service.App.{is_declared, same_binding}

exists_where-append {ℓ} :
    {A : Type ℓ} (p : A → Bool) (xs ys : List A)
    → exists_where p xs ≡ true
    → exists_where p (xs ++ ys) ≡ true
unfolding exists_where
exists_where-append p [] ys h = absurd (ground arith)
exists_where-append p (x ∷ xs) ys h = ground (arith, exists_where-append p xs ys)

exists_where-last {ℓ} :
    {A : Type ℓ} (p : A → Bool) (xs : List A) (y : A)
    → p y ≡ true
    → exists_where p (xs ++ y ∷ []) ≡ true
unfolding exists_where
exists_where-last p [] y h = rw h refl
exists_where-last p (x ∷ xs) y h = ground (arith, exists_where-last p xs y h)

pub is_declared-kept :
    (n q : String) (names : List String)
    → is_declared n names ≡ true
    → is_declared n (insert_missing (str_eq q) q names) ≡ true
unfolding insert_missing
is_declared-kept n q names h = ground (arith, exists_where-append (str_eq n) names (q ∷ []) h)

pub is_declared-added :
    (q : String) (names : List String) → is_declared q (insert_missing (str_eq q) q names) ≡ true
unfolding insert_missing
is_declared-added q names = ground (arith, exists_where-last (str_eq q) names q (eq_refl q))

pub is_declared-cons :
    (n q : String) (names : List String)
    → is_declared n names ≡ true
    → is_declared n (q ∷ names) ≡ true
unfolding exists_where
is_declared-cons n q names h = ground (arith, h)

pub is_declared-first : (q : String) (names : List String) → is_declared q (q ∷ names) ≡ true
unfolding exists_where
is_declared-first q names = rw (eq_refl q) refl

pub is_bound-kept :
    (e f : String × String) (bindings : List (String × String))
    → exists_where (same_binding e) bindings ≡ true
    → exists_where (same_binding e) (insert_missing (same_binding f) f bindings) ≡ true
unfolding insert_missing
is_bound-kept e f bindings h =
    ground (arith, exists_where-append (same_binding e) bindings (f ∷ []) h)

pub is_bound-added :
    (q x : String) (bindings : List (String × String))
    → exists_where (same_binding (q, x)) (insert_missing (same_binding (q, x)) (q, x) bindings)
      ≡ true
unfolding insert_missing
is_bound-added q x bindings =
    let own : same_binding (q, x) (q, x) ≡ true = ground (arith, eq_refl q, eq_refl x) in
    ground (arith, exists_where-last (same_binding (q, x)) bindings (q, x) own)

exists_where-snoc {ℓ} :
    {A : Type ℓ} (p : A → Bool) (xs : List A) (y : A)
    → exists_where p (xs ++ y ∷ []) ≡ (p y || exists_where p xs)
unfolding exists_where
exists_where-snoc p [] y = ground arith
exists_where-snoc p (x ∷ xs) y = ground (arith, exists_where-snoc p xs y)

same_binding_as :
    (e f : String × String) (bindings : List (String × String))
    → same_binding e f ≡ true
    → exists_where (same_binding e) bindings ≡ exists_where (same_binding f) bindings
same_binding_as e f bindings h =
    let first : e.0 ≡ f.0 = ground (arith, eq_iff e.0 f.0, h) in
    let second : e.1 ≡ f.1 = ground (arith, eq_iff e.1 f.1, h) in rw (first, second) refl

-- A binding is there after it is made, and the others as before.
pub is_bound-insert_missing :
    (e f : String × String) (bindings : List (String × String))
    → exists_where (same_binding e) (insert_missing (same_binding f) f bindings)
      ≡ (same_binding e f || exists_where (same_binding e) bindings)
unfolding insert_missing
is_bound-insert_missing e f bindings = elim (Bool-cases (exists_where (same_binding f) bindings)) [
  | inr missing ↦ rw missing (exists_where-snoc (same_binding e) bindings f)
  | inl there ↦ elim (Bool-cases (same_binding e f)) [
    | inr other ↦ rw (there, other) refl
    | inl same ↦ rw (there, same) (same_binding_as e f bindings same ∙ there)
  ]
]
