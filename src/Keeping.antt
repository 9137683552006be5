-- ===== src/Keeping.antt =====
-- Invariants of the world: `Keeps P m` says that the call `m` keeps `P`, whether it returns, fails or
-- panics; one rule for each way in which the calls are composed.
use deping_client_service.Base.{
  Bool, Bool-cases, List, Option, arith, false, if◌then◌else◌, inl, inr, none, refl, some, true,
  ◌≡◌,
}
use deping_client_service.World.{
  Error, M, Outcome, World, attempt, branch, called, choose, commit, committed, continue,
  drop_error, err, exec, external, fail, ignoring, later_faults, lift, next_fails, no_rows, ok,
  or_zero, panic, pure, reads, scan_optional, scan_row, transaction, value_or, wrap_error, wrapping,
  ◌>>=◌,
}

pub record Keeps {A : Type 0} (P : World → Type 0) (m : M A) : Type 0 where
  pub at : (w : World) → P w → P (m w).1

wrap_error_kept :
    {A : Type 0} (f : Error → Error) (p : Outcome A × World) → (wrap_error f p).1 ≡ p.1
wrap_error_kept f (ok a, w) = refl
wrap_error_kept f (err e, w) = refl
wrap_error_kept f (panic, w) = refl

drop_error_kept : (p : Outcome (Unit {0}) × World) → (drop_error p).1 ≡ p.1
drop_error_kept (ok a, w) = refl
drop_error_kept (err e, w) = refl
drop_error_kept (panic, w) = refl

value_or_kept : {A : Type 0} (z : A) (p : Outcome A × World) → (value_or z p).1 ≡ p.1
value_or_kept z (ok a, w) = refl
value_or_kept z (err e, w) = refl
value_or_kept z (panic, w) = refl

module _ {P : World → Type 0} where
  pub Keeps-pure : {A : Type 0} (a : A) → Keeps P (pure a)
  Keeps-pure a = record { at = λ w h. h }

  pub Keeps-fail : {A : Type 0} (e : Error) → Keeps {A = A} P (fail e)
  Keeps-fail e = record { at = λ w h. h }

  pub Keeps-lift : {A : Type 0} (o : Outcome A) → Keeps P (lift o)
  Keeps-lift o = record { at = λ w h. h }

  pub Keeps-choose :
      {A : Type 0} (b : Bool) (m k : M A) → Keeps P m → Keeps P k → Keeps P (choose b m k)
  Keeps-choose true m k km kk = record { at = km.at }
  Keeps-choose false m k km kk = record { at = kk.at }

  continue_kept :
      {A B : Type 0} (p : Outcome A × World) (f : A → M B)
      → P p.1
      → ((a : A) → Keeps P (f a))
      → P (continue p f).1
  continue_kept (ok a, w) f h kf = (kf a).at w h
  continue_kept (err e, w) f h kf = h
  continue_kept (panic, w) f h kf = h

  pub Keeps-bind :
      {A B : Type 0} (m : M A) (f : A → M B)
      → Keeps P m
      → ((a : A) → Keeps P (f a))
      → Keeps P (m >>= f)
  Keeps-bind m f km kf = record { at = λ w h. continue_kept (m w) f (km.at w h) kf }

  pub Keeps-wrapping :
      {A : Type 0} (f : Error → Error) (m : M A) → Keeps P m → Keeps P (wrapping f m)
  Keeps-wrapping f m km = record { at = λ w h. rw (wrap_error_kept f (m w)) (km.at w h) }

  pub Keeps-ignoring : (m : M (Unit {0})) → Keeps P m → Keeps P (ignoring m)
  Keeps-ignoring m km = record { at = λ w h. rw (drop_error_kept (m w)) (km.at w h) }

  pub Keeps-or_zero : {A : Type 0} (z : A) (m : M A) → Keeps P m → Keeps P (or_zero z m)
  Keeps-or_zero z m km = record { at = λ w h. rw (value_or_kept z (m w)) (km.at w h) }

  continue_kept_with :
      {A B : Type 0} (Q : A → Type 0) (p : Outcome A × World) (f : A → M B)
      → P p.1
      → ((a : A) → p.0 ≡ ok a → Q a)
      → ((a : A) → Q a → Keeps P (f a))
      → P (continue p f).1
  continue_kept_with Q (ok a, w) f h q kf = (kf a (q a refl)).at w h
  continue_kept_with Q (err e, w) f h q kf = h
  continue_kept_with Q (panic, w) f h q kf = h

  -- The rest of the block may use what is known of the value.
  pub Keeps-bind_with :
      {A B : Type 0} (Q : A → Type 0) (m : M A) (f : A → M B)
      → Keeps P m
      → ((w : World) → P w → (a : A) → (m w).0 ≡ ok a → Q a)
      → ((a : A) → Q a → Keeps P (f a))
      → Keeps P (m >>= f)
  Keeps-bind_with Q m f km q kf = record {
    at = λ w h. continue_kept_with Q (m w) f (km.at w h) (q w h) kf;
  }

  branch_kept :
      {A B : Type 0} (p : Outcome A × World) (handle : Error → M B) (rest : A → M B)
      → P p.1
      → ((e : Error) → Keeps P (handle e))
      → ((a : A) → Keeps P (rest a))
      → P (branch p handle rest).1
  branch_kept (ok a, w) handle rest h kh kr = (kr a).at w h
  branch_kept (err e, w) handle rest h kh kr = (kh e).at w h
  branch_kept (panic, w) handle rest h kh kr = h

  pub Keeps-attempt :
      {A B : Type 0} (m : M A) (handle : Error → M B) (rest : A → M B)
      → Keeps P m
      → ((e : Error) → Keeps P (handle e))
      → ((a : A) → Keeps P (rest a))
      → Keeps P (attempt m handle rest)
  Keeps-attempt m handle rest km kh kr = record {
    at = λ w h. branch_kept (m w) handle rest (km.at w h) kh kr;
  }

-- What does not look at the calls that are to fail.
pub record IsStable (P : World → Type 0) : Type 0 where
  pub at : (w : World) (faults : List Bool) → P w → P (record w { faults = faults })

module _ {P : World → Type 0} where
  pub Keeps-external : {A : Type 0} (m : M A) → IsStable P → Keeps P m → Keeps P (external m)
  Keeps-external m stable km = record {
    at = λ w h. elim (Bool-cases (next_fails w.faults)) [
      | inl fails ↦ rw fails (stable.at w (later_faults w.faults) h)
      | inr works ↦ rw works (km.at (called w) (stable.at w (later_faults w.faults) h))
    ];
  }

  pub Keeps-exec :
      (f : World → World) → IsStable P → ((w : World) → P w → P (f w)) → Keeps P (exec f)
  Keeps-exec f stable kf = Keeps-external (λ w. (ok tt, f w)) stable (record { at = kf })

  pub Keeps-reads : {A : Type 0} (q : World → A) → IsStable P → Keeps P (reads q)
  Keeps-reads q stable = Keeps-external (λ w. (ok (q w), w)) stable (record { at = λ w h. h })

  pub Keeps-scan_optional :
      {A : Type 0} (q : World → Option A) → IsStable P → Keeps P (scan_optional q)
  Keeps-scan_optional q stable =
      Keeps-external (λ w. (ok (q w), w)) stable (record { at = λ w h. h })

  pub Keeps-scan_row : {A : Type 0} (q : World → Option A) → IsStable P → Keeps P (scan_row q)
  Keeps-scan_row {A} q stable =
      let m : M A = λ w. elim (q w) [ none ↦ (err no_rows, w) | some a ↦ (ok a, w) ] in
      Keeps-external m stable (record {
        at = λ w h.
            elim (q w)
              as (λ (o : Option A).
                P
                  (elim o as (λ _. Outcome A × World) [
                    | none ↦ (err no_rows, w)
                    | some a ↦ (ok a, w)
                  ]).1) [ none ↦ h | some a ↦ h ];
      })

  -- A statement that a constraint lets through, with its value and its change, or refuses with an error.
  pub Keeps-allowed :
      {A : Type 0} (allowed : World → Bool) (value : World → A) (change : World → World)
      (e : World → Error)
      → IsStable P
      → ((w : World) → P w → allowed w ≡ true → P (change w))
      → Keeps P (external λ w. if allowed w then (ok (value w), change w) else (err (e w), w))
  Keeps-allowed allowed value change e stable h =
      let m = λ (w : World). if allowed w then (ok (value w), change w) else (err (e w), w) in
      Keeps-external m stable (record {
        at = λ w k. elim (Bool-cases (allowed w)) [
          | inl is_allowed ↦ rw is_allowed (h w k is_allowed)
          | inr barred ↦ rw barred k
        ];
      })

  pub Keeps-refused :
      {A : Type 0} (barred : World → Bool) (value : World → A) (change : World → World)
      (e : World → Error)
      → IsStable P
      → ((w : World) → P w → barred w ≡ false → P (change w))
      → Keeps P (external λ w. if barred w then (err (e w), w) else (ok (value w), change w))
  Keeps-refused barred value change e stable h =
      let m = λ (w : World). if barred w then (err (e w), w) else (ok (value w), change w) in
      Keeps-external m stable (record {
        at = λ w k. elim (Bool-cases (barred w)) [
          | inl is_barred ↦ rw is_barred k
          | inr allowed ↦ rw allowed (h w k allowed)
        ];
      })

  commit_kept :
      {A : Type 0} (w : World) (p : Outcome A × World) → IsStable P → P w → P p.1 → P (commit w p).1
  commit_kept w (ok a, w') stable h k = elim (Bool-cases (next_fails w'.faults)) [
    | inl fails ↦ rw fails (stable.at w (later_faults w'.faults) h)
    | inr works ↦ rw works (stable.at w' (later_faults w'.faults) k)
  ]
  commit_kept w (err e, w') stable h k = stable.at w w'.faults h
  commit_kept w (panic, w') stable h k = stable.at w w'.faults h

  pub Keeps-transaction : {A : Type 0} (m : M A) → IsStable P → Keeps P m → Keeps P (transaction m)
  Keeps-transaction m stable km =
      Keeps-external (committed m) stable
        (record { at = λ w h. commit_kept w (m w) stable h (km.at w h) })

-- A block that returns a value, taken apart.
pub bind_ok :
    {A B : Type 0} (p : Outcome A × World) (f : A → M B) (b : B)
    → (continue p f).0 ≡ ok b
    → (a : A) × (p.0 ≡ ok a) × ((f a p.1).0 ≡ ok b)
bind_ok (ok a, w) f b h = (a, refl, h)
bind_ok (err e, w) f b h = absurd (ground (arith, h))
bind_ok (panic, w) f b h = absurd (ground (arith, h))

scanned_ok :
    {A : Type 0} (o : Option A) (w : World) (a : A)
    → (elim o as (λ _. Outcome A × World) [ none ↦ (err no_rows, w) | some b ↦ (ok b, w) ]).0 ≡ ok a
    → o ≡ some a
scanned_ok none w a h = absurd (ground (arith, h))
scanned_ok (some b) w a h = let same : b ≡ a = cc in rw same refl

-- The query has found the row in the world of the call.
pub scan_row_ok :
    {A : Type 0} (q : World → Option A) (w : World) (a : A)
    → (scan_row q w).0 ≡ ok a
    → q (called w) ≡ some a
scan_row_ok q w a h = elim (Bool-cases (next_fails w.faults)) [
  | inl fails ↦ absurd (ground (arith, h, fails))
  | inr works ↦ scanned_ok (q (called w)) (called w) a (rw works at h)
]

pub ruleset keeps_rules = (
  Keeps-pure, Keeps-fail, Keeps-lift, Keeps-choose, Keeps-bind, Keeps-wrapping, Keeps-ignoring,
  Keeps-or_zero, Keeps-attempt,
)
