-- ===== src/Invariant/Balances.antt =====
-- The rows of the credits under the SQL functions (db/telegram.sql).
use deping_client_service.Base.{
  All, All-append, All-insert_missing, All-select_one, All-update_where_one, Bool-cases, IsUnique,
  IsUnique-insert_missing, IsUnique-update_where, IsUnique-upsert, List, Option, [], arith,
  exists_where, in_int4, inl, inr, insert_missing, int_laws, leb_ℤ, ltb, ltb_ℤ, none, pos, refl,
  select_one, select_one-update_where_self, some, true, update_where, upsert, ℕ, ℤ, ◌+ℤ◌, ◌-ℤ◌, ◌∷◌,
  ◌≡◌,
}
use deping_client_service.World.{TelegramCredit}
use deping_client_service.Credits.{
  deduct_locked, deduct_telegram_credit, fresh_credit, has_user, purchase, reset_free, spend_tier,
  use_free, use_purchased,
}
use deping_client_service.Invariant.{IsCreditRow, same_user}

abbrev pub AreCreditRows : List TelegramCredit → Type 0
AreCreditRows rows = All IsCreditRow rows × IsUnique same_user rows

pub insert_missing-AreCreditRows :
    (u date : ℕ) (rows : List TelegramCredit)
    → AreCreditRows rows
    → AreCreditRows (insert_missing (has_user u) (fresh_credit u date) rows)
insert_missing-AreCreditRows u date rows (all, unique) = (
  All-insert_missing IsCreditRow (has_user u) (fresh_credit u date) rows (refl, refl, refl) all,
  IsUnique-insert_missing same_user (fresh_credit u date) rows (λ c. ground arith) unique,
)

-- A change of the one row of a user.
change-AreCreditRows :
    (u : ℕ) (f : TelegramCredit → TelegramCredit) (rows : List TelegramCredit)
    → ((c : TelegramCredit) → (f c).user_id ≡ c.user_id)
    → ((c : TelegramCredit) → select_one (has_user u) rows ≡ some c → IsCreditRow (f c))
    → AreCreditRows rows
    → AreCreditRows (update_where (has_user u) f rows)
change-AreCreditRows u f rows key h (all, unique) = (
  All-update_where_one IsCreditRow same_user (has_user u) f rows unique
      (λ c own d. ground (arith, own)) h all,
  IsUnique-update_where same_user (has_user u) f rows (λ c d. (rw (key c) refl, rw (key c) refl))
      unique,
)

use_free-IsCreditRow :
    (c : TelegramCredit)
    → ltb c.free_credits_used 3 ≡ true
    → IsCreditRow c
    → IsCreditRow (use_free c)
use_free-IsCreditRow c left (_, fits, kept) = (ground (arith, left), fits, kept)

use_purchased-IsCreditRow :
    (c : TelegramCredit)
    → ltb_ℤ (pos 0) c.purchased_credits ≡ true
    → IsCreditRow c
    → IsCreditRow (use_purchased c)
unfolding ◌-ℤ◌
use_purchased-IsCreditRow c left (used, fits, kept) =
    (used, ground (arith, left, fits), ground (arith, left, kept))

spend_tier-AreCreditRows :
    (u : ℕ) (c : TelegramCredit) (rows : List TelegramCredit)
    → select_one (has_user u) rows ≡ some c
    → AreCreditRows rows
    → AreCreditRows (spend_tier u c.free_credits_used c.purchased_credits rows).1
unfolding spend_tier
spend_tier-AreCreditRows u c rows found h =
    let sound = All-select_one IsCreditRow (has_user u) rows c found h.0 in
    elim (Bool-cases (ltb c.free_credits_used 3)) [
      | inl free ↦ rw free (
          change-AreCreditRows u use_free rows (λ d. refl)
            (λ d e. let same : d ≡ c = cc in rw same (use_free-IsCreditRow c free sound)) h)
      | inr used ↦ elim (Bool-cases (ltb_ℤ (pos 0) c.purchased_credits)) [
        | inl bought ↦
            rw (used, bought)
              (change-AreCreditRows u use_purchased rows (λ d. refl)
                (λ d e. let same : d ≡ c = cc in rw same (use_purchased-IsCreditRow c bought sound))
                h)
        | inr none_left ↦ rw (used, none_left) h
      ]
    ]

deduct_locked-AreCreditRows :
    (u date : ℕ) (o : Option TelegramCredit) (rows : List TelegramCredit)
    → select_one (has_user u) rows ≡ o
    → AreCreditRows rows
    → AreCreditRows (deduct_locked u date o rows).1
unfolding deduct_locked
deduct_locked-AreCreditRows u date none rows found h = h
deduct_locked-AreCreditRows u date (some c) rows found h =
    elim (Bool-cases (ltb c.free_reset_date date)) [
      | inl earlier ↦
          let reset = update_where (has_user u) (reset_free date) rows in
          let found' : select_one (has_user u) reset ≡ some (reset_free date c) =
            rw found at
              (select_one-update_where_self (has_user u) (reset_free date) rows (λ d _. refl)) in
          rw earlier (
            spend_tier-AreCreditRows u (reset_free date c) reset found' (
              change-AreCreditRows u (reset_free date) rows (λ d. refl)
                (λ d e.
                  let (_, fits, kept) = All-select_one IsCreditRow (has_user u) rows d e h.0 in
                  (refl, fits, kept))
                h))
      | inr same_date ↦ rw same_date (spend_tier-AreCreditRows u c rows found h)
    ]

pub deduct_telegram_credit-AreCreditRows :
    (u date : ℕ) (rows : List TelegramCredit)
    → AreCreditRows rows
    → AreCreditRows (deduct_telegram_credit u date rows).1
unfolding deduct_telegram_credit
deduct_telegram_credit-AreCreditRows u date rows h =
    let present = insert_missing (has_user u) (fresh_credit u date) rows in
    deduct_locked-AreCreditRows u date (select_one (has_user u) present) present refl
      (insert_missing-AreCreditRows u date rows h)

leb_ℤ_refl : (a : ℤ) → leb_ℤ a a ≡ true
leb_ℤ_refl a = ground arith

leb_ℤ-add_right : (a b c : ℤ) → leb_ℤ a b ≡ true → leb_ℤ (a +ℤ c) (b +ℤ c) ≡ true
leb_ℤ-add_right a b c h = grind (int_laws, h)

abbrev pub bought : ℤ → TelegramCredit → TelegramCredit
bought amount c = record c {
  purchased_credits = c.purchased_credits +ℤ amount;
  total_purchased_ever = c.total_purchased_ever +ℤ amount;
}

pub upsert-AreCreditRows :
    (u date : ℕ) (amount : ℤ) (rows : List TelegramCredit)
    → in_int4 (purchase u date amount (select_one (has_user u) rows)).purchased_credits ≡ true
    → in_int4 amount ≡ true
    → AreCreditRows rows
    → AreCreditRows (upsert (has_user u) (bought amount) (purchase u date amount none) rows)
unfolding upsert
upsert-AreCreditRows u date amount rows fits fits_alone h =
    let new = purchase u date amount none in
    let keys =
      IsUnique-upsert same_user (bought amount) new rows (λ c. ground arith) (λ c d. (refl, refl))
        h.1 in
    elim (Bool-cases (exists_where (has_user u) rows)) [
      | inl known ↦ rw known (
          change-AreCreditRows u (bought amount) rows (λ c. refl)
            (λ c e.
              let row = All-select_one IsCreditRow (has_user u) rows c e h.0 in
              (row.0, rw e at fits, leb_ℤ-add_right _ _ amount row.2))
            h)
      | inr missing ↦ rw missing (
        All-append IsCreditRow rows (new ∷ []) h.0 ((refl, fits_alone, leb_ℤ_refl amount), tt),
        rw missing at keys,
      )
    ]
