-- ===== src/Credits/Deduct.antt =====
-- deduct_telegram_credit (db/telegram.sql) against the allowance that a user has on a day.
use deping_client_service.Base.{
  ℕ, zero, suc, ◌+◌, ◌-◌, min, pos_part, ◌-ℤ◌, true, false, List, Option, none, some, ◌≡◌, ◌≢◌,
  refl, arith, ltb, if◌then◌else◌, found_or, select_one, update_where, insert_missing,
  select_one-update_where_self, select_one-update_where_other, select_one-insert_missing,
  select_one-insert_missing_other,
}
use deping_client_service.World.{TelegramCredit}
use deping_client_service.Credits.{
  has_user, fresh_credit, reset_free, use_free, use_purchased, spend_tier, deduct_locked,
  deduct_telegram_credit,
}

-- The user's row, or the defaults where there is none.
abbrev pub credit_of : ℕ → ℕ → List TelegramCredit → TelegramCredit
credit_of u day rows = found_or (fresh_credit u day) (select_one (has_user u) rows)

-- The free messages that are left on the day: all three once the day of the row is past.
abbrev pub free_left : ℕ → TelegramCredit → ℕ
free_left day c = if ltb c.free_reset_date day then 3 else 3 - c.free_credits_used

abbrev pub allowance : ℕ → TelegramCredit → ℕ
allowance day c = free_left day c + pos_part c.purchased_credits

-- The daily reset.
abbrev pub refreshed : ℕ → TelegramCredit → TelegramCredit
refreshed day c = if ltb c.free_reset_date day then reset_free day c else c

-- The row after one deduction: free messages first, then purchased ones.
pub spent : ℕ → TelegramCredit → TelegramCredit
spent day c =
    let r = refreshed day c in
    if ltb r.free_credits_used 3
    then use_free r
    else if ltb 0 (pos_part r.purchased_credits)
    then use_purchased r
    else r

locked-row :
    (u day : ℕ) (c : TelegramCredit) (rows : List TelegramCredit)
    → select_one (has_user u) rows ≡ some c
    → select_one (has_user u) (deduct_locked u day (some c) rows).1 ≡ some (spent day c)
unfolding deduct_locked spend_tier spent
locked-row u day c rows h = ground (
  arith,
  select_one-update_where_self (has_user u) (reset_free day) rows (λ r k. refl),
  select_one-update_where_self (has_user u) use_free rows (λ r k. refl),
  select_one-update_where_self (has_user u) use_purchased rows (λ r k. refl),
  select_one-update_where_self (has_user u) use_free
      (update_where (has_user u) (reset_free day) rows) (λ r k. refl),
  select_one-update_where_self (has_user u) use_purchased
      (update_where (has_user u) (reset_free day) rows) (λ r k. refl),
)

locked-success :
    (u day : ℕ) (c : TelegramCredit) (rows : List TelegramCredit)
    → (deduct_locked u day (some c) rows).0.0 ≡ ltb 0 (allowance day c)
unfolding deduct_locked spend_tier
locked-success u day c rows = ground arith

other : (u v : ℕ) → u ≢ v → (r : TelegramCredit) → has_user u r ≡ true → has_user v r ≡ false
other u v h r k = ground arith

module _ (u v day : ℕ) (apart : u ≢ v) where
  kept :
      (f : TelegramCredit → TelegramCredit) (rows : List TelegramCredit)
      → ((r : TelegramCredit) → has_user v (f r) ≡ has_user v r)
      → select_one (has_user v) (update_where (has_user u) f rows) ≡ select_one (has_user v) rows
  kept f rows h =
      select_one-update_where_other (has_user u) (has_user v) f rows (λ r k. h r) (other u v apart)

  locked_others :
      (o : Option TelegramCredit) (rows : List TelegramCredit)
      → select_one (has_user v) (deduct_locked u day o rows).1 ≡ select_one (has_user v) rows
  unfolding deduct_locked spend_tier
  locked_others none rows = refl
  locked_others (some c) rows = ground (
    arith,
    kept (reset_free day) rows (λ r. refl),
    kept use_free rows (λ r. refl),
    kept use_purchased rows (λ r. refl),
    kept use_free (update_where (has_user u) (reset_free day) rows) (λ r. refl),
    kept use_purchased (update_where (has_user u) (reset_free day) rows) (λ r. refl),
  )

-- A deduction leaves the user's row as the two tiers prescribe, and succeeds exactly if the user
-- has some allowance on the day.
pub deduct_telegram_credit-spent :
    (u day : ℕ) (rows : List TelegramCredit)
    → let c = credit_of u day rows in
      let (r, rows') = deduct_telegram_credit u day rows in
      (select_one (has_user u) rows' ≡ some (spent day c)) × (r.0 ≡ ltb 0 (allowance day c))
unfolding deduct_telegram_credit
deduct_telegram_credit-spent u day rows =
    let present = insert_missing (has_user u) (fresh_credit u day) rows in
    let there = select_one-insert_missing (has_user u) (fresh_credit u day) rows (ground arith) in
    rw there (
      locked-row u day (credit_of u day rows) present there,
      locked-success u day (credit_of u day rows) present,
    )

-- A deduction leaves the rows of the other users alone.
pub deduct_telegram_credit_others :
    (u v day : ℕ) (rows : List TelegramCredit)
    → u ≢ v
    → select_one (has_user v) (deduct_telegram_credit u day rows).1 ≡ select_one (has_user v) rows
unfolding deduct_telegram_credit
deduct_telegram_credit_others u v day rows h =
    let present = insert_missing (has_user u) (fresh_credit u day) rows in
    ground (
      arith,
      locked_others u v day h (select_one (has_user u) present) present,
      select_one-insert_missing_other (has_user u) (has_user v) (fresh_credit u day) rows
          (ground arith),
    )

pub allowance-spent :
    (day : ℕ) (c : TelegramCredit) → allowance day (spent day c) ≡ allowance day c - 1
unfolding spent ◌-ℤ◌
allowance-spent day c = ground arith

-- `n` alerts of one user on one day: how many of them found a credit, and the rows afterwards.
pub deductions : ℕ → ℕ → ℕ → List TelegramCredit → ℕ × List TelegramCredit
deductions zero u day rows = (0, rows)
deductions (suc n) u day rows =
    let (r, rows') = deduct_telegram_credit u day rows in
    let (k, rows'') = deductions n u day rows' in ((if r.0 then 1 else 0) + k, rows'')

-- Of `n` deductions on one day as many succeed as the allowance covers: at most three free ones,
-- then the purchased credits; and the allowance that remains is the rest.
pub deductions-allowance :
    (n u day : ℕ) (rows : List TelegramCredit)
    → let a = allowance day (credit_of u day rows) in
      let (k, rows') = deductions n u day rows in
      (k ≡ min n a) × (allowance day (credit_of u day rows') ≡ a - n)
unfolding deductions
deductions-allowance zero u day rows = (omega arith, omega arith)
deductions-allowance (suc n) u day rows =
    let rows' = (deduct_telegram_credit u day rows).1 in
    ground (
      arith,
      deduct_telegram_credit-spent u day rows,
      allowance-spent day (credit_of u day rows),
      deductions-allowance n u day rows',
    )
