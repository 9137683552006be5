-- ===== src/Credits/Ledger.antt =====
-- Purchases of credits and what GetCreditStatus reports (services/telegram_service.go).
use deping_client_service.Base.{
  String, arith, if◌then◌else◌, in_int4, ltb, min, none, pos, refl, select_one,
  select_one-insert_missing, select_one-upsert, some, true, ℕ, ℤ, ◌+ℤ◌, ◌≡◌, ◌≤ℤ◌,
}
use deping_client_service.World.{Outcome, TelegramCredit, World, calm, err, ok, panic, today}
use deping_client_service.Credits.{
  credit_status, fresh_credit, get_credit_status, has_user, may_insert, purchase,
  repo_add_purchased_credits,
}
use deping_client_service.Credits.Deduct.{allowance, credit_of}

abbrev pub FitsInt4 : TelegramCredit → Type 0
FitsInt4 c = (in_int4 c.purchased_credits ≡ true) × (in_int4 c.total_purchased_ever ≡ true)

-- What a purchase of `amount` credits by `u` in world `w` may end in.
abbrev pub Purchased : ℕ → ℤ → World → Outcome ℤ × World → Type 0
Purchased u amount w (ok balance, w') =
    let row = purchase u (today w) amount (select_one (has_user u) w.telegram_credits) in
    (balance ≡ row.purchased_credits)
    × (select_one (has_user u) w'.telegram_credits ≡ some row)
    × (FitsInt4 row)
    × (record w' { telegram_credits = w.telegram_credits; faults = w.faults } ≡ w)
Purchased u amount w (err e, w') = record w' { faults = w.faults } ≡ w
Purchased u amount w (panic, w') = ⊥

-- A purchase either adds the amount to the user's purchased credits and to the lifetime total, both
-- within INT, and touches no other table, or returns an error and leaves every table as it was,
-- whichever of its calls to the database fails.
pub repo_add_purchased_credits-Purchased :
    (u : ℕ) (amount : ℤ) (sig : String) (w : World)
    → Purchased u amount w (repo_add_purchased_credits u amount sig w)
unfolding repo_add_purchased_credits
repo_add_purchased_credits-Purchased u amount sig w = ground (
  arith,
  select_one-upsert (has_user u)
      (λ c. record c {
        purchased_credits = c.purchased_credits +ℤ amount;
        total_purchased_ever = c.total_purchased_ever +ℤ amount;
      })
      (purchase u (today w) amount none) w.telegram_credits (λ r k. refl),
)

get_credit_status_lem :
    (u : ℕ) (w : World)
    → may_insert u w ≡ true
    → (get_credit_status u (calm w)).0
      ≡ ok (credit_status (credit_of u (today w) w.telegram_credits))
unfolding get_credit_status
get_credit_status_lem u w known = ground (
  arith,
  select_one-insert_missing (has_user u) (fresh_credit u (today w)) w.telegram_credits
      (ground arith),
)

status_total :
    (day : ℕ) (c : TelegramCredit)
    → pos 0 ≤ℤ c.purchased_credits
    → (credit_status c).total_credits_left
        +ℤ pos (if ltb c.free_reset_date day then min 3 c.free_credits_used else 0)
      ≡ pos (allowance day c)
unfolding ◌+ℤ◌
status_total day c h = ground arith

-- While no call fails, the user exists (or has a row) and the balance is not negative, the reported
-- total is the allowance that a deduction would find, less the free messages of an earlier day that the row still counts.
pub get_credit_status-allowance :
    (u : ℕ) (w : World)
    → let c = credit_of u (today w) w.telegram_credits in
      may_insert u w ≡ true
      → pos 0 ≤ℤ c.purchased_credits
      → ((get_credit_status u (calm w)).0 ≡ ok (credit_status c))
        × ((credit_status c).total_credits_left
              +ℤ pos (if ltb c.free_reset_date (today w) then min 3 c.free_credits_used else 0)
            ≡ pos (allowance (today w) c))
get_credit_status-allowance u w known h = (
  get_credit_status_lem u w known,
  status_total (today w) (credit_of u (today w) w.telegram_credits) h,
)
