-- ===== src/Credits.antt =====
-- The credit ledger of Telegram alerts: the credit queries of db/repositories/telegram_repo.go, the
-- SQL functions that they call (db/telegram.sql), and GetCreditStatus of services/telegram_service.go.
pub mod Deduct
pub mod Ledger
use mathlib.Core.Option
use deping_client_service.Base.{
  Bool, List, Option, String, exists_where, false, if◌then◌else◌, in_int4, insert_missing, ltb,
  ltb_ℤ, map, none, not, pos, select_one, some, true, update_where, upsert, ℕ, ℤ, ◌&&◌, ◌+ℤ◌, ◌+◌,
  ◌-ℤ◌, ◌-◌, ◌==◌, ◌||◌,
}
use deping_client_service.World.{
  M, TelegramCredit, TelegramUser, World, err, exec, external, foreign_key_violation, ignoring, ok,
  out_of_range, pure, references_user, scan_row, today, transaction, ◌>>=◌, ◌>>◌,
}

abbrev pub has_user : ℕ → TelegramCredit → Bool
has_user u c = c.user_id == u

-- The defaults of the table's columns.
abbrev pub fresh_credit : ℕ → ℕ → TelegramCredit
fresh_credit u day = record {
  user_id = u;
  free_credits_used = 0;
  free_reset_date = day;
  purchased_credits = pos 0;
  total_purchased_ever = pos 0;
}

abbrev pub reset_free : ℕ → TelegramCredit → TelegramCredit
reset_free day c = record c { free_credits_used = 0; free_reset_date = day }

abbrev pub use_free : TelegramCredit → TelegramCredit
use_free c = record c { free_credits_used = c.free_credits_used + 1 }

abbrev pub use_purchased : TelegramCredit → TelegramCredit
use_purchased c = record c { purchased_credits = c.purchased_credits -ℤ pos 1 }

-- The two tiers, after the daily reset.
unfoldable pub spend_tier : ℕ → ℕ → ℤ → List TelegramCredit → (Bool × String) × List TelegramCredit
spend_tier u free_used purchased rows =
    if ltb free_used 3
    then ((true, "free"), update_where (has_user u) use_free rows)
    else if ltb_ℤ (pos 0) purchased
    then ((true, "purchased"), update_where (has_user u) use_purchased rows)
    else ((false, "no_credits"), rows)

unfoldable pub deduct_locked :
    ℕ → ℕ → Option TelegramCredit → List TelegramCredit → (Bool × String) × List TelegramCredit
deduct_locked u day none rows = ((false, "no_credits"), rows)
deduct_locked u day (some c) rows =
    if ltb c.free_reset_date day
    then spend_tier u 0 c.purchased_credits (update_where (has_user u) (reset_free day) rows)
    else spend_tier u c.free_credits_used c.purchased_credits rows

-- deduct_telegram_credit(p_user_id)
unfoldable pub deduct_telegram_credit :
    ℕ → ℕ → List TelegramCredit → (Bool × String) × List TelegramCredit
deduct_telegram_credit u day rows =
    let present = insert_missing (has_user u) (fresh_credit u day) rows in
    deduct_locked u day (select_one (has_user u) present) present

-- A row can be inserted only for a user that exists.
abbrev pub may_insert : ℕ → World → Bool
may_insert u w = exists_where (has_user u) w.telegram_credits || references_user u w

unfoldable pub deduct_credit : ℕ → M (Bool × String)
deduct_credit u = external λ w.
    let (r, rows) = deduct_telegram_credit u (today w) w.telegram_credits in
    if may_insert u w
    then (ok r, record w { telegram_credits = rows })
    else (err foreign_key_violation, w)

-- The row that add_purchased_credits leaves.
abbrev pub purchase : ℕ → ℕ → ℤ → Option TelegramCredit → TelegramCredit
purchase u day amount none = record (fresh_credit u day) {
  purchased_credits = amount;
  total_purchased_ever = amount;
}
purchase u day amount (some c) = record c {
  purchased_credits = c.purchased_credits +ℤ amount;
  total_purchased_ever = c.total_purchased_ever +ℤ amount;
}

-- add_purchased_credits(p_user_id, p_amount); an INT that is out of range raises an error.
unfoldable pub sql_add_purchased_credits : ℕ → ℤ → M ℤ
sql_add_purchased_credits u amount w =
    let row = purchase u (today w) amount (select_one (has_user u) w.telegram_credits) in
    if not (may_insert u w)
    then (err foreign_key_violation, w)
    else if in_int4 amount && (in_int4 row.purchased_credits && in_int4 row.total_purchased_ever)
    then (
      ok row.purchased_credits,
      record w {
        telegram_credits =
            upsert (has_user u)
              (λ c. record c {
                purchased_credits = c.purchased_credits +ℤ amount;
                total_purchased_ever = c.total_purchased_ever +ℤ amount;
              })
              (purchase u (today w) amount none) w.telegram_credits;
      },
    )
    else (err out_of_range, w)

-- AddPurchasedCredits of the repository.
unfoldable pub repo_add_purchased_credits : ℕ → ℤ → String → M ℤ
unfolding sql_add_purchased_credits
repo_add_purchased_credits u amount tx_signature =
    transaction (external (sql_add_purchased_credits u amount))

-- The first statement of GetCreditStatus: a row for the user, where there is none.
abbrev pub open_row : ℕ → M (Unit {0})
open_row u = external λ w.
    if may_insert u w
    then (
      ok tt,
      record w {
        telegram_credits =
            insert_missing (has_user u) (fresh_credit u (today w)) w.telegram_credits;
      },
    )
    else (err foreign_key_violation, w)

-- GetCreditStatus of the repository. The error of the first statement is dropped.
unfoldable pub get_credit_row : ℕ → M TelegramCredit
get_credit_row u = do
  ignoring (open_row u)
  scan_row λ w. select_one (has_user u) w.telegram_credits

-- A `telegram_users` row that is not deleted.
abbrev pub is_user : ℕ → TelegramUser → Bool
is_user u t = t.user_id == u && not t.deleted

-- last_reminded_at IS NULL OR last_reminded_at < NOW() - INTERVAL '7 days'
abbrev pub reminder_due : ℕ → Option ℕ → Bool
reminder_due now none = true
reminder_due now (some last) = ltb (last + 604800) now

unfoldable pub should_send_reminder : ℕ → M Bool
should_send_reminder u = scan_row λ w.
    Option.map (λ t. reminder_due w.now t.last_reminded_at)
      (select_one (is_user u) w.telegram_users)

unfoldable pub mark_reminder_sent : ℕ → M (Unit {0})
mark_reminder_sent u = exec λ w. record w {
  telegram_users =
      update_where (is_user u) (λ t. record t { last_reminded_at = some w.now }) w.telegram_users;
}

-- dto/telegram.go, TelegramCreditStatus.
pub record TelegramCreditStatus : Type 0 where
  pub free_credits_used : ℕ
  pub free_credits_left : ℕ
  pub free_reset_date : ℕ
  pub purchased_credits : ℤ
  pub total_credits_left : ℤ

abbrev pub daily_cap : ℕ
daily_cap = 3

-- `-` stops at 0, as the code's `if freeLeft < 0` does.
abbrev pub credit_status : TelegramCredit → TelegramCreditStatus
credit_status c = record {
  free_credits_used = c.free_credits_used;
  free_credits_left = daily_cap - c.free_credits_used;
  free_reset_date = c.free_reset_date;
  purchased_credits = c.purchased_credits;
  total_credits_left = pos (daily_cap - c.free_credits_used) +ℤ c.purchased_credits;
}

-- GetCreditStatus of the service.
unfoldable pub get_credit_status : ℕ → M TelegramCreditStatus
unfolding get_credit_row
get_credit_status u = do c ← get_credit_row u; pure (credit_status c)
