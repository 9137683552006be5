-- ===== src/Invariant/Ledger.antt =====
-- The credits and the payments keep the invariant (db/telegram.sql, db/repositories/telegram_repo.go,
-- db/repositories/tx_repo.go).
use deping_client_service.Base.{
  All, All-mono, All-select_one, Bool-cases, IsUnique, List, String, arith, exists_where, false,
  in_int4, inl, inr, insert_missing, ltb, select_one, true, ℕ, ℤ, ◌&&◌, ◌^◌, ◌∷◌, ◌≡◌,
}
use deping_client_service.World.{
  Monitor, MonitorHealthState, ProcessedTransaction, TelegramCredit, TelegramUser, World, err,
  external, foreign_key_violation, ignoring, ok, out_of_range, scan_row, today, unique_violation,
}
use deping_client_service.Credits.{
  deduct_credit, deduct_telegram_credit, fresh_credit, get_credit_row, has_user, may_insert,
  open_row, purchase, repo_add_purchased_credits, sql_add_purchased_credits,
}
use deping_client_service.Invariant.{
  AreSound, IsCreditRow, IsPaymentRow, IsSound, IsSound-IsStable, Marks, same_user,
}
use deping_client_service.Invariant.Balances.{
  deduct_telegram_credit-AreCreditRows, insert_missing-AreCreditRows, upsert-AreCreditRows,
}
use deping_client_service.Keeping.{
  Keeps, Keeps-allowed, Keeps-bind, Keeps-external, Keeps-fail, Keeps-ignoring, Keeps-refused,
  Keeps-scan_row, Keeps-transaction, Keeps-wrapping, bind_ok, scan_row_ok,
}
use deping_client_service.Payments.{has_signature, is_processed, process_payment}

still_paid :
    (t : ProcessedTransaction) (processed : List ProcessedTransaction) (paid : List String)
    → All (λ sig. exists_where (has_signature sig) processed ≡ true) paid
    → All (λ sig. exists_where (has_signature sig) (t ∷ processed) ≡ true) paid
unfolding exists_where
still_paid t processed paid all =
    All-mono (λ sig. exists_where (has_signature sig) processed ≡ true) _ paid
      (λ sig h. ground (arith, h)) all

module _ {marks : Marks} {credits : List TelegramCredit} {links : List TelegramUser}
    {health : List MonitorHealthState} {monitors : List Monitor}
    {processed : List ProcessedTransaction}
    (s : AreSound marks credits links health monitors processed) where
  with_credits :
      (rows : List TelegramCredit)
      → All IsCreditRow rows
      → IsUnique same_user rows
      → AreSound marks rows links health monitors processed
  with_credits rows all unique = record {
    credit_rows = all;
    credit_keys = unique;
    link_rows = s.link_rows;
    link_owners = s.link_owners;
    link_chats = s.link_chats;
    health_rows = s.health_rows;
    monitor_rows = s.monitor_rows;
    payment_rows = s.payment_rows;
    payment_keys = s.payment_keys;
    paid_rows = s.paid_rows;
    known_rows = s.known_rows;
    health_as = s.health_as;
  }

  with_payment :
      (t : ProcessedTransaction)
      → IsPaymentRow t
      → exists_where (has_signature t.signature) processed ≡ false
      → AreSound marks credits links health monitors (t ∷ processed)
  with_payment t fits new = record {
    credit_rows = s.credit_rows;
    credit_keys = s.credit_keys;
    link_rows = s.link_rows;
    link_owners = s.link_owners;
    link_chats = s.link_chats;
    health_rows = s.health_rows;
    monitor_rows = s.monitor_rows;
    payment_rows = (fits, s.payment_rows);
    payment_keys = (new, s.payment_keys);
    paid_rows = still_paid t processed marks.paid s.paid_rows;
    known_rows = s.known_rows;
    health_as = s.health_as;
  }

pub deduct_credit-IsSound : {marks : Marks} (u : ℕ) → Keeps (IsSound marks) (deduct_credit u)
unfolding deduct_credit
deduct_credit-IsSound u =
    Keeps-allowed (may_insert u) (λ w. (deduct_telegram_credit u (today w) w.telegram_credits).0)
      (λ w. record w {
        telegram_credits = (deduct_telegram_credit u (today w) w.telegram_credits).1;
      })
      (λ w. foreign_key_violation) IsSound-IsStable
      λ w h _.
        let (rows, keys) =
          deduct_telegram_credit-AreCreditRows u (today w) w.telegram_credits
            (h.credit_rows, h.credit_keys) in
        with_credits h _ rows keys

sql_add_purchased_credits-IsSound :
    {marks : Marks} (u : ℕ) (amount : ℤ)
    → Keeps (IsSound marks) (sql_add_purchased_credits u amount)
unfolding sql_add_purchased_credits
sql_add_purchased_credits-IsSound u amount = record {
  at = λ w h.
      let row = purchase u (today w) amount (select_one (has_user u) w.telegram_credits) in
      elim (Bool-cases (may_insert u w)) [
        | inr no_user ↦ rw no_user h
        | inl known ↦
            elim (Bool-cases (
              in_int4 amount
              && (in_int4 row.purchased_credits && in_int4 row.total_purchased_ever))) [
                | inr too_large ↦ rw (known, too_large) h
                | inl fits ↦
                    let (rows, keys) =
                      upsert-AreCreditRows u (today w) amount w.telegram_credits (ground arith)
                        (ground arith) (h.credit_rows, h.credit_keys) in
                    rw (known, fits) (with_credits h _ rows keys)
              ]
      ];
}

pub repo_add_purchased_credits-IsSound :
    {marks : Marks} (u : ℕ) (amount : ℤ) (tx_signature : String)
    → Keeps (IsSound marks) (repo_add_purchased_credits u amount tx_signature)
unfolding repo_add_purchased_credits
repo_add_purchased_credits-IsSound u amount tx_signature =
    Keeps-transaction (external (sql_add_purchased_credits u amount)) IsSound-IsStable (
      Keeps-external (sql_add_purchased_credits u amount) IsSound-IsStable
        (sql_add_purchased_credits-IsSound u amount))

open_row-IsSound : {marks : Marks} (u : ℕ) → Keeps (IsSound marks) (open_row u)
open_row-IsSound u =
    Keeps-allowed (may_insert u) (λ w. tt)
      (λ w. record w {
        telegram_credits =
            insert_missing (has_user u) (fresh_credit u (today w)) w.telegram_credits;
      })
      (λ w. foreign_key_violation) IsSound-IsStable
      λ w h _.
        let (rows, keys) =
          insert_missing-AreCreditRows u (today w) w.telegram_credits
            (h.credit_rows, h.credit_keys) in
        with_credits h _ rows keys

scan_credit-IsSound :
    {marks : Marks} (u : ℕ)
    → Keeps (IsSound marks) (scan_row λ w. select_one (has_user u) w.telegram_credits)
scan_credit-IsSound u =
    Keeps-scan_row (λ w. select_one (has_user u) w.telegram_credits) IsSound-IsStable

pub get_credit_row-IsSound : {marks : Marks} (u : ℕ) → Keeps (IsSound marks) (get_credit_row u)
unfolding get_credit_row
get_credit_row-IsSound u =
    Keeps-bind (ignoring (open_row u)) _ (Keeps-ignoring (open_row u) (open_row-IsSound u))
      (λ _. scan_credit-IsSound u)

-- The row that is found is as the invariant says.
pub get_credit_row-IsCreditRow :
    {marks : Marks} (u : ℕ) (w : World) (c : TelegramCredit)
    → IsSound marks w
    → (get_credit_row u w).0 ≡ ok c
    → IsCreditRow c
unfolding get_credit_row
get_credit_row-IsCreditRow {marks} u w c h found =
    let w' = (ignoring (open_row u) w).1 in
    let sound : IsSound marks w' = (Keeps-ignoring (open_row u) (open_row-IsSound u)).at w h in
    let (_, _, scanned) =
      bind_ok (ignoring (open_row u) w)
        (λ _. scan_row λ w. select_one (has_user u) w.telegram_credits) c found in
    let row = scan_row_ok (λ w. select_one (has_user u) w.telegram_credits) w' c scanned in
    All-select_one IsCreditRow (has_user u) w'.telegram_credits c row sound.credit_rows

pub process_payment-IsSound :
    {marks : Marks} (user_id amount : ℕ) (sig : String)
    → Keeps (IsSound marks) (process_payment user_id amount sig)
unfolding process_payment
process_payment-IsSound user_id amount sig =
    Keeps-wrapping _ _ (elim (Bool-cases (ltb amount (2 ^ 63))) [
      | inr large ↦
          rw large
            (Keeps-external (λ w. (err out_of_range, w)) IsSound-IsStable (Keeps-fail out_of_range))
      | inl fits ↦ rw fits (
          Keeps-refused (is_processed sig) (λ w. tt)
            (λ w. record w {
              processed =
                  record { signature = sig; user_id = user_id; amount = amount } ∷ w.processed;
            })
            (λ w. unique_violation "processed_transactions_pkey") IsSound-IsStable
            λ w h new. with_payment h _ fits new)
    ])
