-- ===== src/Payments.antt =====
-- Purchases that are paid on chain: db/repositories/tx_repo.go, AddMonitorPurchasedCredits of
-- db/repositories/user.go, and the two services that check a payment and add the credits
-- (services/telegram_service.go and services/user_service.go). An `int` is an ℤ.
pub mod Replay
pub mod Effect
use deping_client_service.Base.{
  Bool, String, [], exists_where, if◌then◌else◌, ltb, none, not, pos, select_one, some, str_eq,
  to_u64, update_where, ℕ, ℤ, ◌+ℤ◌, ◌==◌, ◌^◌, ◌∷◌,
}
use deping_client_service.World.{
  M, ProcessedTransaction, User, World, choose, err, external, fail, formatted, lift, message,
  no_rows, num, ok, out_of_range, reads, unique_violation, wrap, wrapping, ◌>>=◌, ◌>>◌,
}
use deping_client_service.Credits.{repo_add_purchased_credits}
use deping_client_service.Solana.{Chain, get_transfer_info}

abbrev pub has_signature : String → ProcessedTransaction → Bool
has_signature sig t = str_eq t.signature sig

abbrev pub is_processed : String → World → Bool
is_processed sig w = exists_where (has_signature sig) w.processed

unfoldable pub is_tx_processed : String → M Bool
is_tx_processed sig = reads (is_processed sig)

-- The primary key refuses a signature that is there; a uint64 beyond int64 cannot be passed on.
unfoldable pub process_payment : ℕ → ℕ → String → M (Unit {0})
process_payment user_id amount sig =
    wrapping (wrap "transaction already processed or database error") (
      external λ w.
        if ltb amount (2 ^ 63)
        then if is_processed sig w
          then (err (unique_violation "processed_transactions_pkey"), w)
          else (
            ok tt,
            record w {
              processed =
                  record { signature = sig; user_id = user_id; amount = amount } ∷ w.processed;
            },
          )
        else (err out_of_range, w))

abbrev pub is_account : ℕ → User → Bool
is_account u r = r.id == u

-- UPDATE users … RETURNING credit_balance
unfoldable pub repo_add_monitor_purchased_credits : ℕ → ℤ → String → M ℤ
repo_add_monitor_purchased_credits user_id amount sig = wrapping (wrap "failed to add credits") (
    external λ w. elim (select_one (is_account user_id) w.users) [
      | none ↦ (err no_rows, w)
      | some r ↦ (
        ok (r.credit_balance +ℤ amount),
        record w {
          users =
              update_where (is_account user_id)
                (λ r. record r { credit_balance = r.credit_balance +ℤ amount }) w.users;
        },
      )
    ])

unfoldable pub add_purchased_credits : Chain → String → ℕ → ℤ → String → ℤ → M ℤ
unfolding is_tx_processed process_payment
add_purchased_credits chain treasury user_id amount tx_sig credit_balance = do
  processed ← is_tx_processed tx_sig
  choose processed (fail (message "transaction already processed")) (do
    tx_info ← wrapping (wrap "failed to verify transaction") (lift (get_transfer_info chain tx_sig))
    choose (not (str_eq tx_info.receiver treasury))
        (fail (message "payment sent to wrong treasury address"))
        (choose (not (tx_info.amount == to_u64 amount))
          (fail (
            formatted "amount mismatch expected=%d got=%d"
              (num (pos (to_u64 amount)) ∷ num (pos tx_info.amount) ∷ [])))
          (do
            wrapping (wrap "failed to finalize transaction")
                (process_payment user_id (to_u64 amount) tx_sig)
            wrapping (wrap "failed to  update DB")
                (repo_add_purchased_credits user_id credit_balance tx_sig))))

unfoldable pub add_monitor_purchased_credits : Chain → String → ℕ → ℤ → String → ℤ → M ℤ
unfolding is_tx_processed process_payment repo_add_monitor_purchased_credits
add_monitor_purchased_credits chain treasury user_id amount tx_sig credit_balance = do
  processed ← is_tx_processed tx_sig
  choose processed (fail (message "transaction already processed")) (do
    tx_info ← wrapping (wrap "failed to verify transaction") (lift (get_transfer_info chain tx_sig))
    choose (not (str_eq tx_info.receiver treasury))
        (fail (message "payment sent to wrong treasury address"))
        (choose (not (tx_info.amount == to_u64 amount))
          (fail (
            formatted "amount mismatch expected=%d got=%d"
              (num (pos (to_u64 amount)) ∷ num (pos tx_info.amount) ∷ [])))
          (do
            wrapping (wrap "failed to finalize transaction")
                (process_payment user_id (to_u64 amount) tx_sig)
            wrapping (wrap "failed to  update DB")
                (repo_add_monitor_purchased_credits user_id credit_balance tx_sig))))
