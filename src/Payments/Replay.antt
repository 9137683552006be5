-- ===== src/Payments/Replay.antt =====
-- A transaction pays once (services/user_service.go, services/telegram_service.go).
use deping_client_service.Base.{
  String, arith, eq_iff, eq_refl, exists_where, false, to_u64, true, ℕ, ℤ, ◌≡◌,
}
use deping_client_service.World.{Outcome, World, err, ok, panic}
use deping_client_service.Credits.{repo_add_purchased_credits}
use deping_client_service.Credits.Deduct.{spent}
use deping_client_service.Payments.{
  add_monitor_purchased_credits, add_purchased_credits, is_processed,
}
use deping_client_service.Solana.{Chain, TxInfo, get_transfer_info}

-- What GetTransferInfo must have reported for a purchase to go through.
abbrev pub Verified : String → ℤ → Outcome TxInfo → Type 0
Verified treasury amount (ok info) = (info.receiver ≡ treasury) × (info.amount ≡ to_u64 amount)
Verified treasury amount (err e) = ⊥
Verified treasury amount panic = ⊥

abbrev receiver_of : Outcome TxInfo → String
receiver_of (ok info) = info.receiver
receiver_of (err e) = ""
receiver_of panic = ""

-- The tables are as they were.
abbrev pub SameTables : World → World → Type 0
SameTables w w' = record w' { faults = w.faults } ≡ w

abbrev pub IsErr : {A : Type 0} → Outcome A → Type 0
IsErr (ok a) = ⊥
IsErr (err e) = Unit {0}
IsErr panic = ⊥

module _ (chain : Chain) (treasury : String) (u : ℕ) (amount : ℤ) (sig : String) (credits : ℤ) where
  -- A purchase of monitor credits that succeeds was not processed before and is afterwards, and the
  -- chain reports for it a transfer of exactly the stated amount, as a uint64, to the treasury.
  pub add_monitor_purchased_credits-Verified :
      (w : World) {balance : ℤ}
      → (add_monitor_purchased_credits chain treasury u amount sig credits w).0 ≡ ok balance
      → let w' = (add_monitor_purchased_credits chain treasury u amount sig credits w).1 in
        (is_processed sig w ≡ false)
        × (is_processed sig w' ≡ true)
        × Verified treasury amount (get_transfer_info chain sig)
  unfolding add_monitor_purchased_credits exists_where
  add_monitor_purchased_credits-Verified w done =
      let info = get_transfer_info chain sig in
      ground (arith, eq_refl sig, eq_iff (receiver_of info) treasury)

  -- The same of a purchase of Telegram credits.
  pub add_purchased_credits-Verified :
      (w : World) {balance : ℤ}
      → (add_purchased_credits chain treasury u amount sig credits w).0 ≡ ok balance
      → let w' = (add_purchased_credits chain treasury u amount sig credits w).1 in
        (is_processed sig w ≡ false)
        × (is_processed sig w' ≡ true)
        × Verified treasury amount (get_transfer_info chain sig)
  unfolding add_purchased_credits exists_where repo_add_purchased_credits
  add_purchased_credits-Verified w done =
      let info = get_transfer_info chain sig in
      ground (arith, eq_refl sig, eq_iff (receiver_of info) treasury)

  -- A signature that has been processed buys nothing again, in either service: the call returns an
  -- error and the tables stay as they are, whichever calls fail.
  pub purchases_replayed :
      (w : World)
      → is_processed sig w ≡ true
      → let (m, w1) = add_monitor_purchased_credits chain treasury u amount sig credits w in
        let (t, w2) = add_purchased_credits chain treasury u amount sig credits w in
        IsErr m × SameTables w w1 × IsErr t × SameTables w w2
  unfolding add_monitor_purchased_credits add_purchased_credits
  purchases_replayed w spent = ground arith
