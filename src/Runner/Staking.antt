-- ===== src/Runner/Staking.antt =====
-- Stakes (db/repositories/noderunner_repo.go, services/noderunner_service.go).
use deping_client_service.Base.{
  List, String, [], arith, eq_iff, eq_refl, exists_where, false, none, pos, refl, select_one,
  select_one-update_where_self, some, str_eq, to_i64, true, update_where, ℕ, ℤ, ◌&&◌, ◌<◌, ◌==◌,
  ◌^◌, ◌∷◌, ◌≡◌,
}
use deping_client_service.World.{
  Outcome, ProcessedTransaction, RunnerNode, User, World, calm, err, ok, panic, unavailable, wrap,
}
use deping_client_service.Credits.Deduct.{spent}
use deping_client_service.Payments.{is_processed}
use deping_client_service.Payments.Replay.{SameTables}
use deping_client_service.Runner.{add_stake, owns_node}
use deping_client_service.Runner.Nodes.{
  accepted, already_processed, validate_and_stake, validate_and_unstake, validate_stake,
}
use deping_client_service.Solana.{Chain, TxInfo, get_transfer_info}
use deping_client_service.Users.{has_email}

pub small : (amount : ℕ) → amount < 2 ^ 63 → to_i64 amount ≡ pos amount
unfolding to_i64
small amount h = ground arith

staked_once :
    (pubkey : String) (amount : ℤ) (rows : List RunnerNode) (m : RunnerNode)
    → select_one (owns_node pubkey) rows ≡ some m
    → select_one (owns_node pubkey) (update_where (owns_node pubkey) (add_stake amount) rows)
      ≡ some (add_stake amount m)
staked_once pubkey amount rows m found =
    ground
      (arith, select_one-update_where_self (owns_node pubkey) (add_stake amount) rows (λ r k. refl))

module _ (email pubkey sig : String) (amount : ℕ) (w : World) where
  -- A transaction that has been processed moves no stake: both operations return an error and leave
  -- every table as it was, whichever calls fail.
  pub stakes_replayed :
      is_processed sig w ≡ true
      → let (s, w1) = validate_and_stake email pubkey sig amount w in
        let (u, w2) = validate_and_unstake email pubkey sig amount w in
        (s ≡ err already_processed)
        × SameTables w w1
        × (u ≡ err already_processed)
        × SameTables w w2
  unfolding validate_and_stake validate_and_unstake
  stakes_replayed spent = ground arith

  -- The world after the stake was added and not recorded.
  abbrev pub stake_added : World
  stake_added = record w {
    nodes = update_where (owns_node pubkey) (add_stake (pos amount)) w.nodes;
    faults = [];
  }

  module _ (new : is_processed sig w ≡ false) (fits : amount < 2 ^ 63) {n : RunnerNode}
      (own : select_one (owns_node pubkey) w.nodes ≡ some n) where
    -- Where no call fails and the email is an account's, a new transaction adds its amount to the
    -- stake of the owner's node and is recorded; no other table changes.
    pub validate_and_stake_effect :
        {user : User}
        → select_one (has_email email) w.users ≡ some user
        → let (o, w') = validate_and_stake email pubkey sig amount (calm w) in
          (o ≡ ok tt)
          × (select_one (owns_node pubkey) w'.nodes ≡ some (add_stake (pos amount) n))
          × (w'.processed
              ≡ record { signature = sig; user_id = user.id; amount = amount } ∷ w.processed)
          × (record w' { nodes = w.nodes; processed = w.processed } ≡ calm w)
    unfolding validate_and_stake
    validate_and_stake_effect account =
        ground (arith, small amount fits, staked_once pubkey (pos amount) w.nodes n own)

    not_recorded :
        {user : User}
        → select_one (has_email email) w.users ≡ some user
        → validate_and_stake email pubkey sig amount
            (record w { faults = false ∷ false ∷ false ∷ true ∷ [] })
          ≡ (err (wrap "transaction already processed or database error" unavailable), stake_added)
    unfolding validate_and_stake
    not_recorded account = ground (arith, small amount fits)

    -- For an email that no account has the call panics after the stake was added, and the
    -- transaction is not recorded.
    pub stake_without_account :
        select_one (has_email email) w.users ≡ none
        → let (o, w') = validate_and_stake email pubkey sig amount (calm w) in
          (o ≡ panic)
          × (select_one (owns_node pubkey) w'.nodes ≡ some (add_stake (pos amount) n))
          × (is_processed sig w' ≡ false)
    unfolding validate_and_stake
    stake_without_account nobody =
        ground (arith, small amount fits, staked_once pubkey (pos amount) w.nodes n own)

-- The stake is added before the transaction is recorded, not in one step with it: if the record fails
-- the call fails, but the stake stays, and a second call adds the amount once more.
pub stake_counted_twice :
    (email pubkey sig : String) (amount : ℕ) (w : World) {n : RunnerNode} {user : User}
    → is_processed sig w ≡ false
    → amount < 2 ^ 63
    → select_one (owns_node pubkey) w.nodes ≡ some n
    → select_one (has_email email) w.users ≡ some user
    → let w0 = record w { faults = false ∷ false ∷ false ∷ true ∷ [] } in
      let (first, w1) = validate_and_stake email pubkey sig amount w0 in
      let (second, w2) = validate_and_stake email pubkey sig amount w1 in
      (first ≡ err (wrap "transaction already processed or database error" unavailable))
      × (second ≡ ok tt)
      × (select_one (owns_node pubkey) w2.nodes
          ≡ some (add_stake (pos amount) (add_stake (pos amount) n)))
stake_counted_twice email pubkey sig amount w {n} new fits own account =
    let again =
      validate_and_stake_effect email pubkey sig amount (stake_added email pubkey sig amount w) new
        fits (staked_once pubkey (pos amount) w.nodes n own) account in
    rw (not_recorded email pubkey sig amount w new fits own account) (refl, again.0, again.1)

-- A transfer to the vault, of an amount with which the transaction is recorded.
abbrev pub PaidTo : String → String → List ProcessedTransaction → Outcome TxInfo → Type 0
PaidTo vault sig processed (ok info) =
    (info.receiver ≡ vault)
    × (exists_where (λ t. str_eq t.signature sig && t.amount == info.amount) processed ≡ true)
PaidTo vault sig processed (err e) = ⊥
PaidTo vault sig processed panic = ⊥

abbrev receiver_of : Outcome TxInfo → String
receiver_of (ok info) = info.receiver
receiver_of (err e) = ""
receiver_of panic = ""

abbrev amount_of : Outcome TxInfo → ℕ
amount_of (ok info) = info.amount
amount_of (err e) = 0
amount_of panic = 0

-- The handler's reply is a success only if the chain reports a transfer to the vault for the
-- transaction, which was not processed before and is recorded afterwards with the amount of the
-- transfer.
pub validate_stake-PaidTo :
    (chain : Chain) (vault email pubkey sig : String) (w : World)
    → (validate_stake chain vault email pubkey sig w).0 ≡ ok accepted
    → let w' = (validate_stake chain vault email pubkey sig w).1 in
      (is_processed sig w ≡ false) × PaidTo vault sig w'.processed (get_transfer_info chain sig)
unfolding validate_stake exists_where
validate_stake-PaidTo chain vault email pubkey sig w done =
    let info = get_transfer_info chain sig in
    ground (arith, eq_refl sig, eq_iff (receiver_of info) vault)
