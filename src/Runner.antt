-- ===== src/Runner.antt =====
-- Runner nodes: db/repositories/noderunner_repo.go. The defaults of the table `runner_nodes`, which no
-- file of the repository declares, are a parameter; its column node_pubkey is unique, as the
-- statement ON CONFLICT (node_pubkey) needs. A float64 is its bit pattern: the code only copies it.
pub mod Nodes
pub mod Staking
pub mod Onboarding
pub mod Upkeep
use mathlib.Core.Option
use deping_client_service.Base.{
  Bool, List, Option, String, [], delete_where, exists_where, false, if◌then◌else◌, leb_ℤ, map,
  none, not, order_desc, pos, select_one, select_where, some, str_eq, true, update_where, upsert,
  upserted, ℕ, ℤ, ◌&&◌, ◌+ℤ◌, ◌+◌, ◌-ℤ◌, ◌∷◌,
}
use deping_client_service.World.{
  Error, M, RunnerNode, err, exec, external, formatted, message, no_rows, ok, scan_row, text, wrap,
  wrapping,
}
use deping_client_service.Hub.Busy.{pending}

-- A row with the defaults of the columns.
pub record NodeDefaults : Type 0 where
  pub offchain_accumulated_tokens : ℕ
  pub total_earned_tokens_all_time : ℕ
  pub pending_solana_sync : Bool
  pub is_validator : Bool
  pub staked_amount : ℤ

abbrev pub owns_node : String → RunnerNode → Bool
owns_node pubkey n = str_eq n.owner_pubkey pubkey && not n.deleted

abbrev pub is_owned_by : String → String → RunnerNode → Bool
is_owned_by email pubkey n =
    str_eq n.owner_email email && (str_eq n.owner_pubkey pubkey && not n.deleted)

unfoldable pub update_node_pda : String → String → String → M (Unit {0})
update_node_pda email pubkey pda = external λ w.
    if exists_where (is_owned_by email pubkey) w.nodes
    then (
      ok tt,
      record w {
        nodes =
            update_where (is_owned_by email pubkey) (λ n. record n { node_pda = some pda }) w.nodes;
      },
    )
    else (err (message "no node found matching the provided pubkey and email"), w)

abbrev pub has_pda : String → RunnerNode → Bool
has_pda pda n = elim n.node_pda [ none ↦ false | some p ↦ str_eq p pda ] && not n.deleted

-- The columns that a query leaves out keep Go's zero values.
abbrev pub without_sync : RunnerNode → RunnerNode
without_sync n = record n {
  pending_solana_sync = false;
  last_seen_timestamp = 0;
  created_at = 0;
  node_pda = none;
}

abbrev pub pda_error : String → Error → Error
pda_error pda no_rows = formatted "node not found for PDA: %s" (text pda ∷ [])
pda_error pda e = e

unfoldable pub get_node_by_pda : String → M RunnerNode
get_node_by_pda pda =
    wrapping (pda_error pda)
      (scan_row λ w. Option.map without_sync (select_one (has_pda pda) w.nodes))

-- SET staked_amount = staked_amount + $1; the literal of the test is 20.000000000.
abbrev pub add_stake : ℤ → RunnerNode → RunnerNode
add_stake amount n = record n {
  staked_amount = n.staked_amount +ℤ amount;
  is_validator = leb_ℤ (pos 20) (n.staked_amount +ℤ amount);
}

-- Here it is 20000000000.
abbrev pub take_stake : ℤ → RunnerNode → RunnerNode
take_stake amount n = record n {
  staked_amount = n.staked_amount -ℤ amount;
  is_validator = leb_ℤ (pos 20000000000) (n.staked_amount -ℤ amount);
}

unfoldable pub update_stake : String → ℤ → M (Unit {0})
update_stake pubkey amount =
    exec λ w. record w { nodes = update_where (owns_node pubkey) (add_stake amount) w.nodes }

unfoldable pub update_unstake : String → ℤ → M (Unit {0})
update_unstake pubkey amount =
    exec λ w. record w { nodes = update_where (owns_node pubkey) (take_stake amount) w.nodes }

abbrev pub has_owner_pubkey : String → RunnerNode → Bool
has_owner_pubkey pubkey n = str_eq n.owner_pubkey pubkey

unfoldable pub delete_node : String → M (Unit {0})
delete_node pubkey = exec λ w. record w { nodes = delete_where (has_owner_pubkey pubkey) w.nodes }

abbrev pub has_node_pubkey : String → RunnerNode → Bool
has_node_pubkey key n = str_eq n.node_pubkey key

abbrev pub without_stake : RunnerNode → RunnerNode
without_stake n = record n {
  is_validator = false;
  staked_amount = pos 0;
  node_pda = none;
  deleted = false;
}

abbrev pub new_node : NodeDefaults → ℕ → ℕ → String → String → String → String → ℕ → ℕ → RunnerNode
new_node d id now email owner_pubkey node_pubkey region latitude longitude = record {
  id = id;
  owner_email = email;
  owner_pubkey = owner_pubkey;
  node_pubkey = node_pubkey;
  region = region;
  latitude = latitude;
  longitude = longitude;
  offchain_accumulated_tokens = d.offchain_accumulated_tokens;
  total_earned_tokens_all_time = d.total_earned_tokens_all_time;
  pending_solana_sync = d.pending_solana_sync;
  last_seen_timestamp = now;
  is_validator = d.is_validator;
  staked_amount = d.staked_amount;
  node_pda = none;
  created_at = now;
  deleted = false;
}

-- DO UPDATE SET: the owner's email, the stake and the PDA of the old row stay.
abbrev pub move_node : ℕ → String → String → ℕ → ℕ → RunnerNode → RunnerNode
move_node now owner_pubkey region latitude longitude n = record n {
  owner_pubkey = owner_pubkey;
  region = region;
  latitude = latitude;
  longitude = longitude;
  last_seen_timestamp = now;
}

unfoldable pub register_node :
    NodeDefaults → String → String → String → String → ℕ → ℕ → M RunnerNode
register_node d email owner_pubkey node_pubkey region latitude longitude =
    wrapping (wrap "nodeRunnerRepo.Register") (
      external λ w.
        let new =
          new_node d w.serial w.now email owner_pubkey node_pubkey region latitude longitude in
        let move = move_node w.now owner_pubkey region latitude longitude in
        (
          ok (without_stake (upserted move new (select_one (has_node_pubkey node_pubkey) w.nodes))),
          record w {
            nodes = upsert (has_node_pubkey node_pubkey) move new w.nodes;
            serial = w.serial + 1;
          },
        ))

unfoldable pub find_by_pubkey : String → M RunnerNode
find_by_pubkey pubkey =
    wrapping (wrap "nodeRunnerRepo.FindByPubkey")
      (scan_row λ w. Option.map without_stake (select_one (owns_node pubkey) w.nodes))

abbrev pub not_no_rows : Error → Error
not_no_rows no_rows = no_rows
not_no_rows e = wrap "db error" e

-- ORDER BY created_at DESC LIMIT 1
abbrev pub newest_node : String → String → List RunnerNode → Option RunnerNode
newest_node email pubkey nodes =
    select_one (λ n. true)
      (order_desc (λ n. n.created_at) (select_where (is_owned_by email pubkey) nodes))

unfoldable pub find_by_email_and_pubkey : String → String → M RunnerNode
find_by_email_and_pubkey email pubkey =
    wrapping not_no_rows (scan_row λ w. newest_node email pubkey w.nodes)

unfoldable pub update_heartbeat : String → M (Unit {0})
update_heartbeat pubkey = wrapping (wrap "nodeRunnerRepo.UpdateHeartbeat") (
    exec λ w. record w {
      nodes =
          update_where (has_owner_pubkey pubkey) (λ n. record n { last_seen_timestamp = w.now })
            w.nodes;
    })

record AccumulateResult : Type 0 where
  new_balance : ℕ
  did_sync : Bool

-- The stored function accumulate_runner_reward, which no file of the repository defines, is a parameter.
unfoldable accumulate_reward :
    (String → ℕ → ℕ → M AccumulateResult) → String → ℕ → ℕ → M AccumulateResult
accumulate_reward accumulate_runner_reward pubkey delta threshold =
    wrapping (wrap "nodeRunnerRepo.AccumulateReward")
      (accumulate_runner_reward pubkey delta threshold)

unfoldable pub set_pending_sync : String → Bool → M (Unit {0})
set_pending_sync pubkey pending = wrapping (wrap "nodeRunnerRepo.SetPendingSync") (
    exec λ w. record w {
      nodes =
          update_where (has_owner_pubkey pubkey) (λ n. record n { pending_solana_sync = pending })
            w.nodes;
    })
