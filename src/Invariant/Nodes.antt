-- ===== src/Invariant/Nodes.antt =====
-- The service of the runner nodes keeps the invariant (services/noderunner_service.go,
-- controllers/noderunner.go).
use deping_client_service.Base.{List, Option, String, arith, none, refl, some, ℕ, ℤ, ◌≡◌}
use deping_client_service.World.{M, Outcome, User, World, err, ok, panic}
use deping_client_service.Invariant.{IsSound, Marks}
use deping_client_service.Invariant.Ledger.{process_payment-IsSound}
use deping_client_service.Invariant.Services.{get_user_by_email-IsSound, is_tx_processed-IsSound}
use deping_client_service.Keeping.{Keeps, keeps_rules}
use deping_client_service.Registry.{ActiveNode}
use deping_client_service.Runner.{
  NodeDefaults, delete_node, find_by_email_and_pubkey, find_by_pubkey, register_node,
  update_heartbeat, update_node_pda, update_stake, update_unstake,
}
use deping_client_service.Runner.Nodes.{
  NodeTools, RegisterRunnerRequest, activate_node, answering, completely_delete_node,
  get_by_email_and_pubkey, heartbeat, me, record_stake, register_runner, replied, stake_verified,
  unstake_verified, validate_and_stake, validate_and_unstake, validate_stake, validate_unstake,
}
use deping_client_service.Solana.{Chain, TxInfo, get_transfer_info}
use deping_client_service.Users.{get_user_by_email}

pub register_runner-IsSound :
    {marks : Marks} (tools : NodeTools) (d : NodeDefaults) (email : String)
    (req : RegisterRunnerRequest)
    → Keeps (IsSound marks) (register_runner tools d email req)
unfolding register_runner register_node
register_runner-IsSound tools d email req = record { at = λ w h. ground (arith, h) }

pub activate_node-IsSound :
    {marks : Marks} (tools : NodeTools) (email pubkey pda : String)
    → Keeps (IsSound marks) (activate_node tools email pubkey pda)
unfolding activate_node update_node_pda
activate_node-IsSound tools email pubkey pda = record { at = λ w h. ground (arith, h) }

pub heartbeat-IsSound :
    {marks : Marks} (clock : ℕ) (pubkey : String) (registry : List ActiveNode)
    → Keeps (IsSound marks) (heartbeat clock pubkey registry)
unfolding heartbeat update_heartbeat find_by_pubkey
heartbeat-IsSound clock pubkey registry = record { at = λ w h. ground (arith, h) }

record_stake-IsSound :
    {marks : Marks} (amount : ℕ) (sig : String) (o : Option User)
    → Keeps (IsSound marks) (record_stake amount sig o)
record_stake-IsSound amount sig none = record { at = λ w h. h }
record_stake-IsSound amount sig (some u) = process_payment-IsSound u.id amount sig

update_stake-IsSound :
    {marks : Marks} (pubkey : String) (amount : ℤ)
    → Keeps (IsSound marks) (update_stake pubkey amount)
unfolding update_stake
update_stake-IsSound pubkey amount = record { at = λ w h. ground (arith, h) }

update_unstake-IsSound :
    {marks : Marks} (pubkey : String) (amount : ℤ)
    → Keeps (IsSound marks) (update_unstake pubkey amount)
unfolding update_unstake
update_unstake-IsSound pubkey amount = record { at = λ w h. ground (arith, h) }

validate_and_stake-IsSound :
    {marks : Marks} (email pubkey sig : String) (amount : ℕ)
    → Keeps (IsSound marks) (validate_and_stake email pubkey sig amount)
unfolding validate_and_stake
validate_and_stake-IsSound email pubkey sig amount = search (
  keeps_rules, is_tx_processed-IsSound, update_stake-IsSound, get_user_by_email-IsSound,
  record_stake-IsSound,
)

validate_and_unstake-IsSound :
    {marks : Marks} (email pubkey sig : String) (amount : ℕ)
    → Keeps (IsSound marks) (validate_and_unstake email pubkey sig amount)
unfolding validate_and_unstake
validate_and_unstake-IsSound email pubkey sig amount = search (
  keeps_rules, is_tx_processed-IsSound, update_unstake-IsSound, get_user_by_email-IsSound,
  record_stake-IsSound,
)

pub completely_delete_node-IsSound :
    {marks : Marks} (email pubkey : String)
    → Keeps (IsSound marks) (completely_delete_node email pubkey)
unfolding completely_delete_node get_user_by_email delete_node
completely_delete_node-IsSound email pubkey = record { at = λ w h. ground (arith, h) }

pub me-IsSound : {marks : Marks} (email pubkey : String) → Keeps (IsSound marks) (me email pubkey)
unfolding me get_by_email_and_pubkey find_by_email_and_pubkey
me-IsSound email pubkey = record { at = λ w h. ground (arith, h) }

replied_kept : (p : Outcome (Unit {0}) × World) → (replied p).1 ≡ p.1
replied_kept (ok a, w) = refl
replied_kept (err e, w) = refl
replied_kept (panic, w) = refl

answering-IsSound :
    {marks : Marks} (m : M (Unit {0}))
    → Keeps (IsSound marks) m
    → Keeps (IsSound marks) (answering m)
answering-IsSound m k = record { at = λ w h. rw (replied_kept (m w)) (k.at w h) }

stake_verified-IsSound :
    {marks : Marks} (vault email pubkey sig : String) (o : Outcome TxInfo)
    → Keeps (IsSound marks) (stake_verified vault email pubkey sig o)
stake_verified-IsSound vault email pubkey sig (err e) = search keeps_rules
stake_verified-IsSound vault email pubkey sig panic = record { at = λ w h. h }
stake_verified-IsSound vault email pubkey sig (ok info) =
    search (keeps_rules, answering-IsSound, validate_and_stake-IsSound)

pub validate_stake-IsSound :
    {marks : Marks} (chain : Chain) (vault email pubkey sig : String)
    → Keeps (IsSound marks) (validate_stake chain vault email pubkey sig)
unfolding validate_stake
validate_stake-IsSound chain vault email pubkey sig =
    stake_verified-IsSound vault email pubkey sig (get_transfer_info chain sig)

unstake_verified-IsSound :
    {marks : Marks} (vault email pubkey sig : String) (o : Outcome TxInfo)
    → Keeps (IsSound marks) (unstake_verified vault email pubkey sig o)
unstake_verified-IsSound vault email pubkey sig (err e) = search keeps_rules
unstake_verified-IsSound vault email pubkey sig panic = record { at = λ w h. h }
unstake_verified-IsSound vault email pubkey sig (ok info) =
    search (keeps_rules, answering-IsSound, validate_and_unstake-IsSound)

pub validate_unstake-IsSound :
    {marks : Marks} (chain : Chain) (vault email pubkey sig : String)
    → Keeps (IsSound marks) (validate_unstake chain vault email pubkey sig)
unfolding validate_unstake
validate_unstake-IsSound chain vault email pubkey sig =
    unstake_verified-IsSound vault email pubkey sig (get_transfer_info chain sig)
