-- ===== src/Tests/Nodes.antt =====
-- Examples for the runner nodes.
use deping_client_service.Base.{
  [], arith, exists_where, false, none, pos, refl, select_one, select_where, some, to_i64, to_u64,
  true, ◌+ℤ◌, ◌-ℤ◌, ◌∷◌, ◌≡◌,
}
use deping_client_service.World.{RunnerNode, World, calm, err, ok, unavailable, wrap}
use deping_client_service.Payments.{is_processed}
use deping_client_service.Runner.{NodeDefaults, owns_node}
use deping_client_service.Runner.Nodes.{
  NodeTools, RegisterRunnerRequest, accepted, activate_node, activate_view, dashboard_view, me,
  register_runner, register_view, stake_view, validate_and_stake, validate_stake,
}
use deping_client_service.Runner.Onboarding.{onboarding, shown_view}
use deping_client_service.Runner.Staking.{PaidTo, stake_counted_twice, validate_stake-PaidTo}
use deping_client_service.Solana.{
  balance_diff, derive_node_pda, digits_value, find_post, get_transfer_info, parse, scan_balances,
}
use deping_client_service.Tests.{sample_addresses, sample_chain, sample_world}

abbrev sample_node : RunnerNode
sample_node = record {
  id = 1;
  owner_email = "ann@example.org";
  owner_pubkey = "K1";
  node_pubkey = "N1";
  region = "eu";
  latitude = 5;
  longitude = 6;
  offchain_accumulated_tokens = 0;
  total_earned_tokens_all_time = 0;
  pending_solana_sync = false;
  last_seen_timestamp = 800;
  is_validator = false;
  staked_amount = pos 0;
  node_pda = none;
  created_at = 800;
  deleted = false;
}

abbrev node_world : World
node_world = record sample_world { nodes = sample_node ∷ [] }

-- Every float is 1.
abbrev sample_tools : NodeTools
sample_tools = record {
  is_public_key = λ k. true;
  addresses = sample_addresses;
  program_id = "P";
  parse_float = λ s. 1;
}

abbrev sample_defaults : NodeDefaults
sample_defaults = record {
  offchain_accumulated_tokens = 0;
  total_earned_tokens_all_time = 0;
  pending_solana_sync = false;
  is_validator = false;
  staked_amount = pos 0;
}

abbrev sample_registration : RegisterRunnerRequest
sample_registration = record {
  owner_pubkey = "K1";
  node_pubkey = "N1";
  region = "eu";
  latitude = "5.0";
  longitude = "6.0";
}

onboarding_example :
    let w1 =
      (register_runner sample_tools sample_defaults "ann@example.org" sample_registration
        (calm sample_world)).1 in
    let w2 = (activate_node sample_tools "ann@example.org" "K1" "PDA" (calm w1)).1 in
    let w3 = (validate_and_stake "ann@example.org" "K1" "sig" 25 (calm w2)).1 in
    (shown_view (me "ann@example.org" "K1" (calm sample_world)).0 ≡ some register_view)
    × (shown_view (me "ann@example.org" "K1" (calm w1)).0 ≡ some activate_view)
    × (shown_view (me "ann@example.org" "K1" (calm w2)).0 ≡ some stake_view)
    × (shown_view (me "ann@example.org" "K1" (calm w3)).0 ≡ some dashboard_view)
unfolding select_one select_where exists_where derive_node_pda
onboarding_example =
    onboarding sample_tools sample_defaults "ann@example.org" sample_registration "PDA" 255 "sig" 25
      sample_world refl refl refl refl refl refl refl refl refl (omega arith, omega arith) refl

stake_counted_twice_example :
    let w0 = record node_world { faults = false ∷ false ∷ false ∷ true ∷ [] } in
    let (first, w1) = validate_and_stake "ann@example.org" "K1" "sig" 25 w0 in
    let (second, w2) = validate_and_stake "ann@example.org" "K1" "sig" 25 w1 in
    (first ≡ err (wrap "transaction already processed or database error" unavailable))
    × (second ≡ ok tt)
    × (select_one (owns_node "K1") w2.nodes
        ≡ some (record sample_node { staked_amount = pos 50; is_validator = true }))
unfolding exists_where select_one ◌+ℤ◌
stake_counted_twice_example =
    stake_counted_twice "ann@example.org" "K1" "sig" 25 node_world refl (omega arith) refl refl

staking :
    (validate_stake sample_chain "TREASURY" "ann@example.org" "K1" "sig" node_world).0 ≡ ok accepted
unfolding validate_stake get_transfer_info scan_balances balance_diff find_post parse digits_value
    to_u64 to_i64 ◌-ℤ◌ exists_where select_one
staking = refl

validate_stake-PaidTo_example :
    let w' = (validate_stake sample_chain "TREASURY" "ann@example.org" "K1" "sig" node_world).1 in
    (is_processed "sig" node_world ≡ false)
    × PaidTo "TREASURY" "sig" w'.processed (get_transfer_info sample_chain "sig")
validate_stake-PaidTo_example =
    validate_stake-PaidTo sample_chain "TREASURY" "ann@example.org" "K1" "sig" node_world staking
