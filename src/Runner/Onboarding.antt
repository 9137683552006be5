-- ===== src/Runner/Onboarding.antt =====
-- Onboarding of a node: registration, activation, stake, and what Me (controllers/noderunner.go) shows
-- at each step.
use deping_client_service.Base.{
  Bool, List, Option, String, [], ap, arith, eq_refl, exists_where, exists_where-select_one,
  exists_where-select_where, false, insert_desc, map, none, order_desc, pos, refl, select_one,
  select_where, select_where-append, select_where-update_where, some, str_eq, true, update_where,
  upsert, ℕ, ◌+ℤ◌, ◌<◌, ◌^◌, ◌||◌, ◌∙◌, ◌∷◌, ◌≡◌, ◌≤◌,
}
use deping_client_service.World.{Outcome, RunnerNode, User, World, calm, ok}
use deping_client_service.Payments.{is_processed}
use deping_client_service.Runner.{
  NodeDefaults, add_stake, has_node_pubkey, is_owned_by, new_node, owns_node, register_node,
  update_node_pda, without_stake,
}
use deping_client_service.Runner.Nodes.{
  MeReply, NodeTools, RegisterRunnerRequest, View, activate_node, activate_view, dashboard_view, me,
  next_view, register_runner, register_view, shows, stake_view, to_runner_response,
  validate_and_stake,
}
use deping_client_service.Runner.Staking.{small}
use deping_client_service.Solana.{derive_node_pda}
use deping_client_service.Users.{has_email}

-- The view of a reply 200 of Me.
abbrev pub shown_view : Outcome MeReply → Option View
shown_view (ok (shows view n)) = some view
shown_view o = none

module _ (email pubkey : String) where
  -- The account has this one node under the key.
  abbrev pub HasNode : RunnerNode → World → Type 0
  HasNode n w = select_where (is_owned_by email pubkey) w.nodes ≡ n ∷ []

  me_with_node :
      (n : RunnerNode) (w : World)
      → str_eq pubkey "" ≡ false
      → HasNode n w
      → (me email pubkey (calm w)).0
        ≡ ok (shows (next_view (to_runner_response n)) (some (to_runner_response n)))
  unfolding me order_desc insert_desc select_one
  me_with_node n w key own = ground (arith, key, own)

  me_without_node :
      (w : World)
      → str_eq pubkey "" ≡ false
      → select_where (is_owned_by email pubkey) w.nodes ≡ []
      → (me email pubkey (calm w)).0 ≡ ok (shows register_view none)
  unfolding me order_desc insert_desc select_one
  me_without_node w key none_yet = ground (arith, key, none_yet)

  kept_node :
      (p : RunnerNode → Bool) (f : RunnerNode → RunnerNode) (n : RunnerNode)
      (rows : List RunnerNode)
      → ((r : RunnerNode) → is_owned_by email pubkey r ≡ true → p r ≡ true)
      → ((r : RunnerNode) → is_owned_by email pubkey (f r) ≡ is_owned_by email pubkey r)
      → select_where (is_owned_by email pubkey) rows ≡ n ∷ []
      → select_where (is_owned_by email pubkey) (update_where p f rows) ≡ f n ∷ []
  kept_node p f n rows h k own =
      select_where-update_where p (is_owned_by email pubkey) f rows h (λ r _. k r) ∙ ap (map f) own

  owned-owns : (r : RunnerNode) → is_owned_by email pubkey r ≡ true → owns_node pubkey r ≡ true
  owned-owns r h = ground arith

  has_one :
      (n : RunnerNode) (rows : List RunnerNode)
      → select_where (is_owned_by email pubkey) rows ≡ n ∷ []
      → exists_where (is_owned_by email pubkey) rows ≡ true
  has_one n rows own = exists_where-select_where (is_owned_by email pubkey) rows n [] own

module _ (tools : NodeTools) (d : NodeDefaults) (email : String) (req : RegisterRunnerRequest)
    (pda : String) (bump : ℕ) where
  -- The node that the registration inserts.
  abbrev pub fresh_node : World → RunnerNode
  fresh_node w =
      new_node d w.serial w.now email req.owner_pubkey req.node_pubkey req.region
        (tools.parse_float req.latitude) (tools.parse_float req.longitude)

  register_step :
      (w : World)
      → (str_eq req.owner_pubkey "" || str_eq req.region "") ≡ false
      → exists_where (has_node_pubkey req.node_pubkey) w.nodes ≡ false
      → select_where (is_owned_by email req.owner_pubkey) w.nodes ≡ []
      → let (o, w') = register_runner tools d email req (calm w) in
        (o ≡ ok (to_runner_response (without_stake (fresh_node w))))
        × HasNode email req.owner_pubkey (fresh_node w) w'
        × (record w' { nodes = w.nodes; serial = w.serial } ≡ calm w)
  unfolding register_runner register_node upsert
  register_step w filled new none_yet = ground (
    arith,
    exists_where-select_one (has_node_pubkey req.node_pubkey) w.nodes,
    eq_refl email,
    eq_refl req.owner_pubkey,
    select_where-append (is_owned_by email req.owner_pubkey) w.nodes (fresh_node w),
  )

  activate_step :
      (n : RunnerNode) (w : World)
      → tools.is_public_key req.owner_pubkey ≡ true
      → derive_node_pda tools.addresses tools.program_id req.owner_pubkey email ≡ some (pda, bump)
      → HasNode email req.owner_pubkey n w
      → let (o, w') = activate_node tools email req.owner_pubkey pda (calm w) in
        (o ≡ ok tt)
        × HasNode email req.owner_pubkey (record n { node_pda = some pda }) w'
        × (record w' { nodes = w.nodes } ≡ calm w)
  unfolding activate_node update_node_pda
  activate_step n w valid derived own = ground (
    arith,
    eq_refl pda,
    has_one email req.owner_pubkey n w.nodes own,
    kept_node email req.owner_pubkey (is_owned_by email req.owner_pubkey)
        (λ n. record n { node_pda = some pda }) n w.nodes (λ r h. h) (λ r. refl) own,
  )

  stake_step :
      (n : RunnerNode) (sig : String) (amount : ℕ) (user : User) (w : World)
      → is_processed sig w ≡ false
      → amount < 2 ^ 63
      → select_one (has_email email) w.users ≡ some user
      → HasNode email req.owner_pubkey n w
      → let (o, w') = validate_and_stake email req.owner_pubkey sig amount (calm w) in
        (o ≡ ok tt) × HasNode email req.owner_pubkey (add_stake (pos amount) n) w'
  unfolding validate_and_stake
  stake_step n sig amount user w new fits account own = ground (
    arith,
    small amount fits,
    kept_node email req.owner_pubkey (owns_node req.owner_pubkey) (add_stake (pos amount)) n w.nodes
        (owned-owns email req.owner_pubkey) (λ r. refl) own,
  )

  -- A new node goes through the four views: where no call fails, the account exists, the key and the
  -- node are new and the columns' defaults are no stake and no validator, Me shows the registration
  -- at first, the activation once the node is registered, the stake once it is activated with the
  -- derived address, and the dashboard once a new transaction has staked at least 20 units.
  pub onboarding :
      (sig : String) (amount : ℕ) {user : User} (w : World)
      → d.is_validator ≡ false
      → d.staked_amount ≡ pos 0
      → (str_eq req.owner_pubkey "" || str_eq req.region "") ≡ false
      → exists_where (has_node_pubkey req.node_pubkey) w.nodes ≡ false
      → select_where (is_owned_by email req.owner_pubkey) w.nodes ≡ []
      → tools.is_public_key req.owner_pubkey ≡ true
      → derive_node_pda tools.addresses tools.program_id req.owner_pubkey email ≡ some (pda, bump)
      → str_eq pda "" ≡ false
      → is_processed sig w ≡ false
      → (20 ≤ amount) × (amount < 2 ^ 63)
      → select_one (has_email email) w.users ≡ some user
      → let w1 = (register_runner tools d email req (calm w)).1 in
        let w2 = (activate_node tools email req.owner_pubkey pda (calm w1)).1 in
        let w3 = (validate_and_stake email req.owner_pubkey sig amount (calm w2)).1 in
        (shown_view (me email req.owner_pubkey (calm w)).0 ≡ some register_view)
        × (shown_view (me email req.owner_pubkey (calm w1)).0 ≡ some activate_view)
        × (shown_view (me email req.owner_pubkey (calm w2)).0 ≡ some stake_view)
        × (shown_view (me email req.owner_pubkey (calm w3)).0 ≡ some dashboard_view)
  unfolding next_view to_runner_response ◌+ℤ◌
  onboarding sig amount {user} w no_validator no_stake filled new none_yet valid derived named fresh
        (enough, fits) account =
      let key : str_eq req.owner_pubkey "" ≡ false = ground arith in
      let n0 = fresh_node w in
      let n1 : RunnerNode = record n0 { node_pda = some pda } in
      let n2 : RunnerNode = add_stake (pos amount) n1 in
      let w1 = (register_runner tools d email req (calm w)).1 in
      let w2 = (activate_node tools email req.owner_pubkey pda (calm w1)).1 in
      let w3 = (validate_and_stake email req.owner_pubkey sig amount (calm w2)).1 in
      let (_, has0, same1) = register_step w filled new none_yet in
      let (_, has1, same2) = activate_step n0 w1 valid derived has0 in
      let processed : w2.processed ≡ w.processed =
        ap (λ (v : World). v.processed) same2 ∙ ap (λ (v : World). v.processed) same1 in
      let users : w2.users ≡ w.users =
        ap (λ (v : World). v.users) same2 ∙ ap (λ (v : World). v.users) same1 in
      let (_, has2) =
        stake_step n1 sig amount user w2 (rw processed fresh) fits (rw users account) has1 in
      let register_shown = me_without_node email req.owner_pubkey w key none_yet in
      let activate_shown = me_with_node email req.owner_pubkey n0 w1 key has0 in
      let stake_shown = me_with_node email req.owner_pubkey n1 w2 key has1 in
      let dashboard_shown = me_with_node email req.owner_pubkey n2 w3 key has2 in
      let staking : next_view (to_runner_response n1) ≡ stake_view = ground arith in
      let done : next_view (to_runner_response n2) ≡ dashboard_view = ground arith in
      (
        ap shown_view register_shown,
        ap shown_view activate_shown,
        ap shown_view stake_shown ∙ ap some staking,
        ap shown_view dashboard_shown ∙ ap some done,
      )
