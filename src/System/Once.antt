-- ===== src/System/Once.antt =====
-- A transaction pays once in the life of the service (services/user_service.go,
-- services/telegram_service.go, services/noderunner_service.go).
use deping_client_service.Base.{List, String, [], arith, true, ℕ, ℤ, ◌∷◌, ◌≡◌}
use deping_client_service.World.{World, ok}
use deping_client_service.Credits.Deduct.{spent}
use deping_client_service.Invariant.{IsSound, paying, with_marks}
use deping_client_service.Invariant.Services.{
  add_monitor_purchased_credits-IsSound, add_purchased_credits-IsSound,
}
use deping_client_service.Payments.{
  add_monitor_purchased_credits, add_purchased_credits, is_processed,
}
use deping_client_service.Payments.Replay.{
  IsErr, SameTables, add_monitor_purchased_credits-Verified, add_purchased_credits-Verified,
  purchases_replayed,
}
use deping_client_service.Runner.Nodes.{validate_and_stake}
use deping_client_service.Solana.{Chain}
use deping_client_service.System.{Event, Service, run_events}
use deping_client_service.System.Reachable.{run_events-IsSound}

stake_replayed :
    (email pubkey sig : String) (amount : ℕ) (w : World)
    → is_processed sig w ≡ true
    → let (o, w') = validate_and_stake email pubkey sig amount w in IsErr o × SameTables w w'
unfolding validate_and_stake
stake_replayed email pubkey sig amount w spent = ground arith

-- The signature buys nothing: no monitor credits, no Telegram credits and no stake, whoever asks for
-- what, whatever the chain reports and whichever calls fail; the tables stay as they are.
abbrev pub BuysNothing : String → World → Type 0
BuysNothing sig w =
    (chain : Chain) (treasury : String) (u : ℕ) (amount credits : ℤ) (email pubkey : String)
    (stake : ℕ)
    → let (m, w1) = add_monitor_purchased_credits chain treasury u amount sig credits w in
      let (t, w2) = add_purchased_credits chain treasury u amount sig credits w in
      let (s, w3) = validate_and_stake email pubkey sig stake w in
      (IsErr m × SameTables w w1) × (IsErr t × SameTables w w2) × (IsErr s × SameTables w w3)

processed-BuysNothing : (sig : String) (w : World) → is_processed sig w ≡ true → BuysNothing sig w
processed-BuysNothing sig w spent chain treasury u amount credits email pubkey stake =
    let (m, same1, t, same2) = purchases_replayed chain treasury u amount sig credits w spent in
    ((m, same1), (t, same2), stake_replayed email pubkey sig stake w spent)

-- A transaction that is recorded stays recorded.
run_events-is_processed :
    (es : List Event) (v : Service) (sig : String)
    → IsSound (paying []) v.world
    → is_processed sig v.world ≡ true
    → is_processed sig (run_events es v).world ≡ true
run_events-is_processed es v sig h known =
    let recorded = with_marks v.world (paying (sig ∷ [])) h (known, tt) tt tt in
    (run_events-IsSound es v (λ _. tt) recorded).paid_rows.0

module _ (chain : Chain) (treasury : String) (u : ℕ) (amount : ℤ) (sig : String) (credits : ℤ)
    (v : Service) where
  -- No transaction pays twice: once it has bought monitor credits, it buys nothing after any requests,
  -- updates of the bot, deliveries and ticks, whichever calls fail among them.
  pub add_monitor_purchased_credits-BuysNothing :
      {balance : ℤ} (es : List Event)
      → IsSound (paying []) v.world
      → (add_monitor_purchased_credits chain treasury u amount sig credits v.world).0 ≡ ok balance
      → let w = (add_monitor_purchased_credits chain treasury u amount sig credits v.world).1 in
        BuysNothing sig (run_events es (record v { world = w })).world
  add_monitor_purchased_credits-BuysNothing es h done =
      let w = (add_monitor_purchased_credits chain treasury u amount sig credits v.world).1 in
      let paid =
        add_monitor_purchased_credits-Verified chain treasury u amount sig credits v.world done in
      let sound =
        (add_monitor_purchased_credits-IsSound chain treasury u amount sig credits).at v.world h in
      processed-BuysNothing sig _
        (run_events-is_processed es (record v { world = w }) sig sound paid.1)

  -- The same once it has bought Telegram credits.
  add_purchased_credits-BuysNothing :
      {balance : ℤ} (es : List Event)
      → IsSound (paying []) v.world
      → (add_purchased_credits chain treasury u amount sig credits v.world).0 ≡ ok balance
      → let w = (add_purchased_credits chain treasury u amount sig credits v.world).1 in
        BuysNothing sig (run_events es (record v { world = w })).world
  add_purchased_credits-BuysNothing es h done =
      let w = (add_purchased_credits chain treasury u amount sig credits v.world).1 in
      let paid = add_purchased_credits-Verified chain treasury u amount sig credits v.world done in
      let sound =
        (add_purchased_credits-IsSound chain treasury u amount sig credits).at v.world h in
      processed-BuysNothing sig _
        (run_events-is_processed es (record v { world = w }) sig sound paid.1)
