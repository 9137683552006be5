-- ===== src/Tests/Purchases.antt =====
-- Examples for the purchases.
use deping_client_service.Base.{
  [], arith, exists_where, false, pos, refl, select_one, to_i64, to_u64, true, ◌+ℤ◌, ◌-ℤ◌, ◌<◌, ◌∷◌,
  ◌≡◌,
}
use deping_client_service.World.{World, calm, ok}
use deping_client_service.Payments.{
  add_monitor_purchased_credits, add_purchased_credits, is_processed,
}
use deping_client_service.Payments.Effect.{
  add_monitor_purchased_credits_effect, add_purchased_credits_effect, payment_lost,
}
use deping_client_service.Payments.Replay.{
  IsErr, SameTables, Verified, add_monitor_purchased_credits-Verified,
  add_purchased_credits-Verified,
}
use deping_client_service.Solana.{
  TxInfo, balance_diff, digits_value, find_post, get_transfer_info, parse, scan_balances,
}
use deping_client_service.Solana.Transfer.{Any, FellBy, Rose, get_transfer_info_sound}
use deping_client_service.Tests.{sample_chain, sample_transfer, sample_world}

abbrev paid : TxInfo
paid = record {
  mint = "MINT";
  amount = 100;
  timestamp = pos 900;
  sender = "ann";
  receiver = "TREASURY";
}

-- The sample world after the payment has been recorded.
abbrev recorded_payment : World
recorded_payment = record sample_world {
  processed = record { signature = "sig"; user_id = 1; amount = 100 } ∷ [];
}

paid_reported : get_transfer_info sample_chain "sig" ≡ ok paid
unfolding get_transfer_info scan_balances balance_diff find_post parse digits_value to_u64 to_i64
    ◌-ℤ◌
paid_reported = refl

get_transfer_info_sound_example :
    (paid.mint ≡ "MINT")
    × (0 < paid.amount)
    × Any
        (FellBy "MINT" sample_transfer.post_token_balances "ann" 100)
        sample_transfer.pre_token_balances
    × Any
        (Rose "MINT" sample_transfer.post_token_balances "TREASURY")
        sample_transfer.pre_token_balances
get_transfer_info_sound_example =
    get_transfer_info_sound sample_chain "sig" {tx = sample_transfer} {info = paid} refl
      paid_reported

payment_lost_example :
    let attempt =
      add_monitor_purchased_credits sample_chain "TREASURY" 1 (pos 100) "sig" (pos 20) in
    let w0 = record sample_world { faults = false ∷ false ∷ true ∷ [] } in
    let w1 = (attempt w0).1 in
    let w2 = record w1 { faults = true ∷ [] } in
    IsErr (attempt w0).0
    × (w1 ≡ recorded_payment)
    × IsErr (attempt w2).0
    × SameTables w2 (attempt w2).1
unfolding exists_where to_u64
payment_lost_example =
    payment_lost sample_chain "TREASURY" 1 (pos 100) "sig" (pos 20) sample_world paid_reported refl
      refl refl (omega arith) (true ∷ [])

pub monitor_bought :
    (add_monitor_purchased_credits sample_chain "TREASURY" 1
      (pos 100)
      "sig"
      (pos 20)
      (calm sample_world)).0
    ≡ ok (pos 30)
unfolding select_one exists_where to_u64 ◌+ℤ◌
monitor_bought =
    (add_monitor_purchased_credits_effect sample_chain "TREASURY" 1 (pos 100) "sig" (pos 20)
      sample_world paid_reported refl refl refl (omega arith) refl).0

telegram_bought :
    (add_purchased_credits sample_chain "TREASURY" 1 (pos 100) "sig" (pos 20) (calm sample_world)).0
    ≡ ok (pos 22)
unfolding select_one exists_where to_u64 ◌+ℤ◌
telegram_bought =
    (add_purchased_credits_effect sample_chain "TREASURY" 1 (pos 100) "sig" (pos 20) sample_world
      paid_reported refl refl refl (omega arith) refl refl (refl, refl)).0

add_monitor_purchased_credits-Verified_example :
    let w' =
      (add_monitor_purchased_credits sample_chain "TREASURY" 1
        (pos 100)
        "sig"
        (pos 20)
        (calm sample_world)).1 in
    (is_processed "sig" (calm sample_world) ≡ false)
    × (is_processed "sig" w' ≡ true)
    × Verified "TREASURY" (pos 100) (get_transfer_info sample_chain "sig")
add_monitor_purchased_credits-Verified_example =
    add_monitor_purchased_credits-Verified sample_chain "TREASURY" 1 (pos 100) "sig" (pos 20)
      (calm sample_world) monitor_bought

add_purchased_credits-Verified_example :
    let w' =
      (add_purchased_credits sample_chain "TREASURY" 1
        (pos 100)
        "sig"
        (pos 20)
        (calm sample_world)).1 in
    (is_processed "sig" (calm sample_world) ≡ false)
    × (is_processed "sig" w' ≡ true)
    × Verified "TREASURY" (pos 100) (get_transfer_info sample_chain "sig")
add_purchased_credits-Verified_example =
    add_purchased_credits-Verified sample_chain "TREASURY" 1 (pos 100) "sig" (pos 20)
      (calm sample_world) telegram_bought
