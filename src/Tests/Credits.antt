-- ===== src/Tests/Credits.antt =====
-- Examples for the credit ledger.
use deping_client_service.Base.{select_one, ◌≡◌}
use deping_client_service.Credits.Deduct.{allowance, credit_of, deductions, deductions-allowance}
use deping_client_service.Tests.{sample_world}

deductions-allowance_example :
    let (k, rows') = deductions 4 1 1 sample_world.telegram_credits in
    (k ≡ 3) × (allowance 1 (credit_of 1 1 rows') ≡ 0)
unfolding select_one
deductions-allowance_example = deductions-allowance 4 1 1 sample_world.telegram_credits
