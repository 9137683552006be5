-- ===== src/System/Ledger.antt =====
-- What the credit status shows at any time (services/telegram_service.go, GetCreditStatus).
use deping_client_service.Base.{List, [], arith, in_int4, sym, true, ℕ, ◌+◌, ◌≡◌}
use deping_client_service.World.{ok, pure}
use deping_client_service.Credits.{
  TelegramCreditStatus, credit_status, get_credit_row, get_credit_status,
}
use deping_client_service.Invariant.{IsSound, paying}
use deping_client_service.Invariant.Ledger.{get_credit_row-IsCreditRow}
use deping_client_service.Keeping.{bind_ok}
use deping_client_service.System.{Event, Service, run_events}
use deping_client_service.System.Reachable.{run_events-IsSound}

-- After any events, a status that is shown is consistent: the free messages that are used and those that
-- are left are three together, so that none is left out by the cut at zero, and the purchased credits are
-- an INT.
pub run_events-get_credit_status :
    (es : List Event) (v : Service) (u : ℕ) {status : TelegramCreditStatus}
    → IsSound (paying []) v.world
    → (get_credit_status u (run_events es v).world).0 ≡ ok status
    → (status.free_credits_left + status.free_credits_used ≡ 3)
      × (in_int4 status.purchased_credits ≡ true)
unfolding get_credit_status
run_events-get_credit_status es v u {status} h shown =
    let w = (run_events es v).world in
    let (c, found, same) =
      bind_ok (get_credit_row u w) (λ c. pure (credit_status c)) status shown in
    let row = get_credit_row-IsCreditRow u w c (run_events-IsSound es v (λ _. tt) h) found in
    let is_status : credit_status c ≡ status = cc in
    rw (sym is_status) (ground (arith, row.0), row.1)
