-- ===== src/Alert/Machine.antt =====
-- The Two-Packet rule of ProcessPingResult (services/alert_service.go) against the history of a
-- monitor's results.
use deping_client_service.Base.{
  Bool, Bool-cases, List, Option, String, [], arith, false, if◌then◌else◌, inl, inr, leb, none, not,
  refl, some, suc, true, ℕ, ◌&&◌, ◌==◌, ◌∷◌, ◌≡◌,
}
use deping_client_service.World.{MonitorHealthState}
use deping_client_service.Alert.{
  AlertEvent, PingResultItem, advance, build_down_alert, build_restored_alert,
}
use deping_client_service.Health.{zero_state}

-- Failures in a row at the head of a history, newest result first; `true` is a success.
unfoldable pub failing_run : List Bool → ℕ
failing_run [] = 0
failing_run (true ∷ h) = 0
failing_run (false ∷ h) = suc (failing_run h)

-- What the rule asks for: DOWN at the second failure in a row, RESTORED at the success that ends a
-- run of two or more.
unfoldable pub alert_due : List Bool → PingResultItem → Option AlertEvent
unfolding failing_run
alert_due h r =
    if r.success
    then if leb 2 (failing_run h) then some (build_restored_alert r) else none
    else if failing_run h == 1
    then some (build_down_alert r)
    else none

-- The state that a history leaves.
pub record Tracks (h : List Bool) (s : MonitorHealthState) : Type 0 where
  pub counted : s.consecutive_failures ≡ failing_run h
  pub down : s.is_down ≡ leb 2 (failing_run h)
  pub alerted : s.alert_sent ≡ s.is_down

zero_state-Tracks : (id : String) → Tracks [] (zero_state id)
unfolding failing_run
zero_state-Tracks id = record { counted = refl; down = refl; alerted = refl }

-- From a state that tracks a history the machine raises the alert that the rule asks for, and no
-- other, and its next state tracks the longer history; only an alert of a DOWN sets the time.
pub advance-Tracks :
    (h : List Bool) (now : ℕ) (r : PingResultItem) (s : MonitorHealthState)
    → Tracks h s
    → let (s', event) = advance now r s in
      Tracks (r.success ∷ h) s'
      × (event ≡ alert_due h r)
      × (s'.monitor_id ≡ s.monitor_id)
      × (s'.last_alerted_at
          ≡ (if not r.success && failing_run h == 1 then some now else s.last_alerted_at))
unfolding advance alert_due failing_run
advance-Tracks h now r s t = elim (Bool-cases r.success) [
  | inl up ↦ rw up (ground arith)
  | inr down ↦ rw down (ground arith)
]
