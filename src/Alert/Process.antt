-- ===== src/Alert/Process.antt =====
-- ProcessPingResult (services/alert_service.go) on the stored state of the monitors.
use deping_client_service.Base.{
  Bool, Bool-cases, List, Option, Option-cases, String, arith, eq_iff, eq_refl, false, inl, inr,
  none, refl, select_one, select_one-holds, select_one-upsert, select_one-upsert_other, str_eq, sym,
  true, ℕ, ◌∙◌, ◌∷◌, ◌≡◌, ◌≢◌, ◌⊎◌,
}
use deping_client_service.World.{
  M, MonitorHealthState, World, called, calm, err, ignoring, next_fails, ok, references_monitor,
  unavailable, wrap, ◌>>◌,
}
use deping_client_service.Alert.{
  AlertEvent, PingResultItem, advance, dispatched, process_ping_result,
}
use deping_client_service.Alert.Machine.{Tracks, advance-Tracks, alert_due}
use deping_client_service.Alert.Steady.{dispatched_health}
use deping_client_service.Health.{health_of, is_health, overwrite, upsert_health_state}

-- The state is written and the alert delivered; errors of both are dropped.
abbrev pub settle : MonitorHealthState → Option AlertEvent → M (Unit {0})
settle s event = ignoring (upsert_health_state s) >> dispatched event

pub settle_ok :
    (s : MonitorHealthState) (event : Option AlertEvent) (w : World) → (settle s event w).0 ≡ ok tt
unfolding upsert_health_state
settle_ok s event w = ground (arith, dispatched_health event (ignoring (upsert_health_state s) w).1)

settle_others :
    (s : MonitorHealthState) (event : Option AlertEvent) (id : String) (w : World)
    → id ≢ s.monitor_id
    → select_one (is_health id) (settle s event w).1.health ≡ select_one (is_health id) w.health
unfolding upsert_health_state
settle_others s event id w apart = ground (
  arith,
  dispatched_health event (ignoring (upsert_health_state s) w).1,
  eq_iff s.monitor_id id,
  select_one-upsert_other (is_health s.monitor_id) (is_health id) (overwrite s) s w.health
      (λ r k. refl)
      (λ r k. ground (arith, eq_iff r.monitor_id id, eq_iff r.monitor_id s.monitor_id)),
)

settle_self :
    (s : MonitorHealthState) (event : Option AlertEvent) (w : World)
    → references_monitor s.monitor_id w ≡ true
    → health_of s.monitor_id (settle s event (calm w)).1 ≡ s
unfolding upsert_health_state
settle_self s event w known =
    let after = dispatched_health event (ignoring (upsert_health_state s) (calm w)).1 in
    let stored =
      select_one-upsert (is_health s.monitor_id) (overwrite s) s w.health (λ r k. refl)
        (eq_refl s.monitor_id) in
    elim (Option-cases (select_one (is_health s.monitor_id) w.health)) [
      | inl fresh ↦ ground (arith, after, stored)
      | inr (r, old) ↦ ground (
        arith,
        after,
        stored,
        eq_iff r.monitor_id s.monitor_id,
        select_one-holds (is_health s.monitor_id) w.health r old,
      )
    ]

-- ProcessPingResult fails in one way only, when the state cannot be read, and then nothing has
-- changed: a failed write of the state and a failed delivery are not reported.
pub process_ping_result_error :
    (r : PingResultItem) (w : World)
    → ((process_ping_result r w).0 ≡ ok tt)
      ⊎ (process_ping_result r w ≡ (err (wrap "state lookup" unavailable), called w))
unfolding process_ping_result
process_ping_result_error r w = elim (Bool-cases (next_fails w.faults)) [
  | inl down ↦ ground arith
  | inr up ↦
      let s = health_of r.monitor_id w in
      let step = advance w.now r s in ground (arith, settle_ok step.0 step.1 (called w))
]

abbrev pub TracksIn : String → List Bool → World → Type 0
TracksIn id h w = Tracks h (health_of id w)

health_of-id : (id : String) (w : World) → (health_of id w).monitor_id ≡ id
health_of-id id w = elim (Option-cases (select_one (is_health id) w.health)) [
  | inl fresh ↦ ground arith
  | inr (r, old) ↦
      ground (arith, eq_iff r.monitor_id id, select_one-holds (is_health id) w.health r old)
]

advance-id :
    (now : ℕ) (r : PingResultItem) (s : MonitorHealthState)
    → (advance now r s).0.monitor_id ≡ s.monitor_id
unfolding advance
advance-id now r s = ground arith

pub settle_world :
    (s : MonitorHealthState) (event : Option AlertEvent) (w : World)
    → (settle s event w).1 ≡ (dispatched event (ignoring (upsert_health_state s) w).1).1
unfolding upsert_health_state
settle_world s event w = ground arith

settle_quiet :
    (s : MonitorHealthState) (w : World)
    → record (settle s none (calm w)).1 { health = w.health } ≡ calm w
unfolding upsert_health_state
settle_quiet s w = ground arith

module _ (r : PingResultItem) (w : World) where
  -- The state and the alert that ProcessPingResult computes from the stored state.
  abbrev pub next_state : MonitorHealthState
  next_state = (advance w.now r (health_of r.monitor_id w)).0

  abbrev pub next_alert : Option AlertEvent
  next_alert = (advance w.now r (health_of r.monitor_id w)).1

  -- The health state is stored, if the database takes it.
  abbrev pub state_written : World → World
  state_written v = (ignoring (upsert_health_state next_state) v).1

  pub process_settles :
      str_eq r.monitor_id "" ≡ false
      → process_ping_result r (calm w) ≡ settle next_state next_alert (calm w)
  unfolding process_ping_result
  process_settles named = rw named

  -- Where no call fails, a result of a monitor that exists extends the history that the stored state
  -- of the monitor tracks, and the call then dispatches the alert that the rule asks for, if any.
  pub process_ping_result-Tracks :
      (h : List Bool)
      → str_eq r.monitor_id "" ≡ false
      → references_monitor r.monitor_id w ≡ true
      → TracksIn r.monitor_id h w
      → let (o, w') = process_ping_result r (calm w) in
        (o ≡ ok tt)
        × TracksIn r.monitor_id (r.success ∷ h) w'
        × (w' ≡ (dispatched (alert_due h r) (state_written (calm w))).1)
  process_ping_result-Tracks h named known t =
      let (tracks, due, same_id, _) = advance-Tracks h w.now r (health_of r.monitor_id w) t in
      let id : next_state.monitor_id ≡ r.monitor_id = same_id ∙ health_of-id r.monitor_id w in
      let stored : health_of r.monitor_id (settle next_state next_alert (calm w)).1 ≡ next_state =
        rw id at (settle_self next_state next_alert w (rw id known)) in
      rw (process_settles named) (
        settle_ok next_state next_alert (calm w),
        rw stored tracks,
        rw (sym due) (settle_world next_state next_alert (calm w)),
      )

  -- Where the rule asks for no alert, nothing changes but the health states: no message is sent.
  pub process_ping_result_silent :
      (h : List Bool)
      → str_eq r.monitor_id "" ≡ false
      → TracksIn r.monitor_id h w
      → alert_due h r ≡ none
      → record (process_ping_result r (calm w)).1 { health = w.health } ≡ calm w
  process_ping_result_silent h named t quiet =
      let (_, due, _, _) = advance-Tracks h w.now r (health_of r.monitor_id w) t in
      rw (process_settles named, due ∙ quiet) (settle_quiet next_state w)

  -- The stored states of the other monitors stay as they are, whichever calls fail.
  pub process_ping_result_others :
      (id : String)
      → id ≢ r.monitor_id
      → select_one (is_health id) (process_ping_result r w).1.health
        ≡ select_one (is_health id) w.health
  unfolding process_ping_result
  process_ping_result_others id apart =
      let keeps : next_state.monitor_id ≡ r.monitor_id =
        advance-id w.now r (health_of r.monitor_id w) ∙ health_of-id r.monitor_id w in
      let untouched = settle_others next_state next_alert id (called w) (λ e. apart (e ∙ keeps)) in
      elim (Bool-cases (str_eq r.monitor_id "")) [
        | inl unnamed ↦ rw unnamed
        | inr named ↦ rw named (ground (arith, untouched))
      ]
