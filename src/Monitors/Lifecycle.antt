-- ===== src/Monitors/Lifecycle.antt =====
-- The life of a monitor: created, paused, resumed, deleted (services/monitor_service.go).
use deping_client_service.Base.{
  Bool-cases, List, String, [], arith, exists_where, false, if◌then◌else◌, inl, inr, insert_missing,
  map, pos, refl, select_one, select_one-holds, select_one-update_where, select_where, some, str_eq,
  true, update_where, ℕ, ℤ, ◌++◌, ◌+◌, ◌==◌, ◌∙◌, ◌∷◌, ◌≡◌, ◌≤ℤ◌,
}
use deping_client_service.World.{
  Monitor, Outcome, User, World, calm, continue, err, is_monitor, ok, panic, pure, wrap, wrap_error,
  ◌>>◌,
}
use deping_client_service.Health.{is_live_monitor}
use deping_client_service.Monitors.{
  CreateMonitorRequest, MonitorResponse, MonitorTable, arm_scheduler, create, delete, drop_cache,
  effective_interval, find_active, is_due, is_owned, new_monitor, pause, repo_create, resume,
  scanned_monitor, scheduler_member, to_monitor_response,
}

module _ (t : MonitorTable) (owner_id : ℕ) (req : CreateMonitorRequest) (w : World) where
  abbrev pub created : Monitor
  created =
      new_monitor t w.serial w.now owner_id req.target_url (effective_interval req.interval_seconds)

  -- Where no call fails and no constraint refuses the row, a monitor with a URL is stored with the
  -- interval that was asked for, or 60 seconds where that is below 30; the cached list of active
  -- monitors is dropped, the scheduler has the monitor, and nothing else changes.
  pub create_effect :
      str_eq req.target_url "" ≡ false
      → t.refused created w.users w.monitors ≡ false
      → create t owner_id req (calm w) ≡ (
        ok (to_monitor_response created),
        record w {
          monitors = w.monitors ++ created ∷ [];
          serial = w.serial + 1;
          active_monitors_cached = false;
          scheduler_due =
              insert_missing
                (str_eq (scheduler_member created.id))
                (scheduler_member created.id)
                w.scheduler_due;
          faults = [];
        },
      )
  unfolding create
  create_effect named accepted = rw (named, accepted) refl

effective_interval-bound : (z : ℤ) → pos 30 ≤ℤ effective_interval z
effective_interval-bound z = ground arith

-- The calls after the insertion do not fail, and do not change the response.
armed :
    (m : Monitor) (w : World) {r : MonitorResponse}
    → ((drop_cache >> (arm_scheduler (scheduler_member m.id) >> pure (to_monitor_response m))) w).0
      ≡ ok r
    → r.interval_seconds ≡ m.check_interval_seconds
unfolding drop_cache arm_scheduler
armed m w h = ground arith

abbrev HasInterval : ℤ → Outcome Monitor → Type 0
HasInterval z (ok m) = m.check_interval_seconds ≡ z
HasInterval z (err e) = Unit {0}
HasInterval z panic = Unit {0}

repo_create-HasInterval :
    (t : MonitorTable) (owner_id : ℕ) (url : String) (z : ℤ) (w : World)
    → HasInterval z (repo_create t owner_id url z w).0
unfolding repo_create
repo_create-HasInterval t owner_id url z w = ground arith

responds :
    (z : ℤ) (o : Outcome Monitor × World) {r : MonitorResponse}
    → HasInterval z o.0
    → (continue (wrap_error (wrap "create monitor") o) (λ m.
        drop_cache >> (arm_scheduler (scheduler_member m.id) >> pure (to_monitor_response m)))).0
      ≡ ok r
    → r.interval_seconds ≡ z
responds z (ok m, w) has done = armed m w done ∙ has
responds z (err e, w) has done = cc
responds z (panic, w) has done = cc

-- Where a creation succeeds, whichever of its calls failed, the stored interval is at least 30
-- seconds.
pub create_interval :
    (t : MonitorTable) (owner_id : ℕ) (req : CreateMonitorRequest) (w : World) {r : MonitorResponse}
    → (create t owner_id req w).0 ≡ ok r
    → pos 30 ≤ℤ r.interval_seconds
unfolding create
create_interval t owner_id req w done =
    let z = effective_interval req.interval_seconds in
    elim (Bool-cases (str_eq req.target_url "")) [
      | inl missing ↦ ground arith
      | inr named ↦
          let has = repo_create-HasInterval t owner_id req.target_url z w in
          let same =
            responds z (repo_create t owner_id req.target_url z w) has (rw named at done) in
          rw same (effective_interval-bound req.interval_seconds)
    ]

module _ (id : String) where
  paused_rows :
      (users : List User) (rows : List Monitor)
      → exists_where (is_monitor id) (
          select_where
            (is_due users)
            (update_where (is_live_monitor id) (λ m. record m { is_active = false }) rows))
        ≡ false
  unfolding exists_where select_where update_where
  paused_rows users [] = refl
  paused_rows users (m ∷ rows) = ground (arith, paused_rows users rows)

  exists_where-scanned :
      (rows : List Monitor)
      → exists_where (is_monitor id) (map scanned_monitor rows) ≡ exists_where (is_monitor id) rows
  unfolding exists_where
  exists_where-scanned [] = refl
  exists_where-scanned (m ∷ rows) = ground (arith, exists_where-scanned rows)

  -- Whoever asks for the pause, a paused monitor is not among the active ones any more, and the
  -- cached list of these is dropped.
  pub pause_stops :
      (owner_id : ℕ) (w : World)
      → let (o, w') = pause id owner_id (calm w) in
        let rows = map scanned_monitor (select_where (is_due w'.users) w'.monitors) in
        (o ≡ ok tt)
        × (w'.active_monitors_cached ≡ false)
        × (find_active (calm w') ≡ (ok rows, calm w'))
        × (exists_where (is_monitor id) rows ≡ false)
  unfolding pause find_active
  pause_stops owner_id w = ground (
    arith,
    paused_rows w.users w.monitors,
    exists_where-scanned (
        select_where (is_due w.users)
          (update_where (is_live_monitor id) (λ m. record m { is_active = false }) w.monitors)),
  )

  -- Every live row of the monitor is active.
  abbrev pub IsActive : List Monitor → Type 0
  IsActive [] = Unit {0}
  IsActive (m ∷ rows) = (is_live_monitor id m ≡ true → m.is_active ≡ true) × IsActive rows

  resumed_rows :
      (rows : List Monitor)
      → IsActive rows
      → update_where
          (is_live_monitor id)
          (λ m. record m { is_active = true })
          (update_where (is_live_monitor id) (λ m. record m { is_active = false }) rows)
        ≡ rows
  unfolding update_where
  resumed_rows [] h = refl
  resumed_rows (m ∷ rows) h = ground (arith, h.0, resumed_rows rows h.1)

  -- A pause and a resumption of an active monitor, each by anyone, leave the monitors as they were.
  pub pause-resume :
      (u v : ℕ) (w : World)
      → IsActive w.monitors
      → let w' = (pause id u (calm w)).1 in
        resume id v (calm w') ≡ (ok tt, record w { active_monitors_cached = false; faults = [] })
  unfolding pause resume
  pause-resume u v w active = ground (arith, resumed_rows w.monitors active)

  -- A deletion always succeeds where no call fails. It marks the monitor as deleted if the owner asks
  -- for it, and leaves it as it is for anyone else.
  pub delete_owner :
      (owner_id : ℕ) (w : World) {m : Monitor}
      → select_one (is_monitor id) w.monitors ≡ some m
      → let (o, w') = delete id owner_id (calm w) in
        (o ≡ ok tt)
        × (select_one (is_monitor id) w'.monitors
            ≡ some (if m.owner_id == owner_id then record m { deleted = true } else m))
        × (w'.active_monitors_cached ≡ false)
  unfolding delete
  delete_owner owner_id w found = ground (
    arith,
    select_one-holds (is_monitor id) w.monitors _ found,
    select_one-update_where (is_owned id owner_id) (is_monitor id)
        (λ m. record m { deleted = true }) w.monitors (λ r k. refl),
  )
