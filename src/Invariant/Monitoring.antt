-- ===== src/Invariant/Monitoring.antt =====
-- The health states and the monitors keep the invariant (services/alert_service.go,
-- services/monitor_service.go).
use deping_client_service.Base.{
  All, All-append, All-mono, All-select_one, All-update_where, All-upsert, Bool, List, Option-cases,
  String, [], arith, exists_where, exists_where-update_where, exists_where_longer, false, inl, inr,
  insert_missing, ltb_ℤ, pos, refl, select_one, str_eq, true, update_where, upsert, ℕ, ℤ, ◌++◌, ◌+◌,
  ◌||◌, ◌∙◌, ◌∷◌, ◌≡◌,
}
use deping_client_service.World.{
  Monitor, MonitorHealthState, World, foreign_key_violation, is_monitor, references_monitor,
}
use deping_client_service.Alert.{PingResultItem, advance}
use deping_client_service.Health.{
  health_of, is_health, is_live_monitor, overwrite, upsert_health_state,
}
use deping_client_service.Invariant.{
  IsFree, IsHealthRow, IsMonitorRow, IsSound, IsSound-IsStable, Marks,
}
use deping_client_service.Keeping.{
  Keeps, Keeps-allowed, Keeps-exec, Keeps-ignoring, Keeps-refused, keeps_rules,
}
use deping_client_service.Monitors.{
  CreateMonitorRequest, MonitorTable, arm_scheduler, create, delete, drop_cache, effective_interval,
  is_owned, new_monitor, pause, repo_create, repo_delete, resume, update_active,
}

-- The state after a result is as it must be, whatever the result is.
pub advance-IsHealthRow :
    (now : ℕ) (r : PingResultItem) (s : MonitorHealthState)
    → IsHealthRow s
    → IsHealthRow (advance now r s).0
unfolding advance
advance-IsHealthRow now r s row = ground (arith, row)

pub health_of-IsHealthRow :
    {marks : Marks} (id : String) (w : World) → IsSound marks w → IsHealthRow (health_of id w)
health_of-IsHealthRow id w h = elim (Option-cases (select_one (is_health id) w.health)) [
  | inl none_yet ↦ rw none_yet (refl, refl, refl)
  | inr (s, found) ↦
      rw found (All-select_one IsHealthRow (is_health id) w.health s found h.health_rows)
]

health_kept :
    {marks : Marks} (free : IsFree marks) (w : World) (h : IsSound marks w)
    (rows : List MonitorHealthState)
    → All IsHealthRow rows
    → IsSound marks (record w { health = rows })
health_kept free w h rows all = record {
  credit_rows = h.credit_rows;
  credit_keys = h.credit_keys;
  link_rows = h.link_rows;
  link_owners = h.link_owners;
  link_chats = h.link_chats;
  health_rows = all;
  monitor_rows = h.monitor_rows;
  payment_rows = h.payment_rows;
  payment_keys = h.payment_keys;
  paid_rows = h.paid_rows;
  known_rows = h.known_rows;
  health_as = free rows;
}

pub upsert_health_state-IsSound :
    {marks : Marks} (s : MonitorHealthState)
    → IsFree marks
    → IsHealthRow s
    → Keeps (IsSound marks) (upsert_health_state s)
unfolding upsert_health_state
upsert_health_state-IsSound s free row =
    Keeps-allowed
      (λ w. exists_where (is_health s.monitor_id) w.health || references_monitor s.monitor_id w)
      (λ w. tt)
      (λ w. record w { health = upsert (is_health s.monitor_id) (overwrite s) s w.health })
      (λ w. foreign_key_violation) IsSound-IsStable
      λ w h _. health_kept free w h _ (
        All-upsert IsHealthRow (is_health s.monitor_id) (overwrite s) s w.health (λ r _ _. row) row
          h.health_rows)

-- A change of the monitors that removes none.
monitors_kept :
    {marks : Marks} (w : World) (h : IsSound marks w) (rows : List Monitor)
    → All IsMonitorRow rows
    → ((id : String)
        → exists_where (is_monitor id) w.monitors ≡ true
        → exists_where (is_monitor id) rows ≡ true)
    → IsSound marks (record w { monitors = rows })
monitors_kept {marks} w h rows all known = record {
  credit_rows = h.credit_rows;
  credit_keys = h.credit_keys;
  link_rows = h.link_rows;
  link_owners = h.link_owners;
  link_chats = h.link_chats;
  health_rows = h.health_rows;
  monitor_rows = all;
  payment_rows = h.payment_rows;
  payment_keys = h.payment_keys;
  paid_rows = h.paid_rows;
  known_rows = All-mono _ _ marks.known known h.known_rows;
  health_as = h.health_as;
}

effective_interval_lem : (interval : ℤ) → ltb_ℤ (effective_interval interval) (pos 30) ≡ false
effective_interval_lem interval = ground arith

repo_create-IsSound :
    {marks : Marks} (t : MonitorTable) (owner_id : ℕ) (target_url : String) (interval : ℤ)
    → ltb_ℤ interval (pos 30) ≡ false
    → Keeps (IsSound marks) (repo_create t owner_id target_url interval)
unfolding repo_create
repo_create-IsSound t owner_id target_url interval long =
    let new = λ (w : World). new_monitor t w.serial w.now owner_id target_url interval in
    Keeps-refused (λ w. t.refused (new w) w.users w.monitors) new
      (λ w. record w { monitors = w.monitors ++ new w ∷ []; serial = w.serial + 1 })
      (λ w. foreign_key_violation) IsSound-IsStable
      λ w h _.
        monitors_kept w h _
          (All-append IsMonitorRow w.monitors (new w ∷ []) h.monitor_rows (long, tt))
          (λ id there. exists_where_longer (is_monitor id) w.monitors (new w ∷ []) there)

update_active-IsSound :
    {marks : Marks} (id : String) (b : Bool) → Keeps (IsSound marks) (update_active id b)
unfolding update_active
update_active-IsSound id b =
    Keeps-exec
      (λ w. record w {
        monitors = update_where (is_live_monitor id) (λ m. record m { is_active = b }) w.monitors;
      })
      IsSound-IsStable
      λ w h.
        monitors_kept w h _
          (All-update_where IsMonitorRow (is_live_monitor id) (λ m. record m { is_active = b })
            w.monitors (λ m _ row. row) h.monitor_rows)
          (λ name there.
            exists_where-update_where (is_monitor name) (is_live_monitor id)
              (λ m. record m { is_active = b }) w.monitors (λ m. refl)
            ∙ there)

repo_delete-IsSound :
    {marks : Marks} (id : String) (owner_id : ℕ) → Keeps (IsSound marks) (repo_delete id owner_id)
unfolding repo_delete
repo_delete-IsSound id owner_id =
    Keeps-exec
      (λ w. record w {
        monitors =
            update_where (is_owned id owner_id) (λ m. record m { deleted = true }) w.monitors;
      })
      IsSound-IsStable
      λ w h.
        monitors_kept w h _
          (All-update_where IsMonitorRow (is_owned id owner_id) (λ m. record m { deleted = true })
            w.monitors (λ m _ row. row) h.monitor_rows)
          (λ name there.
            exists_where-update_where (is_monitor name) (is_owned id owner_id)
              (λ m. record m { deleted = true }) w.monitors (λ m. refl)
            ∙ there)

drop_cache-IsSound : {marks : Marks} → Keeps (IsSound marks) drop_cache
unfolding drop_cache
drop_cache-IsSound =
    Keeps-ignoring _
      (Keeps-exec (λ w. record w { active_monitors_cached = false }) IsSound-IsStable λ w h. h)

arm_scheduler-IsSound :
    {marks : Marks} (member : String) → Keeps (IsSound marks) (arm_scheduler member)
unfolding arm_scheduler
arm_scheduler-IsSound member = Keeps-ignoring _ (
    Keeps-exec
      (λ w. record w { scheduler_due = insert_missing (str_eq member) member w.scheduler_due })
      IsSound-IsStable λ w h. h)

pub create-IsSound :
    {marks : Marks} (t : MonitorTable) (owner_id : ℕ) (req : CreateMonitorRequest)
    → Keeps (IsSound marks) (create t owner_id req)
unfolding create
create-IsSound t owner_id req = search (
  keeps_rules, repo_create-IsSound, effective_interval_lem, drop_cache-IsSound,
  arm_scheduler-IsSound,
)

pub pause-IsSound :
    {marks : Marks} (id : String) (owner_id : ℕ) → Keeps (IsSound marks) (pause id owner_id)
unfolding pause
pause-IsSound id owner_id = search (keeps_rules, update_active-IsSound, drop_cache-IsSound)

pub resume-IsSound :
    {marks : Marks} (id : String) (owner_id : ℕ) → Keeps (IsSound marks) (resume id owner_id)
unfolding resume
resume-IsSound id owner_id = search (keeps_rules, update_active-IsSound, drop_cache-IsSound)

pub delete-IsSound :
    {marks : Marks} (id : String) (owner_id : ℕ) → Keeps (IsSound marks) (delete id owner_id)
unfolding delete
delete-IsSound id owner_id = search (keeps_rules, repo_delete-IsSound, drop_cache-IsSound)
