-- ===== src/Monitors.antt =====
-- Monitors: db/repositories/monitor_repo.go, and services/monitor_service.go on top of it. The
-- defaults and constraints of the table `monitors`, which no file of the repository declares, and the
-- addition of two float64 are the parameters of `MonitorTable`. The column credit_balance_checks is
-- never read: its field keeps Go's zero.
pub mod Lifecycle
pub mod Listing
pub mod Stats
use mathlib.Core.Option
use Prim.Native.String.{◌++◌ as concat}
use deping_client_service.Base.{
  Bool, List, Option, String, [], exists_where, false, if◌then◌else◌, insert_missing, ltb_ℤ, map,
  not, order_desc, pos, select_one, select_where, str_eq, true, update_where, ℕ, ℤ, ◌&&◌, ◌++◌, ◌+◌,
  ◌==◌, ◌∷◌,
}
use deping_client_service.World.{
  M, Monitor, User, choose, err, exec, external, fail, foreign_key_violation, formatted, ignoring,
  is_monitor, message, ok, pure, reads, scan_row, text, wrap, wrapping, ◌>>=◌, ◌>>◌,
}
use deping_client_service.Consumer.Jobs.{first_part, split_colons}
use deping_client_service.Health.{is_live_monitor}

pub record MonitorTable : Type 0 where
  -- The id of a new row, from the next serial number.
  pub new_id : ℕ → String
  pub default_is_active : Bool
  pub default_total_spent_tokens : ℕ
  -- A constraint refuses the row.
  pub refused : Monitor → List User → List Monitor → Bool
  pub add_float : ℕ → ℕ → ℕ

abbrev pub scanned_monitor : Monitor → Monitor
scanned_monitor m = record m { credit_balance_checks = pos 0; deleted = false }

abbrev pub new_monitor : MonitorTable → ℕ → ℕ → ℕ → String → ℤ → Monitor
new_monitor t serial now owner_id target_url interval_seconds = record {
  id = t.new_id serial;
  owner_id = owner_id;
  target_url = target_url;
  check_interval_seconds = interval_seconds;
  credit_balance_checks = pos 0;
  total_spent_tokens = t.default_total_spent_tokens;
  is_active = t.default_is_active;
  created_at = now;
  deleted = false;
}

unfoldable pub repo_create : MonitorTable → ℕ → String → ℤ → M Monitor
repo_create t owner_id target_url interval_seconds = external λ w.
    let new = new_monitor t w.serial w.now owner_id target_url interval_seconds in
    if t.refused new w.users w.monitors
    then (err foreign_key_violation, w)
    else (ok new, record w { monitors = w.monitors ++ new ∷ []; serial = w.serial + 1 })

abbrev pub is_owners : ℕ → Monitor → Bool
is_owners owner_id m = m.owner_id == owner_id && not m.deleted

-- The rows as they are scanned, newest first.
abbrev pub owners_monitors : ℕ → List Monitor → List Monitor
owners_monitors owner_id rows =
    order_desc (λ m. m.created_at) (map scanned_monitor (select_where (is_owners owner_id) rows))

unfoldable pub find_by_owner : ℕ → M (List Monitor)
find_by_owner owner_id = reads λ w. owners_monitors owner_id w.monitors

-- JOIN users u ON m.owner_id = u.id … u.credit_balance > 0; `id` is the key of `users`.
abbrev pub has_credit : List User → Monitor → Bool
has_credit users m = exists_where (λ u. u.id == m.owner_id && ltb_ℤ (pos 0) u.credit_balance) users

abbrev pub is_due : List User → Monitor → Bool
is_due users m = m.is_active && (not m.deleted && has_credit users m)

unfoldable pub find_active : M (List Monitor)
find_active = reads λ w. map scanned_monitor (select_where (is_due w.users) w.monitors)

-- m.id IN (…)
abbrev pub is_among : List String → Monitor → Bool
is_among ids m = exists_where (λ id. str_eq id m.id) ids

unfoldable pub find_many : List String → M (List Monitor)
find_many [] = pure []
find_many (id ∷ ids) = reads λ w.
    map scanned_monitor (select_where (λ m. is_among (id ∷ ids) m && is_due w.users m) w.monitors)

unfoldable pub find_by_id : String → M Monitor
find_by_id id =
    scan_row λ w. Option.map scanned_monitor (select_one (is_live_monitor id) w.monitors)

-- strings.Split(jobID, ":")[0]
unfoldable pub find_by_job_id : String → M Monitor
unfolding find_by_id
find_by_job_id job_id =
    let id = first_part (split_colons job_id) in
    choose (str_eq id "") (fail (formatted "malformed job_id: %q" (text job_id ∷ [])))
      (find_by_id id)

-- DeductCredit
unfoldable pub deduct_monitor_credit : MonitorTable → String → ℕ → M (Unit {0})
deduct_monitor_credit t id token_cost = exec λ w. record w {
  monitors =
      update_where (is_monitor id)
        (λ m. record m { total_spent_tokens = t.add_float m.total_spent_tokens token_cost })
        w.monitors;
}

unfoldable pub update_active : String → Bool → M (Unit {0})
update_active id is_active = exec λ w. record w {
  monitors = update_where (is_live_monitor id) (λ m. record m { is_active = is_active }) w.monitors;
}

abbrev pub is_owned : String → ℕ → Monitor → Bool
is_owned id owner_id m = str_eq m.id id && m.owner_id == owner_id

unfoldable pub repo_delete : String → ℕ → M (Unit {0})
repo_delete id owner_id = exec λ w. record w {
  monitors = update_where (is_owned id owner_id) (λ m. record m { deleted = true }) w.monitors;
}

-- s.rdb.Del(ctx, "cache:active_monitors"), whose error is not looked at.
unfoldable pub drop_cache : M (Unit {0})
drop_cache = ignoring (exec λ w. record w { active_monitors_cached = false })

-- s.rdb.ZAdd(ctx, "scheduler:due", …); a sorted set has a member once.
unfoldable pub arm_scheduler : String → M (Unit {0})
arm_scheduler member =
    ignoring
      (exec λ w. record w { scheduler_due = insert_missing (str_eq member) member w.scheduler_due })

-- "sched:monitor:" + m.ID
abbrev pub scheduler_member : String → String
scheduler_member id = concat "sched:monitor:" id

-- dto/monitor.go, CreateMonitorRequest and MonitorResponse.
pub record CreateMonitorRequest : Type 0 where
  pub target_url : String
  pub interval_seconds : ℤ

pub record MonitorResponse : Type 0 where
  pub id : String
  pub target_url : String
  pub interval_seconds : ℤ
  pub credit_balance_checks : ℤ
  pub total_spent_tokens : ℕ
  pub is_active : Bool

abbrev pub to_monitor_response : Monitor → MonitorResponse
to_monitor_response m = record {
  id = m.id;
  target_url = m.target_url;
  interval_seconds = m.check_interval_seconds;
  credit_balance_checks = m.credit_balance_checks;
  total_spent_tokens = m.total_spent_tokens;
  is_active = m.is_active;
}

abbrev pub effective_interval : ℤ → ℤ
effective_interval interval = if ltb_ℤ interval (pos 30) then pos 60 else interval

unfoldable pub create : MonitorTable → ℕ → CreateMonitorRequest → M MonitorResponse
unfolding repo_create drop_cache arm_scheduler
create t owner_id req =
    choose (str_eq req.target_url "") (fail (message "target_url is required")) (do
      m ←
          wrapping (wrap "create monitor")
            (repo_create t owner_id req.target_url (effective_interval req.interval_seconds))
      drop_cache
      arm_scheduler (scheduler_member m.id)
      pure (to_monitor_response m))

unfoldable pub list_by_owner : ℕ → M (List MonitorResponse)
unfolding find_by_owner
list_by_owner owner_id = do
  monitors ← wrapping (wrap "list monitors") (find_by_owner owner_id)
  pure (map to_monitor_response monitors)

-- The owner is passed and not looked at.
unfoldable pub pause : String → ℕ → M (Unit {0})
unfolding update_active drop_cache
pause id owner_id = do wrapping (wrap "pause monitor") (update_active id false); drop_cache

unfoldable pub resume : String → ℕ → M (Unit {0})
unfolding update_active drop_cache
resume id owner_id = do wrapping (wrap "resume monitor") (update_active id true); drop_cache

unfoldable pub delete : String → ℕ → M (Unit {0})
unfolding repo_delete drop_cache
delete id owner_id = do wrapping (wrap "delete monitor") (repo_delete id owner_id); drop_cache
