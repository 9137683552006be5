-- ===== src/Monitors/Stats.antt =====
-- The statistics of a monitor (services/monitor_service.go, Stats).
use deping_client_service.Base.{
  List, Option, Option-cases, String, inl, inr, none, refl, select_one, select_where, some, ℕ, ℤ,
  ◌≡◌,
}
use deping_client_service.World.{
  M, Monitor, Outcome, PingLog, World, calm, err, get_now, no_rows, ok, pure, wrap, wrapping, ◌>>=◌,
}
use deping_client_service.Health.{is_live_monitor}
use deping_client_service.Monitors.{find_by_id}
use deping_client_service.PingLogs.{
  Percentage, day_before, find_by_monitor, is_log_of, is_recent, newest, percentage_of,
  uptime_percentage,
}
use deping_client_service.PingLogs.Newest.{Newest, newest-Newest}

-- dto/monitor.go, MonitorStatsResponse; uptime_pct_7d is never set.
pub record MonitorStatsResponse : Type 0 where
  pub monitor_id : String
  pub check_interval : ℤ
  pub uptime_pct_24h : Percentage
  pub recent_pings : List PingLog

-- The owner is passed and not looked at.
unfoldable pub stats : String → ℕ → M MonitorStatsResponse
unfolding uptime_percentage find_by_id find_by_monitor
stats id owner_id = do
  now ← get_now
  pct24h ← wrapping (wrap "stats (24h)") (uptime_percentage id (day_before now))
  monitor ← wrapping (wrap "stats") (find_by_id id)
  recent ← wrapping (wrap "stats (pings)") (find_by_monitor id 7)
  pure (record {
    monitor_id = id;
    check_interval = monitor.check_interval_seconds;
    uptime_pct_24h = pct24h;
    recent_pings = recent;
  })

-- The response shows the monitor's interval, the share of the successful checks of the last day, and
-- the newest seven checks.
abbrev pub ShowsStats : String → World → Monitor → MonitorStatsResponse → Type 0
ShowsStats id w m r =
    (r.check_interval ≡ m.check_interval_seconds)
    × (r.uptime_pct_24h
        ≡ percentage_of (select_where (is_recent id (day_before w.now)) w.ping_logs))
    × Newest 7 (select_where (is_log_of id) w.ping_logs) r.recent_pings

abbrev pub StatsOf : String → World → Outcome MonitorStatsResponse × World → Option Monitor → Type 0
StatsOf id w outcome none = outcome ≡ (err (wrap "stats" no_rows), calm w)
StatsOf id w outcome (some m) =
    (r : MonitorStatsResponse) × (outcome ≡ (ok r, calm w)) × ShowsStats id w m r

-- Whoever asks, the statistics of a monitor that is not deleted are shown where no call fails, and
-- those of any other id are an error.
pub stats-StatsOf :
    (id : String) (caller : ℕ) (w : World)
    → StatsOf id w (stats id caller (calm w)) (select_one (is_live_monitor id) w.monitors)
unfolding stats find_by_id uptime_percentage find_by_monitor
stats-StatsOf id caller w = elim (Option-cases (select_one (is_live_monitor id) w.monitors)) [
  | inl missing ↦ rw missing refl
  | inr (m, found) ↦ rw found (
    (record {
      monitor_id = id;
      check_interval = m.check_interval_seconds;
      uptime_pct_24h = percentage_of (select_where (is_recent id (day_before w.now)) w.ping_logs);
      recent_pings = newest id 7 w.ping_logs;
    }),
    refl,
    (refl, refl, newest-Newest id 7 w.ping_logs),
  )
]
