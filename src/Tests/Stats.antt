-- ===== src/Tests/Stats.antt =====
-- Examples for the ping logs and the statistics.
use deping_client_service.Base.{select_one, ◌≡◌}
use deping_client_service.World.{calm, ok}
use deping_client_service.Monitors.Stats.{MonitorStatsResponse, ShowsStats, stats, stats-StatsOf}
use deping_client_service.Tests.{logged_world, sample_monitor}

stats-StatsOf_example :
    (r : MonitorStatsResponse) × (stats "m1" 2 (calm logged_world) ≡ (ok r, calm logged_world))
    × ShowsStats "m1" logged_world (sample_monitor "m1") r
unfolding select_one
stats-StatsOf_example = stats-StatsOf "m1" 2 logged_world
