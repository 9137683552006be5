-- ===== src/PingLogs.antt =====
-- The ping logs: db/repositories/pingLogs.go, and the queries of the bot in
-- db/repositories/telegram_repo.go that read them. A percentage that Postgres computes as a float is
-- kept as the two counts that it divides, an average as a sum and a count; the averages that are
-- rounded are numbers.
pub mod Bounds
pub mod Newest
use deping_client_service.Base.{
  Bool, List, Option, String, [], exists_where, false, if◌then◌else◌, leb, length, map, none, not,
  order_desc, pos, select_one, select_where, some, str_eq, suc, take, zero, ℕ, ℤ, ◌&&◌, ◌*◌, ◌+ℤ◌,
  ◌+◌, ◌-◌, ◌/◌, ◌==◌, ◌∷◌,
}
use deping_client_service.World.{M, Monitor, PingLog, TelegramUser, World, reads, wrap, wrapping}
use deping_client_service.Health.{is_health}
use deping_client_service.Monitors.{is_owners}
use deping_client_service.Telegram.{is_chat}

abbrev pub is_log_of : String → PingLog → Bool
is_log_of id l = str_eq l.monitor_id id

-- monitor_id = $1 AND timestamp >= $2
abbrev pub is_recent : String → ℕ → PingLog → Bool
is_recent id since l = is_log_of id l && leb since l.timestamp

abbrev pub succeeded : PingLog → Bool
succeeded l = l.success

-- ORDER BY timestamp DESC LIMIT
abbrev pub newest : String → ℕ → List PingLog → List PingLog
newest id limit rows = take limit (order_desc (λ l. l.timestamp) (select_where (is_log_of id) rows))

unfoldable pub find_by_monitor : String → ℕ → M (List PingLog)
find_by_monitor id limit =
    wrapping (wrap "postgresPingLogRepo.FindByMonitor") (reads λ w. newest id limit w.ping_logs)

-- `share up count` is 100.0 * up / count.
pub data Percentage : Type 0 where
  no_percent : Percentage
  share : ℕ → ℕ → Percentage

-- COALESCE(100.0 * SUM(CASE WHEN success …) / NULLIF(COUNT(*), 0), 0)
abbrev pub percentage_of : List PingLog → Percentage
percentage_of logs =
    if length logs == 0
    then no_percent
    else share (length (select_where succeeded logs)) (length logs)

unfoldable pub uptime_percentage : String → ℕ → M Percentage
uptime_percentage id since =
    wrapping (wrap "postgresPingLogRepo.UptimePercentage")
      (reads λ w. percentage_of (select_where (is_recent id since) w.ping_logs))

unfoldable pub sum_us : List PingLog → ℕ
sum_us [] = 0
sum_us (l ∷ logs) = l.total_us + sum_us logs

-- a / b rounded to the nearest integer, upwards in the middle, as Postgres rounds a numeric.
abbrev pub rounded : ℕ → ℕ → ℕ
rounded a b = (2 * a + b) / (2 * b)

-- COALESCE(AVG(total_us)::bigint, 0)
unfoldable pub average_us : List PingLog → ℕ
unfolding sum_us
average_us logs = if length logs == 0 then 0 else rounded (sum_us logs) (length logs)

unfoldable pub avg_latency_us : String → ℕ → M ℕ
unfolding average_us
avg_latency_us id since =
    wrapping (wrap "pingLogRepo.AvgLatencyUs")
      (reads λ w. average_us (select_where (λ l. is_recent id since l && l.success) w.ping_logs))

-- dto/telegram.go, MonitorSummary. The uptime is in hundredths of a percent, the average latency the
-- sum and the number of the latencies.
pub record MonitorSummary : Type 0 where
  pub id : String
  pub target_url : String
  pub is_active : Bool
  pub is_down : Bool
  pub uptime_pct : ℕ
  pub avg_latency : Option (ℤ × ℕ)

-- COALESCE(ROUND(100.0 * COUNT(*) FILTER (WHERE success) / NULLIF(COUNT(*),0), 2), 100.0)
unfoldable pub uptime_hundredths : List PingLog → ℕ
uptime_hundredths logs =
    if length logs == 0
    then 10000
    else rounded (10000 * length (select_where succeeded logs)) (length logs)

unfoldable pub sum_ms : List PingLog → ℤ
sum_ms [] = pos 0
sum_ms (l ∷ logs) = l.latency_ms +ℤ sum_ms logs

-- `none` stands for the 0.0 of COALESCE.
unfoldable pub average_ms : List PingLog → Option (ℤ × ℕ)
unfolding sum_ms
average_ms logs = if length logs == 0 then none else some (sum_ms logs, length logs)

-- timestamp >= NOW() - INTERVAL '24 hours'
abbrev pub day_before : ℕ → ℕ
day_before now = now - 86400

abbrev pub summary_of : World → Monitor → MonitorSummary
summary_of w m =
    let logs = select_where (is_recent m.id (day_before w.now)) w.ping_logs in
    record {
      id = m.id;
      target_url = m.target_url;
      is_active = m.is_active;
      is_down = elim (select_one (is_health m.id) w.health) [ none ↦ false | some s ↦ s.is_down ];
      uptime_pct = uptime_hundredths logs;
      avg_latency = average_ms logs;
    }

-- The monitor is not deleted, and its owner has the chat and is verified; a chat is one user's.
abbrev pub is_shown : ℕ → List TelegramUser → Monitor → Bool
is_shown chat telegram_users m =
    not m.deleted
    && exists_where (λ t. t.user_id == m.owner_id && (is_chat chat t && t.is_verified))
        telegram_users

abbrev pub summaries : ℕ → World → List MonitorSummary
summaries chat w =
    map (summary_of w)
      (order_desc (λ m. m.created_at) (select_where (is_shown chat w.telegram_users) w.monitors))

unfoldable pub get_user_monitor_summaries : ℕ → M (List MonitorSummary)
get_user_monitor_summaries chat = reads (summaries chat)

-- dto/telegram.go, RecentPingRow.
pub record RecentPingRow : Type 0 where
  pub timestamp : ℕ
  pub success : Bool
  pub latency_ms : ℤ
  pub status_code : ℤ
  pub geo_region : String
  pub error_kind : String
  pub dns_us : ℕ
  pub tcp_us : ℕ
  pub tls_us : ℕ
  pub ttfb_us : ℕ
  pub total_us : ℕ

abbrev pub to_recent : PingLog → RecentPingRow
to_recent l = record {
  timestamp = l.timestamp;
  success = l.success;
  latency_ms = l.latency_ms;
  status_code = l.status_code;
  geo_region = l.geo_region;
  error_kind = l.error_kind;
  dns_us = l.dns_us;
  tcp_us = l.tcp_us;
  tls_us = l.tls_us;
  ttfb_us = l.ttfb_us;
  total_us = l.total_us;
}

unfoldable pub get_recent_pings : String → ℕ → M (List RecentPingRow)
get_recent_pings id limit = reads λ w. map to_recent (newest id limit w.ping_logs)

-- LIMIT 1 OFFSET $2
unfoldable pub nth_row {ℓ} : {A : Type ℓ} → ℕ → List A → Option A
nth_row n [] = none
nth_row zero (x ∷ xs) = some x
nth_row (suc n) (x ∷ xs) = nth_row n xs

abbrev pub id_and_url : Option Monitor → String × String
id_and_url none = ("", "")
id_and_url (some m) = (m.id, m.target_url)

-- No such monitor gives two empty texts.
unfoldable pub get_monitor_by_owner_and_index : ℕ → ℕ → M (String × String)
unfolding nth_row
get_monitor_by_owner_and_index user_id index = reads λ w.
    id_and_url
      (nth_row index (order_desc (λ m. m.created_at) (select_where (is_owners user_id) w.monitors)))
