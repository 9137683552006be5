-- ===== src/PingLogs/Bounds.antt =====
-- The bounds of the averages and percentages over the ping logs (db/repositories/pingLogs.go).
use native.Mathlib.Nat.{div-lt_iff_lt-mul, le-div_iff_mul-le}
use deping_client_service.Base.{
  All, All-map, Bool, Bool-cases, List, String, [], arith, false, inl, inr, length, refl,
  select_where, suc, ℕ, ◌&&◌, ◌*◌, ◌+◌, ◌<◌, ◌==◌, ◌∷◌, ◌≡◌, ◌≤◌,
}
use deping_client_service.World.{Monitor, PingLog, World, calm, ok}
use deping_client_service.PingLogs.{
  MonitorSummary, Percentage, average_us, avg_latency_us, day_before, get_user_monitor_summaries,
  is_recent, no_percent, percentage_of, rounded, share, succeeded, sum_us, summaries, summary_of,
  uptime_hundredths, uptime_percentage,
}

length-select_where {ℓ} :
    {A : Type ℓ} (q : A → Bool) (rows : List A) → length (select_where q rows) ≤ length rows
unfolding select_where
length-select_where q [] = omega arith
length-select_where q (r ∷ rows) = ground (arith, length-select_where q rows)

-- Rounding to the nearest integer stays between two bounds of the average.
rounded_bounds :
    (lo hi a b : ℕ) → 0 < b → b * lo ≤ a → a ≤ b * hi → (lo ≤ rounded a b) × (rounded a b ≤ hi)
rounded_bounds lo hi a b p l h = (
  (le-div_iff_mul-le {k = 2 * b} {x = lo} {y = 2 * a + b} (omega arith)).1 (omega arith),
  omega (
    arith,
    (div-lt_iff_lt-mul {k = 2 * b} {x = 2 * a + b} {y = suc hi} (omega arith)).1 (omega arith),
  ),
)

-- Each check took between two durations.
abbrev pub Between : ℕ → ℕ → PingLog → Type 0
Between lo hi l = (lo ≤ l.total_us) × (l.total_us ≤ hi)

sum_us_bounds :
    (lo hi : ℕ) (logs : List PingLog)
    → All (Between lo hi) logs
    → (length logs * lo ≤ sum_us logs) × (sum_us logs ≤ length logs * hi)
unfolding sum_us
sum_us_bounds lo hi [] h = (omega arith, omega arith)
sum_us_bounds lo hi (l ∷ logs) h =
    let rest = sum_us_bounds lo hi logs h.1 in (omega arith, omega arith)

==-zero : (n : ℕ) → 0 < n → (n == 0) ≡ false
==-zero n p = ground arith

lt_of_== : (n : ℕ) → (n == 0) ≡ false → 0 < n
lt_of_== n e = ground arith

average_us_bounds :
    (lo hi : ℕ) (logs : List PingLog)
    → 0 < length logs
    → All (Between lo hi) logs
    → (lo ≤ average_us logs) × (average_us logs ≤ hi)
unfolding average_us
average_us_bounds lo hi logs p h =
    let sums = sum_us_bounds lo hi logs h in
    rw (==-zero (length logs) p) (rounded_bounds lo hi (sum_us logs) (length logs) p sums.0 sums.1)

-- Where no call fails and a successful check of the monitor since a time is logged, the average lies
-- between any two bounds of the durations of these checks.
avg_latency_us_bounds :
    (id : String) (since lo hi : ℕ) (w : World)
    → let logs = select_where (λ l. is_recent id since l && l.success) w.ping_logs in
      0 < length logs
      → All (Between lo hi) logs
      → (avg : ℕ) × (avg_latency_us id since (calm w) ≡ (ok avg, calm w)) × (lo ≤ avg) × (avg ≤ hi)
unfolding avg_latency_us
avg_latency_us_bounds id since lo hi w p h =
    let logs = select_where (λ l. is_recent id since l && l.success) w.ping_logs in
    let bounds = average_us_bounds lo hi logs p h in (average_us logs, refl, bounds.0, bounds.1)

uptime_hundredths_bound : (logs : List PingLog) → uptime_hundredths logs ≤ 10000
unfolding uptime_hundredths
uptime_hundredths_bound logs = elim (Bool-cases (length logs == 0)) [
  | inl empty ↦ rw empty (omega arith)
  | inr some_logs ↦
      rw some_logs
        (rounded_bounds 0 10000 (10000 * length (select_where succeeded logs)) (length logs)
          (lt_of_== (length logs) some_logs) (omega arith)
          (omega (arith, length-select_where succeeded logs))).1
]

-- Where no call fails, no monitor in the overview of a chat has an uptime above 100 percent.
pub get_user_monitor_summaries_bound :
    (chat : ℕ) (w : World)
    → (shown : List MonitorSummary) × (get_user_monitor_summaries chat (calm w)
        ≡ (ok shown, calm w))
      × All (λ s. s.uptime_pct ≤ 10000) shown
unfolding get_user_monitor_summaries
get_user_monitor_summaries_bound chat w =
    (summaries chat w, refl, All-map (summary_of w) _ _ λ m. uptime_hundredths_bound _)

-- What the statistics and the overview of the bot show of the same checks: with no check they differ,
-- as nothing and 100 percent, and otherwise the overview has the other share, rounded to hundredths.
abbrev SameUptime : Percentage → ℕ → Type 0
SameUptime no_percent shown = shown ≡ 10000
SameUptime (share up count) shown =
    (up ≤ count) × (0 < count) × (shown ≡ rounded (10000 * up) count)

same_uptime : (logs : List PingLog) → SameUptime (percentage_of logs) (uptime_hundredths logs)
unfolding uptime_hundredths
same_uptime logs = elim (Bool-cases (length logs == 0)) [
  | inl empty ↦ rw empty refl
  | inr some_logs ↦
      rw some_logs (length-select_where succeeded logs, lt_of_== (length logs) some_logs, refl)
]

-- Where no call fails, the uptime of the last day in the statistics of a monitor is nothing where the
-- bot's overview has 100 percent although no check is logged, and otherwise a share up / count with
-- up ≤ count that the overview has rounded to hundredths of a percent.
uptime_percentage-SameUptime :
    (m : Monitor) (w : World)
    → (percentage : Percentage) × (uptime_percentage m.id (day_before w.now) (calm w)
        ≡ (ok percentage, calm w))
      × SameUptime percentage (summary_of w m).uptime_pct
unfolding uptime_percentage
uptime_percentage-SameUptime m w =
    let logs = select_where (is_recent m.id (day_before w.now)) w.ping_logs in
    (percentage_of logs, refl, same_uptime logs)
