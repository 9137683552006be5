-- ===== src/PingLogs/Newest.antt =====
-- The newest ping logs of a monitor (db/repositories/pingLogs.go, GetRecentPings).
use mathlib.Core.List.{Perm}
use deping_client_service.Base.{
  IsDescending, List, String, [], arith, inl, inr, length, map, order_desc, order_desc-IsDescending,
  order_desc-perm, refl, select_where, suc, take, zero, ℕ, ◌++◌, ◌∷◌, ◌≡◌, ◌≤◌, ◌⊎◌,
}
use deping_client_service.World.{PingLog, World, calm, ok}
use deping_client_service.PingLogs.{find_by_monitor, get_recent_pings, is_log_of, newest, to_recent}

-- The newest rows, at most `limit` of them: the others are older, and there are others only where
-- the limit is reached.
abbrev pub Newest : ℕ → List PingLog → List PingLog → Type 0
Newest limit rows result =
    (rest : List PingLog) × Perm (result ++ rest) rows
    × IsDescending (λ l. l.timestamp) (result ++ rest)
    × (length result ≤ limit)
    × ((length result ≡ limit) ⊎ (rest ≡ []))

unfoldable drop {ℓ} : {A : Type ℓ} → ℕ → List A → List A
drop zero xs = xs
drop (suc n) [] = []
drop (suc n) (x ∷ xs) = drop n xs

take-drop {ℓ} :
    {A : Type ℓ} (n : ℕ) (xs : List A)
    → (take n xs ++ drop n xs ≡ xs)
      × (length (take n xs) ≤ n)
      × ((length (take n xs) ≡ n) ⊎ (drop n xs ≡ []))
unfolding drop
take-drop zero xs = (refl, omega arith, inl refl)
take-drop (suc n) [] = (refl, omega arith, inr refl)
take-drop (suc n) (x ∷ xs) = ground (arith, take-drop n xs)

pub newest-Newest :
    (id : String) (limit : ℕ) (rows : List PingLog)
    → Newest limit (select_where (is_log_of id) rows) (newest id limit rows)
newest-Newest id limit rows =
    let ordered = order_desc (λ l. l.timestamp) (select_where (is_log_of id) rows) in
    let parts = take-drop limit ordered in
    (
      drop limit ordered,
      rw parts.0 (order_desc-perm (λ l. l.timestamp) (select_where (is_log_of id) rows)),
      rw parts.0 (order_desc-IsDescending (λ l. l.timestamp) (select_where (is_log_of id) rows)),
      parts.1,
      parts.2,
    )

-- Where no call fails, the recent pings of a monitor are its newest logs, the newest first: at most
-- `limit` of them, and older ones are left out only where there are as many as that.
pub get_recent_pings-Newest :
    (id : String) (limit : ℕ) (w : World)
    → (logs : List PingLog) × (get_recent_pings id limit (calm w)
        ≡ (ok (map to_recent logs), calm w))
      × (find_by_monitor id limit (calm w) ≡ (ok logs, calm w))
      × Newest limit (select_where (is_log_of id) w.ping_logs) logs
unfolding get_recent_pings find_by_monitor
get_recent_pings-Newest id limit w =
    (newest id limit w.ping_logs, refl, refl, newest-Newest id limit w.ping_logs)
