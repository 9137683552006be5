-- ===== src/Monitors/Listing.antt =====
-- What ListByOwner lists (services/monitor_service.go).
use mathlib.Core.List.{Perm}
use deping_client_service.Base.{
  IsDescending, List, map, order_desc-IsDescending, order_desc-perm, refl, select_where, ℕ, ◌≡◌,
}
use deping_client_service.World.{Monitor, World, calm, ok}
use deping_client_service.Monitors.{
  MonitorResponse, is_owners, list_by_owner, owners_monitors, scanned_monitor, to_monitor_response,
}

-- The owner's monitors that are not deleted, each once, as the responses show them.
abbrev pub Lists : ℕ → List Monitor → List MonitorResponse → Type 0
Lists owner_id rows responses =
    (monitors : List Monitor) × (responses ≡ map to_monitor_response monitors)
    × IsDescending (λ m. m.created_at) monitors
    × Perm monitors (map scanned_monitor (select_where (is_owners owner_id) rows))

-- Where no call fails the list holds the owner's monitors that are not deleted, each once, the newest
-- first.
pub list_by_owner-Lists :
    (owner_id : ℕ) (w : World)
    → (responses : List MonitorResponse) × (list_by_owner owner_id (calm w)
        ≡ (ok responses, calm w))
      × Lists owner_id w.monitors responses
unfolding list_by_owner
list_by_owner-Lists owner_id w =
    let rows = map scanned_monitor (select_where (is_owners owner_id) w.monitors) in
    (
      map to_monitor_response (owners_monitors owner_id w.monitors),
      refl,
      (
        owners_monitors owner_id w.monitors,
        refl,
        order_desc-IsDescending (λ m. m.created_at) rows,
        order_desc-perm (λ m. m.created_at) rows,
      ),
    )
