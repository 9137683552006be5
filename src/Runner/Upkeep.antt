-- ===== src/Runner/Upkeep.antt =====
-- Heartbeats and the deletion of a node (services/noderunner_service.go).
-- A deletion is the account's own only in name: where no call fails it deletes every node under the
-- key, deleted ones included, whosever they are and even if the email is no account's; the other
-- tables stay as they are.
use deping_client_service.Base.{
  List, String, arith, exists_where, exists_where-delete_where_self, false, refl, select_one,
  select_one-holds, select_one-update_where, some, ℕ, ◌≡◌,
}
use deping_client_service.World.{RunnerNode, World, calm, ok}
use deping_client_service.Registry.{ActiveNode, track_heartbeat}
use deping_client_service.Runner.{has_owner_pubkey, owns_node}
use deping_client_service.Runner.Nodes.{completely_delete_node, heartbeat}

pub completely_delete_node_anyone :
    (email pubkey : String) (w : World)
    → let (o, w') = completely_delete_node email pubkey (calm w) in
      (o ≡ ok tt)
      × (exists_where (has_owner_pubkey pubkey) w'.nodes ≡ false)
      × (record w' { nodes = w.nodes } ≡ calm w)
unfolding completely_delete_node
completely_delete_node_anyone email pubkey w =
    ground (arith, exists_where-delete_where_self (has_owner_pubkey pubkey) w.nodes)

-- Where no call fails, a heartbeat of a live node stores its time, and the registry then lists the
-- node under its owner's key as seen at that moment, with the position that is stored.
pub heartbeat_seen :
    (clock : ℕ) (pubkey : String) (registry : List ActiveNode) (n : RunnerNode) (w : World)
    → select_one (owns_node pubkey) w.nodes ≡ some n
    → ((heartbeat clock pubkey registry (calm w)).0
        ≡ ok (track_heartbeat clock n.owner_pubkey n.owner_email n.latitude n.longitude registry))
      × (select_one (owns_node pubkey) (heartbeat clock pubkey registry (calm w)).1.nodes
          ≡ some (record n { last_seen_timestamp = w.now }))
unfolding heartbeat
heartbeat_seen clock pubkey registry n w own = ground (
  arith,
  select_one-holds (owns_node pubkey) w.nodes n own,
  select_one-update_where (has_owner_pubkey pubkey) (owns_node pubkey)
      (λ n. record n { last_seen_timestamp = w.now }) w.nodes (λ r k. refl),
)
