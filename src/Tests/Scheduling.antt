-- ===== src/Tests/Scheduling.antt =====
-- Examples for the monitors, the registry and the scheduler.
use deping_client_service.Base.{
  List, String, [], arith, false, none, pos, select_one, some, true, ◌+◌, ◌∷◌, ◌≡◌,
}
use deping_client_service.Monitors.{CreateMonitorRequest, MonitorTable}
use deping_client_service.Registry.{ActiveNode, Urls, get_online_nodes, is_node, match_batch}
use deping_client_service.Registry.Batch.{IsMatching, match_batch-IsMatching}
use deping_client_service.Registry.Online.{
  Event, beat, eviction, get_online_nodes-last_heartbeat, last_heartbeat, registry_after,
}
use deping_client_service.Tests.{sample_world}

abbrev sample_table : MonitorTable
sample_table = record {
  new_id = λ n. "m3";
  default_is_active = true;
  default_total_spent_tokens = 0;
  refused = λ m users rows. false;
  add_float = ◌+◌;
}

abbrev sample_urls : Urls
sample_urls = record { hostname = λ s. some s; to_lower = λ s. s }

abbrev active_node : String → ActiveNode
active_node key = record {
  pubkey = key;
  email = "ann@example.org";
  latitude = 5;
  longitude = 6;
  last_seen = 1000;
}

abbrev creation : CreateMonitorRequest
creation = record { target_url = "https://example.org"; interval_seconds = pos 10 }

match_batch-IsMatching_example :
    IsMatching sample_urls
      (get_online_nodes 2000 (active_node "K1" ∷ active_node "K2" ∷ []))
      sample_world.monitors
      (match_batch sample_urls 2000
        (active_node "K1" ∷ active_node "K2" ∷ [])
        sample_world.monitors
        (λ d. "")).0
match_batch-IsMatching_example =
    match_batch-IsMatching sample_urls 2000 (active_node "K1" ∷ active_node "K2" ∷ [])
      sample_world.monitors (λ d. "")

abbrev last_used : String → String
last_used domain = "K1"

-- Two heartbeats, an eviction, and a third heartbeat.
abbrev history : List Event
history =
    beat 400000000000 (active_node "K2")
    ∷ eviction 350000000000
    ∷ beat 90000000000 (active_node "K2")
    ∷ beat 40000000000 (active_node "K1")
    ∷ []

get_online_nodes-last_heartbeat_example :
    select_one (is_node "K1") (get_online_nodes 410000000000 (registry_after history)) ≡ none
unfolding last_heartbeat
get_online_nodes-last_heartbeat_example =
    get_online_nodes-last_heartbeat 410000000000 history "K1"
      (omega arith, (omega arith, (omega arith, (omega arith, tt))))
