-- ===== src/Tests/Serving.antt =====
-- Examples for the hub and the configuration.
use deping_client_service.Base.{[], arith, exists_where, insert_missing, refl, ◌+◌, ◌∷◌, ◌≤◌}
use deping_client_service.Hub.{Hub, new_hub, unregistering, write, writing}
use deping_client_service.Hub.Blocking.{SameHub}
use deping_client_service.Hub.Busy.{Busy-bound, no_step, one_step}
use deping_client_service.Hub.Connections.{
  IsConsistent, Server, ServerSteps-IsConsistent, leaving, new_server, no_more, one_more,
  read_error, reading, register_conn, registering, set_stage, unopened, upgrade,
}
use deping_client_service.Hub.Leak.{SameServices, blocked-SameHub-SameServices}

-- The hub has two clients and a message; the first client's connection is broken.
abbrev two_clients : Hub
two_clients = record new_hub { clients = 1 ∷ 2 ∷ []; broadcast = "down" ∷ [] }

abbrev broken : Hub
broken = record two_clients { broadcast = []; phase = unregistering 1 "down" (2 ∷ []) }

-- The connection 2 is a client and breaks, too.
abbrev broken_server : Server
broken_server = record { hub = broken; stage = set_stage 2 reading (λ c. unopened) }

abbrev one_left : Server
one_left = record broken_server { stage = set_stage 2 leaving broken_server.stage }

blocked-SameHub-SameServices_example : SameHub broken broken × SameServices broken_server one_left
blocked-SameHub-SameServices_example =
    blocked-SameHub-SameServices broken_server one_left tt
      (one_more broken_server _ _ (read_error 2 broken_server refl) (no_more one_left))

-- The first of two writes, with the other one and 256 free places left.
Busy-bound_example : 1 ≤ 3 + 256
Busy-bound_example =
    Busy-bound 1 (record two_clients { broadcast = []; phase = writing "down" (1 ∷ 2 ∷ []) })
      (record two_clients {
        broadcast = [];
        phase = writing "down" (2 ∷ []);
        written = (1, "down") ∷ [];
      })
      (one_step 0 (record two_clients { broadcast = []; phase = writing "down" (1 ∷ 2 ∷ []) }) _ _
        refl
        (write "down" 1 (2 ∷ [])
          (record two_clients { broadcast = []; phase = writing "down" (1 ∷ 2 ∷ []) }) refl)
        (no_step _))

-- A connection that is upgraded and registered.
abbrev upgraded_server : Server
upgraded_server = record new_server { stage = set_stage 7 registering new_server.stage }

abbrev registered_server : Server
registered_server = record {
  hub = record new_hub { clients = 7 ∷ [] };
  stage = set_stage 7 reading upgraded_server.stage;
}

ServerSteps-IsConsistent_example : IsConsistent registered_server
unfolding exists_where insert_missing
ServerSteps-IsConsistent_example =
    ServerSteps-IsConsistent new_server registered_server (λ c. refl, (tt, omega arith))
      (one_more new_server upgraded_server _ (upgrade 7 new_server refl) (
        one_more upgraded_server registered_server _ (register_conn 7 upgraded_server refl refl)
          (no_more registered_server)))
