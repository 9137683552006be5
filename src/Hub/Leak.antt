-- ===== src/Hub/Leak.antt =====
-- What a failed write of the hub does to the goroutines of the connections (ws/hub.go).
use deping_client_service.Base.{Bool, ap, false, refl, true, ℕ, ◌∙◌, ◌≡◌}
use deping_client_service.App.{steps}
use deping_client_service.Hub.Blocking.{IsUnregistering, SameHub, blocked-SameHub, selecting_apart}
use deping_client_service.Hub.Connections.{
  Server, ServerStep, ServerSteps, Stage, gone, hub_step, hub-Steps, is_served, leaving, no_more,
  one_more, read_error, reading, register_conn, registering, same_look, set_stage, unopened,
  unregister_conn, upgrade,
}

abbrev pub is_gone : Stage → Bool
is_gone unopened = false
is_gone registering = false
is_gone reading = false
is_gone leaving = false
is_gone gone = true

abbrev pub SameServices : Server → Server → Type 0
SameServices s s' =
    (c : ℕ)
    → (is_served (s'.stage c) ≡ is_served (s.stage c))
      × (is_gone (s'.stage c) ≡ is_gone (s.stage c))

-- A change to a stage that is served and gone as before.
set_stage-SameServices :
    (s : Server) (d : ℕ) (st : Stage)
    → is_served (s.stage d) ≡ is_served st
    → is_gone (s.stage d) ≡ is_gone st
    → SameServices s (record s { stage = set_stage d st s.stage })
set_stage-SameServices s d st during over c =
    (same_look is_served d st s.stage c during, same_look is_gone d st s.stage c over)

blocked-SameServices :
    (s s' : Server) → IsUnregistering s.hub.phase → ServerStep s s' → SameServices s s'
blocked-SameServices s _ b (hub_step h' _ step i) c = (refl, refl)
blocked-SameServices s _ b (upgrade d _ e) c =
    set_stage-SameServices s d registering (ap is_served e) (ap is_gone e) c
blocked-SameServices s _ b (read_error d _ e) c =
    set_stage-SameServices s d leaving (ap is_served e) (ap is_gone e) c
blocked-SameServices s _ b (register_conn d _ e p) c = absurd (selecting_apart s.hub b p)
blocked-SameServices s _ b (unregister_conn d _ e p) c = absurd (selecting_apart s.hub b p)

still_blocked :
    (s s' : Server) → IsUnregistering s.hub.phase → ServerStep s s' → IsUnregistering s'.hub.phase
still_blocked s s' b step =
    rw (blocked-SameHub s.hub s'.hub b (hub-Steps s s' (one_more s s' s' step (no_more s')))).0 b

services_kept : (s s' : Server) → IsUnregistering s.hub.phase → ServerSteps s s' → SameServices s s'
services_kept s _ b (no_more _) c = (refl, refl)
services_kept s s'' b (one_more _ s' _ step more) c =
    let (during, over) = blocked-SameServices s s' b step c in
    let (during', over') = services_kept s' s'' (still_blocked s s' b step) more c in
    (during' ∙ during, over' ∙ over)

-- After one failed write the server is stuck for good: the hub waits at its own channel, which nothing
-- else receives from. Whatever steps are taken, no message is written, no connection that is upgraded
-- gets to be a client, and the goroutine of no connection ends.
pub blocked-SameHub-SameServices :
    (s s' : Server)
    → IsUnregistering s.hub.phase
    → ServerSteps s s'
    → SameHub s.hub s'.hub × SameServices s s'
blocked-SameHub-SameServices s s' b steps =
    (blocked-SameHub s.hub s'.hub b (hub-Steps s s' steps), services_kept s s' b steps)
