-- ===== src/System.antt =====
-- The service as it runs (app/application.go, Run): the HTTP server, the bot and the consumer act one
-- after another on the same tables and the same registry, each call of a handler as a whole.
pub mod Reachable
pub mod Once
pub mod Ledger
pub mod Alerts
pub mod Calm
pub mod History
pub mod Chats
pub mod Strangers
pub mod Outages
use deping_client_service.Base.{Bool, List, Option, String, [], none, some, ℕ, ◌∷◌}
use deping_client_service.World.{Outcome, PingLog, World, err, ok, panic}
use deping_client_service.Bot.{Context, HandlerFunc}
use deping_client_service.Bot.Handlers.{register_handlers}
use deping_client_service.Consumer.{SubmitResultsRequest, handle_delivery}
use deping_client_service.Http.{Request, Response, Services}
use deping_client_service.Registry.{ActiveNode, evict}
use deping_client_service.Router.Routes.{serve}

-- What happens to the service. A request and an update of the bot come with what the libraries answer to
-- it. `meanwhile` is the passing of time, with the calls that are to fail from then on; the ping logs
-- are written by other programs.
pub data Event : Type 0 where
  request : Services → Request → Event
  update : Bool → String → Context → Event
  delivered : Option SubmitResultsRequest → Event
  eviction_tick : ℕ → Event
  meanwhile : ℕ → List Bool → Event
  logged : PingLog → Event

pub record Service : Type 0 where
  pub world : World
  pub registry : List ActiveNode

-- The registry after a request; where the handler panics it is what it was, and net/http goes on.
abbrev pub next_registry : List ActiveNode → Outcome (Response × List ActiveNode) → List ActiveNode
next_registry registry (ok (resp, registry')) = registry'
next_registry registry (err e) = registry
next_registry registry panic = registry

-- A text without a handler is ignored.
abbrev pub handled : Option HandlerFunc → Context → World → World
handled none c w = w
handled (some handler) c w = (handler c w).1

unfoldable pub happen : Event → Service → Service
unfolding serve register_handlers handle_delivery evict
happen (request s req) v =
    let (o, w) = serve s req v.registry v.world in
    record { world = w; registry = next_registry v.registry o }
happen (update unique_usernames endpoint c) v = record v {
  world = handled (register_handlers unique_usernames endpoint) c v.world;
}
happen (delivered packet) v = record v { world = (handle_delivery packet v.world).1 }
happen (eviction_tick now) v = record v { registry = evict now v.registry }
happen (meanwhile now faults) v = record v { world = record v.world { now = now; faults = faults } }
happen (logged l) v = record v { world = record v.world { ping_logs = l ∷ v.world.ping_logs } }

unfoldable pub run_events : List Event → Service → Service
unfolding happen
run_events [] v = v
run_events (e ∷ es) v = run_events es (happen e v)
