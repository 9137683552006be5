-- ===== src/System/History.antt =====
-- The health state of a monitor is what its delivered results make it, whatever else the service does
-- (services/alert_service.go, services/consumer_service.go).
use mathlib.Core.Path.{subst}
use deping_client_service.Base.{
  Bool, Bool-cases, List, Option, String, [], arith, eq_iff, false, if◌then◌else◌, inl, inr, none,
  refl, some, str_eq, sym, true, ℕ, ◌∷◌, ◌≡◌, ◌≢◌,
}
use deping_client_service.World.{
  Error, M, MonitorHealthState, Outcome, World, calm, continue, err, ok, panic, pure,
  references_monitor, unavailable, wrap,
}
use deping_client_service.Alert.{PingResultItem, process_ping_result}
use deping_client_service.Alert.Process.{
  TracksIn, process_ping_result-Tracks, process_ping_result_error, process_ping_result_others,
}
use deping_client_service.Bot.{Context, HandlerFunc}
use deping_client_service.Bot.Handlers.{register_handlers}
use deping_client_service.Consumer.{
  SubmitResultsRequest, handle_delivery, process_results, settlement, with_monitor_id,
}
use deping_client_service.Invariant.{IsSound, Marks, paying, with_marks}
use deping_client_service.Invariant.Alerting.{process_ping_result-IsSound}
use deping_client_service.Invariant.Chats.{
  KeepsAny, has_handler, no_handler, register_handlers-KeepsAny,
}
use deping_client_service.Invariant.Requests.{serve-IsSound}
use deping_client_service.Keeping.{Keeps}
use deping_client_service.Router.Routes.{serve}
use deping_client_service.System.{
  Event, Service, delivered, eviction_tick, handled, happen, logged, meanwhile, request, run_events,
  update,
}
use deping_client_service.System.Calm.{IsCalm, process_ping_result-IsCalm}
use deping_client_service.System.Reachable.{happen-IsSound}

-- The results about a monitor, the newest first.
abbrev pub counted : String → List PingResultItem → List Bool → List Bool
counted id [] h = h
counted id (r ∷ rs) h =
    let r' = with_monitor_id r in
    counted id rs (if str_eq r'.monitor_id id then r'.success ∷ h else h)

abbrev pub counted_in : String → Event → List Bool → List Bool
counted_in id (request s req) h = h
counted_in id (update unique_usernames endpoint c) h = h
counted_in id (delivered none) h = h
counted_in id (delivered (some packet)) h = counted id packet.results h
counted_in id (eviction_tick now) h = h
counted_in id (meanwhile now faults) h = h
counted_in id (logged l) h = h

-- The results about a monitor that the events deliver, after the earlier ones.
abbrev pub history : String → List (ℕ × Event) → List Bool → List Bool
history id [] h = h
history id ((now, e) ∷ es) h = history id es (counted_in id e h)

-- Each event at its time, with no call that fails.
abbrev pub unhindered : List (ℕ × Event) → List Event
unhindered [] = []
unhindered ((now, e) ∷ es) = meanwhile now [] ∷ e ∷ unhindered es

-- A monitor that has a row.
abbrev following : String → Marks
following id = record { paid = []; known = id ∷ []; about_health = λ rows. Unit {0} }

-- Health states that do not change.
abbrev pub unchanged : List MonitorHealthState → Marks
unchanged health = record { paid = []; known = []; about_health = λ rows. rows ≡ health }

same_health-TracksIn :
    (id : String) (h : List Bool) (w w' : World)
    → w'.health ≡ w.health
    → TracksIn id h w
    → TracksIn id h w'
same_health-TracksIn id h w w' same t = rw same t

-- One result of the batch: an error is remembered, and a panic does not happen.
process_results_step :
    (r : PingResultItem) (rs : List PingResultItem) (last : Option Error) (w : World)
    → (last' : Option Error) × ((process_results (r ∷ rs) last w).1
        ≡ (process_results rs last' (process_ping_result (with_monitor_id r) w).1).1)
unfolding process_results
process_results_step r rs last w = elim (process_ping_result_error (with_monitor_id r) w) [
  | inl done ↦ (last, ground (arith, done))
  | inr lookup_failed ↦ (some (wrap "state lookup" unavailable), ground (arith, lookup_failed))
]

process_ping_result_counted :
    (id : String) (r : PingResultItem) (w : World) (h : List Bool)
    → str_eq id "" ≡ false
    → references_monitor id w ≡ true
    → IsCalm w
    → TracksIn id h w
    → TracksIn id (if str_eq r.monitor_id id then r.success ∷ h else h) (process_ping_result r w).1
process_ping_result_counted id r w h named known calls t =
    let w_calm : calm w ≡ w = rw (sym calls) refl in
    elim (Bool-cases (str_eq r.monitor_id id)) [
      | inl about ↦
          let same : r.monitor_id ≡ id = ground (arith, eq_iff r.monitor_id id, about) in
          let (_, tracks, _) =
            process_ping_result-Tracks r w h (rw same named) (rw same known) (rw same t) in
          rw about (
            subst (λ x. TracksIn x (r.success ∷ h) (process_ping_result r w).1) same
              (rw w_calm at tracks))
      | inr other ↦
          let apart : id ≢ r.monitor_id =
            λ e. absurd (ground (arith, eq_iff r.monitor_id id, other, sym e)) in
          let kept = process_ping_result_others r w id apart in rw (other, kept) t
    ]

process_results_counted :
    (id : String) (rs : List PingResultItem) (last : Option Error) (w : World) (h : List Bool)
    → str_eq id "" ≡ false
    → IsSound (following id) w
    → IsCalm w
    → TracksIn id h w
    → TracksIn id (counted id rs h) (process_results rs last w).1
unfolding process_results
process_results_counted id [] last w h named sound calls t = t
process_results_counted id (r ∷ rs) last w h named sound calls t =
    let r' = with_monitor_id r in
    let (last', stepped) = process_results_step r rs last w in
    rw stepped (
      process_results_counted id rs last' (process_ping_result r' w).1 _ named
        ((process_ping_result-IsSound r' (λ _. tt)).at w sound)
        ((process_ping_result-IsCalm r').at w calls)
        (process_ping_result_counted id r' w h named sound.known_rows.0 calls t))

settled_kept :
    (p : Outcome (Option Error) × World) → (continue p (λ last. pure (settlement last))).1 ≡ p.1
settled_kept (ok last, w) = refl
settled_kept (err e, w) = refl
settled_kept (panic, w) = refl

delivered_batch :
    (packet : SubmitResultsRequest) (rs : List PingResultItem) (w : World)
    → packet.results ≡ rs
    → (handle_delivery (some packet) w).1 ≡ (process_results rs none w).1
unfolding handle_delivery process_results
delivered_batch packet [] w same = rw same refl
delivered_batch packet (r ∷ rs) w same = rw same (settled_kept (process_results (r ∷ rs) none w))

handle_delivery_counted :
    (id : String) (o : Option SubmitResultsRequest) (w : World) (h : List Bool)
    → str_eq id "" ≡ false
    → IsSound (following id) w
    → IsCalm w
    → TracksIn id h w
    → TracksIn id (counted_in id (delivered o) h) (handle_delivery o w).1
unfolding handle_delivery
handle_delivery_counted id none w h named sound calls t = t
handle_delivery_counted id (some packet) w h named sound calls t =
    rw (delivered_batch packet packet.results w refl)
      (process_results_counted id packet.results none w h named sound calls t)

-- An event that leaves the health states as they are.
module _ (id : String) (w : World) (h : List Bool) (sound : IsSound (following id) w)
    (t : TracksIn id h w) where
  unchanged-TracksIn :
      {A : Type 0} (m : M A) → Keeps (IsSound (unchanged w.health)) m → TracksIn id h (m w).1
  unchanged-TracksIn m k =
      let start = with_marks w (unchanged w.health) sound tt tt refl in
      same_health-TracksIn id h w (m w).1 (k.at w start).health_as t

  handled-TracksIn :
      (o : Option HandlerFunc) (c : Context)
      → KeepsAny (unchanged w.health) o
      → TracksIn id h (handled o c w)
  handled-TracksIn _ c no_handler = t
  handled-TracksIn _ c (has_handler handler k) = unchanged-TracksIn (handler c) (k c)

happen_counted :
    (id : String) (e : Event) (v : Service) (h : List Bool)
    → str_eq id "" ≡ false
    → IsSound (following id) v.world
    → IsCalm v.world
    → TracksIn id h v.world
    → TracksIn id (counted_in id e h) (happen e v).world
unfolding happen
happen_counted id (request s req) v h named sound calls t =
    unchanged-TracksIn id v.world h sound t (serve s req v.registry)
      (serve-IsSound s req v.registry)
happen_counted id (update unique_usernames endpoint c) v h named sound calls t =
    handled-TracksIn id v.world h sound t (register_handlers unique_usernames endpoint) c
      (register_handlers-KeepsAny unique_usernames endpoint)
happen_counted id (delivered o) v h named sound calls t =
    handle_delivery_counted id o v.world h named sound calls t
happen_counted id (eviction_tick now) v h named sound calls t = t
happen_counted id (meanwhile now faults) v h named sound calls t = t
happen_counted id (logged l) v h named sound calls t = t

unhindered-TracksIn :
    (es : List (ℕ × Event)) (v : Service) (id : String) (h : List Bool)
    → str_eq id "" ≡ false
    → IsSound (following id) v.world
    → TracksIn id h v.world
    → TracksIn id (history id es h) (run_events (unhindered es) v).world
unfolding run_events happen
unhindered-TracksIn [] v id h named sound t = t
unhindered-TracksIn ((now, e) ∷ es) v id h named sound t =
    let v' = happen (meanwhile now []) v in
    unhindered-TracksIn es (happen e v') id (counted_in id e h) named
      (happen-IsSound e v' (λ _. tt) sound) (happen_counted id e v' h named sound refl t)

-- Where no call fails, the health state of a monitor that has a row is what the results make it that were
-- delivered about it, whatever requests, updates of the bot, results of other monitors and ticks come
-- between them: it counts the failures since the last success, is down from two of them on, and has its
-- alert marked exactly then.
pub run_events-TracksIn :
    (es : List (ℕ × Event)) (v : Service) (id : String) (h : List Bool)
    → IsSound (paying []) v.world
    → str_eq id "" ≡ false
    → references_monitor id v.world ≡ true
    → TracksIn id h v.world
    → TracksIn id (history id es h) (run_events (unhindered es) v).world
run_events-TracksIn es v id h sound named known t =
    unhindered-TracksIn es v id h named (with_marks v.world (following id) sound tt (known, tt) tt)
      t
