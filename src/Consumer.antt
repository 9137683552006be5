-- ===== src/Consumer.antt =====
-- services/consumer_service.go: the deliveries of telegram_queue, one after another. The body is taken as decoded by
-- encoding/json, `none` where `json.Unmarshal` fails; the 30-second timeout of the batch is one of
-- the reasons for which a call fails.
pub mod Jobs
pub mod Delivery
pub mod Redelivery
use Prim.Native.Char.{code}
use deping_client_service.Base.{
  List, Option, String, [], if◌then◌else◌, none, some, str_eq, ◌==◌, ◌∷◌,
}
use deping_client_service.World.{Error, M, Outcome, err, ok, panic, pure, ◌>>=◌, ◌>>◌}
use deping_client_service.Alert.{PingResultItem, process_ping_result}

-- dto/telegram.go, SubmitResultsRequest: the field that the consumer reads.
pub record SubmitResultsRequest : Type 0 where
  pub runner_pubkey : String
  pub results : List PingResultItem

-- What becomes of the delivery: Ack(false), Nack(false, false), Nack(false, true).
pub data Settlement : Type 0 where
  acked dropped requeued : Settlement

-- The part of a job id before its first colon.
unfoldable pub extract_monitor_id_from_job_id : String → String
extract_monitor_id_from_job_id String.[] = String.[]
extract_monitor_id_from_job_id (String.◌∷◌ c s) =
    if code c == b':' then String.[] else String.◌∷◌ c (extract_monitor_id_from_job_id s)

abbrev pub with_monitor_id : PingResultItem → PingResultItem
with_monitor_id r =
    if str_eq r.monitor_id ""
    then record r { monitor_id = extract_monitor_id_from_job_id r.job_id }
    else r

-- An error is remembered and the loop goes on.
abbrev pub remember : Option Error → Outcome (Unit {0}) → Outcome (Option Error)
remember last (ok a) = ok last
remember last (err e) = ok (some e)
remember last panic = panic

abbrev pub attempt : Option Error → M (Unit {0}) → M (Option Error)
attempt last m w = let (o, w') = m w in (remember last o, w')

-- The loop over the results, with `lastErr`.
unfoldable pub process_results : List PingResultItem → Option Error → M (Option Error)
process_results [] last = pure last
process_results (r ∷ rs) last = do
  last' ← attempt last (process_ping_result (with_monitor_id r))
  process_results rs last'

abbrev pub settlement : Option Error → Settlement
settlement none = acked
settlement (some e) = requeued

unfoldable pub handle_delivery : Option SubmitResultsRequest → M Settlement
handle_delivery none = pure dropped
handle_delivery (some packet) = elim packet.results [
  | [] ↦ pure acked
  | r ∷ rs ↦ do last ← process_results packet.results none; pure (settlement last)
]

-- What the `select` of Start takes, in the order in which it takes it: the end of the context, a
-- delivery with its decoded body, the end of the channel.
pub data Event : Type 0 where
  cancelled closed : Event
  delivery : Option SubmitResultsRequest → Event

-- How Start has ended: with nil, with the error "channel closed", or not yet.
pub data Ending : Type 0 where
  returned channel_closed waiting : Ending

abbrev pub settled_first : Settlement → List Settlement × Ending → List Settlement × Ending
settled_first s (ss, end) = (s ∷ ss, end)

unfoldable pub consume_loop : List Event → M (List Settlement × Ending)
consume_loop [] = pure ([], waiting)
consume_loop (cancelled ∷ rest) = pure ([], returned)
consume_loop (closed ∷ rest) = pure ([], channel_closed)
consume_loop (delivery packet ∷ rest) = do
  s ← handle_delivery packet
  later ← consume_loop rest
  pure (settled_first s later)
