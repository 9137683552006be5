-- ===== src/Runner/Nodes.antt =====
-- The node service, services/noderunner_service.go, and the handlers of controllers/noderunner.go
-- behind the decoding of a request. The check of a public key, the parts of the derivation of a program
-- address and the parsing of a float are the parameters of `NodeTools`. The in-memory registry is passed
-- along.
use deping_client_service.Base.{
  Bool, List, Option, String, if◌then◌else◌, none, not, some, str_eq, to_i64, ℕ, ◌||◌,
}
use deping_client_service.World.{
  Error, M, Outcome, RunnerNode, User, World, choose, err, fail, is_no_rows, message, ok, panic,
  panics, pure, unavailable, wrap, wrapping, ◌>>=◌, ◌>>◌,
}
use deping_client_service.Payments.{is_tx_processed, process_payment}
use deping_client_service.Registry.{ActiveNode, track_heartbeat}
use deping_client_service.Runner.{
  NodeDefaults, delete_node, find_by_email_and_pubkey, find_by_pubkey, register_node,
  update_heartbeat, update_node_pda, update_stake, update_unstake,
}
use deping_client_service.Solana.{Addresses, Chain, TxInfo, derive_node_pda, get_transfer_info}
use deping_client_service.Users.{get_user_by_email}

pub record NodeTools : Type 0 where
  -- PublicKeyFromBase58 accepts the text.
  pub is_public_key : String → Bool
  pub addresses : Addresses
  pub program_id : String
  -- strconv.ParseFloat, with its value on an error.
  pub parse_float : String → ℕ

unfoldable pub activate_node : NodeTools → String → String → String → M (Unit {0})
activate_node tools email pubkey pda =
    choose (not (tools.is_public_key pubkey)) (fail (wrap "invalid pubkey" unavailable))
      (elim (derive_node_pda tools.addresses tools.program_id pubkey email) [
        | none ↦ fail (wrap "failed to derive PDA" unavailable)
        | some (expected, bump) ↦
            choose (not (str_eq expected pda)) (fail (message "security alert: PDA mismatch"))
              (update_node_pda email pubkey pda)
      ])

-- dto/noderunner.go, RegisterRunnerRequest.
pub record RegisterRunnerRequest : Type 0 where
  pub owner_pubkey : String
  pub node_pubkey : String
  pub region : String
  pub latitude : String
  pub longitude : String

-- dto/noderunner.go, RunnerResponse: the fields that toRunnerResponse sets.
pub record RunnerResponse : Type 0 where
  pub id : ℕ
  pub owner_email : String
  pub owner_pubkey : String
  pub node_pubkey : String
  pub region : String
  pub latitude : ℕ
  pub longitude : ℕ
  pub offchain_accumulated_tokens : ℕ
  pub total_earned_tokens_all_time : ℕ
  pub pending_solana_sync : Bool
  pub is_validator : Bool
  pub node_pda : String

abbrev pub null_string : Option String → String
null_string none = ""
null_string (some s) = s

unfoldable pub to_runner_response : RunnerNode → RunnerResponse
to_runner_response n = record {
  id = n.id;
  owner_email = n.owner_email;
  owner_pubkey = n.owner_pubkey;
  node_pubkey = n.node_pubkey;
  region = n.region;
  latitude = n.latitude;
  longitude = n.longitude;
  offchain_accumulated_tokens = n.offchain_accumulated_tokens;
  total_earned_tokens_all_time = n.total_earned_tokens_all_time;
  pending_solana_sync = n.pending_solana_sync;
  is_validator = n.is_validator;
  node_pda = null_string n.node_pda;
}

unfoldable pub register_runner :
    NodeTools → NodeDefaults → String → RegisterRunnerRequest → M RunnerResponse
register_runner tools d email req =
    choose (str_eq req.owner_pubkey "" || str_eq req.region "")
      (fail (message "owner_pubkey and region are required"))
      (do
        node ← wrapping (wrap "register runner") (
            register_node d email req.owner_pubkey req.node_pubkey req.region
              (tools.parse_float req.latitude) (tools.parse_float req.longitude))
        pure (to_runner_response node))

unfoldable pub get_by_pubkey : String → M RunnerResponse
get_by_pubkey pubkey = do
  node ← wrapping (wrap "runner not found") (find_by_pubkey pubkey)
  pure (to_runner_response node)

unfoldable pub get_by_email_and_pubkey : String → String → M RunnerResponse
unfolding find_by_email_and_pubkey
get_by_email_and_pubkey pubkey email = do
  node ← find_by_email_and_pubkey email pubkey
  pure (to_runner_response node)

-- The registry after the heartbeat is returned; its clock is in nanoseconds.
unfoldable pub heartbeat : ℕ → String → List ActiveNode → M (List ActiveNode)
unfolding update_heartbeat find_by_pubkey
heartbeat clock pubkey registry = do
  wrapping (wrap "update database heartbeat") (update_heartbeat pubkey)
  node ← wrapping (wrap "resolve runner for memory allocation") (find_by_pubkey pubkey)
  pure (
      track_heartbeat clock node.owner_pubkey node.owner_email node.latitude node.longitude
        registry)

abbrev pub already_processed : Error
already_processed = message "transaction already processed or invalid"

-- `user.ID` of a nil user panics.
abbrev pub record_stake : ℕ → String → Option User → M (Unit {0})
record_stake amount tx_sig none = panics
record_stake amount tx_sig (some user) = process_payment user.id amount tx_sig

unfoldable pub validate_and_stake : String → String → String → ℕ → M (Unit {0})
unfolding is_tx_processed update_stake get_user_by_email process_payment
validate_and_stake email pubkey tx_sig amount = do
  processed ← wrapping (λ _. already_processed) (is_tx_processed tx_sig)
  choose processed (fail already_processed) (do
    wrapping (wrap "stake update failed") (update_stake pubkey (to_i64 amount))
    user ← get_user_by_email email
    record_stake amount tx_sig user)

unfoldable pub validate_and_unstake : String → String → String → ℕ → M (Unit {0})
unfolding is_tx_processed update_unstake get_user_by_email process_payment
validate_and_unstake email pubkey tx_sig amount = do
  processed ← wrapping (λ _. already_processed) (is_tx_processed tx_sig)
  choose processed (fail already_processed) (do
    wrapping (wrap "unstake update failed") (update_unstake pubkey (to_i64 amount))
    user ← get_user_by_email email
    record_stake amount tx_sig user)

unfoldable pub completely_delete_node : String → String → M (Unit {0})
unfolding get_user_by_email delete_node
completely_delete_node email pubkey = do
  _ ← wrapping (wrap "user authentication lookup failed") (get_user_by_email email)
  wrapping (wrap "node permanent deletion failed for pubkey %s") (delete_node pubkey)

-- The answer of a handler: "success", a refusal with its status and message, or a 500 with the error.
pub data Reply : Type 0 where
  accepted : Reply
  refused : ℕ → String → Reply
  failed : Error → Reply

abbrev pub reply : ℕ → String → M Reply
reply status body = pure (refused status body)

-- The reply after a service call.
abbrev pub replied : Outcome (Unit {0}) × World → Outcome Reply × World
replied (ok a, w) = (ok accepted, w)
replied (err e, w) = (ok (failed e), w)
replied (panic, w) = (panic, w)

abbrev pub answering : M (Unit {0}) → M Reply
answering m w = replied (m w)

-- ValidateStake of the controller, from the decoded request on.
abbrev pub stake_verified : String → String → String → String → Outcome TxInfo → M Reply
stake_verified vault email pubkey signature (err e) = reply 400 "on-chain verification failed"
stake_verified vault email pubkey signature panic = panics
stake_verified vault email pubkey signature (ok info) =
    choose (not (str_eq info.receiver vault)) (reply 403 "invalid destination vault")
      (answering (validate_and_stake email pubkey signature info.amount))

unfoldable pub validate_stake : Chain → String → String → String → String → M Reply
unfolding validate_and_stake
validate_stake chain vault email pubkey signature =
    stake_verified vault email pubkey signature (get_transfer_info chain signature)

abbrev pub unstake_verified : String → String → String → String → Outcome TxInfo → M Reply
unstake_verified vault email pubkey signature (err e) = reply 400 "on-chain verification failed"
unstake_verified vault email pubkey signature panic = panics
unstake_verified vault email pubkey signature (ok info) =
    choose (not (str_eq info.sender vault)) (reply 403 "invalid unstake source")
      (answering (validate_and_unstake email pubkey signature info.amount))

unfoldable pub validate_unstake : Chain → String → String → String → String → M Reply
unfolding validate_and_unstake
validate_unstake chain vault email pubkey signature =
    unstake_verified vault email pubkey signature (get_transfer_info chain signature)

-- What Me tells the frontend to show.
pub data View : Type 0 where
  register_view activate_view stake_view dashboard_view : View

unfoldable pub next_view : RunnerResponse → View
next_view node =
    if str_eq node.node_pda ""
    then activate_view
    else if not node.is_validator
    then stake_view
    else dashboard_view

-- The replies 400 and 500, and 200 with a view, which is that of a node where there is one.
pub data MeReply : Type 0 where
  bad_request internal_error : MeReply
  shows : View → Option RunnerResponse → MeReply

abbrev pub view_of : Outcome RunnerResponse × World → Outcome MeReply × World
view_of (ok node, w) = (ok (shows (next_view node) (some node)), w)
view_of (err e, w) = (ok (if is_no_rows e then shows register_view none else internal_error), w)
view_of (panic, w) = (panic, w)

unfoldable pub me : String → String → M MeReply
unfolding get_by_email_and_pubkey
me email pubkey w =
    if str_eq pubkey ""
    then (ok bad_request, w)
    else view_of (get_by_email_and_pubkey pubkey email w)
