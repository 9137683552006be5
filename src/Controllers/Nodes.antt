-- ===== src/Controllers/Nodes.antt =====
-- The handlers of controllers/noderunner.go, from the request on. That of a heartbeat also changes the
-- in-memory registry.
use deping_client_service.Base.{List, if◌then◌else◌, str_eq}
use deping_client_service.World.{M, Outcome, World, attempt, choose, err, ok, panic, ◌>>=◌}
use deping_client_service.Http.{
  Call, Handler, Response, Services, decoding, email_of, error_body, error_of, message_body,
  respond_error, runner_body, status_body, view_body, write_json,
}
use deping_client_service.Registry.{ActiveNode}
use deping_client_service.Runner.Nodes.{
  MeReply, Reply, accepted, activate_node, bad_request, completely_delete_node, failed, heartbeat,
  internal_error, me, refused, register_runner, shows, validate_stake, validate_unstake,
}

unfoldable pub runner_register : Handler
unfolding register_runner
runner_register s call =
    decoding (s.decode_runner call.request.body) (respond_error 400 "invalid request body") λ req.
      choose (str_eq (email_of call) "") (respond_error 401 "user email not found in context") (
        attempt (register_runner s.node_tools s.node_defaults (email_of call) req)
          (λ e. write_json 400 (error_of "" e)) λ resp. write_json 201 (runner_body resp))

abbrev pub me_response : MeReply → M Response
me_response bad_request = respond_error 400 "pubkey is required"
me_response internal_error = respond_error 500 "internal server error"
me_response (shows view n) = write_json 200 (view_body view n)

unfoldable pub runner_me : Handler
unfolding me
runner_me s call =
    decoding (s.decode_me call.request.body) (respond_error 400 "invalid request body")
      λ pubkey. me (email_of call) pubkey >>= me_response

-- The registry is kept where the service fails.
abbrev pub beaten :
    List ActiveNode
    → Outcome (List ActiveNode) × World
    → Outcome (Response × List ActiveNode) × World
beaten registry (ok registry', w) =
    (ok (record { status = 200; body = message_body "heartbeat recorded" }, registry'), w)
beaten registry (err e, w) = (ok (record { status = 500; body = error_of "" e }, registry), w)
beaten registry (panic, w) = (panic, w)

unfoldable pub runner_heartbeat : Services → Call → List ActiveNode → M (Response × List ActiveNode)
unfolding heartbeat
runner_heartbeat s call registry w =
    if str_eq call.request.query_pubkey ""
    then (
      ok (record { status = 400; body = error_body "pubkey query param required" }, registry),
      w,
    )
    else beaten registry (heartbeat s.clock call.request.query_pubkey registry w)

-- The replies that `validate_stake` and `validate_unstake` tell.
abbrev pub staking_response : Reply → M Response
staking_response accepted = write_json 200 (status_body "success")
staking_response (refused status what) = respond_error status what
staking_response (failed e) = write_json 500 (error_of "" e)

unfoldable pub runner_validate_stake : Handler
unfolding validate_stake
runner_validate_stake s call =
    decoding (s.decode_stake call.request.body) (respond_error 400 "invalid request") λ req.
      validate_stake s.chain s.stake_treasury_owner (email_of call) req.pubkey req.signature
      >>= staking_response

unfoldable pub runner_validate_unstake : Handler
unfolding validate_unstake
runner_validate_unstake s call =
    decoding (s.decode_stake call.request.body) (respond_error 400 "invalid request") λ req.
      validate_unstake s.chain s.stake_treasury_owner (email_of call) req.pubkey req.signature
      >>= staking_response

unfoldable pub delete_runner : Handler
unfolding completely_delete_node
delete_runner s call =
    decoding (s.decode_delete_node call.request.body) (respond_error 400 "invalid request") λ req.
      attempt (completely_delete_node (email_of call) req.pubkey)
        (λ e. write_json 500 (error_of "" e)) λ _. write_json 200 (status_body "success")

unfoldable pub handle_activate_node : Handler
unfolding activate_node
handle_activate_node s call =
    decoding (s.decode_activate call.request.body) (respond_error 400 "invalid request body") λ req.
      choose (str_eq (email_of call) "") (respond_error 401 "unauthorized") (
        attempt (activate_node s.node_tools (email_of call) req.pubkey req.pda)
          (λ e. write_json 422 (error_of "" e)) λ _. write_json 200 (status_body "activated"))
