-- ===== src/Controllers/Account.antt =====
-- controllers/user.go, controllers/transaction.go and controllers/ping.go.
use deping_client_service.Base.{Bool, Option, leb_ℤ, none, pos, some, str_eq, ℤ, ◌==◌, ◌||◌}
use deping_client_service.World.{
  Error, M, Outcome, attempt, choose, email_taken, err, ok, panic, panics, wallet_taken,
}
use deping_client_service.Http.{
  AddCreditsRequest, Handler, Response, auth_body, credits_added_body, decode_error, decoding,
  error_of, failed_with, plain, respond_error, transfer_body, user_body, user_id_of, write_json,
}
use deping_client_service.Payments.{add_monitor_purchased_credits}
use deping_client_service.Solana.{TxInfo, get_transfer_info}
use deping_client_service.Users.{get_user_info, login, register}

unfoldable pub ping_handler : Handler
ping_handler s call = write_json 200 (plain "pong")

abbrev pub register_failed : Error → M Response
register_failed email_taken = respond_error 409 "email already registered"
register_failed wallet_taken = respond_error 409 "wallet already registered"
register_failed e = respond_error 500 "registration failed"

unfoldable pub user_register : Handler
unfolding register
user_register s call =
    decoding (s.decode_register call.request.body) (respond_error 400 "invalid request body")
      λ req. attempt (register s.auth req) register_failed λ resp. write_json 201 (auth_body resp)

unfoldable pub user_login : Handler
unfolding login
user_login s call =
    decoding (s.decode_login call.request.body) (respond_error 400 "invalid request body") λ req.
      attempt (login s.auth req) (λ e. respond_error 401 "invalid credentials")
        λ resp. write_json 200 (auth_body resp)

-- Me; UserMe, which no route reaches, is the same.
unfoldable pub user_me : Handler
unfolding get_user_info
user_me s call = choose (user_id_of call == 0) (respond_error 401 "unauthorized") (
    attempt (get_user_info (user_id_of call)) (λ e. respond_error 404 "user not found")
      λ info. write_json 200 (user_body info))

-- req.Amount <= 0 || req.TxSignature == "", where `%v` of the nil error is "<nil>".
abbrev pub is_empty_purchase : AddCreditsRequest → Bool
is_empty_purchase req = leb_ℤ req.amount (pos 0) || str_eq req.tx_signature ""

abbrev pub refused_purchase : Option AddCreditsRequest → M Response
refused_purchase none = write_json 500 (decode_error "could not add credits: ")
refused_purchase (some req) = respond_error 500 "could not add credits: <nil>"

-- AddMonitorCredits and AddCredits, with the service that they call.
abbrev pub adding_credits : (AddCreditsRequest → M ℤ) → Option AddCreditsRequest → M Response
adding_credits add none = refused_purchase none
adding_credits add (some req) = choose (is_empty_purchase req) (refused_purchase (some req)) (
    attempt (add req) (λ e. write_json 500 (error_of "could not add credits: " e))
      λ balance. write_json 200 (credits_added_body balance))

unfoldable pub add_monitor_credits : Handler
unfolding add_monitor_purchased_credits
add_monitor_credits s call =
    adding_credits
      (λ req.
        add_monitor_purchased_credits s.chain s.treasury_owner (user_id_of call) req.amount
          req.tx_signature req.credit_balance)
      (s.decode_add_credits call.request.body)

-- ValidateTransaction; an error of the chain is a reply 200 that tells it.
abbrev pub transfer_reply : Outcome TxInfo → M Response
transfer_reply (ok info) = write_json 200 (transfer_body info)
transfer_reply (err e) = write_json 200 (failed_with e)
transfer_reply panic = panics

unfoldable pub validate_transaction : Handler
validate_transaction s call =
    decoding (s.decode_validate call.request.body)
      (write_json 400 (plain "{\"error\":\"invalid request\"}"))
      λ req. transfer_reply (get_transfer_info s.chain req.signature)
