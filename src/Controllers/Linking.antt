-- ===== src/Controllers/Linking.antt =====
-- controllers/telegram.go.
use deping_client_service.Base.{str_eq}
use deping_client_service.World.{attempt, choose}
use deping_client_service.Controllers.Account.{adding_credits}
use deping_client_service.Credits.{get_credit_status}
use deping_client_service.Health.{get_subscription, upsert_subscription}
use deping_client_service.Http.{
  Handler, credit_status_body, decoding, envelope_body, error_of, failed_body, link_body, lookup,
  path_value, respond_error, subscription_body, user_id_of, write_json,
}
use deping_client_service.Payments.{add_purchased_credits}
use deping_client_service.Telegram.Service.{
  get_notification_status, get_telegram_user_status, initiate_link, toggle_notification,
}

unfoldable pub handle_initiate_link : Handler
unfolding initiate_link
handle_initiate_link s call =
    decoding (s.decode_link call.request.body) (respond_error 400 "telegram_username is required")
      λ username. choose (str_eq username "") (respond_error 400 "telegram_username is required") (
        attempt
          (initiate_link s.unique_usernames s.bot_username s.random (user_id_of call) username)
          (λ e. write_json 500 (error_of "" e)) λ resp. write_json 200 (link_body resp))

unfoldable pub get_telegram_me : Handler
unfolding get_telegram_user_status
get_telegram_me s call =
    attempt (get_telegram_user_status (user_id_of call))
      (λ e. write_json 500 (failed_body "Internal server error"))
      λ resp. write_json 200 (envelope_body resp)

unfoldable pub get_credits : Handler
unfolding get_credit_status
get_credits s call =
    attempt (get_credit_status (user_id_of call)) (λ e. respond_error 500 "could not fetch credits")
      λ status. write_json 200 (credit_status_body status)

unfoldable pub add_credits : Handler
unfolding add_purchased_credits
add_credits s call =
    adding_credits
      (λ req.
        add_purchased_credits s.chain s.treasury_owner (user_id_of call) req.amount req.tx_signature
          req.credit_balance)
      (s.decode_add_credits call.request.body)

unfoldable pub handle_toggle_notification : Handler
unfolding toggle_notification upsert_subscription lookup
handle_toggle_notification s call =
    let monitor_id = path_value "monitor_id" call in
    choose (str_eq monitor_id "") (respond_error 400 "monitor_id is required") (
      decoding (s.decode_toggle call.request.body) (respond_error 400 "invalid request body")
        λ enabled.
          attempt (toggle_notification (user_id_of call) monitor_id enabled)
            (λ e. respond_error 500 "could not update notification preference")
            λ _. write_json 200 (subscription_body monitor_id enabled))

-- No route reaches this handler.
unfoldable pub handle_get_notification_status : Handler
unfolding get_notification_status get_subscription lookup
handle_get_notification_status s call =
    let monitor_id = path_value "monitor_id" call in
    choose (str_eq monitor_id "") (respond_error 400 "monitor_id is required") (
      attempt (get_notification_status (user_id_of call) monitor_id)
        (λ e. respond_error 500 "could not fetch status")
        λ enabled. write_json 200 (subscription_body monitor_id enabled))
