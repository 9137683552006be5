-- ===== src/Invariant/Handlers.antt =====
-- The handlers of the requests keep the invariant (controllers).
use deping_client_service.Base.{
  Bool-cases, List, Option, arith, inl, inr, none, refl, some, str_eq, ℤ, ◌≡◌,
}
use deping_client_service.World.{Error, M, Outcome, World, err, ok, panic}
use deping_client_service.Controllers.Account.{
  add_monitor_credits, adding_credits, register_failed, user_login, user_me, user_register,
}
use deping_client_service.Controllers.Linking.{
  add_credits, get_credits, get_telegram_me, handle_initiate_link, handle_toggle_notification,
}
use deping_client_service.Controllers.Monitoring.{
  monitor_create, monitor_delete, monitor_list, monitor_pause, monitor_resume, monitor_stats,
}
use deping_client_service.Controllers.Nodes.{
  beaten, delete_runner, handle_activate_node, me_response, runner_heartbeat, runner_me,
  runner_register, runner_validate_stake, runner_validate_unstake, staking_response,
}
use deping_client_service.Http.{AddCreditsRequest, Call, Response, Services, decoding}
use deping_client_service.Invariant.{IsSound, Marks}
use deping_client_service.Invariant.Links.{get_telegram_user_status-IsSound, initiate_link-IsSound}
use deping_client_service.Invariant.Monitoring.{
  create-IsSound, delete-IsSound, pause-IsSound, resume-IsSound,
}
use deping_client_service.Invariant.Nodes.{
  activate_node-IsSound, completely_delete_node-IsSound, heartbeat-IsSound, me-IsSound,
  register_runner-IsSound, validate_stake-IsSound, validate_unstake-IsSound,
}
use deping_client_service.Invariant.Services.{
  add_monitor_purchased_credits-IsSound, add_purchased_credits-IsSound, get_credit_status-IsSound,
  get_user_info-IsSound, list_by_owner-IsSound, login-IsSound, register-IsSound, stats-IsSound,
  toggle_notification-IsSound,
}
use deping_client_service.Keeping.{Keeps, keeps_rules}
use deping_client_service.Registry.{ActiveNode}
use deping_client_service.Runner.Nodes.{
  MeReply, Reply, accepted, bad_request, failed, heartbeat, internal_error, refused, shows,
}

Keeps-decoding :
    {marks : Marks} {A : Type 0} (o : Option A) (refuse : M Response) (handle : A → M Response)
    → Keeps (IsSound marks) refuse
    → ((a : A) → Keeps (IsSound marks) (handle a))
    → Keeps (IsSound marks) (decoding o refuse handle)
Keeps-decoding none refuse handle kr kh = kr
Keeps-decoding (some a) refuse handle kr kh = kh a

register_failed-IsSound : {marks : Marks} (e : Error) → Keeps (IsSound marks) (register_failed e)
register_failed-IsSound e = record { at = λ w h. ground (arith, h) }

adding_credits-IsSound :
    {marks : Marks} (add : AddCreditsRequest → M ℤ) (o : Option AddCreditsRequest)
    → ((req : AddCreditsRequest) → Keeps (IsSound marks) (add req))
    → Keeps (IsSound marks) (adding_credits add o)
adding_credits-IsSound add none h = search keeps_rules
adding_credits-IsSound add (some req) h = search (keeps_rules, h) depth 12

me_response-IsSound : {marks : Marks} (r : MeReply) → Keeps (IsSound marks) (me_response r)
me_response-IsSound bad_request = search keeps_rules
me_response-IsSound internal_error = search keeps_rules
me_response-IsSound (shows view n) = search keeps_rules

staking_response-IsSound : {marks : Marks} (r : Reply) → Keeps (IsSound marks) (staking_response r)
staking_response-IsSound accepted = search keeps_rules
staking_response-IsSound (refused status what) = search keeps_rules
staking_response-IsSound (failed e) = search keeps_rules

pub user_register-IsSound :
    {marks : Marks} (s : Services) (call : Call) → Keeps (IsSound marks) (user_register s call)
unfolding user_register
user_register-IsSound s call =
    search (keeps_rules, Keeps-decoding, register-IsSound, register_failed-IsSound) depth 12

pub user_login-IsSound :
    {marks : Marks} (s : Services) (call : Call) → Keeps (IsSound marks) (user_login s call)
unfolding user_login
user_login-IsSound s call = search (keeps_rules, Keeps-decoding, login-IsSound) depth 12

pub user_me-IsSound :
    {marks : Marks} (s : Services) (call : Call) → Keeps (IsSound marks) (user_me s call)
unfolding user_me
user_me-IsSound s call = search (keeps_rules, get_user_info-IsSound) depth 12

pub add_monitor_credits-IsSound :
    {marks : Marks} (s : Services) (call : Call)
    → Keeps (IsSound marks) (add_monitor_credits s call)
unfolding add_monitor_credits
add_monitor_credits-IsSound s call =
    search (keeps_rules, adding_credits-IsSound, add_monitor_purchased_credits-IsSound) depth 12

pub add_credits-IsSound :
    {marks : Marks} (s : Services) (call : Call) → Keeps (IsSound marks) (add_credits s call)
unfolding add_credits
add_credits-IsSound s call =
    search (keeps_rules, adding_credits-IsSound, add_purchased_credits-IsSound) depth 12

pub handle_initiate_link-IsSound :
    {marks : Marks} (s : Services) (call : Call)
    → Keeps (IsSound marks) (handle_initiate_link s call)
unfolding handle_initiate_link
handle_initiate_link-IsSound s call =
    search (keeps_rules, Keeps-decoding, initiate_link-IsSound) depth 12

pub get_telegram_me-IsSound :
    {marks : Marks} (s : Services) (call : Call) → Keeps (IsSound marks) (get_telegram_me s call)
unfolding get_telegram_me
get_telegram_me-IsSound s call = search (keeps_rules, get_telegram_user_status-IsSound) depth 12

pub get_credits-IsSound :
    {marks : Marks} (s : Services) (call : Call) → Keeps (IsSound marks) (get_credits s call)
unfolding get_credits
get_credits-IsSound s call = search (keeps_rules, get_credit_status-IsSound) depth 12

pub handle_toggle_notification-IsSound :
    {marks : Marks} (s : Services) (call : Call)
    → Keeps (IsSound marks) (handle_toggle_notification s call)
unfolding handle_toggle_notification
handle_toggle_notification-IsSound s call =
    search (keeps_rules, Keeps-decoding, toggle_notification-IsSound) depth 12

pub monitor_create-IsSound :
    {marks : Marks} (s : Services) (call : Call) → Keeps (IsSound marks) (monitor_create s call)
unfolding monitor_create
monitor_create-IsSound s call = search (keeps_rules, Keeps-decoding, create-IsSound) depth 12

pub monitor_list-IsSound :
    {marks : Marks} (s : Services) (call : Call) → Keeps (IsSound marks) (monitor_list s call)
unfolding monitor_list
monitor_list-IsSound s call = search (keeps_rules, list_by_owner-IsSound) depth 12

pub monitor_stats-IsSound :
    {marks : Marks} (s : Services) (call : Call) → Keeps (IsSound marks) (monitor_stats s call)
unfolding monitor_stats
monitor_stats-IsSound s call = search (keeps_rules, stats-IsSound) depth 12

pub monitor_pause-IsSound :
    {marks : Marks} (s : Services) (call : Call) → Keeps (IsSound marks) (monitor_pause s call)
unfolding monitor_pause
monitor_pause-IsSound s call = search (keeps_rules, pause-IsSound) depth 12

pub monitor_resume-IsSound :
    {marks : Marks} (s : Services) (call : Call) → Keeps (IsSound marks) (monitor_resume s call)
unfolding monitor_resume
monitor_resume-IsSound s call = search (keeps_rules, resume-IsSound) depth 12

pub monitor_delete-IsSound :
    {marks : Marks} (s : Services) (call : Call) → Keeps (IsSound marks) (monitor_delete s call)
unfolding monitor_delete
monitor_delete-IsSound s call = search (keeps_rules, delete-IsSound) depth 12

pub runner_register-IsSound :
    {marks : Marks} (s : Services) (call : Call) → Keeps (IsSound marks) (runner_register s call)
unfolding runner_register
runner_register-IsSound s call =
    search (keeps_rules, Keeps-decoding, register_runner-IsSound) depth 12

pub runner_me-IsSound :
    {marks : Marks} (s : Services) (call : Call) → Keeps (IsSound marks) (runner_me s call)
unfolding runner_me
runner_me-IsSound s call =
    search (keeps_rules, Keeps-decoding, me-IsSound, me_response-IsSound) depth 12

pub runner_validate_stake-IsSound :
    {marks : Marks} (s : Services) (call : Call)
    → Keeps (IsSound marks) (runner_validate_stake s call)
unfolding runner_validate_stake
runner_validate_stake-IsSound s call =
    search (keeps_rules, Keeps-decoding, validate_stake-IsSound, staking_response-IsSound) depth 12

pub runner_validate_unstake-IsSound :
    {marks : Marks} (s : Services) (call : Call)
    → Keeps (IsSound marks) (runner_validate_unstake s call)
unfolding runner_validate_unstake
runner_validate_unstake-IsSound s call =
    search (keeps_rules, Keeps-decoding, validate_unstake-IsSound, staking_response-IsSound) depth
      12

pub delete_runner-IsSound :
    {marks : Marks} (s : Services) (call : Call) → Keeps (IsSound marks) (delete_runner s call)
unfolding delete_runner
delete_runner-IsSound s call =
    search (keeps_rules, Keeps-decoding, completely_delete_node-IsSound) depth 12

pub handle_activate_node-IsSound :
    {marks : Marks} (s : Services) (call : Call)
    → Keeps (IsSound marks) (handle_activate_node s call)
unfolding handle_activate_node
handle_activate_node-IsSound s call =
    search (keeps_rules, Keeps-decoding, activate_node-IsSound) depth 12

beaten_kept :
    (registry : List ActiveNode) (p : Outcome (List ActiveNode) × World)
    → (beaten registry p).1 ≡ p.1
beaten_kept registry (ok registry', w) = refl
beaten_kept registry (err e, w) = refl
beaten_kept registry (panic, w) = refl

pub runner_heartbeat-IsSound :
    {marks : Marks} (s : Services) (call : Call) (registry : List ActiveNode)
    → Keeps (IsSound marks) (runner_heartbeat s call registry)
unfolding runner_heartbeat
runner_heartbeat-IsSound s call registry = record {
  at = λ w h. elim (Bool-cases (str_eq call.request.query_pubkey "")) [
    | inl missing ↦ rw missing h
    | inr given ↦
        rw (given, beaten_kept registry (heartbeat s.clock call.request.query_pubkey registry w))
          ((heartbeat-IsSound s.clock call.request.query_pubkey registry).at w h)
  ];
}
