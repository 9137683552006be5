-- ===== src/Invariant/Services.antt =====
-- The other services keep the invariant: those that change none of its tables, and the two purchases
-- (services/user_service.go, services/telegram_service.go, services/monitor_service.go).
use deping_client_service.Base.{Bool, String, arith, ℕ, ℤ}
use deping_client_service.Credits.{get_credit_status}
use deping_client_service.Health.{get_subscription, upsert_subscription}
use deping_client_service.Invariant.{IsSound, Marks}
use deping_client_service.Invariant.Ledger.{
  get_credit_row-IsSound, process_payment-IsSound, repo_add_purchased_credits-IsSound,
}
use deping_client_service.Keeping.{Keeps, keeps_rules}
use deping_client_service.Monitors.{find_by_id, find_by_owner, list_by_owner}
use deping_client_service.Monitors.Stats.{stats}
use deping_client_service.Payments.{
  add_monitor_purchased_credits, add_purchased_credits, is_tx_processed,
  repo_add_monitor_purchased_credits,
}
use deping_client_service.PingLogs.{find_by_monitor, uptime_percentage}
use deping_client_service.Solana.{Chain}
use deping_client_service.Telegram.Service.{get_notification_status, toggle_notification}
use deping_client_service.Users.{
  Auth, LoginRequest, RegisterRequest, create_user, generate_token, get_user_by_email,
  get_user_by_id, get_user_info, login, register,
}

pub get_user_by_email-IsSound :
    {marks : Marks} (email : String) → Keeps (IsSound marks) (get_user_by_email email)
unfolding get_user_by_email
get_user_by_email-IsSound email = record { at = λ w h. ground (arith, h) }

pub is_tx_processed-IsSound :
    {marks : Marks} (sig : String) → Keeps (IsSound marks) (is_tx_processed sig)
unfolding is_tx_processed
is_tx_processed-IsSound sig = record { at = λ w h. ground (arith, h) }

repo_add_monitor_purchased_credits-IsSound :
    {marks : Marks} (u : ℕ) (amount : ℤ) (sig : String)
    → Keeps (IsSound marks) (repo_add_monitor_purchased_credits u amount sig)
unfolding repo_add_monitor_purchased_credits
repo_add_monitor_purchased_credits-IsSound u amount sig = record { at = λ w h. ground (arith, h) }

pub add_monitor_purchased_credits-IsSound :
    {marks : Marks} (chain : Chain) (treasury : String) (u : ℕ) (amount : ℤ) (sig : String)
    (balance : ℤ)
    → Keeps (IsSound marks) (add_monitor_purchased_credits chain treasury u amount sig balance)
unfolding add_monitor_purchased_credits
add_monitor_purchased_credits-IsSound chain treasury u amount sig balance =
    search
      (
        keeps_rules, is_tx_processed-IsSound, process_payment-IsSound,
        repo_add_monitor_purchased_credits-IsSound,
      )
      depth 12

pub add_purchased_credits-IsSound :
    {marks : Marks} (chain : Chain) (treasury : String) (u : ℕ) (amount : ℤ) (sig : String)
    (balance : ℤ)
    → Keeps (IsSound marks) (add_purchased_credits chain treasury u amount sig balance)
unfolding add_purchased_credits
add_purchased_credits-IsSound chain treasury u amount sig balance =
    search
      (
        keeps_rules, is_tx_processed-IsSound, process_payment-IsSound,
        repo_add_purchased_credits-IsSound,
      )
      depth 12

create_user-IsSound :
    {marks : Marks} (auth : Auth) (email hash wallet : String)
    → Keeps (IsSound marks) (create_user auth email hash wallet)
unfolding create_user
create_user-IsSound auth email hash wallet = record { at = λ w h. ground (arith, h) }

generate_token-IsSound :
    {marks : Marks} (auth : Auth) (u : ℕ) (email : String)
    → Keeps (IsSound marks) (generate_token auth u email)
unfolding generate_token
generate_token-IsSound auth u email = record { at = λ w h. h }

pub register-IsSound :
    {marks : Marks} (auth : Auth) (req : RegisterRequest)
    → Keeps (IsSound marks) (register auth req)
unfolding register
register-IsSound auth req =
    search (keeps_rules, create_user-IsSound, generate_token-IsSound) depth 12

pub login-IsSound :
    {marks : Marks} (auth : Auth) (req : LoginRequest) → Keeps (IsSound marks) (login auth req)
unfolding login generate_token get_user_by_email
login-IsSound auth req = record { at = λ w h. ground (arith, h) }

pub get_user_info-IsSound : {marks : Marks} (u : ℕ) → Keeps (IsSound marks) (get_user_info u)
unfolding get_user_info get_user_by_id
get_user_info-IsSound u = record { at = λ w h. ground (arith, h) }

pub get_credit_status-IsSound :
    {marks : Marks} (u : ℕ) → Keeps (IsSound marks) (get_credit_status u)
unfolding get_credit_status
get_credit_status-IsSound u = search (keeps_rules, get_credit_row-IsSound)

pub toggle_notification-IsSound :
    {marks : Marks} (u : ℕ) (id : String) (enabled : Bool)
    → Keeps (IsSound marks) (toggle_notification u id enabled)
unfolding toggle_notification upsert_subscription
toggle_notification-IsSound u id enabled = record { at = λ w h. ground (arith, h) }

pub get_notification_status-IsSound :
    {marks : Marks} (u : ℕ) (id : String) → Keeps (IsSound marks) (get_notification_status u id)
unfolding get_notification_status get_subscription
get_notification_status-IsSound u id = record { at = λ w h. ground (arith, h) }

pub list_by_owner-IsSound : {marks : Marks} (u : ℕ) → Keeps (IsSound marks) (list_by_owner u)
unfolding list_by_owner find_by_owner
list_by_owner-IsSound u = record { at = λ w h. ground (arith, h) }

pub stats-IsSound : {marks : Marks} (id : String) (u : ℕ) → Keeps (IsSound marks) (stats id u)
unfolding stats uptime_percentage find_by_id find_by_monitor
stats-IsSound id u = record { at = λ w h. ground (arith, h) }
