-- ===== src/World/Tables.antt =====
-- The rows of the tables (db/repositories, db/telegram.sql, schema.sql) and the world that holds them.
use deping_client_service.Base.{Bool, List, Option, String, ℕ, ℤ, ◌/◌}

-- db/repositories/user.go, User, with the columns of `users` that the queries read.
pub record User : Type 0 where
  pub id : ℕ
  pub email : String
  pub password_hash : String
  pub wallet_pubkey : String
  pub credit_balance : ℤ
  pub deleted : Bool

-- db/repositories/telegram_repo.go, TelegramUser.
pub record TelegramUser : Type 0 where
  pub id : ℕ
  pub user_id : ℕ
  pub telegram_chat_id : Option ℕ
  pub telegram_username : Option String
  pub verification_code : Option String
  pub is_verified : Bool
  pub last_reminded_at : Option ℕ
  pub created_at : ℕ
  pub deleted : Bool

-- db/telegram.sql, telegram_credits; the reset date is a day number.
pub record TelegramCredit : Type 0 where
  pub user_id : ℕ
  pub free_credits_used : ℕ
  pub free_reset_date : ℕ
  pub purchased_credits : ℤ
  pub total_purchased_ever : ℤ

-- db/repositories/telegram_repo.go, MonitorHealthState.
pub record MonitorHealthState : Type 0 where
  pub monitor_id : String
  pub is_down : Bool
  pub consecutive_failures : ℕ
  pub alert_sent : Bool
  pub last_alerted_at : Option ℕ

-- db/repositories/telegram_repo.go, TelegramSubscription.
pub record TelegramSubscription : Type 0 where
  pub user_id : ℕ
  pub monitor_id : String
  pub is_notifications_enabled : Bool

-- db/repositories/monitor_repo.go, Monitor. A float64 is its bit pattern: the code only copies it.
pub record Monitor : Type 0 where
  pub id : String
  pub owner_id : ℕ
  pub target_url : String
  pub check_interval_seconds : ℤ
  pub credit_balance_checks : ℤ
  pub total_spent_tokens : ℕ
  pub is_active : Bool
  pub created_at : ℕ
  pub deleted : Bool

-- db/repositories/noderunner_repo.go, RunnerNode.
pub record RunnerNode : Type 0 where
  pub id : ℕ
  pub owner_email : String
  pub owner_pubkey : String
  pub node_pubkey : String
  pub region : String
  pub latitude : ℕ
  pub longitude : ℕ
  pub offchain_accumulated_tokens : ℕ
  pub total_earned_tokens_all_time : ℕ
  pub pending_solana_sync : Bool
  pub last_seen_timestamp : ℕ
  pub is_validator : Bool
  pub staked_amount : ℤ
  pub node_pda : Option String
  pub created_at : ℕ
  pub deleted : Bool

-- schema.sql, processed_transactions.
pub record ProcessedTransaction : Type 0 where
  pub signature : String
  pub user_id : ℕ
  pub amount : ℕ

-- db/repositories/pingLogs.go, PingLog, with the columns that the queries read; the time is in
-- seconds, as everywhere in the tables.
pub record PingLog : Type 0 where
  pub id : ℕ
  pub monitor_id : String
  pub runner_pubkey : String
  pub dns_us : ℕ
  pub tcp_us : ℕ
  pub tls_us : ℕ
  pub ttfb_us : ℕ
  pub total_us : ℕ
  pub latency_ms : ℤ
  pub status_code : ℤ
  pub success : Bool
  pub error_kind : String
  pub geo_region : String
  pub latitude : ℕ
  pub longitude : ℕ
  pub timestamp : ℕ
  pub timestamp_ms : ℤ

-- A text that the program formats: its literal parts and the values that `fmt` renders, and the
-- buttons below it.
pub data Part : Type 0 where
  text : String → Part
  num : ℤ → Part
  time : ℤ → Part
  -- A date by its day number, and a time as Format("15:04").
  day hour_minute : ℕ → Part
  -- A number between two texts, filled up with blanks to a width.
  padded : ℕ → String → ℤ → String → Part
  -- The first bytes of a text, filled up to a width: the width, then the number of bytes.
  first_bytes : ℕ → ℕ → String → Part
  -- The label, the unique name of the handler, and the data of the callback.
  button : String → String → String → Part

pub record Message : Type 0 where
  pub chat_id : ℕ
  pub body : List Part

-- What the bot does to a callback other than sending a message: it edits the message of the chat, or
-- shows a notice to the sender.
pub data Answer : Type 0 where
  edited : ℕ → List Part → Answer
  responded : ℕ → String → Answer

pub record World : Type 0 where
  pub users : List User
  pub telegram_users : List TelegramUser
  pub telegram_credits : List TelegramCredit
  pub health : List MonitorHealthState
  pub subscriptions : List TelegramSubscription
  pub monitors : List Monitor
  pub nodes : List RunnerNode
  pub processed : List ProcessedTransaction
  pub ping_logs : List PingLog
  pub active_monitors_cached : Bool
  pub scheduler_due : List String
  pub sent : List Message
  pub answers : List Answer
  pub serial : ℕ
  pub faults : List Bool
  pub now : ℕ

-- CURRENT_DATE
abbrev pub today : World → ℕ
today w = w.now / 86400
