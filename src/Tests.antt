-- ===== src/Tests.antt =====
-- Sample rows for the examples of the theorems: two users, of which the first has two monitors and a
-- verified chat and the second a pending code, and a transfer of 100 units to the treasury.
mod Credits
mod Alerts
mod Purchases
mod Linking
mod Accounts
mod Nodes
mod Scheduling
mod Serving
mod Routes
mod Bot
mod Stats
mod Starting
mod System
use deping_client_service.Base.{
  Bool, String, [], false, if◌then◌else◌, none, pos, some, str_eq, true, ℕ, ◌*◌, ◌∷◌,
}
use deping_client_service.World.{Monitor, PingLog, TelegramCredit, TelegramUser, World}
use deping_client_service.Alert.{PingResultItem}
use deping_client_service.Solana.{Addresses, Chain, RpcTransaction, TokenBalance}

-- One free message left on day 1, and two purchased ones.
abbrev pub credits_of_ann : TelegramCredit
credits_of_ann = record {
  user_id = 1;
  free_credits_used = 2;
  free_reset_date = 1;
  purchased_credits = pos 2;
  total_purchased_ever = pos 5;
}

abbrev pub ann : TelegramUser
ann = record {
  id = 1;
  user_id = 1;
  telegram_chat_id = some 77;
  telegram_username = some "ann";
  verification_code = none;
  is_verified = true;
  last_reminded_at = none;
  created_at = 500;
  deleted = false;
}

abbrev pub bob : TelegramUser
bob = record {
  id = 2;
  user_id = 2;
  telegram_chat_id = none;
  telegram_username = some "bob";
  verification_code = some "00ff10a0";
  is_verified = false;
  last_reminded_at = none;
  created_at = 600;
  deleted = false;
}

abbrev pub sample_monitor : String → Monitor
sample_monitor id = record {
  id = id;
  owner_id = 1;
  target_url = "https://example.org";
  check_interval_seconds = pos 60;
  credit_balance_checks = pos 0;
  total_spent_tokens = 0;
  is_active = true;
  created_at = 700;
  deleted = false;
}

-- A failed check of a monitor.
abbrev pub sample_result : String → PingResultItem
sample_result id = record {
  job_id = "job";
  target_url = "https://example.org";
  success = false;
  status_code = pos 503;
  latency_ms = pos 12;
  error_kind = "http";
  monitor_id = id;
  geo_region = "eu";
  timestamp_ms = pos 1000;
}

abbrev pub sample_balance : ℕ → String → String → TokenBalance
sample_balance index owner amount = record {
  account_index = index;
  mint = "MINT";
  owner = owner;
  amount = amount;
}

abbrev pub sample_transfer : RpcTransaction
sample_transfer = record {
  pre_token_balances = sample_balance 1 "ann" "500" ∷ sample_balance 2 "TREASURY" "7" ∷ [];
  post_token_balances = sample_balance 1 "ann" "400" ∷ sample_balance 2 "TREASURY" "107" ∷ [];
  has_meta = true;
  has_transaction = true;
  parses = true;
  block_time = some (pos 900);
}

abbrev pub sample_chain : Chain
sample_chain = record {
  valid_signature = λ s. true;
  get_transaction = λ s. if str_eq s "sig" then some sample_transfer else none;
  valid_mint = true;
  mint = "MINT";
}

-- One address for all.
abbrev pub sample_addresses : Addresses
sample_addresses = record {
  key_bytes = λ k. [];
  sha256 = λ e. [];
  find_program_address = λ seeds program. some ("PDA", 255);
}

abbrev pub sample_world : World
sample_world = record {
  users =
      record {
        id = 1;
        email = "ann@example.org";
        password_hash = "h1";
        wallet_pubkey = "W1";
        credit_balance = pos 10;
        deleted = false;
      }
      ∷ record {
        id = 2;
        email = "bob@example.org";
        password_hash = "h2";
        wallet_pubkey = "W2";
        credit_balance = pos 0;
        deleted = false;
      }
      ∷ [];
  telegram_users = ann ∷ bob ∷ [];
  telegram_credits = credits_of_ann ∷ [];
  health = [];
  subscriptions = [];
  monitors = sample_monitor "m1" ∷ sample_monitor "m2" ∷ [];
  nodes = [];
  processed = [];
  ping_logs = [];
  active_monitors_cached = true;
  scheduler_due = [];
  sent = [];
  answers = [];
  serial = 3;
  faults = [];
  now = 100000;
}

-- A log of a check of the monitor m1.
abbrev pub sample_log : Bool → ℕ → ℕ → String → PingLog
sample_log success total_us timestamp region = record {
  id = 1;
  monitor_id = "m1";
  runner_pubkey = "K1";
  dns_us = 1;
  tcp_us = 2;
  tls_us = 3;
  ttfb_us = 4;
  total_us = total_us;
  latency_ms = pos 12;
  status_code = pos 200;
  success = success;
  error_kind = "";
  geo_region = region;
  latitude = 5;
  longitude = 6;
  timestamp = timestamp;
  timestamp_ms = pos (1000 * timestamp);
}

-- Three checks on the last day, of which one failed, and an older one.
abbrev pub logged_world : World
logged_world = record sample_world {
  ping_logs =
      sample_log true 300 20000 "eu-west"
      ∷ sample_log true 101 90000 "eu-west"
      ∷ sample_log false 900 50000 "us"
      ∷ sample_log true 200 5000 "eu-west"
      ∷ [];
}
