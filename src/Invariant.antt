-- ===== src/Invariant.antt =====
-- The invariant of the tables (db/repositories, db/telegram.sql), which the children prove of every entry
-- point of the service.
pub mod Balances
pub mod Ledger
pub mod Owners
pub mod Links
pub mod Monitoring
pub mod Services
pub mod Nodes
pub mod Alerting
pub mod Handlers
pub mod Requests
pub mod Chats
use deping_client_service.Base.{
  All, Bool, IsUnique, List, String, [], exists_where, false, in_int4, is_some, leb, leb_ℤ, ltb,
  ltb_ℤ, none, not, pos, some, true, ℕ, ◌&&◌, ◌==◌, ◌^◌, ◌≡◌,
}
use deping_client_service.World.{
  Monitor, MonitorHealthState, ProcessedTransaction, TelegramCredit, TelegramUser, World,
  is_monitor,
}
use deping_client_service.Credits.{has_user}
use deping_client_service.Keeping.{IsStable}
use deping_client_service.Payments.{has_signature}
use deping_client_service.Telegram.{owns_row}

-- telegram_credits: no more than the free messages of a day are used, the purchased credits are an INT of
-- Postgres, and no more are left than were ever purchased.
abbrev pub IsCreditRow : TelegramCredit → Type 0
IsCreditRow c =
    (leb c.free_credits_used 3 ≡ true)
    × (in_int4 c.purchased_credits ≡ true)
    × (leb_ℤ c.purchased_credits c.total_purchased_ever ≡ true)

abbrev pub same_user : TelegramCredit → TelegramCredit → Bool
same_user d c = has_user c.user_id d

-- telegram_users: a row has a code exactly as long as it is not verified, and a verified one a chat.
abbrev pub IsLinkRow : TelegramUser → Type 0
IsLinkRow t =
    (is_some t.verification_code ≡ not t.is_verified)
    × ((t.is_verified && not (is_some t.telegram_chat_id)) ≡ false)

abbrev pub same_owner : TelegramUser → TelegramUser → Bool
same_owner s t = owns_row t.user_id s

-- The row has the chat.
abbrev pub has_number : ℕ → TelegramUser → Bool
has_number chat t = elim t.telegram_chat_id [ none ↦ false | some c ↦ c == chat ]

abbrev pub same_chat : TelegramUser → TelegramUser → Bool
same_chat s t = elim t.telegram_chat_id [ none ↦ false | some c ↦ has_number c s ]

-- monitor_health_state: a monitor is down from the second failure in a row on, its alert is then marked as
-- sent, and the time of that is known.
abbrev pub IsHealthRow : MonitorHealthState → Type 0
IsHealthRow s =
    (s.is_down ≡ leb 2 s.consecutive_failures)
    × (s.alert_sent ≡ s.is_down)
    × ((s.is_down && not (is_some s.last_alerted_at)) ≡ false)

-- monitors: no check is repeated within less than 30 seconds.
abbrev pub IsMonitorRow : Monitor → Type 0
IsMonitorRow m = ltb_ℤ m.check_interval_seconds (pos 30) ≡ false

-- processed_transactions: the amount is an int64.
abbrev pub IsPaymentRow : ProcessedTransaction → Type 0
IsPaymentRow t = ltb t.amount (2 ^ 63) ≡ true

abbrev pub same_signature : ProcessedTransaction → ProcessedTransaction → Bool
same_signature s t = has_signature t.signature s

-- What is followed besides: payments that are recorded, monitors that have a row, and what the health
-- states are.
pub record Marks : Type 1 where
  pub paid : List String
  pub known : List String
  pub about_health : List MonitorHealthState → Type 0

-- Payments alone.
abbrev pub paying : List String → Marks
paying sigs = record { paid = sigs; known = []; about_health = λ rows. Unit {0} }

-- Nothing is asked of the health states.
abbrev pub IsFree : Marks → Type 0
IsFree marks = (rows : List MonitorHealthState) → marks.about_health rows

-- The tables, with what is followed.
pub record AreSound (marks : Marks) (credits : List TelegramCredit) (links : List TelegramUser)
    (health : List MonitorHealthState) (monitors : List Monitor)
    (processed : List ProcessedTransaction) : Type 0 where
  pub credit_rows : All IsCreditRow credits
  pub credit_keys : IsUnique same_user credits
  pub link_rows : All IsLinkRow links
  pub link_owners : IsUnique same_owner links
  pub link_chats : IsUnique same_chat links
  pub health_rows : All IsHealthRow health
  pub monitor_rows : All IsMonitorRow monitors
  pub payment_rows : All IsPaymentRow processed
  pub payment_keys : IsUnique same_signature processed
  pub paid_rows : All (λ sig. exists_where (has_signature sig) processed ≡ true) marks.paid
  pub known_rows : All (λ id. exists_where (is_monitor id) monitors ≡ true) marks.known
  pub health_as : marks.about_health health

abbrev pub IsSound : Marks → World → Type 0
IsSound marks w = AreSound marks w.telegram_credits w.telegram_users w.health w.monitors w.processed

pub IsSound-IsStable : {marks : Marks} → IsStable (IsSound marks)
IsSound-IsStable = record { at = λ w faults h. h }

-- The invariant does not depend on what is followed.
pub with_marks :
    {marks : Marks} (w : World) (marks' : Marks)
    → IsSound marks w
    → All (λ sig. exists_where (has_signature sig) w.processed ≡ true) marks'.paid
    → All (λ id. exists_where (is_monitor id) w.monitors ≡ true) marks'.known
    → marks'.about_health w.health
    → IsSound marks' w
with_marks w marks' h paid known health = record {
  credit_rows = h.credit_rows;
  credit_keys = h.credit_keys;
  link_rows = h.link_rows;
  link_owners = h.link_owners;
  link_chats = h.link_chats;
  health_rows = h.health_rows;
  monitor_rows = h.monitor_rows;
  payment_rows = h.payment_rows;
  payment_keys = h.payment_keys;
  paid_rows = paid;
  known_rows = known;
  health_as = health;
}
