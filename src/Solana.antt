-- ===== src/Solana.antt =====
-- solana/solana_client.go: what a transfer moved, from the token balances that the RPC node reports.
-- The RPC node and the base58 decoding are the parameters of `Chain`.
pub mod Transfer
use Prim.Native.Char.{code}
use deping_client_service.Base.{
  Bool, List, Option, String, [], false, if◌then◌else◌, leb, ltb, negsuc, none, not, pos, some,
  str_eq, suc, to_i64, to_u64, true, zero, ℕ, ℤ, ◌&&◌, ◌*◌, ◌+◌, ◌-ℤ◌, ◌-◌, ◌==◌, ◌^◌, ◌||◌, ◌∷◌,
}
use deping_client_service.World.{Outcome, err, message, ok, panic, unavailable, wrap}

-- rpc.TokenBalance: the fields that the client reads. Public keys are their base58 texts; the pointers
-- Owner and UiTokenAmount are taken as set.
pub record TokenBalance : Type 0 where
  pub account_index : ℕ
  pub mint : String
  pub owner : String
  pub amount : String

-- The reply of GetTransaction. `parses` says whether the transaction's layout can be decoded.
pub record RpcTransaction : Type 0 where
  pub pre_token_balances : List TokenBalance
  pub post_token_balances : List TokenBalance
  pub has_meta : Bool
  pub has_transaction : Bool
  pub parses : Bool
  pub block_time : Option ℤ

pub record Chain : Type 0 where
  pub valid_signature : String → Bool
  pub get_transaction : String → Option RpcTransaction
  pub valid_mint : Bool
  pub mint : String

pub record TxInfo : Type 0 where
  pub mint : String
  pub amount : ℕ
  pub timestamp : ℤ
  pub sender : String
  pub receiver : String

-- The decimal digits of a text, with the value before them; they are read up to the one at which the
-- value leaves uint64.
unfoldable pub digits_value : ℕ → String → Option ℕ
digits_value acc String.[] = some acc
digits_value acc (String.◌∷◌ c s) =
    let value = acc * 10 + (code c - b'0') in
    let rest = digits_value value s in
    if leb b'0' (code c) && leb (code c) b'9'
    then (if ltb value (2 ^ 64) then rest else some value)
    else none

abbrev pub nonempty_digits : String → Option ℕ
nonempty_digits String.[] = none
nonempty_digits (String.◌∷◌ c s) = digits_value 0 (String.◌∷◌ c s)

-- ParseInt gives 0 where the text is no number, and the nearest int64 where it is out of range.
abbrev pub clamp_pos : Option ℕ → ℤ
clamp_pos none = pos 0
clamp_pos (some n) = if ltb n (2 ^ 63) then pos n else pos (2 ^ 63 - 1)

abbrev pub clamp_neg : Option ℕ → ℤ
clamp_neg none = pos 0
clamp_neg (some n) =
    if n == 0 then pos 0 else if leb n (2 ^ 63) then negsuc (n - 1) else negsuc (2 ^ 63 - 1)

unfoldable pub parse : String → ℤ
unfolding digits_value
parse String.[] = pos 0
parse (String.◌∷◌ c s) =
    if code c == b'-'
    then clamp_neg (nonempty_digits s)
    else if code c == b'+'
    then clamp_pos (nonempty_digits s)
    else clamp_pos (nonempty_digits (String.◌∷◌ c s))

unfoldable pub find_post : List TokenBalance → ℕ → Option TokenBalance
find_post [] index = none
find_post (p ∷ ps) index = if p.account_index == index then some p else find_post ps index

abbrev pub post_amount : Option TokenBalance → ℤ
post_amount none = pos 0
post_amount (some p) = parse p.amount

-- postAmt - preAmt, in int64.
unfoldable pub balance_diff : List TokenBalance → TokenBalance → ℤ
balance_diff post pre =
    to_i64 (to_u64 (post_amount (find_post post pre.account_index) -ℤ parse pre.amount))

-- The variables of the loop.
pub record Found : Type 0 where
  pub sender : String
  pub receiver : String
  pub amount : ℕ
  pub found_sender : Bool
  pub found_receiver : Bool

abbrev pub nothing_found : Found
nothing_found = record {
  sender = "";
  receiver = "";
  amount = 0;
  found_sender = false;
  found_receiver = false;
}

-- One round of the loop, by the sign of the difference.
abbrev pub note_balance : String → ℤ → Found → Found
note_balance owner (pos zero) f = f
note_balance owner (pos (suc n)) f = record f { receiver = owner; found_receiver = true }
note_balance owner (negsuc n) f = record f {
  sender = owner;
  amount = to_u64 (pos (n + 1));
  found_sender = true;
}

unfoldable pub scan_balances : String → List TokenBalance → List TokenBalance → Found → Found
scan_balances mint post [] f = f
scan_balances mint post (pre ∷ rest) f =
    scan_balances mint post rest
      (if str_eq pre.mint mint then note_balance pre.owner (balance_diff post pre) f else f)

abbrev pub block_seconds : Option ℤ → ℤ
block_seconds none = pos 0
block_seconds (some t) = t

abbrev pub transfer_found : Chain → RpcTransaction → Found → Outcome TxInfo
transfer_found chain tx f =
    if not f.found_sender || not f.found_receiver
    then err (message "on-chain validation mismatch")
    else if f.amount == 0
    then err
        (message "transaction parsing finalized with an invalid payload transfer value of 0 tokens")
    else ok (record {
      mint = chain.mint;
      amount = f.amount;
      timestamp = block_seconds tx.block_time;
      sender = f.sender;
      receiver = f.receiver;
    })

-- The Must… functions panic on a text that is no base58 key.
unfoldable pub get_transfer_info : Chain → String → Outcome TxInfo
get_transfer_info chain sig =
    if not (chain.valid_signature sig) then panic else elim (chain.get_transaction sig) [
      | none ↦ err (wrap "rpc GetTransaction call failed" unavailable)
      | some tx ↦
          if not tx.has_meta || not tx.has_transaction
          then err (message "transaction or meta field missing from RPC details")
          else if not tx.parses
          then err (wrap "failed parsing layout transaction structure" unavailable)
          else if not chain.valid_mint
          then panic
          else transfer_found chain tx
              (scan_balances chain.mint tx.post_token_balances tx.pre_token_balances nothing_found)
    ]

-- crypto/sha256, the bytes of a public key, and FindProgramAddress of the SDK: an address with its bump
-- seed, or an error.
pub record Addresses : Type 0 where
  pub key_bytes : String → List ℕ
  pub sha256 : String → List ℕ
  pub find_program_address : List (List ℕ) → String → Option (String × ℕ)

unfoldable pub derive_node_pda : Addresses → String → String → String → Option (String × ℕ)
derive_node_pda addresses program_id owner_pubkey email =
    addresses.find_program_address
      ((b'n' ∷ b'o' ∷ b'd' ∷ b'e' ∷ [])
        ∷ addresses.key_bytes owner_pubkey
        ∷ addresses.sha256 email
        ∷ [])
      program_id

-- The confirmation status of GetSignatureStatuses.
pub data ConfirmationStatus : Type 0 where
  finalized confirmed processed_status other_status : ConfirmationStatus

-- GetTransactionStatus, from the RPC node's answer: an error, no entry, or a status.
unfoldable pub get_transaction_status : Outcome (Option ConfirmationStatus) → Outcome String
get_transaction_status (err e) = err e
get_transaction_status panic = panic
get_transaction_status (ok none) = ok "not_found"
get_transaction_status (ok (some finalized)) = ok "finalized"
get_transaction_status (ok (some confirmed)) = ok "confirmed"
get_transaction_status (ok (some processed_status)) = ok "processed"
get_transaction_status (ok (some other_status)) = ok "pending"
