-- ===== src/Solana/Transfer.antt =====
-- What GetTransferInfo (solana/solana_client.go) reports of a transaction.
use deping_client_service.Base.{
  List, String, [], ap, arith, eq_iff, if◌then◌else◌, inl, inr, negsuc, pos, refl, some, str_eq,
  suc, sym, to_i64, to_u64, true, zero, ℕ, ℤ, ◌+◌, ◌-◌, ◌<◌, ◌^◌, ◌∷◌, ◌≡◌, ◌≤ℤ◌, ◌⊎◌,
}
use deping_client_service.World.{ok}
use deping_client_service.Solana.{
  Chain, Found, RpcTransaction, TokenBalance, TxInfo, balance_diff, get_transfer_info, note_balance,
  nothing_found, scan_balances,
}

-- Some entry of the list has the property.
abbrev pub Any {ℓ} : {A : Type ℓ} → (A → Type 0) → List A → Type 0
Any P [] = ⊥
Any P (x ∷ xs) = P x ⊎ Any P xs

-- A balance of the mint, under the owner, that fell by `amount`.
abbrev pub FellBy : String → List TokenBalance → String → ℕ → TokenBalance → Type 0
FellBy mint post owner amount pre =
    (pre.mint ≡ mint) × (pre.owner ≡ owner) × (balance_diff post pre ≡ negsuc (amount - 1))

-- A balance of the mint, under the owner, that rose.
abbrev pub Rose : String → List TokenBalance → String → TokenBalance → Type 0
Rose mint post owner pre =
    (pre.mint ≡ mint) × (pre.owner ≡ owner) × (pos 1 ≤ℤ balance_diff post pre)

-- What one round of the loop does to the sender and the receiver.
abbrev round : String → List TokenBalance → TokenBalance → Found → Found
round mint post pre f =
    if str_eq pre.mint mint then note_balance pre.owner (balance_diff post pre) f else f

to_u64_range : (n : ℕ) → n < 2 ^ 63 → to_u64 (pos (n + 1)) - 1 ≡ n
unfolding to_u64
to_u64_range n h = ground arith

diff_range :
    (post : List TokenBalance) (pre : TokenBalance) (n : ℕ)
    → balance_diff post pre ≡ negsuc n
    → n < 2 ^ 63
unfolding balance_diff to_i64
diff_range post pre n h = ground arith

note_sender :
    (owner : String) (z : ℤ) (f : Found)
    → ((n : ℕ) → z ≡ negsuc n → n < 2 ^ 63)
    → let g = note_balance owner z f in
      ((owner ≡ g.sender) × (z ≡ negsuc (g.amount - 1)))
      ⊎ ((f.found_sender ≡ g.found_sender) × (g.sender ≡ f.sender) × (g.amount ≡ f.amount))
note_sender owner (pos zero) f h = inr (refl, refl, refl)
note_sender owner (pos (suc n)) f h = inr (refl, refl, refl)
note_sender owner (negsuc n) f h = inl (refl, ap negsuc (sym (to_u64_range n (h n refl))))

note_receiver :
    (owner : String) (z : ℤ) (f : Found)
    → let g = note_balance owner z f in
      ((owner ≡ g.receiver) × (pos 1 ≤ℤ z))
      ⊎ ((f.found_receiver ≡ g.found_receiver) × (g.receiver ≡ f.receiver))
note_receiver owner (pos zero) f = inr (refl, refl)
note_receiver owner (pos (suc n)) f = inl (refl, omega arith)
note_receiver owner (negsuc n) f = inr (refl, refl)

module _ (mint : String) (post : List TokenBalance) where
  scan_sender :
      (pres : List TokenBalance) (f : Found)
      → let g = scan_balances mint post pres f in
        g.found_sender ≡ true
        → Any (FellBy mint post g.sender g.amount) pres
          ⊎ ((f.found_sender ≡ true) × (g.sender ≡ f.sender) × (g.amount ≡ f.amount))
  unfolding scan_balances
  scan_sender [] f h = inr (h, refl, refl)
  scan_sender (pre ∷ rest) f h = ground (
    arith,
    eq_iff pre.mint mint,
    note_sender pre.owner (balance_diff post pre) f (diff_range post pre),
    scan_sender rest (round mint post pre f) h,
  )

  scan_receiver :
      (pres : List TokenBalance) (f : Found)
      → let g = scan_balances mint post pres f in
        g.found_receiver ≡ true
        → Any (Rose mint post g.receiver) pres
          ⊎ ((f.found_receiver ≡ true) × (g.receiver ≡ f.receiver))
  unfolding scan_balances
  scan_receiver [] f h = inr (h, refl)
  scan_receiver (pre ∷ rest) f h = ground (
    arith,
    eq_iff pre.mint mint,
    note_receiver pre.owner (balance_diff post pre) f,
    scan_receiver rest (round mint post pre f) h,
  )

-- A transfer that is reported is a positive amount of the configured mint: among the balances before
-- the transaction one of the reported sender fell by that amount, and one of the reported receiver
-- rose.
pub get_transfer_info_sound :
    (chain : Chain) (sig : String) {tx : RpcTransaction} {info : TxInfo}
    → chain.get_transaction sig ≡ some tx
    → get_transfer_info chain sig ≡ ok info
    → (info.mint ≡ chain.mint)
      × (0 < info.amount)
      × Any (FellBy chain.mint tx.post_token_balances info.sender info.amount) tx.pre_token_balances
      × Any (Rose chain.mint tx.post_token_balances info.receiver) tx.pre_token_balances
unfolding get_transfer_info
get_transfer_info_sound chain sig {tx} got reported = ground (
  arith,
  scan_sender chain.mint tx.post_token_balances tx.pre_token_balances nothing_found,
  scan_receiver chain.mint tx.post_token_balances tx.pre_token_balances nothing_found,
)
