-- ===== src/Payments/Effect.antt =====
-- What a purchase changes (services/user_service.go, services/telegram_service.go).
use deping_client_service.Base.{
  Bool, List, String, [], arith, eq_refl, exists_where, false, in_int4, none, refl, select_one,
  select_one-update_where_self, select_one-upsert, some, str_eq, to_u64, true, ℕ, ℤ, ◌+ℤ◌, ◌<◌, ◌^◌,
  ◌∷◌, ◌≡◌,
}
use deping_client_service.World.{User, World, calm, ok, today}
use deping_client_service.Credits.{has_user, may_insert, purchase, repo_add_purchased_credits}
use deping_client_service.Credits.Ledger.{FitsInt4}
use deping_client_service.Payments.{
  add_monitor_purchased_credits, add_purchased_credits, is_account, is_processed,
}
use deping_client_service.Payments.Replay.{IsErr, SameTables, purchases_replayed}
use deping_client_service.Solana.{Chain, TxInfo, get_transfer_info}

module _ (chain : Chain) (treasury : String) (u : ℕ) (amount : ℤ) (sig : String) (credits : ℤ)
    (w : World) {info : TxInfo} (verified : get_transfer_info chain sig ≡ ok info)
    (to_treasury : str_eq info.receiver treasury ≡ true) (exact : info.amount ≡ to_u64 amount)
    (new : is_processed sig w ≡ false) (fits : to_u64 amount < 2 ^ 63) where
  abbrev pub recorded : World → World
  recorded v = record v {
    processed = record { signature = sig; user_id = u; amount = to_u64 amount } ∷ v.processed;
  }

  -- Where no call fails, a verified new payment of a known user is recorded under its signature and
  -- adds the requested credits to the user's balance; no other row or table changes. The credits are
  -- those of the request: nothing relates them to the amount paid.
  pub add_monitor_purchased_credits_effect :
      {r : User}
      → select_one (is_account u) w.users ≡ some r
      → let (o, w') = add_monitor_purchased_credits chain treasury u amount sig credits (calm w) in
        (o ≡ ok (r.credit_balance +ℤ credits))
        × (select_one (is_account u) w'.users
            ≡ some (record r { credit_balance = r.credit_balance +ℤ credits }))
        × (record w' { users = w.users } ≡ recorded (calm w))
  unfolding add_monitor_purchased_credits
  add_monitor_purchased_credits_effect {r} row = ground (
    arith,
    select_one-update_where_self (is_account u)
        (λ r. record r { credit_balance = r.credit_balance +ℤ credits }) w.users (λ r k. refl),
  )

  -- If the database fails at the last step of a verified payment, the payment is recorded and no
  -- credits are added; calling again, whichever calls fail then, returns an error and adds none.
  pub payment_lost :
      (faults : List Bool)
      → let attempt = add_monitor_purchased_credits chain treasury u amount sig credits in
        let w0 = record w { faults = false ∷ false ∷ true ∷ [] } in
        let w1 = (attempt w0).1 in
        let w2 = record w1 { faults = faults } in
        IsErr (attempt w0).0
        × (w1 ≡ recorded (calm w))
        × IsErr (attempt w2).0
        × SameTables w2 (attempt w2).1
  unfolding add_monitor_purchased_credits exists_where
  payment_lost faults =
      let w2 = record (recorded (calm w)) { faults = faults } in
      let (again, same, _, _) =
        purchases_replayed chain treasury u amount sig credits w2 (ground (arith, eq_refl sig)) in
      let lost : (add_monitor_purchased_credits chain treasury u amount sig credits
            (record w { faults = false ∷ false ∷ true ∷ [] })).1
          ≡ recorded (calm w) =
        ground arith in
      (ground arith, lost, rw lost again, rw lost same)

  -- The purchase of Telegram credits: recorded likewise, with the requested credits added to the
  -- purchased ones and to the lifetime total, as long as these fit an INT.
  pub add_purchased_credits_effect :
      may_insert u w ≡ true
      → in_int4 credits ≡ true
      → let row = purchase u (today w) credits (select_one (has_user u) w.telegram_credits) in
        FitsInt4 row
        → let (o, w') = add_purchased_credits chain treasury u amount sig credits (calm w) in
          (o ≡ ok row.purchased_credits)
          × (select_one (has_user u) w'.telegram_credits ≡ some row)
          × (record w' { telegram_credits = w.telegram_credits } ≡ recorded (calm w))
  unfolding add_purchased_credits repo_add_purchased_credits
  add_purchased_credits_effect known small room = ground (
    arith,
    select_one-upsert (has_user u)
        (λ c. record c {
          purchased_credits = c.purchased_credits +ℤ credits;
          total_purchased_ever = c.total_purchased_ever +ℤ credits;
        })
        (purchase u (today w) credits none) w.telegram_credits (λ r k. refl),
  )
