-- ===== src/Invariant/Owners.antt =====
-- The rows of the linked accounts: one for each user and for each chat (db/telegram.sql).
use deping_client_service.Base.{
  All, All-append, All-update_where, Bool, Bool-cases, IsUnique, IsUnique-append,
  IsUnique-update_where, List, Option-cases, String, [], arith, exists_where, exists_where_neither,
  exists_where_apart, false, inl, inr, none, refl, some, true, update_where, update_where-missing,
  upsert, ℕ, ◌∷◌, ◌≡◌,
}
use deping_client_service.World.{TelegramUser}
use deping_client_service.Invariant.{IsLinkRow, has_number, same_chat, same_owner}
use deping_client_service.Telegram.{has_chat, new_link, owns_row, relink}

abbrev pub AreLinkRows : List TelegramUser → Type 0
AreLinkRows rows = All IsLinkRow rows × IsUnique same_owner rows × IsUnique same_chat rows

-- A change that leaves the owners and the chats.
pub update_where-AreLinkRows :
    (p : TelegramUser → Bool) (f : TelegramUser → TelegramUser) (rows : List TelegramUser)
    → ((t : TelegramUser) → (f t).user_id ≡ t.user_id)
    → ((t : TelegramUser) → (f t).telegram_chat_id ≡ t.telegram_chat_id)
    → ((t : TelegramUser) → p t ≡ true → IsLinkRow t → IsLinkRow (f t))
    → AreLinkRows rows
    → AreLinkRows (update_where p f rows)
update_where-AreLinkRows p f rows owner chat h (all, owners, chats) = (
  All-update_where IsLinkRow p f rows h all,
  IsUnique-update_where same_owner p f rows (λ s t. (rw (owner s) refl, rw (owner s) refl)) owners,
  IsUnique-update_where same_chat p f rows (λ s t. (rw (chat s) refl, rw (chat s) refl)) chats,
)

no_chat :
    (rows : List TelegramUser) (t : TelegramUser)
    → t.telegram_chat_id ≡ none
    → exists_where (λ s. same_chat s t) rows ≡ false
unfolding exists_where
no_chat [] t unknown = refl
no_chat (s ∷ rows) t unknown = ground (arith, no_chat rows t unknown, unknown)

pub upsert-AreLinkRows :
    (u id now : ℕ) (name code : String) (rows : List TelegramUser)
    → AreLinkRows rows
    → AreLinkRows (upsert (owns_row u) (relink name code) (new_link id now u name code) rows)
unfolding upsert
upsert-AreLinkRows u id now name code rows h =
    let new = new_link id now u name code in
    elim (Bool-cases (exists_where (owns_row u) rows)) [
      | inl known ↦ rw known (
          update_where-AreLinkRows (owns_row u) (relink name code) rows (λ t. refl) (λ t. refl)
            (λ t _ row. (refl, refl)) h)
      | inr missing ↦ rw missing (
        All-append IsLinkRow rows (new ∷ []) h.0 ((refl, refl), tt),
        IsUnique-append same_owner rows new (λ t. ground arith) missing h.1,
        IsUnique-append same_chat rows new
            (λ t. elim (Option-cases t.telegram_chat_id) [
              | inl unknown ↦ rw unknown refl
              | inr (c, known) ↦ rw known refl
            ])
            (no_chat rows new refl) h.2,
      )
    ]

-- A row of the user gets a chat that no other user has.
module _ (u chat : ℕ) (p : TelegramUser → Bool) (f : TelegramUser → TelegramUser)
    (own : (t : TelegramUser) → p t ≡ true → owns_row u t ≡ true)
    (owner : (t : TelegramUser) → (f t).user_id ≡ t.user_id)
    (given : (t : TelegramUser) → (f t).telegram_chat_id ≡ some chat) where
  others :
      (t : TelegramUser) (rows : List TelegramUser)
      → owns_row u t ≡ true
      → exists_where (λ s. same_owner s t) rows ≡ false
      → exists_where p rows ≡ false
  others t rows mine alone_there =
      exists_where_neither (λ s. same_owner s t) (λ s. same_owner s t) p rows
        (λ s h. ground (arith, own s h, mine)) alone_there alone_there

  given-same_chat :
      (rows : List TelegramUser)
      → IsUnique same_owner rows
      → IsUnique same_chat rows
      → exists_where (has_chat u chat) rows ≡ false
      → IsUnique same_chat (update_where p f rows)
  unfolding exists_where update_where
  given-same_chat [] owners chats free = tt
  given-same_chat (t ∷ rows) owners chats free =
      let rest : exists_where (has_chat u chat) rows ≡ false = ground (arith, free) in
      let later = given-same_chat rows owners.1 chats.1 rest in
      elim (Bool-cases (owns_row u t)) [
        | inl mine ↦
            let alone = update_where-missing p f rows (others t rows mine owners.0) in
            let apart : exists_where (has_number chat) rows ≡ false =
              exists_where_neither (has_chat u chat) (λ s. same_owner s t) (has_number chat) rows
                (λ s h. ground (arith, h, mine)) rest owners.0 in
            elim (Bool-cases (p t)) [
              | inl hit ↦ rw (hit, alone, given t) (apart, chats.1)
              | inr miss ↦ rw (miss, alone) chats
            ]
        | inr other ↦
            let miss : p t ≡ false = ground (arith, own t, other) in
            let elsewhere : has_number chat t ≡ false = ground (arith, free, other) in
            let apart =
              exists_where_apart (λ s. same_chat s t) p f rows
                (λ s. elim (Option-cases t.telegram_chat_id) [
                  | inl unknown ↦ rw unknown refl
                  | inr (d, known) ↦ rw (known, given s) (ground (arith, elsewhere, known))
                ])
                chats.0 in
            rw miss (apart, later)
      ]

  pub given-AreLinkRows :
      (rows : List TelegramUser)
      → ((t : TelegramUser) → p t ≡ true → IsLinkRow t → IsLinkRow (f t))
      → exists_where (has_chat u chat) rows ≡ false
      → AreLinkRows rows
      → AreLinkRows (update_where p f rows)
  given-AreLinkRows rows h free (all, owners, chats) = (
    All-update_where IsLinkRow p f rows h all,
    IsUnique-update_where same_owner p f rows (λ s t. (rw (owner s) refl, rw (owner s) refl))
        owners,
    given-same_chat rows owners chats free,
  )
