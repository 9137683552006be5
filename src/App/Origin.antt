-- ===== src/App/Origin.antt =====
-- The origins that may send requests with credentials (app/application.go, AllowOriginFunc).
use deping_client_service.Base.{
  Bool, Bool-cases, String, ap, arith, eq_iff, eq_refl, false, inl, inr, refl, str_eq, true, ◌||◌,
  ◌↔◌, ◌∙◌, ◌≡◌, ◌⊎◌,
}
use deping_client_service.Router.Sessions.{prefixed}

-- strings.HasSuffix
unfoldable pub has_suffix : String → String → Bool
has_suffix String.[] suffix = str_eq String.[] suffix
has_suffix (String.◌∷◌ c s) suffix =
    let rest = has_suffix s suffix in str_eq (String.◌∷◌ c s) suffix || rest

unfoldable pub allow_origin : String → Bool
unfolding has_suffix
allow_origin origin =
    str_eq origin "http://localhost:5173"
    || (has_suffix origin ".deping.xyz"
        || (str_eq origin "https://deping.xyz" || has_suffix origin ".vercel.app"))

-- The text ends with the suffix.
abbrev pub EndsWith : String → String → Type 0
EndsWith s suffix = (p : String) × (s ≡ prefixed p suffix)

has_suffix-EndsWith : (s suffix : String) → has_suffix s suffix ≡ true → EndsWith s suffix
unfolding has_suffix
has_suffix-EndsWith String.[] suffix h = (String.[], (eq_iff String.[] suffix).0 h)
has_suffix-EndsWith (String.◌∷◌ c s) suffix h = elim (Bool-cases (str_eq (String.◌∷◌ c s) suffix)) [
  | inl same ↦ (String.[], (eq_iff (String.◌∷◌ c s) suffix).0 same)
  | inr other ↦
      let (p, e) = has_suffix-EndsWith s suffix (ground (arith, h, other)) in
      (String.◌∷◌ c p, ap (String.◌∷◌ c) e)
]

has_suffix_self : (s : String) → has_suffix s s ≡ true
unfolding has_suffix
has_suffix_self String.[] = eq_refl String.[]
has_suffix_self (String.◌∷◌ c s) = rw (eq_refl (String.◌∷◌ c s)) refl

has_suffix-prefixed : (p suffix : String) → has_suffix (prefixed p suffix) suffix ≡ true
unfolding has_suffix
has_suffix-prefixed String.[] suffix = has_suffix_self suffix
has_suffix-prefixed (String.◌∷◌ c p) suffix = ground (arith, has_suffix-prefixed p suffix)

EndsWith-has_suffix : (s suffix : String) → EndsWith s suffix → has_suffix s suffix ≡ true
EndsWith-has_suffix s suffix (p, e) = ap (λ t. has_suffix t suffix) e ∙ has_suffix-prefixed p suffix

||-cases : (a b : Bool) → (a || b) ≡ true → (a ≡ true) ⊎ (b ≡ true)
||-cases true b h = inl refl
||-cases false b h = inr h

-- The four kinds of origins.
abbrev pub Allowed : String → Type 0
Allowed origin =
    (origin ≡ "http://localhost:5173")
    ⊎ ((origin ≡ "https://deping.xyz")
        ⊎ (EndsWith origin ".deping.xyz" ⊎ EndsWith origin ".vercel.app"))

-- An origin is let in exactly if it is the local development server, the site itself, or any text that
-- ends with .deping.xyz or .vercel.app.
pub allow_origin-Allowed : (origin : String) → (allow_origin origin ≡ true) ↔ Allowed origin
unfolding allow_origin
allow_origin-Allowed origin = (
  (λ h. elim (||-cases _ _ h) [
    | inl local ↦ inl ((eq_iff origin "http://localhost:5173").0 local)
    | inr h' ↦ inr (elim (||-cases _ _ h') [
      | inl deping ↦ inr (inl (has_suffix-EndsWith origin ".deping.xyz" deping))
      | inr h'' ↦ elim (||-cases _ _ h'') [
        | inl site ↦ inl ((eq_iff origin "https://deping.xyz").0 site)
        | inr vercel ↦ inr (inr (has_suffix-EndsWith origin ".vercel.app" vercel))
      ]
    ])
  ]),
  (λ a. elim a [
    | inl local ↦ rw ((eq_iff origin "http://localhost:5173").1 local) refl
    | inr (inl site) ↦ ground (arith, (eq_iff origin "https://deping.xyz").1 site)
    | inr (inr (inl deping)) ↦ ground (arith, EndsWith-has_suffix origin ".deping.xyz" deping)
    | inr (inr (inr vercel)) ↦ ground (arith, EndsWith-has_suffix origin ".vercel.app" vercel)
  ]),
)
