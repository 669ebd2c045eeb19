-- ===== src/Interop/Control/Tokens.antt =====
-- The table of tokens after a setup.
use lumencast_go.Common.{
  ◌≡◌, ◌≢◌, ◌⊎◌, refl, ap, ◌∙◌, inl, inr, Text, codes, Bool, true, false, none, some, [], ◌∷◌, All,
  Map, arith, text_eq, text_eq_iff, text_eq→eq, Bool-cases, Option-cases, ◌||◌,
}
use mathlib.Core.List.{Memᴰ}
use mathlib.Core.List.Memᴰ.{head, tail}
use lumencast_go.Protocol.Roles.{Role}
use lumencast_go.Server.Auth.{
  Identity, StaticTokens, set_token, reset_tokens, authenticate, anonymous,
}
use lumencast_go.Server.Auth.Scope.{authenticate_lem}
use lumencast_go.Interop.Control.{placeholder_role, install_token, install_all, install_tokens}

-- An entry that stands for a token: a placeholder with a role, and the token.
abbrev pub IsFor : Text → Text × Text → Role → Type 0
IsFor t e role = (e.1 ≡ t) × (t ≢ []) × (placeholder_role e.0 ≡ some role)

abbrev pub identity_of : Text → Role → Identity
identity_of placeholder role = record { subject = placeholder; role = role; paths = [] }

invalid_role : (p : Text) → text_eq p (codes "$TOKEN_INVALID") ≡ true → placeholder_role p ≡ none
unfolding placeholder_role text_eq
invalid_role p e = ap placeholder_role (text_eq→eq p (codes "$TOKEN_INVALID") e) ∙ refl

-- The branches of one turn of the loop.
install_token_branches :
    (auth : StaticTokens) (p v : Text)
    → (text_eq p (codes "$TOKEN_INVALID") || text_eq v [] ≡ true → install_token auth p v ≡ auth)
      × (placeholder_role p ≡ none → install_token auth p v ≡ auth)
      × ((role : Role)
          → text_eq p (codes "$TOKEN_INVALID") || text_eq v [] ≡ false
          → placeholder_role p ≡ some role
          → install_token auth p v ≡ set_token auth v (identity_of p role))
unfolding install_token
install_token_branches auth p v =
    (λ e. ground (arith, e), λ e. ground (arith, e), λ role e k. ground (arith, e, k))

-- What one entry makes of the table, for one token.
install_token_lem :
    (auth : StaticTokens) (e : Text × Text) (t : Text)
    → ((authenticate (install_token auth e.0 e.1) t ≡ authenticate auth t)
        × ((role : Role) → ¬ IsFor t e role))
      ⊎ ((role : Role) × IsFor t e role
          × (authenticate (install_token auth e.0 e.1) t ≡ (identity_of e.0 role, false)))
install_token_lem auth e t =
    let (skips, unknown, sets) = install_token_branches auth e.0 e.1 in
    elim (Bool-cases (text_eq e.0 (codes "$TOKEN_INVALID") || text_eq e.1 [])) [
      | inl skipped ↦ inl (
        ap (λ a. authenticate a t) (skips skipped),
        λ role f. ground (arith, skipped, f, invalid_role e.0, text_eq_iff e.1 []),
      )
      | inr taken ↦ elim (Option-cases (placeholder_role e.0)) [
        | inl none_known ↦ inl (
          ap (λ a. authenticate a t) (unknown none_known),
          λ role f. ground (arith, none_known, f),
        )
        | inr (role, known) ↦
            (let set_now = sets role taken known in
              let answers = (authenticate_lem auth e.1 t (identity_of e.0 role)).0 in
              elim (Bool-cases (text_eq e.1 t)) [
                | inl same ↦ inr (
                  role,
                  (
                    text_eq→eq e.1 t same,
                    λ z. ground (arith, taken, text_eq_iff e.1 [], text_eq→eq e.1 t same, z),
                    known,
                  ),
                  rw set_now (rw same at answers),
                )
                | inr other ↦ inl (
                  rw set_now (rw other at answers),
                  λ role' f. ground (arith, other, f, text_eq_iff e.1 t),
                )
              ])
      ]
    ]

-- How a token is answered.
abbrev Answers : StaticTokens → Map Text → Text → Identity × Bool → Type 0
Answers auth tokens t r =
    (All (λ e. (role : Role) → ¬ IsFor t e role) tokens × (authenticate auth t ≡ r))
    ⊎ ((e : Text × Text) × (role : Role) × Memᴰ e tokens
        × IsFor t e role
        × (authenticate auth t ≡ (identity_of e.0 role, false)))

install_all-Answers :
    (tokens : Map Text) (auth : StaticTokens) (t : Text)
    → Answers (install_all auth tokens) tokens t (authenticate auth t)
unfolding install_all
install_all-Answers [] auth t = inl (tt, refl)
install_all-Answers (e ∷ tokens) auth t =
    elim (install_all-Answers tokens (install_token auth e.0 e.1) t) [
      | inr (found, role, there, stands, answered) ↦ inr (found, role, tail there, stands, answered)
      | inl (absent, same) ↦ elim (install_token_lem auth e t) [
        | inl (before, not_for) ↦ inl ((not_for, absent), same ∙ before)
        | inr (role, stands, answered) ↦ inr (e, role, head refl, stands, same ∙ answered)
      ]
    ]

-- After a setup has installed its tokens, a token is denied exactly if no placeholder with a role
-- stands for it, and is otherwise answered with such a placeholder and its role, whatever the
-- table held before. The empty token is always denied.
pub install_tokens_lem :
    (auth : StaticTokens) (tokens : Map Text) (t : Text)
    → (All (λ e. (role : Role) → ¬ IsFor t e role) tokens
        × (authenticate (install_tokens auth tokens) t ≡ (anonymous, true)))
      ⊎ ((e : Text × Text) × (role : Role) × Memᴰ e tokens
          × IsFor t e role
          × (authenticate (install_tokens auth tokens) t ≡ (identity_of e.0 role, false)))
unfolding install_tokens
install_tokens_lem auth tokens t = elim (install_all-Answers tokens (reset_tokens auth) t) [
  | inl (absent, same) ↦ inl (absent, same ∙ (authenticate_lem auth t t anonymous).2)
  | inr found ↦ inr found
]
