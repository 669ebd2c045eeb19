-- ===== src/Examples/Server.antt =====
-- Write scopes, tokens and the store.
use lumencast_go.Common.{
  ◌≡◌, refl, Text, codes, false, ◌&&◌, ◌||◌, none, some, [], ◌∷◌, ◌++◌, HasDistinctKeys, lookup,
  text_eq, text_eq→eq, ends_with, Bool-cases, inl, inr, subst,
}
use lumencast_go.Protocol.LeafPath.{namespace}
use lumencast_go.Protocol.Roles.{role_operator, role_service, role_test}
use lumencast_go.Server.Auth.{Identity, StaticTokens, anonymous, match_path_pattern, can_write}
use lumencast_go.Server.Auth.Scope.{covers, can_write_lem, bare_star_matches_nothing}
use lumencast_go.Server.Store.{raw, other, err, encode, encode_value, apply_patches}
use lumencast_go.Server.Store.Apply.{Encodes, apply_patches_partial}
use lumencast_go.Examples.Data.{title, score, hello, bye, encoded}

abbrev ticker : Identity
ticker = record {
  subject = codes "ticker";
  role = role_service;
  paths = codes "__inputs.score.*" ∷ [];
}

can_write_lem_example : can_write ticker score ≡ (
    text_eq role_service role_operator && text_eq (codes "__inputs") (namespace score)
    || text_eq role_service role_service
      && (text_eq (codes "__inputs") (namespace score) && covers ticker.paths score)
    || text_eq role_service role_test && text_eq (codes "__test") (namespace score))
can_write_lem_example = can_write_lem ticker score

bare_star_matches_nothing_example :
    match_path_pattern (codes "__inputs.sc" ++ codes "*") score ≡ false
unfolding ends_with text_eq
bare_star_matches_nothing_example = bare_star_matches_nothing (codes "__inputs.sc") score refl refl

abbrev table : StaticTokens
table = record { tokens = (codes "t1", anonymous) ∷ [] }

one-Encodes : Encodes ((title, raw hello) ∷ []) ((title, hello) ∷ [])
unfolding encode_value
one-Encodes = (refl, refl, tt)

swapped-Encodes :
    Encodes ((score, raw bye) ∷ (title, raw hello) ∷ []) ((score, bye) ∷ (title, hello) ∷ [])
unfolding encode_value
swapped-Encodes = (refl, refl, (refl, refl, tt))

same_leaves : (k : Text) → lookup k encoded ≡ lookup k ((score, bye) ∷ (title, hello) ∷ [])
unfolding lookup text_eq
same_leaves k = elim (Bool-cases (text_eq title k)) [
  | inl e ↦
      subst (λ j. lookup j encoded ≡ lookup j ((score, bye) ∷ (title, hello) ∷ []))
        (text_eq→eq title k e) refl
  | inr e ↦ rw e refl
]

swapped-HasDistinctKeys : HasDistinctKeys ((score, bye) ∷ (title, hello) ∷ [])
unfolding text_eq
swapped-HasDistinctKeys = ((refl, tt), (tt, tt))

apply_patches_partial_example :
    let (s', result) = apply_patches [] ((title, raw hello) ∷ (score, other none) ∷ []) in
    (result ≡ err (encode score))
    × ((j : Text)
        → lookup j s'
          ≡ (elim (lookup j ((title, hello) ∷ [])) [ none ↦ lookup j [] | some r ↦ some r ]))
apply_patches_partial_example =
    apply_patches_partial [] ((title, hello) ∷ []) ((title, raw hello) ∷ []) [] score (other none)
      one-Encodes (tt, tt) (unfold encode_value in refl)
