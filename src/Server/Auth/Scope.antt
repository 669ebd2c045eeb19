-- ===== src/Server/Auth/Scope.antt =====
-- What each role may write, in terms of the segments of paths.
use lumencast_go.Common.{
  ℕ, ◌≡◌, refl, Text, codes, Bool, true, false, not, ◌&&◌, ◌||◌, List, [], ◌∷◌, ◌++◌, arith, any,
  all, is_empty, lookup, lookup-insert, lookup-delete, text_eq, text_eq_iff, text_eq→eq, ends_with,
  starts_with, append_assoc, drop_last, if◌then◌else◌, Bool-cases, inl, inr, ◌==◌, split_dots,
}
use lumencast_go.Protocol.LeafPath.{has_prefix, namespace}
use lumencast_go.Protocol.LeafPath.Segments.{has_prefix-eq-begins, namespace-eq-first, begins}
use lumencast_go.Protocol.Roles.{role_operator, role_service, role_test}
use lumencast_go.Server.Auth.{
  Identity, StaticTokens, anonymous, match_path_pattern, can_write, set_token, delete_token,
  reset_tokens, authenticate,
}

-- The path that a pattern stands for: without a final `.*`.
pub root_of : Text → Text
root_of pattern = if ends_with pattern (codes ".*") then drop_last (drop_last pattern) else pattern

-- Matching a final `*` after a final `.` is matching `.*`.
ends_with_dot_star :
    (pattern : Text)
    → ends_with pattern (codes "*") ≡ true
    → ends_with (drop_last pattern) (codes ".") ≡ true
    → ends_with pattern (codes ".*") ≡ true
unfolding ends_with text_eq
ends_with_dot_star [] h k = ground arith
ends_with_dot_star (x ∷ []) h k = ground arith
ends_with_dot_star (x ∷ y ∷ []) h k = ground arith
ends_with_dot_star (x ∷ y ∷ z ∷ s) h k = ground (arith, ends_with_dot_star (y ∷ z ∷ s))

has_prefix_refl : (p : Text) → has_prefix p p ≡ true
unfolding has_prefix
has_prefix_refl p = ground (arith, text_eq_iff p p)

drop_dot_star :
    (pattern : Text)
    → ends_with pattern (codes ".*") ≡ true
    → pattern ≡ drop_last (drop_last pattern) ++ codes ".*"
unfolding ends_with text_eq
drop_dot_star [] h = ground arith
drop_dot_star (x ∷ []) h = ground arith
drop_dot_star (x ∷ y ∷ []) h = ground arith
drop_dot_star (x ∷ y ∷ z ∷ s) h = ground (arith, drop_dot_star (y ∷ z ∷ s))

starts_with-append_both : (s t u : Text) → starts_with (s ++ t) (s ++ u) ≡ starts_with t u
unfolding starts_with
starts_with-append_both [] t u = refl
starts_with-append_both (c ∷ s) t u = ground (arith, starts_with-append_both s t u)

below_root :
    (pattern : Text)
    → ends_with pattern (codes ".*") ≡ true
    → has_prefix pattern (drop_last (drop_last pattern)) ≡ true
unfolding has_prefix starts_with
below_root pattern h =
    let root : Text = drop_last (drop_last pattern) in
    ground (arith, drop_dot_star pattern h, starts_with-append_both root (codes ".*") (codes "."))

-- A pattern matches exactly the paths at and below its root: the pattern without a final `.*`. The
-- empty pattern matches nothing.
match_path_pattern_lem :
    (pattern path : Text)
    → match_path_pattern pattern path
      ≡ (not (text_eq pattern []) && has_prefix path (root_of pattern))
unfolding match_path_pattern root_of
match_path_pattern_lem pattern path = ground (
  arith,
  text_eq_iff pattern path,
  ends_with_dot_star pattern,
  below_root pattern,
  has_prefix_refl pattern,
)

-- The namespace test of the code, on segments.
has_prefix-namespace :
    (path : Text)
    → (has_prefix path (codes "__inputs") ≡ text_eq (codes "__inputs") (namespace path))
      × (has_prefix path (codes "__test") ≡ text_eq (codes "__test") (namespace path))
unfolding begins split_dots
has_prefix-namespace path = ground (
  arith,
  has_prefix-eq-begins path (codes "__inputs"),
  has_prefix-eq-begins path (codes "__test"),
  namespace-eq-first path,
)

-- A claim of a service token covers a path at or below its root; no claims cover every path.
pub covers : List Text → Text → Bool
covers paths path =
    is_empty paths
    || any (λ pattern. not (text_eq pattern []) && has_prefix path (root_of pattern)) paths

any-match :
    (paths : List Text) (path : Text)
    → any (λ pattern. match_path_pattern pattern path) paths
      ≡ any (λ pattern. not (text_eq pattern []) && has_prefix path (root_of pattern)) paths
any-match [] path = refl
any-match (p ∷ paths) path = ground (arith, match_path_pattern_lem p path, any-match paths path)

-- The three roles that may write are three strings.
one_role :
    (r : Text)
    → (text_eq r role_operator ≡ true
        → (text_eq r role_service ≡ false) × (text_eq r role_test ≡ false))
      × (text_eq r role_service ≡ true → text_eq r role_test ≡ false)
unfolding text_eq
one_role r = (
  λ h. rw (text_eq→eq r role_operator h) (refl, refl),
  λ h. rw (text_eq→eq r role_service h) refl,
)

-- An identity may write a path exactly if it is an operator and the path is under `__inputs`, or a
-- service, the path is under `__inputs` and one of its claims covers it, or a test session and the
-- path is under `__test`. Every other role, the viewer among them, may write nothing.
pub can_write_lem :
    (i : Identity) (path : Text)
    → can_write i path ≡ (
        text_eq i.role role_operator && text_eq (codes "__inputs") (namespace path)
        || text_eq i.role role_service
          && (text_eq (codes "__inputs") (namespace path) && covers i.paths path)
        || text_eq i.role role_test && text_eq (codes "__test") (namespace path))
unfolding can_write covers
can_write_lem i path = elim (Bool-cases (text_eq i.role role_operator)) [
  | inl o ↦
      let (s, t) = (one_role i.role).0 o in
      rw (o, s, t, (has_prefix-namespace path).0) (ground arith)
  | inr o ↦ elim (Bool-cases (text_eq i.role role_service)) [
    | inl s ↦
        rw (o, s, (one_role i.role).1 s, (has_prefix-namespace path).0, any-match i.paths path)
          (ground arith)
    | inr s ↦ rw (o, s, (has_prefix-namespace path).1) (ground arith)
  ]
]

all-starts_with :
    (ok : ℕ → Bool) (p q : Text) → starts_with p q ≡ true → all ok p ≡ true → all ok q ≡ true
unfolding starts_with
all-starts_with ok p [] h k = refl
all-starts_with ok [] (d ∷ q) h k = ground arith
all-starts_with ok (c ∷ p) (d ∷ q) h k = ground (arith, all-starts_with ok p q)

star_in : (root rest : Text) → all (λ c. not (c == b'*')) (root ++ (b'*' ∷ rest)) ≡ false
star_in [] rest = refl
star_in (c ∷ root) rest = ground (arith, star_in root rest)

ends_with_bare_star :
    (root : Text)
    → ends_with root (codes ".") ≡ false
    → ends_with (root ++ codes "*") (codes ".*") ≡ false
unfolding ends_with text_eq
ends_with_bare_star [] h = refl
ends_with_bare_star (x ∷ []) h = ground arith
ends_with_bare_star (x ∷ y ∷ []) h = ground arith
ends_with_bare_star (x ∷ y ∷ z ∷ s) h = ground (arith, ends_with_bare_star (y ∷ z ∷ s))

-- A `*` that follows no dot is taken literally: such a pattern matches no path without a `*` in it,
-- so nothing below the text in front of the `*`.
pub bare_star_matches_nothing :
    (root path : Text)
    → ends_with root (codes ".") ≡ false
    → all (λ c. not (c == b'*')) path ≡ true
    → match_path_pattern (root ++ codes "*") path ≡ false
unfolding root_of has_prefix
bare_star_matches_nothing root path h k = ground (
  arith,
  match_path_pattern_lem (root ++ codes "*") path,
  ends_with_bare_star root h,
  text_eq_iff path (root ++ codes "*"),
  star_in root [],
  star_in root (codes "."),
  append_assoc root (codes "*") (codes "."),
  all-starts_with (λ c. not (c == b'*')) path (root ++ codes "*" ++ codes "."),
)

-- The table of tokens answers by the latest call for the token, and denies all others: after Set,
-- after Delete and after Reset.
pub authenticate_lem :
    (s : StaticTokens) (t u : Text) (i : Identity)
    → (authenticate (set_token s t i) u ≡ (if text_eq t u then (i, false) else authenticate s u))
      × (authenticate (delete_token s t) u
          ≡ (if text_eq t u then (anonymous, true) else authenticate s u))
      × (authenticate (reset_tokens s) u ≡ (anonymous, true))
unfolding authenticate set_token delete_token reset_tokens lookup
authenticate_lem s t u i =
    (ground (arith, lookup-insert t u i s.tokens), ground (arith, lookup-delete t u s.tokens), refl)
