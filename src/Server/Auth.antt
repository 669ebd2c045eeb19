-- ===== src/Server/Auth.antt =====
-- server/auth.go: identities, what they may write, and the static table of tokens.
pub mod Scope
use lumencast_go.Common.{
  ℕ, Text, codes, Bool, true, false, not, ◌&&◌, Option, none, some, List, [], ◌∷◌, Map, lookup,
  insert, delete, any, is_empty, text_eq, ends_with, drop_last, if◌then◌else◌,
}
use lumencast_go.Protocol.LeafPath.{has_prefix}
use lumencast_go.Protocol.Roles.{Role, role_operator, role_service, role_test, is_valid}

pub record Identity : Type 0 where
  pub subject : Text
  pub role : Role
  pub paths : List Text

abbrev pub anonymous : Identity
anonymous = record { subject = []; role = []; paths = [] }

unfoldable pub is_authenticated : Identity → Bool
is_authenticated i = is_valid i.role

unfoldable pub match_path_pattern : Text → Text → Bool
match_path_pattern pattern path =
    if text_eq pattern []
    then false
    else if text_eq pattern path
    then true
    else if ends_with pattern (codes ".*")
    then has_prefix path (drop_last (drop_last pattern))
    else if ends_with pattern (codes "*")
        && (not (text_eq (drop_last pattern) []) && ends_with (drop_last pattern) (codes "."))
    then has_prefix path (drop_last (drop_last pattern))
    else has_prefix path pattern

unfoldable pub can_write : Identity → Text → Bool
can_write i path =
    if text_eq i.role role_operator
    then has_prefix path (codes "__inputs")
    else if text_eq i.role role_service
    then (if not (has_prefix path (codes "__inputs"))
        then false
        else if is_empty i.paths
        then true
        else any (λ prefix. match_path_pattern prefix path) i.paths)
    else if text_eq i.role role_test
    then has_prefix path (codes "__test")
    else false

-- StaticTokens. Each call is one step, so the lock is left out.
pub record StaticTokens : Type 0 where
  pub tokens : Map Identity

abbrev pub new_static_tokens : Map Identity → StaticTokens
new_static_tokens tokens = record { tokens = tokens }

unfoldable pub set_token : StaticTokens → Text → Identity → StaticTokens
set_token s token id = record s { tokens = insert token id s.tokens }

unfoldable pub delete_token : StaticTokens → Text → StaticTokens
delete_token s token = record s { tokens = delete token s.tokens }

unfoldable pub reset_tokens : StaticTokens → StaticTokens
reset_tokens s = record s { tokens = [] }

-- The identity, and whether the error is ErrAuthDenied.
unfoldable pub authenticate : StaticTokens → Text → Identity × Bool
authenticate s token = elim (lookup token s.tokens) [
  | none ↦ (anonymous, true)
  | some id ↦ (id, false)
]
