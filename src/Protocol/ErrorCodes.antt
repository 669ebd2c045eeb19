-- ===== src/Protocol/ErrorCodes.antt =====
-- protocol/errors.go: the error codes. `other` is a string that is none of the documented codes.
pub mod Taxonomy
use lumencast_go.Common.{
  ℕ, ℤ, Text, codes, Bool, true, false, List, [], ◌∷◌, ◌++◌, text_eq, if◌then◌else◌,
}
use lumencast_go.Protocol.Frames.{ErrorFrame}

pub data ErrorCode : Type 0 where
  auth_denied : ErrorCode
  write_forbidden : ErrorCode
  scene_not_found : ErrorCode
  bundle_fetch_failed : ErrorCode
  bundle_incompatible : ErrorCode
  version_gap : ErrorCode
  version_mismatch : ErrorCode
  unknown_path : ErrorCode
  invalid_value : ErrorCode
  rate_limit : ErrorCode
  test_session_expired : ErrorCode
  internal : ErrorCode
  other : Text → ErrorCode

-- string(c)
abbrev pub code_text : ErrorCode → Text
code_text auth_denied = codes "AUTH_DENIED"
code_text write_forbidden = codes "WRITE_FORBIDDEN"
code_text scene_not_found = codes "SCENE_NOT_FOUND"
code_text bundle_fetch_failed = codes "BUNDLE_FETCH_FAILED"
code_text bundle_incompatible = codes "BUNDLE_INCOMPATIBLE"
code_text version_gap = codes "VERSION_GAP"
code_text version_mismatch = codes "VERSION_MISMATCH"
code_text unknown_path = codes "UNKNOWN_PATH"
code_text invalid_value = codes "INVALID_VALUE"
code_text rate_limit = codes "RATE_LIMIT"
code_text test_session_expired = codes "TEST_SESSION_EXPIRED"
code_text internal = codes "INTERNAL"
code_text (other s) = s

abbrev pub known_codes : List ErrorCode
known_codes =
    auth_denied ∷ write_forbidden ∷ scene_not_found ∷ bundle_fetch_failed ∷ bundle_incompatible
    ∷ version_gap ∷ version_mismatch ∷ unknown_path ∷ invalid_value ∷ rate_limit
    ∷ test_session_expired ∷ internal ∷ []

find_code : Text → List ErrorCode → ErrorCode
find_code s [] = other s
find_code s (c ∷ cs) = if text_eq s (code_text c) then c else find_code s cs

-- ErrorCode(s)
unfoldable pub of_text : Text → ErrorCode
unfolding find_code
of_text s = find_code s known_codes

unfoldable pub recoverable : ErrorCode → Bool → Bool
recoverable write_forbidden internal_default = true
recoverable bundle_fetch_failed internal_default = true
recoverable version_gap internal_default = true
recoverable unknown_path internal_default = true
recoverable invalid_value internal_default = true
recoverable rate_limit internal_default = true
recoverable auth_denied internal_default = false
recoverable scene_not_found internal_default = false
recoverable bundle_incompatible internal_default = false
recoverable version_mismatch internal_default = false
recoverable test_session_expired internal_default = false
recoverable internal internal_default = internal_default
recoverable (other s) internal_default = false

unfoldable pub is_known : ErrorCode → Bool
is_known (other s) = false
is_known auth_denied = true
is_known write_forbidden = true
is_known scene_not_found = true
is_known bundle_fetch_failed = true
is_known bundle_incompatible = true
is_known version_gap = true
is_known version_mismatch = true
is_known unknown_path = true
is_known invalid_value = true
is_known rate_limit = true
is_known test_session_expired = true
is_known internal = true

pub record LumencastError : Type 0 where
  pub code : ErrorCode
  pub message : Text
  pub recoverable : Bool
  pub path : Text

-- The method Error of the standard error interface.
unfoldable pub error_text : LumencastError → Text
error_text e = code_text e.code ++ codes ": " ++ e.message

unfoldable pub from_frame : ErrorFrame → LumencastError
from_frame f = record {
  code = of_text f.code;
  message = f.message;
  recoverable = f.recoverable;
  path = f.path;
}
