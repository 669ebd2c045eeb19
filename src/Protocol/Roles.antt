-- ===== src/Protocol/Roles.antt =====
-- protocol/types.go: the roles. A role is a string, and only four strings are roles of LSDP/1.
use lumencast_go.Common.{Text, codes, Bool, ◌||◌, text_eq}

abbrev pub Role : Type 0
Role = Text

abbrev pub role_viewer : Role
role_viewer = codes "viewer"

abbrev pub role_operator : Role
role_operator = codes "operator"

abbrev pub role_service : Role
role_service = codes "service"

abbrev pub role_test : Role
role_test = codes "test"

unfoldable pub is_valid : Role → Bool
is_valid r =
    text_eq r role_viewer
    || text_eq r role_operator
    || text_eq r role_service
    || text_eq r role_test

unfoldable pub can_write_inputs : Role → Bool
can_write_inputs r = text_eq r role_operator || text_eq r role_service

unfoldable pub can_write_test : Role → Bool
can_write_test r = text_eq r role_test
