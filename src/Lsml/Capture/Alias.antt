-- ===== src/Lsml/Capture/Alias.antt =====
-- What checkZabCapture and isLogicalDeviceRef accept.
use lumencast_go.Common.{
  ℕ, ◌≤◌, ◌≡◌, ◌↔◌, ◌⊎◌, Text, true, [], ◌∷◌, all, All, length, byte_len, arith,
}
use lumencast_go.Lsml.Capture.{is_alias_char, is_logical_device_ref}

-- A character of `a-z0-9-`, written out.
abbrev pub IsAliasChar : ℕ → Type 0
IsAliasChar c = ((97 ≤ c) × (c ≤ 122)) ⊎ (((48 ≤ c) × (c ≤ 57)) ⊎ (c ≡ 45))

-- `^[a-z][a-z0-9-]{0,63}$`
abbrev pub IsAlias : Text → Type 0
IsAlias [] = ⊥
IsAlias (c ∷ s) = ((97 ≤ c) × (c ≤ 122)) × (All IsAliasChar s × (length s ≤ 63))

is_alias_char_iff : (c : ℕ) → (is_alias_char c ≡ true) ↔ IsAliasChar c
is_alias_char_iff c = ground arith

all_alias_iff : (s : Text) → (all is_alias_char s ≡ true) ↔ All IsAliasChar s
all_alias_iff [] = ground arith
all_alias_iff (c ∷ s) = ground (arith, is_alias_char_iff c, all_alias_iff s)

-- Alias characters take one byte each.
byte_len-alias : (s : Text) → all is_alias_char s ≡ true → byte_len s ≡ length s
unfolding byte_len
byte_len-alias [] h = ground arith
byte_len-alias (c ∷ s) h = ground (arith, byte_len-alias s)

-- A device reference is accepted exactly if it is a lower-case letter and at most 63 more lower-case
-- letters, digits and dashes.
pub is_logical_device_ref_iff : (s : Text) → (is_logical_device_ref s ≡ true) ↔ IsAlias s
unfolding is_logical_device_ref byte_len
is_logical_device_ref_iff [] = ground arith
is_logical_device_ref_iff (c ∷ s) = ground (arith, all_alias_iff s, byte_len-alias s)
