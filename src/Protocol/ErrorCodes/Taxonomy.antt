-- ===== src/Protocol/ErrorCodes/Taxonomy.antt =====
-- The closed set of codes: distinct on the wire, and read back as they were written.
use lumencast_go.Common.{
  ◌≡◌, refl, Text, Bool, true, arith, text_eq, text_eq→eq, Bool-cases, inl, inr, sym, List, [], ◌∷◌,
}
use lumencast_go.Protocol.ErrorCodes.{
  ErrorCode, other, code_text, of_text, is_known, recoverable, find_code, known_codes,
}

-- The text of a documented code is read back as that code, so no two of them share a text.
pub of_text-code_text : (c : ErrorCode) → is_known c ≡ true → of_text (code_text c) ≡ c
unfolding of_text is_known text_eq
of_text-code_text (other s) h = ground arith
of_text-code_text _ h = refl

code_text-find_code : (s : Text) (cs : List ErrorCode) → code_text (find_code s cs) ≡ s
unfolding find_code
code_text-find_code s [] = refl
code_text-find_code s (c ∷ cs) = elim (Bool-cases (text_eq s (code_text c))) [
  | inl e ↦ rw e (sym (text_eq→eq s (code_text c) e))
  | inr e ↦ rw e (code_text-find_code s cs)
]

-- Every text is read as a code, and written back as the same text: nothing is lost in a frame.
pub code_text-of_text : (s : Text) → code_text (of_text s) ≡ s
unfolding of_text
code_text-of_text s = code_text-find_code s known_codes

-- A code that the taxonomy does not document is never recoverable.
pub recoverable-is_known : (c : ErrorCode) (d : Bool) → recoverable c d ≡ true → is_known c ≡ true
unfolding recoverable is_known
recoverable-is_known (other s) d h = ground arith
recoverable-is_known _ d h = refl
