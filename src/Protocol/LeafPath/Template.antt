-- ===== src/Protocol/LeafPath/Template.antt =====
-- Templates as texts with holes: what Substitute makes of them.
use lumencast_go.Common.{
  ◌≡◌, refl, ap, sym, ◌∙◌, Text, true, false, not, none, some, List, [], ◌∷◌, ◌++◌, arith, ◌==◌,
  all, any, Map, lookup, append_assoc, append-nil, Bool-cases,
}
use lumencast_go.Protocol.LeafPath.{
  Unicode, unknown_scope, Substituted, ok, err, prepend, expand, substitute, checked, validate,
}

pub data Piece : Type 0 where
  lit : Text → Piece
  hole : Text → Piece

-- A literal has no `{`, and a name no `}`.
abbrev pub IsPlain : Piece → Type 0
IsPlain (lit s) = all (λ c. not (c == b'{')) s ≡ true
IsPlain (hole name) = all (λ c. not (c == b'}')) name ≡ true

abbrev pub ArePlain : List Piece → Type 0
ArePlain [] = Unit
ArePlain (x ∷ xs) = IsPlain x × ArePlain xs

pub render : List Piece → Text
render [] = []
render (lit s ∷ ps) = s ++ render ps
render (hole name ∷ ps) = (b'{' ∷ name) ++ (b'}' ∷ render ps)

-- Each hole replaced by its value; the first name without a value is the error.
pub fill : Map Text → List Piece → Substituted
fill scope [] = ok []
fill scope (lit s ∷ ps) = prepend s (fill scope ps)
fill scope (hole name ∷ ps) =
    let rest = fill scope ps in
    elim (lookup name scope) [ none ↦ err (unknown_scope name) | some v ↦ prepend v rest ]

prepend-append : (s t : Text) (r : Substituted) → prepend s (prepend t r) ≡ prepend (s ++ t) r
prepend-append s t (ok x) = ground (arith, append_assoc s t x)
prepend-append s t (err e) = refl

prepend-nil : (r : Substituted) → prepend [] r ≡ r
prepend-nil (ok t) = refl
prepend-nil (err e) = refl

module _ (scope : Map Text) where
  expand-lit :
      (s rest : Text)
      → all (λ c. not (c == b'{')) s ≡ true
      → expand scope none (s ++ rest) ≡ prepend s (expand scope none rest)
  unfolding expand
  expand-lit [] rest h = ground (arith, prepend-nil (expand scope none rest))
  expand-lit (c ∷ s) rest h =
      ground (arith, expand-lit s rest, prepend-append (c ∷ []) s (expand scope none rest))

  expand-name :
      (name seen rest : Text)
      → all (λ c. not (c == b'}')) name ≡ true
      → expand scope (some seen) (name ++ (b'}' ∷ rest))
        ≡ expand scope (some (seen ++ name)) (b'}' ∷ rest)
  unfolding expand
  expand-name [] seen rest h =
      ap (λ name. expand scope (some name) (b'}' ∷ rest)) (sym (append-nil seen))
  expand-name (c ∷ name) seen rest h =
      ground (arith, expand-name name (seen ++ (c ∷ [])) rest, append_assoc seen (c ∷ []) name)

  expand-hole :
      (name rest : Text)
      → all (λ c. not (c == b'}')) name ≡ true
      → expand scope none ((b'{' ∷ name) ++ (b'}' ∷ rest)) ≡ (
          let after = expand scope none rest in
          elim (lookup name scope) [ none ↦ err (unknown_scope name) | some v ↦ prepend v after ])
  unfolding expand
  expand-hole name rest h = expand-name name [] rest h

  pub expand-render :
      (ps : List Piece) → ArePlain ps → expand scope none (render ps) ≡ fill scope ps
  unfolding render fill
  expand-render [] h = unfold expand in refl
  expand-render (lit s ∷ ps) h =
      expand-lit s (render ps) h.0 ∙ ap (prepend s) (expand-render ps h.1)
  expand-render (hole name ∷ ps) h =
      expand-hole name (render ps) h.0 ∙ ground (arith, expand-render ps h.1)

  expand-no_hole : (s : Text) → any (λ c. c == b'{') s ≡ false → expand scope none s ≡ ok s
  unfolding expand
  expand-no_hole [] h = refl
  expand-no_hole (c ∷ s) h = ground (arith, expand-no_hole s)

  -- Substitute on the text of a template replaces each placeholder by its value and keeps all else,
  -- and returns the result exactly if that is a valid wire path. It fails if some name has no
  -- value, with the first such name, and else with the defect of the path. The short cut for texts
  -- without `{` makes no difference.
  pub substitute-render :
      (u : Unicode) (ps : List Piece)
      → ArePlain ps
      → substitute u (render ps) scope
        ≡ (elim (fill scope ps) [ err e ↦ err e | ok out ↦ checked out (validate u out) ])
  unfolding substitute
  substitute-render u ps h = ground (
    arith,
    expand-render ps h,
    expand-no_hole (render ps),
    Bool-cases (any (λ c. c == b'{') (render ps)),
  )
