-- ===== src/Examples/Protocol.antt =====
-- Sequence numbers, paths, templates and codes.
use lumencast_go.Common.{◌≡◌, refl, ◌↔◌, Text, codes, none, List, [], ◌∷◌, arith, All, Map}
use lumencast_go.Protocol.Sequence.{observe_snapshot}
use lumencast_go.Protocol.Sequence.Stream.{observe_all, emit_all, snapshot_then_stream}
use lumencast_go.Protocol.LeafPath.{validate, substitute, checked, ok, err}
use lumencast_go.Protocol.LeafPath.Grammar.{join_dots, IsWord, validate_iff}
use lumencast_go.Protocol.LeafPath.Template.{Piece, lit, hole, render, fill, substitute-render}
use lumencast_go.Examples.Data.{ascii}

snapshot_then_stream_example :
    let (t, seqs) = emit_all (record { cur = 7 }) 3 in
    observe_all (observe_snapshot (record { cur = 2 }) 7).0 seqs ≡ (t, seqs, none)
snapshot_then_stream_example =
    snapshot_then_stream (record { cur = 2 }) 7 3 (omega arith) (omega arith)

validate_iff_example : (validate ascii (codes "a.b_1") ≡ none) ↔ (
    (first : Text) × (others : List Text) × All (IsWord ascii) (first ∷ others)
    × (join_dots first others ≡ codes "a.b_1"))
validate_iff_example = validate_iff ascii (codes "a.b_1")

abbrev template : List Piece
template = lit (codes "show.") ∷ hole (codes "id") ∷ lit (codes ".title") ∷ []

abbrev names : Map Text
names = (codes "id", codes "intro") ∷ []

substitute-render_example :
    substitute ascii (render template) names
    ≡ (elim (fill names template) [ err e ↦ err e | ok out ↦ checked out (validate ascii out) ])
substitute-render_example = substitute-render names ascii template (refl, (refl, (refl, tt)))
