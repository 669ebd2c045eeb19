-- ===== src/Server/Inputs/Commit.antt =====
-- What applyInput does to the scene, to its subscriptions and to the sender, frame by frame.
use lumencast_go.Common.{
  ℕ, ◌+◌, ◌^◌, ◌<◌, ◌≡◌, ◌≢◌, ◌⊎◌, refl, ap, sym, subst, ◌∙◌, Text, true, none, some, List, [], ◌∷◌,
  arith, All, lookup, inl, inr, Bool-cases, Option-cases, is_empty, List-cases, some≢none,
}
use lumencast_go.Protocol.ErrorCodes.{ErrorCode, invalid_value}
use lumencast_go.Protocol.Frames.{Patch, Input}
use lumencast_go.Server.Auth.{Identity, can_write}
use lumencast_go.Server.Store.Apply.{Encodes, insert_all, lookup-insert_all}
use lumencast_go.Server.Subscription.{Heap}
use lumencast_go.Server.Scene.{Scene, advance}
use lumencast_go.Server.Scene.Emission.{after_fields, emit_with_cause_lem}
use lumencast_go.Server.Inputs.{
  check_patches, accepts_input_path, collect, input_cause, apply_input,
}
use lumencast_go.Server.Inputs.Atomic.{
  IsAllowed, FirstRefusal, last_value, values, collect-Encodes, collect-nonempty, lookup-values_nil,
  last_value-permits, values-HasDistinctKeys, check_patches-IsAllowed, check_patches-FirstRefusal,
  check_patches-allows,
}

module _ (taken : ℕ → ℕ) (s : Scene) (h : Heap) (id : Identity) (frame : Input) where
  -- A frame that passes is emitted with the values that it says, and the emission succeeds.
  apply_input-emits :
      (p : Patch) (ps : List Patch)
      → frame.patches ≡ p ∷ ps
      → All (IsAllowed s id) (p ∷ ps)
      → ((apply_input taken s h id frame).2 ≡ none)
        × ((apply_input taken s h id frame).0.store ≡ insert_all s.store (values [] (p ∷ ps)))
        × (s.seq.cur + 1 < 2 ^ 64 → (apply_input taken s h id frame).0.seq.cur ≡ s.seq.cur + 1)
  unfolding apply_input advance
  apply_input-emits p ps e a =
      let (q, qs, same) = collect-nonempty [] p ps in
      let encodes : Encodes (q ∷ qs) (values [] (p ∷ ps)) =
        subst (λ m. Encodes m (values [] (p ∷ ps))) same
          (collect-Encodes s id [] [] (p ∷ ps) a tt) in
      let distinct = values-HasDistinctKeys [] (p ∷ ps) tt in
      let cause = input_cause id frame.client_msg_id in
      let fields = after_fields s h (values [] (p ∷ ps)) q qs encodes distinct taken cause none in
      rw
        (
          ap is_empty e,
          ap (check_patches s id) e ∙ check_patches-allows s id (p ∷ ps) a,
          ap (collect []) e ∙ same,
          emit_with_cause_lem s h (values [] (p ∷ ps)) q qs encodes distinct taken cause none,
        )
        (refl, refl, λ room. (fields room).0)

  -- A frame that is refused has no patch, or has one that is not allowed: the error names the code
  -- and the path of the first such patch. No patch of the frame is written: the scene and every
  -- subscription are as before.
  pub apply_input_refuses :
      (code : ErrorCode) (path : Text)
      → (apply_input taken s h id frame).2 ≡ some (code, path)
      → ((apply_input taken s h id frame).0 ≡ s)
        × ((apply_input taken s h id frame).1 ≡ h)
        × (((frame.patches ≡ []) × (code ≡ invalid_value) × (path ≡ []))
            ⊎ FirstRefusal s id frame.patches code path)
  unfolding apply_input
  apply_input_refuses code path refused = elim (Bool-cases (is_empty frame.patches)) [
    | inl e ↦ rw e (
      refl,
      refl,
      inl (ground (arith, e), ground (arith, e, refused), ground (arith, e, refused)),
    )
    | inr e ↦ elim (Option-cases (check_patches s id frame.patches)) [
      | inr ((c, x), k) ↦
          rw (e, k)
            (
              refl,
              refl,
              inr (
                  check_patches-FirstRefusal s id frame.patches code path
                    (k ∙ ground (arith, e, k, refused))),
            )
      | inl k ↦ elim (List-cases frame.patches) [
        | inl z ↦ absurd (ground (arith, e, z))
        | inr (p, ps, z) ↦
            (let allowed =
                subst (All (IsAllowed s id)) z (check_patches-IsAllowed s id frame.patches k) in
              absurd (some≢none (sym refused ∙ (apply_input-emits p ps z allowed).0)))
      ]
    ]
  ]

  -- Below the last number, a frame of at least one patch, all of them allowed, is applied: no
  -- error, the next number, and each leaf holds the last value that the frame gives for it, or what
  -- it held.
  pub apply_input_writes :
      (p : Patch) (ps : List Patch) (j : Text)
      → frame.patches ≡ p ∷ ps
      → All (IsAllowed s id) (p ∷ ps)
      → s.seq.cur + 1 < 2 ^ 64
      → ((apply_input taken s h id frame).2 ≡ none)
        × ((apply_input taken s h id frame).0.seq.cur ≡ s.seq.cur + 1)
        × (lookup j (apply_input taken s h id frame).0.store
            ≡ (elim (last_value j (p ∷ ps)) [ none ↦ lookup j s.store | some r ↦ some r ]))
  apply_input_writes p ps j e a room =
      let (accepted, stored, numbered) = apply_input-emits p ps e a in
      (
        accepted,
        numbered room,
        ap (lookup j) stored
            ∙ lookup-insert_all s.store (values [] (p ∷ ps)) j
                (values-HasDistinctKeys [] (p ∷ ps) tt)
            ∙ rw (lookup-values_nil j (p ∷ ps)) refl,
      )

  apply_input_accepts :
      (apply_input taken s h id frame).2 ≡ none
      → (p : Patch) × (ps : List Patch) × (frame.patches ≡ p ∷ ps) × All (IsAllowed s id) (p ∷ ps)
  unfolding apply_input
  apply_input_accepts accepted = elim (List-cases frame.patches) [
    | inl z ↦
        absurd
          (some≢none {A = ErrorCode × Text} {a = (invalid_value, [])} (ground (arith, z, accepted)))
    | inr (p, ps, z) ↦ elim (Option-cases (check_patches s id frame.patches)) [
      | inr (failure, k) ↦ absurd (some≢none {a = failure} (ground (arith, z, k, accepted)))
      | inl k ↦
          (p, ps, z, subst (All (IsAllowed s id)) z (check_patches-IsAllowed s id frame.patches k))
    ]
  ]

  -- Whatever the frame, a leaf that it changes is one that the sender may write and that the scene
  -- takes as an input.
  pub apply_input_permitted :
      (j : Text)
      → lookup j (apply_input taken s h id frame).0.store ≢ lookup j s.store
      → (can_write id j ≡ true) × (accepts_input_path s id.role j ≡ true)
  apply_input_permitted j changed = elim (Option-cases (apply_input taken s h id frame).2) [
    | inr ((code, path), e) ↦
        absurd (changed (ap (λ t. lookup j t.store) (apply_input_refuses code path e).0))
    | inl e ↦
        (let (p, ps, z, allowed) = apply_input_accepts e in
          elim (Option-cases (last_value j (p ∷ ps))) [
            | inr (r, k) ↦ last_value-permits s id j r (p ∷ ps) allowed k
            | inl k ↦ absurd (
                changed (
                  ap (lookup j) (apply_input-emits p ps z allowed).1
                  ∙ lookup-insert_all s.store (values [] (p ∷ ps)) j
                      (values-HasDistinctKeys [] (p ∷ ps) tt)
                  ∙ rw (lookup-values_nil j (p ∷ ps), k) refl))
          ])
  ]
