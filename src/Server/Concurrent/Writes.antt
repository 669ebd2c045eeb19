-- ===== src/Server/Concurrent/Writes.antt =====
-- The invariant when applyPatches writes to the store (server/scene.go, server/store.go).
use lumencast_go.Common.{
  ℕ, ◌≡◌, sym, ap, ◌∙◌, subst, inl, inr, Text, none, some, List, [], ◌∷◌, ◌++◌, All, All-append,
  Map, lookup, HasDistinctKeys, arith, Option-cases,
}
use lumencast_go.Common.Sorting.{lookup-sort_by_key, sort_by_key-IsSorted, IsSorted-HasDistinctKeys}
use lumencast_go.Json.{Raw}
use lumencast_go.Server.Store.{Value, encode_value, sort_patches, apply_patches}
use lumencast_go.Server.Store.Apply.{
  Encodes, apply_patches-Encodes, apply_patches_partial, lookup-insert_all,
}
use lumencast_go.Server.Scene.Client.{Client}
use lumencast_go.Server.Concurrent.{
  Waiting, Holder, nobody, sending, refreshing, World, all_of, only,
}
use lumencast_go.Server.Concurrent.Held.{writes, held, IsSettled, IsUntouched, Keeps}
use lumencast_go.Server.Concurrent.Invariant.{At, Carries, Inv, Careful, All-last}

abbrev pub after_write : World → Map Raw → Waiting → World
after_write w store e = record w {
  scene = record (w.scene) { store = store };
  waiting = w.waiting ++ (e ∷ []);
}

module _ (i : ℕ) (j : Text) (Safe : Type 0) (w : World) (store : Map Raw) (e : Waiting)
    (here : (v : Raw) → lookup j (writes e) ≡ some v → lookup j store ≡ some v)
    (apart : lookup j (writes e) ≡ none → lookup j store ≡ lookup j w.scene.store)
    (careful : Careful j Safe w (all_of (writes e))) where
  abbrev written : World
  written = after_write w store e

  Keeps-written :
      (raw : Map Raw)
      → Safe
      → (IsUntouched j w → lookup j raw ≡ none)
      → Keeps j w.scene.store raw
      → Keeps j store raw
  Keeps-written raw safe free k v found = elim (Option-cases (lookup j (writes e))) [
    | inl none_written ↦ apart none_written ∙ k v found
    | inr (x, is) ↦
        absurd (ground (arith, found, free (careful safe (λ z. absurd (ground (arith, z, is))))))
  ]

  Settled-written :
      IsSettled j written.waiting → (lookup j (writes e) ≡ none) × IsSettled j w.waiting
  Settled-written h = All-last (λ x. lookup j (writes x) ≡ none) w.waiting e h

  Keeps-All :
      (xs : List Waiting)
      → Safe
      → (IsUntouched j w → IsSettled j xs)
      → All (λ x. Keeps j w.scene.store (writes x)) xs
      → All (λ x. Keeps j store (writes x)) xs
  Keeps-All [] safe free k = tt
  Keeps-All (x ∷ xs) safe free k =
      (Keeps-written (writes x) safe (λ u. (free u).0) k.0, Keeps-All xs safe (λ u. (free u).1) k.1)

  Carries-written : (h : Holder) → Carries i j Safe w h → Carries i j Safe written h
  Carries-written nobody c = tt
  Carries-written (sending m raw is) c = c
  Carries-written (refreshing snap raw is) c = (
    c.0,
    λ safe settled.
        let (fresh, before) = Settled-written settled in c.1 safe before ∙ sym (apart fresh),
  )

  At-written : (d : Client) → At i j Safe w d → At i j Safe written d
  At-written d a = record {
    number = a.number;
    leaf = λ safe settled due.
        let (fresh, before) = Settled-written settled in a.leaf safe before due ∙ sym (apart fresh);
  }

  pub written-Inv : HasDistinctKeys (writes e) → Inv i j Safe w → Inv i j Safe written
  written-Inv distinct inv = record {
    allocated = inv.allocated;
    numbered = inv.numbered;
    room = inv.room;
    member_set = inv.member_set;
    to_come_set = inv.to_come_set;
    waiting_distinct =
        All-append (λ x. HasDistinctKeys (writes x)) w.waiting (e ∷ []) inv.waiting_distinct
          (distinct, tt);
    held_distinct = inv.held_distinct;
    waiting_kept = λ safe.
        All-append (λ x. Keeps j store (writes x)) w.waiting (e ∷ [])
          (Keeps-All w.waiting safe (λ u. u.0) (inv.waiting_kept safe)) (here, tt);
    held_kept = λ safe. Keeps-written (held w.holder) safe (λ u. u.1) (inv.held_kept safe);
    carries = Carries-written w.holder inv.carries;
    hears = λ sub alive.
        let (c, is, (d, got, a)) = inv.hears sub alive in (c, is, (d, got, At-written d a));
  }

-- The writes of emitWithCause and of Set.
module _ (i : ℕ) (j : Text) (Safe : Type 0) (w : World) (p : Text × Value) (ps : Map Value)
    (xs : Map Raw) (encodes : Encodes (p ∷ ps) xs) (distinct : HasDistinctKeys xs) (e : Waiting)
    (patches : writes e ≡ sort_patches xs) where
  distinct_patches : HasDistinctKeys (sort_patches xs)
  distinct_patches = IsSorted-HasDistinctKeys (sort_patches xs) (sort_by_key-IsSorted xs distinct)

  lookup-writes : lookup j (writes e) ≡ lookup j xs
  lookup-writes = ap (lookup j) patches ∙ lookup-sort_by_key j xs

  lookup-applied :
      lookup j (apply_patches w.scene.store (p ∷ ps)).0
      ≡ (elim (lookup j xs) [ none ↦ lookup j w.scene.store | some r ↦ some r ])
  lookup-applied =
      rw (apply_patches-Encodes w.scene.store xs p ps encodes)
        (lookup-insert_all w.scene.store xs j distinct)

  pub applied-Inv :
      Careful j Safe w (all_of xs)
      → Inv i j Safe w
      → Inv i j Safe (after_write w (apply_patches w.scene.store (p ∷ ps)).0 e)
  applied-Inv careful inv =
      written-Inv i j Safe w (apply_patches w.scene.store (p ∷ ps)).0 e
        (λ v found. ground (arith, lookup-applied, lookup-writes, found))
        (λ gone. ground (arith, lookup-applied, lookup-writes, gone))
        (λ safe found. careful safe (λ z. found (lookup-writes ∙ z)))
        (subst HasDistinctKeys (sym patches) distinct_patches) inv

-- A call that fails leaves the leaf as it was, and nothing of it is in progress.
module _ (i : ℕ) (j : Text) (Safe : Type 0) (w : World) (store : Map Raw)
    (same : Safe → lookup j store ≡ lookup j w.scene.store) where
  abbrev failed : World
  failed = record w { scene = record (w.scene) { store = store } }

  Keeps-All-failed :
      (xs : List Waiting)
      → Safe
      → All (λ x. Keeps j w.scene.store (writes x)) xs
      → All (λ x. Keeps j store (writes x)) xs
  Keeps-All-failed [] safe k = tt
  Keeps-All-failed (x ∷ xs) safe k =
      (λ v found. same safe ∙ k.0 v found, Keeps-All-failed xs safe k.1)

  Carries-failed : (h : Holder) → Carries i j Safe w h → Carries i j Safe failed h
  Carries-failed nobody c = tt
  Carries-failed (sending m raw is) c = c
  Carries-failed (refreshing snap raw is) c =
      (c.0, λ safe settled. c.1 safe settled ∙ sym (same safe))

  At-failed : (d : Client) → At i j Safe w d → At i j Safe failed d
  At-failed d a = record {
    number = a.number;
    leaf = λ safe settled due. a.leaf safe settled due ∙ sym (same safe);
  }

  failed-Inv : Inv i j Safe w → Inv i j Safe failed
  failed-Inv inv = record {
    allocated = inv.allocated;
    numbered = inv.numbered;
    room = inv.room;
    member_set = inv.member_set;
    to_come_set = inv.to_come_set;
    waiting_distinct = inv.waiting_distinct;
    held_distinct = inv.held_distinct;
    waiting_kept = λ safe. Keeps-All-failed w.waiting safe (inv.waiting_kept safe);
    held_kept = λ safe v found. same safe ∙ inv.held_kept safe v found;
    carries = Carries-failed w.holder inv.carries;
    hears = λ sub alive.
        let (c, is, (d, got, a)) = inv.hears sub alive in (c, is, (d, got, At-failed d a));
  }

pub write_fails-Inv :
    (i : ℕ) (j : Text) (Safe : Type 0) (w : World) (ps rest : Map Value) (k : Text) (v : Value)
    (xs : Map Raw)
    → Encodes ps xs
    → HasDistinctKeys xs
    → encode_value v ≡ none
    → Careful j Safe w (only xs)
    → Inv i j Safe w
    → Inv i j Safe (record w {
      scene = record (w.scene) { store = (apply_patches w.scene.store (ps ++ ((k, v) ∷ rest))).0 };
    })
write_fails-Inv i j Safe w ps rest k v xs h d e careful =
    failed-Inv i j Safe w (apply_patches w.scene.store (ps ++ ((k, v) ∷ rest))).0 (λ safe.
      (apply_patches_partial w.scene.store xs ps rest k v h d e).1 j ∙ ground (arith, careful safe))
