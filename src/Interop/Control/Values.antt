-- ===== src/Interop/Control/Values.antt =====
-- A value that is marshalled, stored and shown again.
use lumencast_go.Common.{
  ◌≡◌, ◌≢◌, refl, inl, inr, Text, codes, false, none, some, [], ◌∷◌, All, Map, lookup,
  HasDistinctKeys, arith, Option-cases, text_eq, text_eq_iff,
}
use lumencast_go.Json.{
  Marshals, MarshalsAll, Json, null, bool, num, str, arr, obj, Fields, end, field, Raw, get_field,
}
use lumencast_go.Server.Store.{encode_value}
use lumencast_go.Server.Store.Apply.{Encodes, insert_all, lookup-insert_all}
use lumencast_go.Server.Scene.{Scene}
use lumencast_go.Server.Hub.{active_scene}
use lumencast_go.Interop.Control.{Environment, to_value, to_values, Plane, state}
use lumencast_go.Interop.Control.Handlers.{shown, show_all, handle_state}

pub encode_value-Marshals :
    (env : Environment) (v : Json)
    → Marshals env.marshal v
    → (r : Raw) × (encode_value (to_value env v) ≡ some r) × (shown r ≡ v)
unfolding encode_value
encode_value-Marshals env null m = (_, refl, refl)
encode_value-Marshals env (bool b) (r, is, back) = (r, is, rw back refl)
encode_value-Marshals env (num n) (r, is, back) = (r, is, rw back refl)
encode_value-Marshals env (str s) (r, is, back) = (r, is, rw back refl)
encode_value-Marshals env (arr vs) (r, is, back) = (r, is, rw back refl)
encode_value-Marshals env (obj fs) (r, is, back) = (r, is, rw back refl)

pub lookup-show_all :
    (j : Text) (m : Map Raw)
    → lookup j (show_all m) ≡ (elim (lookup j m) [ none ↦ none | some r ↦ some (shown r) ])
unfolding lookup
lookup-show_all j [] = refl
lookup-show_all j ((k, r) ∷ m) = ground (arith, lookup-show_all j m)

-- The encodings of some fields, in their order.
pub record Stored (env : Environment) (fs : Fields) (xs : Map Raw) : Type 0 where
  pub encodes : Encodes (to_values env fs) xs
  pub distinct : HasDistinctKeys (to_values env fs) → HasDistinctKeys xs
  pub apart :
      (k : Text)
      → All (λ e. text_eq e.0 k ≡ false) (to_values env fs)
      → All (λ e. text_eq e.0 k ≡ false) xs
  pub reads : (j : Text) → lookup j (show_all xs) ≡ get_field j fs

pub stored :
    (env : Environment) (fs : Fields)
    → MarshalsAll env.marshal fs
    → (xs : Map Raw) × Stored env fs xs
unfolding lookup get_field
stored env end m =
    ([], record { encodes = tt; distinct = λ d. tt; apart = λ k a. tt; reads = λ j. refl })
stored env (field k v fs) m =
    let (xs, s) = stored env fs m.1 in
    let (r, is, back) = encode_value-Marshals env v m.0 in
    (
      (k, r) ∷ xs,
      record {
        encodes = (refl, is, s.encodes);
        distinct = λ d. (s.apart k d.0, s.distinct d.1);
        apart = λ i a. (a.0, s.apart i a.1);
        reads = λ j. ground (arith, s.reads j, back);
      },
    )

-- What is shown after some leaves are written.
pub lookup-shown_insert_all :
    (store xs : Map Raw) (j : Text)
    → HasDistinctKeys xs
    → lookup j (show_all (insert_all store xs))
      ≡ (elim (lookup j (show_all xs)) [ none ↦ lookup j (show_all store) | some v ↦ some v ])
lookup-shown_insert_all store xs j d = ground (
  arith,
  lookup-show_all j (insert_all store xs),
  lookup-show_all j store,
  lookup-show_all j xs,
  lookup-insert_all store xs j d,
)

-- The same in a new store.
pub lookup-shown_new :
    (xs : Map Raw) (j : Text)
    → HasDistinctKeys xs
    → lookup j (show_all (insert_all [] xs)) ≡ lookup j (show_all xs)
unfolding lookup
lookup-shown_new xs j d = elim (Option-cases (lookup j (show_all xs))) [
  | inl e ↦ ground (arith, lookup-shown_insert_all [] xs j d, e)
  | inr (v, e) ↦ ground (arith, lookup-shown_insert_all [] xs j d, e)
]

-- What is answered while a scene is active.
pub handle_state_lem :
    (u : Plane) (scene : Scene)
    → u.srv.active ≢ []
    → lookup u.srv.active u.srv.scenes ≡ some scene
    → (active_scene u.srv ≡ some scene)
      × (handle_state u (codes "GET")
          ≡ state (record {
            scene_id = scene.id;
            scene_version = scene.version;
            state = show_all scene.store;
          }))
unfolding handle_state active_scene text_eq
handle_state_lem u scene named found =
    let busy : text_eq u.srv.active [] ≡ false =
      ground (arith, text_eq_iff u.srv.active [], named) in
    rw (busy, found) (refl, refl)
