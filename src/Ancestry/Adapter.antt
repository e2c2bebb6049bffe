-- ===== src/Ancestry/Adapter.antt =====
-- GixFind of crates/gitility-core/src/commit_graph.rs: the view that gitoxide's walks have of a store.
-- `none` is a panic.
pub mod Answers
pub mod Runs
pub mod Shallow
use gitility.Base.{
  ℕ, Bool, true, false, ◌&&◌, not, if◌then◌else◌, List, [], ◌∷◌, ◌++◌, Option, none, some, length,
  bytes_eq, starts_with, String,
}
use gitility.Oid.{Oid, commit, object_kind_eq}
use gitility.Error.{
  Error, ErrorCode, Result, ok, err, new, new_text, text, hex_of, with_oid, with_oid_if_none,
  not_a_commit,
}
use gitility.Budget.{check}
use gitility.Budget.Suspend.{contains}
use gitility.Lru.{LruCache, new_cache, get, get_cloned, insert}
use gitility.Odb.{Object, ObjectDb, World, Clock, at_now}
use gitility.Odb.Keys.{oid_key}
use gitility.File.Lines.{lines_of}
use gitility.Ancestry.{missing, is_shallow}

abbrev pub payload_cache_bytes : ℕ
payload_cache_bytes = 4194304

-- The adapter's own state, beside the store and the budget.
pub record Adapter : Type 0 where
  pub objects : LruCache Oid Object
  pub first_error : Option Error
  pub current_oid : Option Oid

unfoldable pub new_adapter : Adapter
unfolding new_cache
new_adapter = record {
  objects = new_cache payload_cache_bytes;
  first_error = none;
  current_oid = none;
}

abbrev parent_header : List ℕ
parent_header = b'p' ∷ b'a' ∷ b'r' ∷ b'e' ∷ b'n' ∷ b't' ∷ b' ' ∷ []

-- The lines without the parents, while they are headers.
unfoldable pub unparented : Bool → List (List ℕ) → List ℕ
unfolding starts_with
unparented in_headers [] = []
unparented in_headers (line ∷ lines) =
    let inside = in_headers && not (bytes_eq line (10 ∷ [])) in
    let rest = unparented inside lines in
    if inside && starts_with line parent_header then rest else line ++ rest

unfoldable pub without_parent_headers : List ℕ → List ℕ
unfolding lines_of unparented
without_parent_headers payload = unparented true (lines_of payload)

-- A commit at a shallow boundary loses its parents.
unfoldable pub seen : Option (List Oid) → Oid → Object → Object
unfolding without_parent_headers contains
seen roots oid object =
    if object_kind_eq object.kind commit && is_shallow roots oid
    then record object { payload = without_parent_headers object.payload }
    else object

abbrev pub first_of : Option Error → Error → Option Error
first_of none e = some e
first_of (some first) e = some first

unfoldable pub record_first_error : Error → Adapter → Adapter
record_first_error e a = record a { first_error = first_of a.first_error e }

unfoldable pub clear_error_scope : Adapter → Adapter
clear_error_scope a = record a { first_error = none; current_oid = none }

abbrev named : Option Oid → Error → Error
named none e = e
named (some oid) e = with_oid oid e

unfoldable pub take_error_or : ErrorCode → String → Adapter → Error × Adapter
take_error_or code message a = elim a.first_error [
  | some e ↦ (e, record a { first_error = none })
  | none ↦ (named a.current_oid (new_text code message), record a { first_error = none })
]

abbrev pub Call : Type 0 → Type 0 → Type 0
Call S A = Option (Result A × Adapter × World S)

module _ {S : Type 0} where
  abbrev failed : Error → Adapter → World S → Call S Object
  failed e a w = some (err e, record_first_error e a, w)

  abbrev pub stored : Object → Adapter → World S → Option (LruCache Oid Object) → Call S Object
  stored object a w none = none
  stored object a w (some objects) = some (ok object, record a { objects = objects }, w)

  -- What the store gave.
  unfoldable pub received :
      Option (List Oid) → Oid → Adapter → Option (Result (Option Object) × World S) → Call S Object
  unfolding seen insert record_first_error
  received roots oid a none = none
  received roots oid a (some (err e, w)) = failed (with_oid_if_none oid e) a w
  received roots oid a (some (ok none, w)) = failed (missing oid) a w
  received roots oid a (some (ok (some object), w)) =
      let object' = seen roots oid object in
      stored object' a w (insert oid object' (length object'.payload) a.objects)

  abbrev pub noted : Call S Object → Call S Object
  noted none = none
  noted (some (ok object, a, w)) = some (ok object, a, w)
  noted (some (err e, a, w)) = some (err e, record_first_error e a, w)

  abbrev as_commit : Oid → Call S Object → Call S (Unit {0})
  as_commit oid none = none
  as_commit oid (some (err e, a, w)) = some (err e, a, w)
  as_commit oid (some (ok object, a, w)) =
      if object_kind_eq object.kind commit
      then some (ok tt, a, w)
      else some (
        err (
            with_oid oid
              (new not_a_commit (text "object " ∷ hex_of oid ∷ text " is not a commit" ∷ []))),
        a,
        w,
      )

  module _ (clock : Clock S) (store : ObjectDb S) where
    -- What the cache gave.
    unfoldable pub looked_up :
        Oid → Adapter → World S → Option (Option Object × LruCache Oid Object) → Call S Object
    unfolding received
    looked_up oid a w none = none
    looked_up oid a w (some (some object, objects)) =
        some (ok object, record a { objects = objects }, w)
    looked_up oid a w (some (none, objects)) =
        received store.shallow_roots oid (record a { objects = objects }) (store.try_find oid w)

    abbrev checked : Oid → Adapter → Option (Result (Unit {0}) × World S) → Call S Object
    checked oid a none = none
    checked oid a (some (err e, w)) = some (err e, a, w)
    checked oid a (some (ok u, w)) =
        let current = record a { current_oid = some oid } in
        looked_up oid current w (get_cloned oid current.objects)

    -- `GixFind::object`.
    unfoldable pub object_of : Oid → Adapter → World S → Call S Object
    unfolding check get looked_up
    object_of oid a w = checked oid a (at_now clock check w)

    -- `Find::try_find`, without the conversions of object IDs.
    unfoldable pub find_object : Oid → Adapter → World S → Call S Object
    unfolding object_of record_first_error
    find_object oid a w = noted (object_of oid a w)

    unfoldable pub validate_commit : Oid → Adapter → World S → Call S (Unit {0})
    unfolding object_of
    validate_commit oid a w = as_commit oid (object_of oid a w)
