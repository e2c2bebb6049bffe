-- ===== src/Ancestry.antt =====
-- crates/gitility-core/src/ancestry.rs: is_ancestor, with ensure_sha1 and missing of commit_graph.rs.
-- The stack of pending commits is a list, its top first. Beside a panic, `none` also stands for the
-- end of the fuel.
pub mod Graph
pub mod Adapter
pub mod Walk
mod Tests
use gitility.Base.{
  ℕ, zero, suc, Bool, true, false, ◌||◌, not, if◌then◌else◌, List, [], ◌∷◌, Option, none, some,
}
use gitility.Oid.{HashKind, sha256, Oid, ObjectKind, commit, kind_eq, oid_eq}
use gitility.Error.{
  Error, Result, ok, err, new, new_text, new_retryable, text, hex_of, with_oid, with_oid_if_none,
  unsupported_hash, invalid_oid, missing_object, not_a_commit, malformed_object,
}
use gitility.Budget.{check}
use gitility.Budget.Suspend.{contains}
use gitility.Odb.{
  Object, ObjectDb, World, Io, Clock, at_now, pure, fail, lift, ◌>>=◌, ◌>>◌, map_err,
}
use gitility.Decode.{Parser, Commit, decode_commit}

abbrev all_of_kind : HashKind → List Oid → Bool
all_of_kind kind [] = true
all_of_kind kind (oid ∷ oids) = if kind_eq oid.kind kind then all_of_kind kind oids else false

-- `ensure_sha1`.
unfoldable pub ensure_sha1 : HashKind → List Oid → Result (Unit {0})
ensure_sha1 kind oids =
    if kind_eq kind sha256
    then err (new_text unsupported_hash "SHA-256 query execution not yet supported")
    else if all_of_kind kind oids
    then ok tt
    else err (new_text invalid_oid "commit object ID algorithm does not match the object store")

-- `missing`.
abbrev pub missing : Oid → Error
missing oid = with_oid oid (
    new_retryable missing_object
      (text "commit object " ∷ hex_of oid ∷ text " is missing from the object store" ∷ []))

abbrev pub not_commit : Oid → Bool → Error
not_commit oid input = with_oid oid (
    new (if input then not_a_commit else malformed_object)
      (text "object " ∷ hex_of oid ∷ text " reached by ancestry traversal is not a commit" ∷ []))

abbrev pub is_commit : ObjectKind → Bool
is_commit kind = elim kind [ commit ↦ true | _ ↦ false ]

abbrev pub is_shallow : Option (List Oid) → Oid → Bool
is_shallow none oid = false
is_shallow (some roots) oid = contains oid roots

abbrev name_oid : {A : Type 0} → Oid → Result A → Result A
name_oid oid (ok a) = ok a
name_oid oid (err e) = err (with_oid_if_none oid e)

abbrev pub parents_in : Option (List Oid) → Oid → Result Commit → Result (List Oid)
parents_in roots oid (err e) = err e
parents_in roots oid (ok c) = ok (if is_shallow roots oid then [] else c.parents)

-- `pending.extend(parents)`: the last parent comes to the top.
unfoldable pub extended : List Oid → List Oid → List Oid
extended [] pending = pending
extended (p ∷ parents) pending = extended parents (p ∷ pending)

module _ (parser : Parser) where
  -- The parents of a commit that was read.
  unfoldable pub parents_of : Option (List Oid) → Oid → Bool → Option Object → Result (List Oid)
  unfolding decode_commit
  parents_of roots oid input none = err (missing oid)
  parents_of roots oid input (some object) =
      if is_commit object.kind
      then parents_in roots oid (name_oid oid (decode_commit parser object.payload oid.kind))
      else err (not_commit oid input)

  module _ {S : Type 0} (clock : Clock S) (store : ObjectDb S) where
    unfoldable pub read_parents : Oid → Bool → Io S (List Oid)
    unfolding parents_of
    read_parents oid input = map_err (with_oid_if_none oid) (store.try_find oid) >>= λ found.
        lift (parents_of store.shallow_roots oid input found)

    -- The loop, with fuel for each commit that is popped.
    unfoldable pub walk : ℕ → Oid → List Oid → List Oid → Io S Bool
    unfolding check read_parents extended
    walk zero ancestor pending seen = λ w. none
    walk (suc fuel) ancestor [] seen = pure false
    walk (suc fuel) ancestor (id ∷ pending) seen =
        let again = walk fuel ancestor pending seen in
        let further =
          λ (parents : List Oid). walk fuel ancestor (extended parents pending) (id ∷ seen) in
        at_now clock check
        >> (if contains id seen
            then again
            else if oid_eq id ancestor
            then pure true
            else (read_parents id false >>= further))

    -- `is_ancestor`.
    unfoldable pub is_ancestor : ℕ → Oid → Oid → Io S Bool
    unfolding ensure_sha1 check read_parents walk extended
    is_ancestor fuel ancestor descendant =
        lift (ensure_sha1 store.hash_kind (ancestor ∷ descendant ∷ []))
        >> (at_now clock check
            >> (read_parents ancestor true >>= λ _.
                if oid_eq ancestor descendant
                then pure true
                else (read_parents descendant true >>= λ parents.
                    walk fuel ancestor (extended parents []) (descendant ∷ []))))
