-- ===== src/Snapshot.antt =====
-- crates/gitility-core/src/snapshot.rs: commits with their trees, and the objects behind annotated
-- tags.
pub mod Peels
pub mod Opens
mod Tests
use gitility.Base.{
  ℕ, zero, suc, Bool, true, false, not, if◌then◌else◌, String, List, [], ◌∷◌, Option, none, some,
}
use gitility.Oid.{
  HashKind, sha256, kind_eq, Oid, ObjectKind, commit, tree, blob, tag, object_kind_eq,
}
use gitility.Error.{
  Error, Result, ok, err, ok_or, ensure, new, new_text, text, hex_of, unsupported_hash, invalid_oid,
  missing_object, malformed_object, not_a_commit, not_a_tree, not_a_blob, ErrorCode,
}
use gitility.Odb.{Object, ObjectDb, World, Io, pure, fail, lift, ◌>>=◌, ◌>>◌}
use gitility.Decode.{Parser, Commit, Tag, decode_commit, decode_tag}

abbrev pub max_tag_hops : ℕ
max_tag_hops = 16

pub data PeelTarget : Type 0 where
  to_commit to_tree to_blob : PeelTarget

pub record Snapshot : Type 0 where
  pub commit_oid : Oid
  pub tree_oid : Oid

-- `ensure_compatible`.
unfoldable pub ensure_compatible : HashKind → Oid → String → Result (Unit {0})
ensure_compatible kind oid operation =
    if kind_eq kind sha256
    then err (new_text unsupported_hash "SHA-256 query execution not yet supported")
    else if not (kind_eq oid.kind kind)
    then err (
        new invalid_oid
          (text operation ∷ text " object ID algorithm does not match the object store" ∷ []))
    else ok tt

abbrev pub wrong_peel_target : PeelTarget → Error
wrong_peel_target to_commit = new_text not_a_commit "object cannot be peeled to a commit"
wrong_peel_target to_tree = new_text not_a_tree "object cannot be peeled to a tree"
wrong_peel_target to_blob = new_text not_a_blob "object cannot be peeled to a blob"

abbrev pub tag_hop_error : Error
tag_hop_error = new_text malformed_object "annotated tag chain exceeds 16 hops"

-- `missing`.
abbrev pub absent : Oid → Error
absent oid =
    new missing_object (text "object " ∷ hex_of oid ∷ text " is missing from the object store" ∷ [])

abbrev pub is_declared : Option ObjectKind → ObjectKind → Bool
is_declared none kind = true
is_declared (some declared) kind = object_kind_eq declared kind

-- An object that a store found, of the kind that a tag declared.
unfoldable pub checked_object : Oid → Option ObjectKind → Option Object → Result Object
checked_object oid declared none = err (absent oid)
checked_object oid declared (some object) =
    if is_declared declared object.kind
    then ok object
    else err (new_text malformed_object "annotated tag target kind does not match its object")

module _ (parser : Parser) {S : Type 0} (store : ObjectDb S) where
  -- The loop, with the hops that are left.
  unfoldable pub tag_chain : ℕ → Oid → Option ObjectKind → Io S (Oid × Object)
  unfolding checked_object decode_tag
  tag_chain zero current declared = do
    found ← store.try_find current
    object ← lift (checked_object current declared found)
    if object_kind_eq object.kind tag then fail tag_hop_error else pure (current, object)
  tag_chain (suc hops) current declared =
      let further = λ (t : Tag). tag_chain hops t.target_oid (some t.target_kind) in
      do
        found ← store.try_find current
        object ← lift (checked_object current declared found)
        if object_kind_eq object.kind tag
            then (lift (decode_tag parser object.payload store.hash_kind) >>= further)
            else pure (current, object)

  unfoldable pub peel_tag_chain : Oid → Io S (Oid × Object)
  unfolding tag_chain
  peel_tag_chain oid = tag_chain max_tag_hops oid none

  abbrev pub tree_of : Result Commit → Result Oid
  tree_of (ok c) = ok c.tree_oid
  tree_of (err e) = err e

  -- The end of a chain for a target, by the kind of the object there.
  unfoldable pub peeled : PeelTarget → Oid → Object → Result Oid
  unfolding decode_commit
  peeled to_commit oid object =
      if object_kind_eq object.kind commit then ok oid else err (wrong_peel_target to_commit)
  peeled to_tree oid object =
      if object_kind_eq object.kind commit
      then tree_of (decode_commit parser object.payload store.hash_kind)
      else if object_kind_eq object.kind tree
      then ok oid
      else err (wrong_peel_target to_tree)
  peeled to_blob oid object =
      if object_kind_eq object.kind blob then ok oid else err (wrong_peel_target to_blob)

  unfoldable pub peel : Oid → PeelTarget → Io S Oid
  unfolding ensure_compatible peel_tag_chain peeled
  peel oid target =
      lift (ensure_compatible store.hash_kind oid "peel")
      >> (peel_tag_chain oid >>= λ (end, object). lift (peeled target end object))

  abbrev pub with_tree : Oid → Result Commit → Result Snapshot
  with_tree oid (ok c) = ok (record { commit_oid = oid; tree_oid = c.tree_oid })
  with_tree oid (err e) = err e

  -- A commit with the tree that it names.
  unfoldable pub snapshot_of : String → Oid → Object → Result Snapshot
  unfolding decode_commit
  snapshot_of message oid object =
      if object_kind_eq object.kind commit
      then with_tree oid (decode_commit parser object.payload store.hash_kind)
      else err (new_text not_a_commit message)

  unfoldable pub open_snapshot : Oid → Io S Snapshot
  unfolding ensure_compatible peel_tag_chain snapshot_of
  open_snapshot oid =
      lift (ensure_compatible store.hash_kind oid "snapshot")
      >> (peel_tag_chain oid >>= λ (end, object).
          lift (snapshot_of "snapshot target is not a commit" end object))

  unfoldable pub open_direct : Oid → Io S Snapshot
  unfolding ensure_compatible snapshot_of
  open_direct oid =
      lift (ensure_compatible store.hash_kind oid "snapshot")
      >> (store.try_find oid >>= λ found. lift (ok_or found (absent oid)) >>= λ object.
          lift (snapshot_of "snapshot target is not a direct commit" oid object))
