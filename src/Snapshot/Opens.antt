-- ===== src/Snapshot/Opens.antt =====
-- What peeling and opening in crates/gitility-core/src/snapshot.rs give.
use mathlib.Core.Path.{subst}
use gitility.Base.{ℕ, ◌≤◌, ◌≡◌, refl, sym, true, if-cases, String, Option, none}
use gitility.Oid.{Oid, commit, tree, blob, object_kind_eq}
use gitility.Error.{Result, ok, err, Ensures}
use gitility.Odb.{Object, ObjectDb, World, Io}
use gitility.Odb.Safe.{Outcome, Safe, any, lift-Safe, bind-Safe, weaken-Safe}
use gitility.Decode.{Parser, Commit, decode_commit}
use gitility.Snapshot.{
  PeelTarget, to_commit, to_tree, to_blob, peel_tag_chain, tree_of, peeled, peel, ensure_compatible,
  Snapshot, with_tree, snapshot_of, open_snapshot,
}
use gitility.Snapshot.Peels.{Peels, tag_chain-Behind}

module _ (parser : Parser) {S : Type 0} (store : ObjectDb S) (answer : Oid → Option Object) where
  -- What a target makes of the end of a chain.
  pub data IsTarget : PeelTarget → Oid → Object → Oid → Type 0 where
    commit_itself :
        (end : Oid) (object : Object)
        → object_kind_eq object.kind commit ≡ true
        → IsTarget to_commit end object end
    root_tree :
        (end : Oid) (object : Object) (c : Commit)
        → object_kind_eq object.kind commit ≡ true
        → decode_commit parser object.payload store.hash_kind ≡ ok c
        → IsTarget to_tree end object c.tree_oid
    tree_itself :
        (end : Oid) (object : Object)
        → object_kind_eq object.kind tree ≡ true
        → IsTarget to_tree end object end
    blob_itself :
        (end : Oid) (object : Object)
        → object_kind_eq object.kind blob ≡ true
        → IsTarget to_blob end object end

  -- The end of a chain of at most 16 tags.
  abbrev pub Ends : Oid → Oid → Object → Type 0
  Ends oid end found =
      (n : ℕ) × (first : Object) × (n ≤ 16) × Peels parser store answer n oid first end found

  abbrev pub Peeled : PeelTarget → Oid → Oid → Type 0
  Peeled target oid result =
      (end : Oid) × (found : Object) × Ends oid end found × IsTarget target end found result

  abbrev pub Opened : Oid → Snapshot → Type 0
  Opened oid s =
      (found : Object) × Ends oid s.commit_oid found
      × IsTarget to_commit s.commit_oid found s.commit_oid
      × IsTarget to_tree s.commit_oid found s.tree_oid

  tree_of-Ensures :
      (end : Oid) (object : Object)
      → object_kind_eq object.kind commit ≡ true
      → (r : Result Commit) → decode_commit parser object.payload store.hash_kind ≡ r
      → Ensures (IsTarget to_tree end object) (tree_of parser store r)
  tree_of-Ensures end object is (ok c) h = root_tree end object c is h
  tree_of-Ensures end object is (err e) h = tt

  peeled-IsTarget :
      (target : PeelTarget) (end : Oid) (object : Object)
      → Ensures (IsTarget target end object) (peeled parser store target end object)
  unfolding peeled
  peeled-IsTarget to_commit end object =
      if-cases (Ensures (IsTarget to_commit end object)) (object_kind_eq object.kind commit)
        (commit_itself end object) (λ _. tt)
  peeled-IsTarget to_tree end object =
      if-cases (Ensures (IsTarget to_tree end object)) (object_kind_eq object.kind commit)
        (λ is.
          tree_of-Ensures end object is (decode_commit parser object.payload store.hash_kind) refl)
        (λ _.
          if-cases (Ensures (IsTarget to_tree end object)) (object_kind_eq object.kind tree)
            (tree_itself end object) (λ _. tt))
  peeled-IsTarget to_blob end object =
      if-cases (Ensures (IsTarget to_blob end object)) (object_kind_eq object.kind blob)
        (blob_itself end object) (λ _. tt)

  Snapped : Oid → Object → Snapshot → Type 0
  Snapped end object s =
      (s.commit_oid ≡ end)
      × IsTarget to_commit end object end
      × IsTarget to_tree end object s.tree_oid

  with_tree-Snapped :
      (end : Oid) (object : Object)
      → object_kind_eq object.kind commit ≡ true
      → (r : Result Commit) → decode_commit parser object.payload store.hash_kind ≡ r
      → Ensures (Snapped end object) (with_tree parser store end r)
  unfolding Snapped
  with_tree-Snapped end object is (ok c) h =
      (refl, commit_itself end object is, root_tree end object c is h)
  with_tree-Snapped end object is (err e) h = tt

  snapshot_of-Snapped :
      (message : String) (end : Oid) (object : Object)
      → Ensures (Snapped end object) (snapshot_of parser store message end object)
  unfolding snapshot_of
  snapshot_of-Snapped message end object =
      if-cases (Ensures (Snapped end object)) (object_kind_eq object.kind commit)
        (λ is.
          with_tree-Snapped end object is (decode_commit parser object.payload store.hash_kind)
            refl)
        (λ _. tt)

  module _ (J : S → Type 0)
      (finds : (oid : Oid) → Safe J (λ found. found ≡ answer oid) (store.try_find oid)) where
    abbrev AtEnd : Oid → Oid × Object → Type 0
    AtEnd oid r = Ends oid r.0 r.1

    peel_tag_chain-AtEnd : (oid : Oid) → Safe J (AtEnd oid) (peel_tag_chain parser store oid)
    unfolding peel_tag_chain
    peel_tag_chain-AtEnd oid =
        weaken-Safe J (λ r (n, first, short, _, peels). (n, first, short, peels))
          (tag_chain-Behind parser store answer J finds 16 oid none)

    compatible :
        (oid : Oid) (operation : String)
        → Safe J
            (λ (_ : Unit {0}). Unit {0})
            (gitility.Odb.lift (ensure_compatible store.hash_kind oid operation))
    compatible oid operation =
        lift-Safe J (λ (_ : Unit {0}). Unit {0}) (ensure_compatible store.hash_kind oid operation)
          (any (ensure_compatible store.hash_kind oid operation))

    peel-Safe :
        (oid : Oid) (target : PeelTarget)
        → Safe J (Peeled target oid) (peel parser store oid target)
    unfolding peel
    peel-Safe oid target =
        bind-Safe J (λ (_ : Unit {0}). Unit {0}) (Peeled target oid) _ _ (compatible oid "peel")
          (λ _ _.
            bind-Safe J (AtEnd oid) (Peeled target oid) _ _ (peel_tag_chain-AtEnd oid) (λ r ends.
              weaken-Safe J (λ result is. (r.0, r.1, ends, is))
                (lift-Safe J (IsTarget target r.0 r.1) (peeled parser store target r.0 r.1)
                  (peeled-IsTarget target r.0 r.1))))

    opened :
        (oid end : Oid) (object : Object) (s : Snapshot)
        → Ends oid end object
        → Snapped end object s
        → Opened oid s
    unfolding Snapped
    opened oid end object s ends (same, is, root) =
        let (chain, itself, tree_oid) =
          subst
            (λ c.
              Ends oid c object
              × IsTarget to_commit c object c
              × IsTarget to_tree c object s.tree_oid)
            (sym same) (ends, is, root) in
        (object, chain, itself, tree_oid)

    open_snapshot-Safe : (oid : Oid) → Safe J (Opened oid) (open_snapshot parser store oid)
    unfolding open_snapshot
    open_snapshot-Safe oid =
        bind-Safe J (λ (_ : Unit {0}). Unit {0}) (Opened oid) _ _ (compatible oid "snapshot")
          (λ _ _. bind-Safe J (AtEnd oid) (Opened oid) _ _ (peel_tag_chain-AtEnd oid) (λ r ends.
            weaken-Safe J (λ s is. opened oid r.0 r.1 s ends is)
              (lift-Safe J (Snapped r.0 r.1)
                (snapshot_of parser store "snapshot target is not a commit" r.0 r.1)
                (snapshot_of-Snapped "snapshot target is not a commit" r.0 r.1))))

    -- Over a store that does not panic, keeps an invariant of what lies outside, and finds an object
    -- only as a fixed function of the object ID: neither peeling nor opening a snapshot panics. Each
    -- succeeds only at the end of a chain of at most 16 tags from the object ID, where each object is
    -- of the kind that the tag before it declares: peeling with that end, where it is of the target's
    -- kind, or with the root tree of a commit; opening with a commit and its root tree.
    pub chains-ArePeeled :
        (oid : Oid) (target : PeelTarget) (w : World S)
        → J w.outside
        → Outcome J (Peeled target oid) (peel parser store oid target w)
          × Outcome J (Opened oid) (open_snapshot parser store oid w)
    chains-ArePeeled oid target w i = (peel-Safe oid target w i, open_snapshot-Safe oid w i)
