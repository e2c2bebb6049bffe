-- ===== src/Snapshot/Peels.antt =====
-- What is behind a chain of annotated tags, in crates/gitility-core/src/snapshot.rs.
use gitility.Base.{
  ℕ, zero, suc, ◌≤◌, ◌≡◌, refl, sym, true, false, if-cases, Option, none, some, arith,
}
use gitility.Oid.{Oid, ObjectKind, tag, object_kind_eq}
use gitility.Error.{Result, ok, err, Ensures}
use gitility.Odb.{Object, ObjectDb, World, Io}
use gitility.Odb.Safe.{Safe, pure-Safe, fail-Safe, lift-Safe, bind-Safe, weaken-Safe}
use gitility.Decode.{Parser, Tag, decode_tag}
use gitility.Snapshot.{tag_hop_error, is_declared, checked_object, tag_chain}

Ensures-equal : {A : Type 0} (r : Result A) → Ensures (λ a. r ≡ ok a) r
Ensures-equal (ok a) = refl
Ensures-equal (err e) = tt

module _ (parser : Parser) {S : Type 0} (store : ObjectDb S) (answer : Oid → Option Object) where
  -- So many tags from an object to one that is no tag, each of the kind that its tag declares.
  pub data Peels : ℕ → Oid → Object → Oid → Object → Type 0 where
    here :
        (oid : Oid) (object : Object)
        → answer oid ≡ some object
        → object_kind_eq object.kind tag ≡ false
        → Peels 0 oid object oid object
    over :
        (n : ℕ) (oid : Oid) (object next : Object) (t : Tag) (end : Oid) (found : Object)
        → answer oid ≡ some object
        → object_kind_eq object.kind tag ≡ true
        → decode_tag parser object.payload store.hash_kind ≡ ok t
        → object_kind_eq t.target_kind next.kind ≡ true
        → Peels n t.target_oid next end found
        → Peels (suc n) oid object end found

  abbrev pub Behind : ℕ → Oid → Option ObjectKind → Oid × Object → Type 0
  Behind hops oid declared r =
      (n : ℕ) × (first : Object) × (n ≤ hops)
      × (is_declared declared first.kind ≡ true)
      × Peels n oid first r.0 r.1

  Found : Oid → Option ObjectKind → Object → Type 0
  Found oid declared object = (answer oid ≡ some object) × (is_declared declared object.kind ≡ true)

  checked_object-Found :
      (oid : Oid) (declared : Option ObjectKind) (found : Option Object)
      → found ≡ answer oid
      → Ensures (Found oid declared) (checked_object oid declared found)
  unfolding checked_object Found
  checked_object-Found oid declared none h = tt
  checked_object-Found oid declared (some object) h =
      if-cases (Ensures (Found oid declared)) (is_declared declared object.kind) (λ e. (sym h, e))
        (λ e. tt)

  module _ (J : S → Type 0)
      (finds : (oid : Oid) → Safe J (λ found. found ≡ answer oid) (store.try_find oid)) where
    read_checked :
        {A : Type 0} (Q : A → Type 0) (oid : Oid) (declared : Option ObjectKind)
        (f : Object → Io S A)
        → ((object : Object) → Found oid declared object → Safe J Q (f object))
        → Safe J Q (
            gitility.Odb.◌>>=◌ (store.try_find oid) (λ found.
              gitility.Odb.◌>>=◌ (gitility.Odb.lift (checked_object oid declared found)) f))
    read_checked Q oid declared f h =
        bind-Safe J (λ found. found ≡ answer oid) Q _ _ (finds oid)
          (λ found is.
            bind-Safe J (Found oid declared) Q _ f
              (lift-Safe J (Found oid declared) (checked_object oid declared found)
                (checked_object-Found oid declared found is))
              h)

    pub tag_chain-Behind :
        (hops : ℕ) (oid : Oid) (declared : Option ObjectKind)
        → Safe J (Behind hops oid declared) (tag_chain parser store hops oid declared)
    unfolding tag_chain Found
    tag_chain-Behind zero oid declared =
        read_checked (Behind zero oid declared) oid declared _ (λ object (is, kind).
          if-cases (Safe J (Behind zero oid declared)) (object_kind_eq object.kind tag)
            (λ _. fail-Safe J (Behind zero oid declared) tag_hop_error)
            (λ no_tag.
              pure-Safe J (Behind zero oid declared) (oid, object)
                (0, object, omega arith, kind, here oid object is no_tag)))
    tag_chain-Behind (suc hops) oid declared =
        read_checked (Behind (suc hops) oid declared) oid declared _ (λ object (is, kind).
          if-cases (Safe J (Behind (suc hops) oid declared)) (object_kind_eq object.kind tag)
            (λ is_tag.
              bind-Safe J (λ t. decode_tag parser object.payload store.hash_kind ≡ ok t)
                (Behind (suc hops) oid declared) _ _
                (lift-Safe J (λ t. decode_tag parser object.payload store.hash_kind ≡ ok t)
                  (decode_tag parser object.payload store.hash_kind)
                  (Ensures-equal (decode_tag parser object.payload store.hash_kind)))
                (λ t decoded.
                  weaken-Safe J
                    (λ r (n, next, short, declares, peels). (
                      suc n,
                      object,
                      omega arith,
                      kind,
                      over n oid object next t r.0 r.1 is is_tag decoded declares peels,
                    ))
                    (tag_chain-Behind hops t.target_oid (some t.target_kind))))
            (λ no_tag.
              pure-Safe J (Behind (suc hops) oid declared) (oid, object)
                (0, object, omega arith, kind, here oid object is no_tag)))
