-- ===== src/Odb/Static/Loading.antt =====
-- The loading of the store in crates/gitility-core/src/static_odb.rs.
use mathlib.Core.Path.{subst}
use gitility.Base.{
  ◌≡◌, refl, sym, ap, ◌∙◌, Bool, false, ◌||◌, is_some, if◌then◌else◌, List, [], ◌∷◌, some, arith,
  Bool-cases, inl, inr,
}
use gitility.Oid.{HashKind, Oid, oid_eq}
use gitility.Oid.Equal.{kind_eq-eq, oid_eq-eq}
use gitility.Error.{Result, ok, ◌>>=◌, ◌>>◌, >>=-eq-ok, >>-eq-ok, ok-injective}
use gitility.Odb.{Object}
use gitility.Odb.Static.{StaticOdb, insert_object, object_at, ensure_hash}
use gitility.Odb.Verify.{Digests, object_id, verify}

abbrev pub names : Oid → List (Oid × Object) → Bool
names oid [] = false
names oid ((key, object) ∷ objects) = oid_eq oid key || names oid objects

object_at-insert_object :
    (oid key : Oid) (object : Object) (objects : List (Oid × Object))
    → object_at oid (insert_object key object objects)
      ≡ (if oid_eq oid key then some object else object_at oid objects)
unfolding object_at insert_object
object_at-insert_object oid key object [] = refl
object_at-insert_object oid key object ((other, old) ∷ objects) =
    elim (Bool-cases (oid_eq key other)) [
      | inr e ↦ elim (Bool-cases (oid_eq oid key)) [
        | inl f ↦
            (let same : oid_eq oid other ≡ false =
                subst (λ o. oid_eq o other ≡ false) (sym (oid_eq-eq oid key f)) e in
              grind (arith, e, f, same, object_at-insert_object oid key object objects))
        | inr f ↦ grind (arith, e, f, object_at-insert_object oid key object objects)
      ]
      | inl e ↦
          (let same : oid_eq oid other ≡ oid_eq oid key =
              ap (oid_eq oid) (sym (oid_eq-eq key other e)) in
            grind (arith, e, same))
    ]

ensure_hash-ok : (hash : HashKind) (oid : Oid) → ensure_hash hash oid ≡ ok tt → oid.kind ≡ hash
unfolding ensure_hash
ensure_hash-ok hash oid h = kind_eq-eq oid.kind hash (ground (arith, h))

module _ (digests : Digests) where
  -- The loop of `from_addressed_objects`.
  unfoldable pub load :
      HashKind → List (Oid × Object) → List (Oid × Object) → Result (List (Oid × Object))
  unfolding ensure_hash verify insert_object
  load hash [] loaded = ok loaded
  load hash ((oid, object) ∷ objects) loaded =
      let rest = load hash objects (insert_object oid object loaded) in
      ensure_hash hash oid >> (verify digests oid object.kind object.payload >> rest)

  unfoldable pub from_addressed_objects : HashKind → List (Oid × Object) → Result StaticOdb
  unfolding load
  from_addressed_objects hash objects =
      load hash objects [] >>= λ loaded. ok (record { hash = hash; objects = loaded })

  -- The loop of `from_objects`.
  unfoldable pub addressed : HashKind → List Object → Result (List (Oid × Object))
  unfolding object_id
  addressed hash [] = ok []
  addressed hash (object ∷ objects) =
      let rest = addressed hash objects in
      object_id digests hash object.kind object.payload >>= λ oid.
      rest >>= λ others. ok ((oid, object) ∷ others)

  unfoldable pub from_objects : HashKind → List Object → Result StaticOdb
  unfolding addressed from_addressed_objects
  from_objects hash objects = addressed hash objects >>= from_addressed_objects hash

  -- What the store holds under an object ID.
  abbrev pub IsVerified : HashKind → Oid → Object → Type 0
  IsVerified hash oid object =
      (object_id digests oid.kind object.kind object.payload ≡ ok oid) × (oid.kind ≡ hash)

  verify-ok :
      (oid : Oid) (object : Object)
      → verify digests oid object.kind object.payload ≡ ok tt
      → object_id digests oid.kind object.kind object.payload ≡ ok oid
  unfolding verify
  verify-ok oid object h =
      let (x, is, same) = >>=-eq-ok (object_id digests oid.kind object.kind object.payload) _ h in
      is ∙ ap ok (oid_eq-eq x oid (ground (arith, same)))

  load-IsVerified :
      (hash : HashKind) (objects loaded : List (Oid × Object)) {m : List (Oid × Object)}
      → load hash objects loaded ≡ ok m
      → ((oid : Oid) (o : Object) → object_at oid loaded ≡ some o → IsVerified hash oid o)
      → (oid : Oid) (o : Object) → object_at oid m ≡ some o
      → IsVerified hash oid o
  unfolding load
  load-IsVerified hash [] loaded {m} h all =
      λ oid o at. all oid o (ap (object_at oid) (ok-injective h) ∙ at)
  load-IsVerified hash ((key, object) ∷ objects) loaded {m} h all =
      let (hashed, more) = >>-eq-ok (ensure_hash hash key) _ h in
      let (verified, rest) = >>-eq-ok (verify digests key object.kind object.payload) _ more in
      load-IsVerified hash objects (insert_object key object loaded) {m = m} rest (λ oid o at.
        elim (Bool-cases (oid_eq oid key)) [
          | inl e ↦
              (let same = oid_eq-eq oid key e in
                let is : object ≡ o =
                  grind (arith, e, at, object_at-insert_object oid key object loaded) in
                subst (λ x. IsVerified hash x o) (sym same)
                  (subst (λ x. IsVerified hash key x) is
                    (verify-ok key object verified, ensure_hash-ok hash key hashed)))
          | inr e ↦ all oid o (grind (arith, e, at, object_at-insert_object oid key object loaded))
        ])

  load-names :
      (hash : HashKind) (objects loaded : List (Oid × Object)) {m : List (Oid × Object)} (oid : Oid)
      → load hash objects loaded ≡ ok m
      → is_some (object_at oid m) ≡ (names oid objects || is_some (object_at oid loaded))
  unfolding load
  load-names hash [] loaded {m} oid h = ap (λ xs. is_some (object_at oid xs)) (sym (ok-injective h))
  load-names hash ((key, object) ∷ objects) loaded {m} oid h =
      let (hashed, more) = >>-eq-ok (ensure_hash hash key) _ h in
      let (verified, rest) = >>-eq-ok (verify digests key object.kind object.payload) _ more in
      load-names hash objects (insert_object key object loaded) {m = m} oid rest
      ∙ grind (arith, object_at-insert_object oid key object loaded)

  -- A store that loads holds an object under every listed object ID and under no other; what it
  -- holds hashes to its object ID, of the store's algorithm.
  pub from_addressed_objects-IsVerified :
      (hash : HashKind) (objects : List (Oid × Object)) {store : StaticOdb}
      → from_addressed_objects hash objects ≡ ok store
      → ((oid : Oid) → is_some (object_at oid store.objects) ≡ names oid objects)
        × ((oid : Oid) (o : Object)
            → object_at oid store.objects ≡ some o
            → IsVerified store.hash oid o)
  unfolding from_addressed_objects object_at
  from_addressed_objects-IsVerified hash objects {store} h =
      let (m, loads, is) = >>=-eq-ok (load hash objects []) _ h in
      subst
        (λ s.
          ((oid : Oid) → is_some (object_at oid s.objects) ≡ names oid objects)
          × ((oid : Oid) (o : Object) → object_at oid s.objects ≡ some o → IsVerified s.hash oid o))
        (ok-injective is)
        (
          (λ oid. load-names hash objects [] {m = m} oid loads ∙ ground arith),
          load-IsVerified hash objects [] {m = m} loads (λ oid o at. absurd (cc)),
        )
