-- ===== src/Odb/Static.antt =====
-- crates/gitility-core/src/static_odb.rs: the store in memory.
pub mod Loading
pub mod Lookup
use gitility.Base.{ℕ, Bool, false, if◌then◌else◌, List, [], ◌∷◌, Option, none, some, length, ◌==◌}
use gitility.Oid.{HashKind, Oid, ObjectKind, kind_eq, oid_eq}
use gitility.Error.{Error, Result, ok, err, new, text, invalid_oid}
use gitility.Object.{kind_name}
use gitility.Budget.{check, charge_header, charge_object}
use gitility.Odb.{
  Object, ObjectHeader, ObjectDb, Io, Clock, at_now, pure, lift, ◌>>=◌, ◌>>◌, verified_reads,
  read_each, no_prefetch, no_refresh,
}

pub record StaticOdb : Type 0 where
  pub hash : HashKind
  pub objects : List (Oid × Object)

unfoldable pub object_at : Oid → List (Oid × Object) → Option Object
object_at oid [] = none
object_at oid ((key, object) ∷ objects) =
    if oid_eq oid key then some object else object_at oid objects

-- `HashMap::insert`.
unfoldable pub insert_object : Oid → Object → List (Oid × Object) → List (Oid × Object)
insert_object oid object [] = (oid, object) ∷ []
insert_object oid object ((key, old) ∷ objects) =
    let rest = insert_object oid object objects in
    if oid_eq oid key then (oid, object) ∷ objects else (key, old) ∷ rest

unfoldable pub ensure_hash : HashKind → Oid → Result (Unit {0})
unfolding kind_name
ensure_hash expected oid =
    if kind_eq oid.kind expected
    then ok tt
    else err (
        new invalid_oid (
          text "object ID uses "
          ∷ text (kind_name oid.kind)
          ∷ text ", but the object store uses "
          ∷ text (kind_name expected)
          ∷ []))

unfoldable pub len : StaticOdb → ℕ
len store = length store.objects

unfoldable pub is_empty : StaticOdb → Bool
is_empty store = length store.objects == 0

module _ {S : Type 0} (clock : Clock S) where
  abbrev header_of : Object → ObjectHeader
  header_of object = record { kind = object.kind; size = length object.payload }

  unfoldable pub try_header : StaticOdb → Oid → Io S (Option ObjectHeader)
  unfolding charge_header ensure_hash object_at
  try_header store oid =
      at_now clock charge_header
      >> (lift (ensure_hash store.hash oid)
          >> pure (elim (object_at oid store.objects) [
            | none ↦ none
            | some object ↦ some (header_of object)
          ]))

  abbrev pub payload_of : Option Object → Io S (Option Object)
  payload_of none = at_now clock check >> pure none
  payload_of (some object) =
      at_now clock (λ now. charge_object now (length object.payload)) >> pure (some object)

  unfoldable pub try_find : StaticOdb → Oid → Io S (Option Object)
  unfolding ensure_hash object_at
  try_find store oid = lift (ensure_hash store.hash oid) >> payload_of (object_at oid store.objects)

  -- The store behind the trait, with the trait's defaults.
  unfoldable pub static_db : StaticOdb → ObjectDb S
  unfolding try_header try_find verified_reads read_each no_refresh
  static_db store = record {
    hash_kind = store.hash;
    shallow_roots = none;
    try_header_with_provenance = verified_reads (try_header store);
    try_find = try_find store;
    try_find_many_bounded = λ oids read_budget. read_each (try_find store) oids read_budget 0;
    prefetch = no_prefetch;
    supports_prefetch = false;
    refresh = no_refresh clock;
  }
