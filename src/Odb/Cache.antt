-- ===== src/Odb/Cache.antt =====
-- The cache of crates/gitility-core/src/layered_odb.rs. The assertions of debug builds are left out.
pub mod Keeps
pub mod Inserts
pub mod Runs
use gitility.Base.{
  ℕ, Bool, true, false, is_some, zero, suc, ◌||◌, ◌==◌, ltb, leb, if◌then◌else◌, List, Option, none,
  some, length, saturating_add, String,
}
use gitility.Oid.{HashKind, Oid, ObjectKind}
use gitility.Error.{Error, Result, ok, err, new_text, invalid_argument}
use gitility.Budget.{Budget, record_cache_hit, record_cache_miss}
use gitility.Lru.{
  ◌>>=◌, Key, LruCache, new_cache, get, get_cloned, remove, pop_lru, insert_counting_evictions, len,
}
use gitility.Odb.{Object, CacheStats}
use gitility.Odb.Keys.{cache_key}

pub record CacheOptions : Type 0 where
  pub max_bytes : ℕ
  pub max_entries : ℕ
  pub max_object_bytes : ℕ

-- The cache with its state.
pub record CacheLayer : Type 0 where
  pub options : CacheOptions
  pub objects : LruCache (HashKind × Oid) Object
  pub evictions : ℕ

abbrev pub invalid : String → Error
invalid message = new_text invalid_argument message

-- `CacheLayer::new`.
unfoldable pub new_layer : CacheOptions → Result CacheLayer
unfolding new_cache
new_layer options =
    if options.max_bytes == 0
    then err (invalid "cache max_bytes must be greater than zero")
    else if options.max_entries == 0
    then err (invalid "cache max_entries must be greater than zero")
    else if options.max_object_bytes == 0
    then err (invalid "cache max_object_bytes must be greater than zero")
    else ok (record { options = options; objects = new_cache options.max_bytes; evictions = 0 })

abbrev pub recorded : Option Object → Budget → Budget
recorded none b = record_cache_miss b
recorded (some _) b = record_cache_hit b

-- `CacheLayer::get`: `none` where the cache panics.
unfoldable pub cache_get : Oid → CacheLayer → Budget → Option (Option Object × CacheLayer × Budget)
unfolding get
cache_get oid c b = do
  r ← get_cloned (oid.kind, oid) c.objects
  some (r.0, record c { objects = r.1 }, recorded r.0 b)

-- The loop that makes room for an entry, with fuel: it stops when nothing is left.
unfoldable pub make_room : ℕ → CacheLayer → Option CacheLayer
unfolding pop_lru len
make_room zero c = none
make_room (suc fuel) c = elim (leb c.options.max_entries (len c.objects)) [
  | false ↦ some c
  | true ↦ pop_lru c.objects >>= λ r. elim r.0 [
    | none ↦ some (record c { objects = r.1 })
    | some _ ↦ make_room fuel (record c { objects = r.1; evictions = saturating_add c.evictions 1 })
  ]
]

-- The insertion, without the replacement of an entry.
unfoldable pub fill_cache : Oid → Object → CacheLayer → Option CacheLayer
unfolding insert_counting_evictions
fill_cache oid object c = do
  r ← insert_counting_evictions (oid.kind, oid) object (length object.payload) c.objects
  some (record c { objects = r.1; evictions = saturating_add c.evictions r.0 })

-- `CacheLayer::insert`. Each turn of the loop takes an entry, so that one more than the entries is
-- enough fuel.
unfoldable pub cache_insert : Oid → Object → CacheLayer → Option CacheLayer
unfolding remove make_room fill_cache len
cache_insert oid object c =
    let bytes = length object.payload in
    if ltb c.options.max_object_bytes bytes || ltb c.options.max_bytes bytes then some c else (do
      r ← remove (oid.kind, oid) c.objects
      let removed = record c { objects = r.1 }
      room ← if is_some r.0 then some removed else make_room (suc (len r.1)) removed
      fill_cache oid object room)

-- `CacheLayer::stats`.
unfoldable pub stats : CacheLayer → CacheStats
unfolding len
stats c = record { bytes = c.objects.used; entries = len c.objects; evictions = c.evictions }
