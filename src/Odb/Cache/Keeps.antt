-- ===== src/Odb/Cache/Keeps.antt =====
-- What the cache of crates/gitility-core/src/layered_odb.rs holds: entries of its own keys, with a
-- property of theirs, within the bounds of the options.
use mathlib.Core.Path.{subst, sym}
use gitility.Base.{
  ℕ, ◌+◌, ◌≤◌, ◌<◌, ◌≡◌, refl, ap, ◌∙◌, List, [], Option, some, length, All, u64_max, arith,
}
use gitility.Oid.{HashKind, Oid}
use gitility.Error.{ok}
use gitility.Budget.{Budget}
use gitility.Lru.{◌>>=◌, LruCache, get, len}
use gitility.Lru.Segments.{Entry}
use gitility.Lru.Refines.{Holds, from-Holds, get-Refines}
use gitility.Lru.Recency.{length-entries, weight_of, weight_of-entries, lookup, without}
use gitility.Lru.Kept.{get-All, get-found, length-get}
use gitility.Odb.{Object}
use gitility.Odb.Keys.{cache_key}
use gitility.Odb.Cache.{CacheLayer, CacheOptions, cache_get, recorded, new_layer}
use gitility.Lru.Runs.{new_cache-Represents}
use gitility.Lru.{new_cache}
use gitility.Lru.Recency

module _ (P : Oid → Object → Type 0) where
  abbrev pub Fits : Entry (HashKind × Oid) Object → Type 0
  Fits e = (e.key ≡ (e.key.1.kind, e.key.1)) × P e.key.1 e.value

  -- The room that a cache keeps for another entry, above `room` entries, is 0 or more.
  pub record Keeps (options : CacheOptions) (room : ℕ) (c : CacheLayer) : Type 0 where
    pub list : List (Entry (HashKind × Oid) Object)
    pub held : Holds options.max_bytes c.objects list
    pub fits : All Fits list
    pub few : length list + room ≤ options.max_entries
    pub same : c.options ≡ options

  get-some :
      (oid : Oid) (c : CacheLayer) (b : Budget) {o : Option Object}
      {d : LruCache (HashKind × Oid) Object}
      → get (oid.kind, oid) c.objects ≡ some (o, d)
      → cache_get oid c b ≡ some (o, record c { objects = d }, recorded o b)
  unfolding cache_get
  get-some oid c b h = rw (h, cache_get, ◌>>=◌)

  -- A hit has the property, and the cache keeps its entries.
  pub record Served (oid : Oid) (options : CacheOptions) (b : Budget)
      (result : Option (Option Object × CacheLayer × Budget)) : Type 0 where
    pub object : Option Object
    pub cache : CacheLayer
    pub returns : result ≡ some (object, cache, recorded object b)
    pub keeps : Keeps options 0 cache
    pub found : (o : Object) → object ≡ some o → P oid o

  pub cache_get-Served :
      (oid : Oid) (options : CacheOptions) (c : CacheLayer) (b : Budget)
      → Keeps options 0 c
      → Served oid options b (cache_get oid c b)
  cache_get-Served oid options c b k =
      let key : HashKind × Oid = (oid.kind, oid) in
      let r =
        from-Holds options.max_bytes c.objects k.list (get key c.objects)
          (λ n es. Recency.get key es) (get-Refines key c.objects) k.held in
      record {
        object = (Recency.get key k.list).0;
        cache = record c { objects = r.cache };
        returns = get-some oid c b r.returns;
        keeps = record {
          list = (Recency.get key k.list).1;
          held = r.kept;
          fits = get-All Fits key k.list k.fits;
          few = omega (arith, k.few, length-get key k.list);
          same = k.same;
        };
        found = λ o is.
            let (e, q, at, v) = get-found Fits key k.list {v = o} k.fits is in
            subst (P oid) v (subst (λ k. P k.1 e.value) at q.1);
      }

  pub len-list :
      (capacity : ℕ) (c : LruCache (HashKind × Oid) Object)
      (es : List (Entry (HashKind × Oid) Object))
      → Holds capacity c es
      → len c ≡ length es
  unfolding len
  len-list capacity c es h = h.holds.counted ∙ sym (length-entries h.cells) ∙ ap length h.is

  pub record Made (options : CacheOptions) (room : ℕ) (result : Option CacheLayer) : Type 0 where
    pub cache : CacheLayer
    pub returns : result ≡ some cache
    pub keeps : Keeps options room cache

  new_layer-ok :
      (options : CacheOptions) {c : CacheLayer}
      → new_layer options ≡ ok c
      → (0 < options.max_entries)
        × (c ≡ record { options = options; objects = new_cache options.max_bytes; evictions = 0 })
  unfolding new_layer
  new_layer-ok options h = ground (arith, h)

  -- A new cache keeps no entry.
  pub new_layer-Keeps :
      (options : CacheOptions) {c : CacheLayer}
      → options.max_bytes < u64_max
      → new_layer options ≡ ok c
      → Keeps options 0 c × (0 < options.max_entries)
  unfolding new_cache
  new_layer-Keeps options word h =
      let (m, is) = new_layer-ok options h in
      (
        subst (Keeps options 0) (sym is) (record {
          list = [];
          held = record {
            cells = [];
            holds = new_cache-Represents options.max_bytes word;
            is = refl;
            bound = refl;
          };
          fits = tt;
          few = omega arith;
          same = refl;
        }),
        m,
      )
