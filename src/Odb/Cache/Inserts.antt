-- ===== src/Odb/Cache/Inserts.antt =====
-- The insertion into the cache of crates/gitility-core/src/layered_odb.rs.
use mathlib.Core.Path.{subst}
use gitility.Base.{
  ℕ, zero, suc, ◌≤◌, ◌<◌, ◌≡◌, refl, ap, ◌∙◌, true, false, ◌||◌, ltb, leb, List, [], ◌∷◌, none,
  some, length, All, saturating_add, arith, Bool-cases, Option-cases, inl, inr,
}
use gitility.Oid.{HashKind, Oid}
use gitility.Lru.{◌>>=◌, LruCache, remove, pop_lru, insert_counting_evictions, len}
use gitility.Lru.Segments.{Entry}
use gitility.Lru.Refines.{
  Holds, from-Holds, remove-Refines, pop_lru-Refines, insert-Refines, list-remove,
}
use gitility.Lru.Recency.{length-entries, weight_of, weight_of-entries, lookup, without}
use gitility.Lru.Kept.{insert-All, length-insert, without-All, length-without, length-without-found}
use gitility.Odb.{Object}
use gitility.Odb.Keys.{cache_key}
use gitility.Odb.Cache.{CacheLayer, CacheOptions, make_room, fill_cache, cache_insert}
use gitility.Odb.Cache.Keeps.{Fits, Keeps, Made, len-list}
use gitility.Lru.Recency

module _ (P : Oid → Object → Type 0) where
  room-enough :
      (fuel : ℕ) (c : CacheLayer)
      → leb c.options.max_entries (len c.objects) ≡ false
      → make_room (suc fuel) c ≡ some c
  unfolding make_room
  room-enough fuel c h = rw (h, make_room)

  room-popped :
      (fuel : ℕ) (c : CacheLayer) {o : _} {d : LruCache (HashKind × Oid) Object}
      → leb c.options.max_entries (len c.objects) ≡ true
      → pop_lru c.objects ≡ some (some o, d)
      → make_room (suc fuel) c
        ≡ make_room fuel (record c { objects = d; evictions = saturating_add c.evictions 1 })
  unfolding make_room
  room-popped fuel c h g = rw (h, make_room, g, ◌>>=◌)

  make_room-Made :
      (fuel : ℕ) (options : CacheOptions) (c : CacheLayer)
      (es : List (Entry (HashKind × Oid) Object))
      → Holds options.max_bytes c.objects es
      → All (Fits P) es
      → length es ≤ options.max_entries
      → c.options ≡ options
      → length es < fuel
      → 0 < options.max_entries
      → Made P options 1 (make_room fuel c)
  make_room-Made zero options c es held fits few same h m = absurd (omega (arith, h))
  make_room-Made (suc fuel) options c [] held fits few same h m =
      let n = ap (λ o. o.max_entries) same in
      record {
        cache = c;
        returns =
            room-enough fuel c
              (ground (arith, n, m, len-list P options.max_bytes c.objects [] held));
        keeps = record { list = []; held = held; fits = tt; few = omega (arith, m); same = same };
      }
  make_room-Made (suc fuel) options c (e ∷ es) held fits few same h m =
      elim (Bool-cases (leb c.options.max_entries (len c.objects))) [
        | inr s ↦ record {
          cache = c;
          returns = room-enough fuel c s;
          keeps = record {
            list = e ∷ es;
            held = held;
            fits = fits;
            few =
                (let n = ap (λ o. o.max_entries) same in
                  ground (arith, s, n, len-list P options.max_bytes c.objects (e ∷ es) held));
            same = same;
          };
        }
        | inl s ↦
            (let r =
                from-Holds options.max_bytes c.objects (e ∷ es) (pop_lru c.objects)
                  (λ n ds. Recency.pop_lru ds) (pop_lru-Refines c.objects) held in
              let rest =
                make_room-Made fuel options
                  (record c { objects = r.cache; evictions = saturating_add c.evictions 1 }) es
                  r.kept fits.1 (omega (arith, few)) same (omega (arith, h)) m in
              record {
                cache = rest.cache;
                returns = room-popped fuel c s r.returns ∙ rest.returns;
                keeps = rest.keeps;
              })
      ]

  fill_cache-some :
      (oid : Oid) (object : Object) (c : CacheLayer) {n : ℕ} {d : LruCache (HashKind × Oid) Object}
      → insert_counting_evictions (oid.kind, oid) object (length object.payload) c.objects
        ≡ some (n, d)
      → fill_cache oid object c
        ≡ some (record c { objects = d; evictions = saturating_add c.evictions n })
  unfolding fill_cache
  fill_cache-some oid object c h = rw (h, fill_cache, ◌>>=◌)

  -- With room for another entry, the new one is taken in.
  fill_cache-Made :
      (oid : Oid) (object : Object) (options : CacheOptions) (c : CacheLayer)
      → Keeps P options 1 c
      → P oid object
      → Made P options 0 (fill_cache oid object c)
  fill_cache-Made oid object options c k p =
      let key : HashKind × Oid = (oid.kind, oid) in
      let size = length object.payload in
      let r =
        from-Holds options.max_bytes c.objects k.list
          (insert_counting_evictions key object size c.objects)
          (λ n es. Recency.insert n key object size es) (insert-Refines key object size c.objects)
          k.held in
      record {
        cache = record c {
          objects = r.cache;
          evictions =
              saturating_add c.evictions
                (Recency.insert options.max_bytes key object size k.list).0;
        };
        returns = fill_cache-some oid object c r.returns;
        keeps = record {
          list = (Recency.insert options.max_bytes key object size k.list).1;
          held = r.kept;
          fits = insert-All (Fits P) options.max_bytes key object size k.list k.fits (refl, p);
          few = omega (arith, k.few, length-insert options.max_bytes key object size k.list);
          same = k.same;
        };
      }

  insert-skipped :
      (oid : Oid) (object : Object) (c : CacheLayer)
      → (ltb c.options.max_object_bytes (length object.payload)
          || ltb c.options.max_bytes (length object.payload))
        ≡ true
      → cache_insert oid object c ≡ some c
  unfolding cache_insert
  insert-skipped oid object c h = rw (h, cache_insert)

  insert-replaced :
      (oid : Oid) (object : Object) (c : CacheLayer) {o : _} {d : LruCache (HashKind × Oid) Object}
      → (ltb c.options.max_object_bytes (length object.payload)
          || ltb c.options.max_bytes (length object.payload))
        ≡ false
      → remove (oid.kind, oid) c.objects ≡ some (some o, d)
      → cache_insert oid object c ≡ fill_cache oid object (record c { objects = d })
  unfolding cache_insert
  insert-replaced oid object c h g = rw (h, cache_insert, g, ◌>>=◌)

  insert-added :
      (oid : Oid) (object : Object) (c e : CacheLayer) {d : LruCache (HashKind × Oid) Object}
      → (ltb c.options.max_object_bytes (length object.payload)
          || ltb c.options.max_bytes (length object.payload))
        ≡ false
      → remove (oid.kind, oid) c.objects ≡ some (none, d)
      → make_room (suc (len d)) (record c { objects = d }) ≡ some e
      → cache_insert oid object c ≡ fill_cache oid object e
  unfolding cache_insert
  insert-added oid object c e h g f = rw (h, cache_insert, g, ◌>>=◌, f)

  insert-Made :
      (oid : Oid) (object : Object) (options : CacheOptions) (c : CacheLayer)
      → Keeps P options 0 c
      → 0 < options.max_entries
      → P oid object
      → (ltb c.options.max_object_bytes (length object.payload)
          || ltb c.options.max_bytes (length object.payload))
        ≡ false
      → Made P options 0 (cache_insert oid object c)
  insert-Made oid object options c k m p small =
      let key : HashKind × Oid = (oid.kind, oid) in
      let rest = without key k.list in
      let fits = without-All (Fits P) key k.list k.fits in
      let r =
        from-Holds options.max_bytes c.objects k.list (remove key c.objects)
          (λ n es. Recency.remove key es) (remove-Refines key c.objects) k.held in
      elim (Option-cases (lookup key k.list)) [
        | inl n ↦
            (let is = list-remove key k.list rest none n refl in
              let held = subst (λ o. Holds options.max_bytes r.cache o.1) is r.kept in
              let room =
                make_room-Made (suc (len r.cache)) options (record c { objects = r.cache }) rest
                  held fits (omega (arith, k.few, length-without key k.list)) k.same
                  (omega (arith, len-list P options.max_bytes r.cache rest held)) m in
              let f = fill_cache-Made oid object options room.cache room.keeps p in
              record {
                cache = f.cache;
                returns =
                    insert-added oid object c room.cache small
                      (r.returns ∙ ap (λ o. some (o.0, r.cache)) is) room.returns
                    ∙ f.returns;
                keeps = f.keeps;
              })
        | inr (e, s) ↦
            (let is = list-remove key k.list rest (some e) s refl in
              let f =
                fill_cache-Made oid object options (record c { objects = r.cache })
                  (record {
                    list = rest;
                    held = subst (λ o. Holds options.max_bytes r.cache o.1) is r.kept;
                    fits = fits;
                    few = omega (arith, k.few, length-without-found key k.list {e = e} s);
                    same = k.same;
                  })
                  p in
              record {
                cache = f.cache;
                returns =
                    insert-replaced oid object c small
                      (r.returns ∙ ap (λ o. some (o.0, r.cache)) is)
                    ∙ f.returns;
                keeps = f.keeps;
              })
      ]

  pub cache_insert-Made :
      (oid : Oid) (object : Object) (options : CacheOptions) (c : CacheLayer)
      → Keeps P options 0 c
      → 0 < options.max_entries
      → P oid object
      → Made P options 0 (cache_insert oid object c)
  cache_insert-Made oid object options c k m p =
      elim (Bool-cases (
        ltb c.options.max_object_bytes (length object.payload)
        || ltb c.options.max_bytes (length object.payload))) [
          | inl s ↦ record { cache = c; returns = insert-skipped oid object c s; keeps = k }
          | inr s ↦ insert-Made oid object options c k m p s
        ]
