-- ===== src/Odb/Cache/Runs.antt =====
-- Runs of the calls on the cache of crates/gitility-core/src/layered_odb.rs.
use gitility.Base.{◌≤◌, ◌<◌, ◌≡◌, refl, ap, ◌∙◌, List, [], ◌∷◌, Option, some, u64_max, arith}
use gitility.Oid.{Oid}
use gitility.Error.{ok}
use gitility.Budget.{Budget}
use gitility.Lru.{◌>>=◌}
use gitility.Odb.{Object}
use gitility.Odb.Cache.{CacheOptions, CacheLayer, new_layer, cache_get, cache_insert, stats}
use gitility.Odb.Cache.Keeps.{Keeps, Made, cache_get-Served, new_layer-Keeps, len-list}
use gitility.Odb.Cache.Inserts.{cache_insert-Made}

pub data Call : Type 0 where
  read : Oid → Budget → Call
  store : Oid → Object → Call

unfoldable pub call : Call → CacheLayer → Option CacheLayer
unfolding cache_get cache_insert
call (read oid b) c = cache_get oid c b >>= λ r. some r.1
call (store oid object) c = cache_insert oid object c

unfoldable pub run : List Call → CacheLayer → Option CacheLayer
unfolding call
run [] c = some c
run (x ∷ xs) c = call x c >>= run xs

abbrev Any : Oid → Object → Type 0
Any oid object = Unit

read-some :
    (oid : Oid) (b : Budget) (c : CacheLayer) {r : _}
    → cache_get oid c b ≡ some r
    → call (read oid b) c ≡ some r.1
unfolding call
read-some oid b c h = rw (h, call, ◌>>=◌)

call-Made :
    (options : CacheOptions) (x : Call) (c : CacheLayer)
    → Keeps Any options 0 c
    → 0 < options.max_entries
    → Made Any options 0 (call x c)
unfolding call
call-Made options (read oid b) c k m =
    let s = cache_get-Served Any oid options c b k in
    record { cache = s.cache; returns = read-some oid b c s.returns; keeps = s.keeps }
call-Made options (store oid object) c k m = cache_insert-Made Any oid object options c k m tt

run-Made :
    (options : CacheOptions) (xs : List Call) (c : CacheLayer)
    → Keeps Any options 0 c
    → 0 < options.max_entries
    → Made Any options 0 (run xs c)
unfolding run
run-Made options [] c k m = record { cache = c; returns = refl; keeps = k }
run-Made options (x ∷ xs) c k m =
    let a = call-Made options x c k m in
    let b = run-Made options xs a.cache a.keeps m in
    record {
      cache = b.cache;
      returns = ap (λ o. o >>= run xs) a.returns ∙ b.returns;
      keeps = b.keeps;
    }

-- A cache that is made with less than 2^64 - 1 bytes never panics, and stays within its bounds on
-- bytes and entries.
pub run-IsBounded :
    (options : CacheOptions) (xs : List Call) {c : CacheLayer}
    → options.max_bytes < u64_max
    → new_layer options ≡ ok c
    → (d : CacheLayer) × (run xs c ≡ some d)
      × ((stats d).bytes ≤ options.max_bytes)
      × ((stats d).entries ≤ options.max_entries)
unfolding stats
run-IsBounded options xs {c} word new =
    let (k, m) = new_layer-Keeps Any options {c = c} word new in
    let r = run-Made options xs c k m in
    let held = r.keeps.held.holds in
    (
      r.cache,
      r.returns,
      omega (arith, held.weighed, held.within, r.keeps.held.bound),
      omega (
        arith,
        r.keeps.few,
        len-list Any options.max_bytes r.cache.objects r.keeps.list r.keeps.held,
      ),
    )
