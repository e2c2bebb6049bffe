-- ===== src/Odb/Layered.antt =====
-- crates/gitility-core/src/layered_odb.rs: stores in order, with at most one cache in front of one of
-- them, which is state of the layered store.
pub mod Others
pub mod Answers
pub mod Reads
pub mod Settled
pub mod Batch
pub mod Refresh
use gitility.Base.{
  ℕ, zero, suc, ◌+◌, ◌-◌, Bool, true, false, not, ◌||◌, ◌==◌, ltb, leb, if◌then◌else◌, List, [],
  ◌∷◌, Option, none, some, length, saturating_add, map,
}
use gitility.Oid.{HashKind, Oid, ObjectKind, kind_eq, oid_eq}
use gitility.Error.{
  Error, Result, ok, err, new_text, with_layer, invalid_oid, hash_mismatch, backend_error,
}
use gitility.Budget.{Budget, charge_header, charge_object}
use gitility.Budget.Suspend.{contains, insert_new}
use gitility.Odb.{
  Object, ObjectHeader, HeaderRead, verified, ReadManyBudget, CacheStats, World, Io, ObjectDb,
  Clock, at_now, pure, fail, lift, ◌>>=◌, ◌>>◌, map_err, enforce_read_many_budget,
}
use gitility.Odb.Cache.{
  CacheOptions, CacheLayer, new_layer, invalid, cache_get, cache_insert, stats,
}

-- The cache with its place among the stores, and what lies outside.
pub record Layers (S : Type 0) : Type 0 where
  pub cache : Option (ℕ × CacheLayer)
  pub lower : S

pub record LayeredOdb (S : Type 0) : Type 0 where
  pub hash : HashKind
  pub layers : List (ObjectDb S)

-- The results by object ID, the latest first.
abbrev pub Resolved : Type 0
Resolved = List (Oid × Option Object)

abbrev pub short_batch_error : Error
short_batch_error =
    new_text backend_error "layer returned a short batch — ObjectDb contract violation"

-- `HashMap::get`, with a missing key read as a miss.
unfoldable pub resolved_at : Oid → Resolved → Option Object
resolved_at oid [] = none
resolved_at oid ((key, value) ∷ rest) = if oid_eq oid key then value else resolved_at oid rest

-- The first appearance of each object ID.
unfoldable pub distinct : List Oid → List Oid → List Oid
unfolding insert_new
distinct seen [] = []
distinct seen (oid ∷ oids) =
    let (seen, fresh) = insert_new oid seen in
    let rest = distinct seen oids in if fresh then oid ∷ rest else rest

abbrev placed : ℕ → Result CacheLayer → Result (Option (ℕ × CacheLayer))
placed index (err e) = err e
placed index (ok c) = ok (some (index, c))

-- The cache of the options, behind the count of the stores.
unfoldable pub cache_of : ℕ → Option (ℕ × CacheOptions) → Result (Option (ℕ × CacheLayer))
unfolding new_layer
cache_of count none = ok none
cache_of count (some (index, options)) =
    if ltb index count
    then placed index (new_layer options)
    else err (invalid "a cache layer must precede at least one object store")

-- `cache_at` and `cache_before`, as tests.
abbrev pub in_front : Option (ℕ × CacheLayer) → ℕ → Bool
in_front none index = false
in_front (some (at, c)) index = at == index

-- The reads that are done: what is left, what was found, and its bytes.
pub record Progress : Type 0 where
  pub unresolved : List Oid
  pub resolved : Resolved
  pub result_bytes : ℕ

abbrev pub shortened : ReadManyBudget → ℕ → ReadManyBudget
shortened read_budget bytes = record {
  max_total_bytes = elim read_budget.max_total_bytes [
    | none ↦ none
    | some maximum ↦ some (maximum - bytes)
  ];
}

-- `resolved.insert(oid, None)` for each object ID that is left.
unfoldable pub with_misses : List Oid → Resolved → Resolved
with_misses [] resolved = resolved
with_misses (oid ∷ oids) resolved = with_misses oids ((oid, none) ∷ resolved)

-- The results in the order of the call.
unfoldable pub results : List Oid → Progress → List (Option Object)
unfolding resolved_at with_misses
results oids p = map (λ oid. resolved_at oid (with_misses p.unresolved p.resolved)) oids

module _ {S : Type 0} where
  abbrev all_of_hash : HashKind → List (ObjectDb S) → Bool
  all_of_hash hash [] = true
  all_of_hash hash (layer ∷ layers) =
      if kind_eq layer.hash_kind hash then all_of_hash hash layers else false

  -- `LayeredOdb::new`: the store and the cache.
  unfoldable pub new_layered :
      List (ObjectDb S)
      → Option (ℕ × CacheOptions)
      → Result (LayeredOdb S × Option (ℕ × CacheLayer))
  unfolding cache_of
  new_layered [] cache = err (invalid "a layered object database requires at least one store")
  new_layered (first ∷ layers) cache =
      if all_of_hash first.hash_kind layers
      then (elim (cache_of (length (first ∷ layers)) cache) [
        | err e ↦ err e
        | ok c ↦ ok (record { hash = first.hash_kind; layers = first ∷ layers }, c)
      ])
      else err (new_text hash_mismatch "layered object stores use different hash algorithms")

  unfoldable pub ensure_oid : LayeredOdb S → Oid → Result (Unit {0})
  ensure_oid store oid =
      if kind_eq oid.kind store.hash
      then ok tt
      else err (new_text invalid_oid "object ID hash does not match the layered store")

  unfoldable pub ensure_oids : LayeredOdb S → List Oid → Result (Unit {0})
  unfolding ensure_oid
  ensure_oids store [] = ok tt
  ensure_oids store (oid ∷ oids) =
      let rest = ensure_oids store oids in
      elim (ensure_oid store oid) [ err e ↦ err e | ok _ ↦ rest ]

  abbrev pub lowered :
      {A : Type 0}
      → Option (ℕ × CacheLayer)
      → Option (Result A × World S)
      → Option (Result A × World (Layers S))
  lowered cache none = none
  lowered cache (some (r, w)) =
      some (r, record { outside = record { cache = cache; lower = w.outside }; budget = w.budget })

  -- A call of a lower store.
  abbrev pub on_layer : {A : Type 0} → Io S A → Io (Layers S) A
  on_layer io w =
      lowered w.outside.cache (io (record { outside = w.outside.lower; budget = w.budget }))

  abbrev pub gotten :
      ℕ
      → World (Layers S)
      → Option (Option Object × CacheLayer × Budget)
      → Option (Result (Option Object) × World (Layers S))
  gotten at w none = none
  gotten at w (some (o, c, b)) =
      some (ok o, record { outside = record (w.outside) { cache = some (at, c) }; budget = b })

  -- `cache.get`, on the cache that there is.
  unfoldable pub get_cached : Oid → Io (Layers S) (Option Object)
  unfolding cache_get
  get_cached oid w = elim w.outside.cache [
    | none ↦ some (ok none, w)
    | some (at, c) ↦ gotten at w (cache_get oid c w.budget)
  ]

  abbrev pub kept_in :
      ℕ → World (Layers S) → Option CacheLayer → Option (Result (Unit {0}) × World (Layers S))
  kept_in at w none = none
  kept_in at w (some c) =
      some (ok tt, record w { outside = record (w.outside) { cache = some (at, c) } })

  -- `cache_before(index)` with `cache.insert`.
  unfoldable pub insert_cached : ℕ → Oid → Object → Io (Layers S) (Unit {0})
  unfolding cache_insert
  insert_cached index oid object w = elim w.outside.cache [
    | none ↦ some (ok tt, w)
    | some (at, c) ↦
        (if leb at index then kept_in at w (cache_insert oid object c) else some (ok tt, w))
  ]

module _ {S : Type 0} (clock : Clock S) where
  abbrev pub layered_clock : Clock (Layers S)
  layered_clock = record {
    read = λ l. let (now, s) = clock.read l.lower in (now, record l { lower = s });
  }

  -- One object ID: what the cache has is charged, and a miss is left for the stores.
  abbrev pub serve_found :
      ReadManyBudget
      → Oid
      → (Resolved → ℕ → Io (Layers S) Progress)
      → Resolved
      → ℕ
      → Option Object
      → Io (Layers S) Progress
  serve_found read_budget oid rest resolved bytes none =
      rest resolved bytes >>= λ p. pure (record p { unresolved = oid ∷ p.unresolved })
  serve_found read_budget oid rest resolved bytes (some object) =
      let size = length object.payload in
      let total = saturating_add bytes size in
      at_now layered_clock (λ now. charge_object now size)
      >> (lift (enforce_read_many_budget total read_budget)
          >> rest ((oid, some object) ∷ resolved) total)

  -- The part of a turn that reads from the cache.
  unfoldable pub serve : ReadManyBudget → List Oid → Resolved → ℕ → Io (Layers S) Progress
  unfolding get_cached
  serve read_budget [] resolved bytes =
      pure (record { unresolved = []; resolved = resolved; result_bytes = bytes })
  serve read_budget (oid ∷ oids) resolved bytes =
      get_cached oid >>= serve_found read_budget oid (serve read_budget oids) resolved bytes

  -- The part of a turn that takes a store's results.
  unfoldable pub absorb :
      ℕ → ReadManyBudget → List Oid → List (Option Object) → Resolved → ℕ → Io (Layers S) Progress
  unfolding insert_cached enforce_read_many_budget
  absorb index read_budget (oid ∷ oids) (some object ∷ values) resolved bytes =
      let total = saturating_add bytes (length object.payload) in
      lift (enforce_read_many_budget total read_budget)
      >> (insert_cached index oid object
          >> absorb index read_budget oids values ((oid, some object) ∷ resolved) total)
  absorb index read_budget (oid ∷ oids) (none ∷ values) resolved bytes =
      absorb index read_budget oids values resolved bytes >>= λ p.
      pure (record p { unresolved = oid ∷ p.unresolved })
  absorb index read_budget oids values resolved bytes =
      pure (record { unresolved = []; resolved = resolved; result_bytes = bytes })

  unfoldable pub serve_at : ℕ → ReadManyBudget → Progress → Io (Layers S) Progress
  unfolding serve
  serve_at index read_budget p w =
      if in_front w.outside.cache index
      then serve read_budget p.unresolved p.resolved p.result_bytes w
      else pure p w

  -- The read of one store, with the results taken.
  unfoldable pub read_layer : ℕ → ReadManyBudget → ObjectDb S → Progress → Io (Layers S) Progress
  unfolding absorb
  read_layer index read_budget layer p =
      map_err (with_layer index)
        (on_layer (layer.try_find_many_bounded p.unresolved (shortened read_budget p.result_bytes)))
      >>= λ values.
          if length values == length p.unresolved
          then absorb index read_budget p.unresolved values p.resolved p.result_bytes
          else fail (with_layer index short_batch_error)

  -- The loop over the stores.
  unfoldable pub read_layers :
      ℕ → ReadManyBudget → List (ObjectDb S) → Progress → Io (Layers S) Progress
  unfolding serve_at read_layer
  read_layers index read_budget [] p = pure p
  read_layers index read_budget (layer ∷ layers) p =
      let rest = read_layers (suc index) read_budget layers in
      serve_at index read_budget p >>= λ q.
      if length q.unresolved == 0
      then pure q
      else (read_layer index read_budget layer q >>= λ r. rest r)

  unfoldable pub try_find_many_bounded :
      LayeredOdb S → List Oid → ReadManyBudget → Io (Layers S) (List (Option Object))
  unfolding ensure_oids distinct read_layers results
  try_find_many_bounded store oids read_budget =
      lift (ensure_oids store oids)
      >> (read_layers 0 read_budget store.layers
            (record { unresolved = distinct [] oids; resolved = []; result_bytes = 0 })
          >>= λ p. pure (results oids p))

  abbrev only : List (Option Object) → Result (Option Object)
  only (value ∷ []) = ok value
  only _ = err short_batch_error

  -- `try_find`: the batch of one.
  unfoldable pub try_find : LayeredOdb S → Oid → Io (Layers S) (Option Object)
  unfolding try_find_many_bounded
  try_find store oid =
      try_find_many_bounded store (oid ∷ []) (record { max_total_bytes = none }) >>= λ values.
      lift (only values)
