-- ===== src/Odb/Layered/Others.antt =====
-- The operations of crates/gitility-core/src/layered_odb.rs besides its batch reads: headers, hints,
-- statistics and refreshes.
use gitility.Base.{
  ℕ, suc, Bool, true, false, is_some, ◌||◌, if◌then◌else◌, List, [], ◌∷◌, Option, none, some,
  length,
}
use gitility.Oid.{Oid, ObjectKind}
use gitility.Error.{Error, ErrorCode, Result, ok, err, new_text, with_layer, unsupported_operation}
use gitility.Budget.{charge_header}
use gitility.Odb.{
  Object, ObjectHeader, HeaderRead, verified, CacheStats, World, Io, ObjectDb, Clock, at_now, pure,
  lift, ◌>>=◌, ◌>>◌, map_err,
}
use gitility.Odb.Cache.{CacheLayer, stats}
use gitility.Odb.Layered.{
  Layers, LayeredOdb, in_front, get_cached, on_layer, layered_clock, try_find,
  try_find_many_bounded, ensure_oid,
}

abbrev pub verified_header : ObjectKind → ℕ → HeaderRead
verified_header kind bytes = record {
  header = record { kind = kind; size = bytes };
  provenance = verified;
}

module _ {S : Type 0} (clock : Clock S) where
  -- A look into the cache, if it stands in front of the layer.
  unfoldable pub look : ℕ → Oid → Io (Layers S) (Option Object)
  unfolding get_cached
  look index oid w = if in_front w.outside.cache index then get_cached oid w else pure none w

  abbrev pub header_found :
      Io (Layers S) (Option HeaderRead) → Option HeaderRead → Io (Layers S) (Option HeaderRead)
  header_found rest none = rest
  header_found rest (some read) = pure (some read)

  abbrev pub cached_header :
      Io (Layers S) (Option HeaderRead) → Option Object → Io (Layers S) (Option HeaderRead)
  cached_header rest none = rest
  cached_header rest (some object) =
      at_now (layered_clock clock) charge_header
      >> pure (some (verified_header object.kind (length object.payload)))

  -- The loop over the stores.
  unfoldable pub read_header : ℕ → List (ObjectDb S) → Oid → Io (Layers S) (Option HeaderRead)
  unfolding look
  read_header index [] oid = pure none
  read_header index (layer ∷ layers) oid =
      look index oid
      >>= cached_header (
          map_err (with_layer index) (on_layer (layer.try_header_with_provenance oid))
          >>= header_found (read_header (suc index) layers oid))

  unfoldable pub try_header_with_provenance : LayeredOdb S → Oid → Io (Layers S) (Option HeaderRead)
  unfolding ensure_oid read_header
  try_header_with_provenance store oid =
      lift (ensure_oid store oid) >> read_header 0 store.layers oid

  unfoldable pub try_header : LayeredOdb S → Oid → Io (Layers S) (Option ObjectHeader)
  unfolding try_header_with_provenance
  try_header store oid = try_header_with_provenance store oid >>= λ read.
      pure (elim read [ none ↦ none | some r ↦ some r.header ])

-- `get_or_insert`.
abbrev pub first_of : Option Error → Error → Option Error
first_of none e = some e
first_of (some d) e = some d

abbrev pub is_unsupported : ErrorCode → Bool
is_unsupported code = elim code [ unsupported_operation ↦ true | _ ↦ false ]

-- What the calls of `refresh` gave so far.
pub record Refreshes : Type 0 where
  pub accepted : Bool
  pub first_unsupported : Option Error
  pub first_error : Option Error

abbrev pub no_refreshes : Refreshes
no_refreshes = record { accepted = false; first_unsupported = none; first_error = none }

unfoldable pub note_refresh : ℕ → Result (Unit {0}) → Refreshes → Refreshes
note_refresh index (ok _) r = record r { accepted = true }
note_refresh index (err e) r =
    if is_unsupported e.code
    then record r { first_unsupported = first_of r.first_unsupported (with_layer index e) }
    else record r { first_error = first_of r.first_error (with_layer index e) }

abbrev pub nothing_refreshes : Error
nothing_refreshes = new_text unsupported_operation "no layer supports refresh"

unfoldable pub refresh_result : Refreshes → Result (Unit {0})
refresh_result r = elim r.first_error [
  | some e ↦ err e
  | none ↦
      (if r.accepted
        then ok tt
        else elim r.first_unsupported [ some e ↦ err e | none ↦ err nothing_refreshes ])
]

module _ {S : Type 0} where
  -- A call whose error does not end the operation.
  abbrev pub caught :
      {A : Type 0} → Option (Result A × World S) → Option (Result (Result A) × World S)
  caught none = none
  caught (some (r, w)) = some (ok r, w)

  abbrev pub attempt : {A : Type 0} → Io S A → Io S (Result A)
  attempt io w = caught (io w)

  unfoldable pub refresh_layers : ℕ → List (ObjectDb S) → Refreshes → Io (Layers S) Refreshes
  unfolding note_refresh
  refresh_layers index [] r = pure r
  refresh_layers index (layer ∷ layers) r =
      let rest = refresh_layers (suc index) layers in
      caught_layer layer.refresh >>= λ result. rest (note_refresh index result r)
    where
      caught_layer : Io S (Unit {0}) → Io (Layers S) (Result (Unit {0}))
      caught_layer io = on_layer (attempt io)

  unfoldable pub refresh : LayeredOdb S → Io (Layers S) (Unit {0})
  unfolding refresh_layers refresh_result
  refresh store = refresh_layers 0 store.layers no_refreshes >>= λ r. lift (refresh_result r)

  unfoldable pub prefetch_layers :
      List Oid → List (ObjectDb S) → Option Error → Io (Layers S) (Option Error)
  prefetch_layers oids [] first = pure first
  prefetch_layers oids (layer ∷ layers) first =
      let rest = prefetch_layers oids layers in
      on_layer (attempt (layer.prefetch oids)) >>= λ result.
      rest (elim result [ ok _ ↦ first | err e ↦ first_of first e ])

  unfoldable pub prefetch : LayeredOdb S → List Oid → Io (Layers S) (Unit {0})
  unfolding prefetch_layers
  prefetch store oids = prefetch_layers oids store.layers none >>= λ first.
      lift (elim first [ none ↦ ok tt | some e ↦ err e ])

  abbrev any_prefetch : List (ObjectDb S) → Bool
  any_prefetch [] = false
  any_prefetch (layer ∷ layers) = layer.supports_prefetch || any_prefetch layers

  unfoldable pub supports_prefetch : LayeredOdb S → Bool
  supports_prefetch store = any_prefetch store.layers

unfoldable pub cache_stats : Option (ℕ × CacheLayer) → CacheStats
unfolding stats
cache_stats none = record { bytes = 0; entries = 0; evictions = 0 }
cache_stats (some (index, c)) = stats c

unfoldable pub has_cache : Option (ℕ × CacheLayer) → Bool
has_cache cache = is_some cache

module _ {S : Type 0} (clock : Clock S) where
  -- The layered store behind the trait. It has no shallow roots of its own.
  unfoldable pub layered_db : LayeredOdb S → ObjectDb (Layers S)
  unfolding try_header_with_provenance try_find try_find_many_bounded prefetch supports_prefetch
      refresh
  layered_db store = record {
    hash_kind = store.hash;
    shallow_roots = none;
    try_header_with_provenance = try_header_with_provenance clock store;
    try_find = try_find clock store;
    try_find_many_bounded = try_find_many_bounded clock store;
    prefetch = prefetch store;
    supports_prefetch = supports_prefetch store;
    refresh = refresh store;
  }
