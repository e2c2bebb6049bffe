-- ===== src/Odb/Layered/Refresh.antt =====
-- The refresh of all layers in crates/gitility-core/src/layered_odb.rs.
use gitility.Base.{
  ℕ, suc, ◌≡◌, ap, ◌∙◌, Bool, true, false, ◌||◌, if◌then◌else◌, List, [], ◌∷◌, Option, none, some,
  arith,
}
use gitility.Error.{Error, Result, ok, err, with_layer}
use gitility.Odb.{World, ObjectDb}
use gitility.Odb.Layered.{Layers, LayeredOdb}
use gitility.Odb.Layered.Others.{
  Refreshes, no_refreshes, note_refresh, refresh_result, refresh_layers, refresh, is_unsupported,
  nothing_refreshes,
}

-- The first error of the layers that is a refusal, or that is none, with its layer.
abbrev pub first_error : Bool → ℕ → List (Result (Unit {0})) → Option Error
first_error refused index [] = none
first_error refused index (ok _ ∷ results) = first_error refused (suc index) results
first_error true index (err e ∷ results) =
    if is_unsupported e.code
    then some (with_layer index e)
    else first_error true (suc index) results
first_error false index (err e ∷ results) =
    if is_unsupported e.code
    then first_error false (suc index) results
    else some (with_layer index e)

abbrev pub some_accepts : List (Result (Unit {0})) → Bool
some_accepts [] = false
some_accepts (ok _ ∷ results) = true
some_accepts (err e ∷ results) = some_accepts results

abbrev or_refused : Option Error → Result (Unit {0})
or_refused none = err nothing_refreshes
or_refused (some e) = err e

abbrev unless_failed : Option Error → Result (Unit {0}) → Result (Unit {0})
unless_failed none r = r
unless_failed (some e) r = err e

-- A failure of any layer counts before the success of another, which counts before a refusal.
unfoldable pub refresh_of : List (Result (Unit {0})) → Result (Unit {0})
refresh_of results =
    unless_failed (first_error false 0 results)
      (if some_accepts results then ok tt else or_refused (first_error true 0 results))

abbrev pub note_all : ℕ → List (Result (Unit {0})) → Refreshes → Refreshes
note_all index [] r = r
note_all index (x ∷ xs) r = note_all (suc index) xs (note_refresh index x r)

abbrev or_first : Option Error → Option Error → Option Error
or_first none e = e
or_first (some d) e = some d

note_all-accepted :
    (index : ℕ) (xs : List (Result (Unit {0}))) (r : Refreshes)
    → (note_all index xs r).accepted ≡ (r.accepted || some_accepts xs)
unfolding note_refresh
note_all-accepted index [] r = ground arith
note_all-accepted index (ok _ ∷ xs) r =
    let rest = note_all-accepted (suc index) xs (record r { accepted = true }) in
    grind (arith, rest)
note_all-accepted index (err e ∷ xs) r =
    let rest = note_all-accepted (suc index) xs (note_refresh index (err e) r) in
    grind (arith, rest)

note_all-first_error :
    (index : ℕ) (xs : List (Result (Unit {0}))) (r : Refreshes)
    → (note_all index xs r).first_error ≡ or_first r.first_error (first_error false index xs)
unfolding note_refresh
note_all-first_error index [] r = grind arith
note_all-first_error index (ok _ ∷ xs) r =
    note_all-first_error (suc index) xs (record r { accepted = true })
note_all-first_error index (err e ∷ xs) r =
    let rest = note_all-first_error (suc index) xs (note_refresh index (err e) r) in
    grind (arith, rest)

note_all-first_unsupported :
    (index : ℕ) (xs : List (Result (Unit {0}))) (r : Refreshes)
    → (note_all index xs r).first_unsupported
      ≡ or_first r.first_unsupported (first_error true index xs)
unfolding note_refresh
note_all-first_unsupported index [] r = grind arith
note_all-first_unsupported index (ok _ ∷ xs) r =
    note_all-first_unsupported (suc index) xs (record r { accepted = true })
note_all-first_unsupported index (err e ∷ xs) r =
    let rest = note_all-first_unsupported (suc index) xs (note_refresh index (err e) r) in
    grind (arith, rest)

refresh_result-note_all :
    (xs : List (Result (Unit {0}))) → refresh_result (note_all 0 xs no_refreshes) ≡ refresh_of xs
unfolding refresh_result refresh_of
refresh_result-note_all xs = grind (
  arith,
  note_all-accepted 0 xs no_refreshes,
  note_all-first_error 0 xs no_refreshes,
  note_all-first_unsupported 0 xs no_refreshes,
)

module _ {S : Type 0} where
  -- The calls of `refresh` on some stores, with their results.
  abbrev pub Calls : List (ObjectDb S) → World S → List (Result (Unit {0})) → World S → Type 0
  Calls [] w [] v = w ≡ v
  Calls [] w (x ∷ xs) v = ⊥
  Calls (layer ∷ layers) w [] v = ⊥
  Calls (layer ∷ layers) w (x ∷ xs) v =
      (u : World S) × (layer.refresh w ≡ some (x, u)) × Calls layers u xs v

  abbrev below : World (Layers S) → World S
  below w = record { outside = w.outside.lower; budget = w.budget }

  abbrev pub above : World (Layers S) → World S → World (Layers S)
  above w v = record {
    outside = record { cache = w.outside.cache; lower = v.outside };
    budget = v.budget;
  }

  refresh_layers-next :
      (index : ℕ) (layer : ObjectDb S) (layers : List (ObjectDb S)) (r : Refreshes)
      (w : World (Layers S)) (u : World S) {x : Result (Unit {0})}
      → layer.refresh (below w) ≡ some (x, u)
      → refresh_layers index (layer ∷ layers) r w
        ≡ refresh_layers (suc index) layers (note_refresh index x r) (above w u)
  unfolding refresh_layers
  refresh_layers-next index layer layers r w u h = rw h

  refresh_layers-Calls :
      (index : ℕ) (layers : List (ObjectDb S)) (xs : List (Result (Unit {0}))) (r : Refreshes)
      (w : World (Layers S)) (v : World S)
      → Calls layers (below w) xs v
      → refresh_layers index layers r w ≡ some (ok (note_all index xs r), above w v)
  unfolding refresh_layers
  refresh_layers-Calls index [] [] r w v h = ap (λ u. some (ok r, above w u)) h
  refresh_layers-Calls index [] (x ∷ xs) r w v h = absurd h
  refresh_layers-Calls index (layer ∷ layers) [] r w v h = absurd h
  refresh_layers-Calls index (layer ∷ layers) (x ∷ xs) r w v (u, is, rest) =
      refresh_layers-next index layer layers r w u is
      ∙ refresh_layers-Calls (suc index) layers xs (note_refresh index x r) (above w u) v rest

  -- A refresh calls every layer, in order, whatever the others answer; it fails with the first
  -- failure, else it succeeds if a layer does, else it gives the first refusal.
  pub refresh-Calls :
      (store : LayeredOdb S) (w : World (Layers S)) (xs : List (Result (Unit {0}))) (v : World S)
      → Calls store.layers (below w) xs v
      → refresh store w ≡ some (refresh_of xs, above w v)
  unfolding refresh
  refresh-Calls store w xs v h =
      rw (refresh_layers-Calls 0 store.layers xs no_refreshes w v h)
        (ap (λ r. some (r, above w v)) (refresh_result-note_all xs))
