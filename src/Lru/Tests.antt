-- ===== src/Lru/Tests.antt =====
-- The tests of crates/gitility-core/src/lru.rs, on keys that are numbers.
use gitility.Base.{Option, ℕ, ◌≤◌, ◌≡◌, refl, [], ◌∷◌, List, some, none, ◌==◌, arith, length}
use gitility.Lru.{Key, LruCache, new_cache, len}
use gitility.Lru.Recency.{weight_of}
use gitility.Lru.Runs.{
  Operation, get_key, clone_key, insert_only, insert_entry, pop_least, clear_all, remove_key, value,
  entry, evictions, finished, run, list_run, run-new_cache,
}

instance number_key : Key ℕ
number_key = record {
  same = λ a b. a == b;
  same_iff = λ a b. (λ h. ground (arith, h), λ h. ground (arith, h));
}

abbrev touched : List (Operation ℕ ℕ)
touched =
    insert_entry 10 1 1
    ∷ insert_entry 20 2 1
    ∷ insert_entry 30 3 1
    ∷ get_key 10
    ∷ insert_entry 40 4 1
    ∷ get_key 20
    ∷ get_key 10
    ∷ insert_entry 50 5 3
    ∷ get_key 50
    ∷ []

abbrev popped : List (Operation ℕ ℕ)
popped =
    insert_entry 10 1 2
    ∷ insert_entry 20 2 3
    ∷ insert_entry 30 3 4
    ∷ get_key 10
    ∷ pop_least
    ∷ pop_least
    ∷ pop_least
    ∷ pop_least
    ∷ []

touched_outputs :
    (list_run 3 touched []).0
    ≡ evictions 0
      ∷ evictions 0
      ∷ evictions 0
      ∷ value (some 1)
      ∷ evictions 1
      ∷ value none
      ∷ value (some 1)
      ∷ evictions 3
      ∷ value (some 5)
      ∷ []
unfolding list_run number_key
touched_outputs = refl

popped_outputs :
    (list_run 10 popped []).0
    ≡ evictions 0
      ∷ evictions 0
      ∷ evictions 0
      ∷ value (some 1)
      ∷ entry (some (20, 2))
      ∷ entry (some (30, 3))
      ∷ entry (some (10, 1))
      ∷ entry none
      ∷ []
unfolding list_run number_key
popped_outputs = refl

abbrev outputs_of : {A C : Type 0} → Option (A × C) → Option A
outputs_of none = none
outputs_of (some r) = some r.0

-- A removal, a refused entry that is heavier than the cache, a reused slot and a clear.
abbrev mixed : List (Operation ℕ ℕ)
mixed =
    insert_entry 10 1 1
    ∷ insert_entry 20 2 1
    ∷ remove_key 10
    ∷ insert_entry 30 3 2
    ∷ insert_entry 20 4 9
    ∷ clear_all
    ∷ insert_entry 40 5 1
    ∷ insert_only 50 6 1
    ∷ clone_key 40
    ∷ []

mixed_runs :
    outputs_of (run mixed (new_cache 3))
    ≡ some (
        evictions 0
        ∷ evictions 0
        ∷ value (some 1)
        ∷ evictions 0
        ∷ evictions 0
        ∷ finished
        ∷ evictions 0
        ∷ finished
        ∷ value (some 5)
        ∷ [])
unfolding run new_cache number_key
mixed_runs = refl

run-new_cache_example :
    (c : LruCache ℕ ℕ) × (run mixed (new_cache 3) ≡ some ((list_run 3 mixed []).0, c))
    × (c.used ≡ weight_of (list_run 3 mixed []).1)
    × (len c ≡ length (list_run 3 mixed []).1)
    × (c.used ≤ 3)
run-new_cache_example = run-new_cache 3 mixed (ground arith)
