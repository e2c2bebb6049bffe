-- ===== src/Lru/Runs.antt =====
-- Runs of the operations of crates/gitility-core/src/lru.rs beside the same runs of the recency list.
use mathlib.Core.Path.{sym}
use gitility.Base.{
  ℕ, zero, suc, ◌≤◌, ◌<◌, ◌≡◌, refl, ap, ◌∙◌, false, List, [], ◌∷◌, Option, none, some, length,
  u64_max, arith, get_elem?,
}
use gitility.Lru.{
  ◌>>=◌, Key, Slots, LruCache, get, remove, pop_lru, insert_counting_evictions, insert, get_cloned,
  new_cache, clear, clear_slots, descending, len, find_index,
}
use gitility.Lru.Segments.{Entry}
use gitility.Lru.Keys.{index_of}
use gitility.Lru.Cells.{AreFree, AreUnique, contains}
use gitility.Lru.Represents.{Represents}
use gitility.Lru.Recency.{entries, weight_of, weight_of-entries, length-entries}
use gitility.Lru.Refines.{
  Holds, from-Holds, Refines, get-Refines, remove-Refines, pop_lru-Refines, insert-Refines,
}
use gitility.Lru.Recency

pub data Operation (K V : Type 0) : Type 0 where
  get_key : K → Operation K V
  clone_key : K → Operation K V
  remove_key : K → Operation K V
  insert_entry : K → V → ℕ → Operation K V
  insert_only : K → V → ℕ → Operation K V
  pop_least : Operation K V
  clear_all : Operation K V

pub data Output (K V : Type 0) : Type 0 where
  value : Option V → Output K V
  entry : Option (K × V) → Output K V
  evictions : ℕ → Output K V
  finished : Output K V

descending-contains : (n i : ℕ) → n ≤ i → contains i (descending n) ≡ false
unfolding descending
descending-contains zero i h = refl
descending-contains (suc n) i h = grind (arith, h, descending-contains n i)

descending-AreUnique : (n : ℕ) → AreUnique (descending n)
unfolding descending
descending-AreUnique zero = tt
descending-AreUnique (suc n) = (descending-contains n n (omega arith), descending-AreUnique n)

module _ {K V : Type 0} where
  clear_slots-none :
      (nodes : Slots K V) (i : ℕ) → i < length nodes → get_elem? (clear_slots nodes) i ≡ some none
  unfolding clear_slots
  clear_slots-none [] i h = absurd (omega (arith, h))
  clear_slots-none (s ∷ nodes) zero h = refl
  clear_slots-none (s ∷ nodes) (suc i) h = clear_slots-none nodes i (omega (arith, h))

  descending-AreFree :
      (nodes : Slots K V) (n : ℕ) → n ≤ length nodes → AreFree (clear_slots nodes) (descending n)
  unfolding descending
  descending-AreFree nodes zero h = tt
  descending-AreFree nodes (suc n) h =
      (clear_slots-none nodes n (omega (arith, h)), descending-AreFree nodes n (omega (arith, h)))

module _ {K V : Type 0} ⦃eq : Key K⦄ where
  clear-Represents : (c : LruCache K V) → c.capacity < u64_max → Represents (clear c) []
  unfolding clear find_index index_of
  clear-Represents c word = record {
    links = tt;
    least = refl;
    most = refl;
    apart = tt;
    keyed = tt;
    indexed = λ k. refl;
    mapped = tt;
    counted = refl;
    unused = descending-AreFree c.nodes (length c.nodes) (omega arith);
    unique = descending-AreUnique (length c.nodes);
    weighed = refl;
    within = omega arith;
    word = word;
  }

  pub new_cache-Represents :
      (capacity : ℕ) → capacity < u64_max → Represents (new_cache {K = K} {V = V} capacity) []
  unfolding new_cache find_index index_of
  new_cache-Represents capacity word = record {
    links = tt;
    least = refl;
    most = refl;
    apart = tt;
    keyed = tt;
    indexed = λ k. refl;
    mapped = tt;
    counted = refl;
    unused = tt;
    unique = tt;
    weighed = refl;
    within = omega arith;
    word = word;
  }

  abbrev tagged :
      {A : Type 0}
      → (A → Output K V)
      → Option (A × LruCache K V)
      → Option (Output K V × LruCache K V)
  tagged f result = result >>= λ r. some (f r.0, r.1)

  unfoldable pub apply : Operation K V → LruCache K V → Option (Output K V × LruCache K V)
  unfolding get remove insert_counting_evictions insert pop_lru clear
  apply (get_key k) c = tagged value (get k c)
  apply (clone_key k) c = tagged value (get_cloned k c)
  apply (remove_key k) c = tagged value (remove k c)
  apply (insert_entry k v w) c = tagged evictions (insert_counting_evictions k v w c)
  apply (insert_only k v w) c = insert k v w c >>= λ d. some (finished, d)
  apply pop_least c = tagged entry (pop_lru c)
  apply clear_all c = some (finished, clear c)

  unfoldable pub run :
      List (Operation K V) → LruCache K V → Option (List (Output K V) × LruCache K V)
  unfolding apply
  run [] c = some ([], c)
  run (o ∷ os) c = apply o c >>= λ r. run os r.1 >>= λ s. some (r.0 ∷ s.0, s.1)

  abbrev list_tagged :
      {A : Type 0} → (A → Output K V) → A × List (Entry K V) → Output K V × List (Entry K V)
  list_tagged f r = (f r.0, r.1)

  unfoldable pub list_apply : ℕ → Operation K V → List (Entry K V) → Output K V × List (Entry K V)
  unfolding Recency.get Recency.remove Recency.insert
  list_apply capacity (get_key k) es = list_tagged value (Recency.get k es)
  list_apply capacity (clone_key k) es = list_tagged value (Recency.get k es)
  list_apply capacity (remove_key k) es = list_tagged value (Recency.remove k es)
  list_apply capacity (insert_entry k v w) es =
      list_tagged evictions (Recency.insert capacity k v w es)
  list_apply capacity (insert_only k v w) es = (finished, (Recency.insert capacity k v w es).1)
  list_apply capacity pop_least es = list_tagged entry (Recency.pop_lru es)
  list_apply capacity clear_all es = (finished, [])

  unfoldable pub list_run :
      ℕ → List (Operation K V) → List (Entry K V) → List (Output K V) × List (Entry K V)
  unfolding list_apply
  list_run capacity [] es = ([], es)
  list_run capacity (o ∷ os) es =
      let r = list_apply capacity o es in let s = list_run capacity os r.1 in (r.0 ∷ s.0, s.1)

  tagged-Refines :
      {A : Type 0} (f : A → Output K V) (capacity : ℕ) {result : Option (A × LruCache K V)}
      {expected : A × List (Entry K V)}
      → Refines capacity result expected
      → Refines capacity (tagged f result) (list_tagged f expected)
  tagged-Refines f capacity r = record {
    cache = r.cache;
    returns = ap (tagged f) r.returns;
    kept = r.kept;
  }

  insert-returns :
      (k : K) (v : V) (w : ℕ) (c d : LruCache K V) {n : ℕ}
      → insert_counting_evictions k v w c ≡ some (n, d)
      → apply (insert_only k v w) c ≡ some (finished, d)
  unfolding apply insert
  insert-returns k v w c d h = rw (h, insert, ◌>>=◌)

  apply-cells :
      (o : Operation K V) (c : LruCache K V) (cells : List (ℕ × Entry K V))
      → Represents c cells
      → Refines c.capacity (apply o c) (list_apply c.capacity o (entries cells))
  unfolding apply list_apply clear
  apply-cells (get_key k) c cells r = tagged-Refines value c.capacity (get-Refines k c cells r)
  apply-cells (clone_key k) c cells r = tagged-Refines value c.capacity (get-Refines k c cells r)
  apply-cells (remove_key k) c cells r =
      tagged-Refines value c.capacity (remove-Refines k c cells r)
  apply-cells (insert_entry k v w) c cells r =
      tagged-Refines evictions c.capacity (insert-Refines k v w c cells r)
  apply-cells (insert_only k v w) c cells r =
      let i = insert-Refines k v w c cells r in
      record { cache = i.cache; returns = insert-returns k v w c i.cache i.returns; kept = i.kept }
  apply-cells pop_least c cells r = tagged-Refines entry c.capacity (pop_lru-Refines c cells r)
  apply-cells clear_all c cells r = record {
    cache = clear c;
    returns = refl;
    kept = record { cells = []; holds = clear-Represents c r.word; is = refl; bound = refl };
  }

  apply-Refines :
      (capacity : ℕ) (o : Operation K V) (c : LruCache K V) (es : List (Entry K V))
      → Holds capacity c es
      → Refines capacity (apply o c) (list_apply capacity o es)
  apply-Refines capacity o c es h =
      from-Holds capacity c es (apply o c) (λ n ds. list_apply n o ds) (apply-cells o c) h

  run-more :
      (o : Operation K V) (os : List (Operation K V)) (c d e : LruCache K V) {a : Output K V}
      {outputs : List (Output K V)}
      → apply o c ≡ some (a, d)
      → run os d ≡ some (outputs, e)
      → run (o ∷ os) c ≡ some (a ∷ outputs, e)
  unfolding run
  run-more o os c d e h g = rw (h, run, ◌>>=◌, g)

  run-Refines :
      (capacity : ℕ) (os : List (Operation K V)) (c : LruCache K V) (es : List (Entry K V))
      → Holds capacity c es
      → Refines capacity (run os c) (list_run capacity os es)
  unfolding run list_run
  run-Refines capacity [] c es h = record { cache = c; returns = refl; kept = h }
  run-Refines capacity (o ∷ os) c es h =
      let a = apply-Refines capacity o c es h in
      let b = run-Refines capacity os a.cache (list_apply capacity o es).1 a.kept in
      record {
        cache = b.cache;
        returns = run-more o os c a.cache b.cache a.returns b.returns;
        kept = b.kept;
      }

  -- For a capacity below 2^64 - 1, a run of operations from the empty cache never panics, and gives
  -- the outputs of the recency list.
  pub run-new_cache :
      (capacity : ℕ) (os : List (Operation K V))
      → capacity < u64_max
      → (c : LruCache K V) × (run os (new_cache capacity) ≡ some ((list_run capacity os []).0, c))
        × (c.used ≡ weight_of (list_run capacity os []).1)
        × (len c ≡ length (list_run capacity os []).1)
        × (c.used ≤ capacity)
  unfolding len new_cache
  run-new_cache capacity os word =
      let r = run-Refines capacity os (new_cache capacity) [] (record {
        cells = [];
        holds = new_cache-Represents capacity word;
        is = refl;
        bound = refl;
      }) in
      let held = r.kept.holds in
      (
        r.cache,
        r.returns,
        held.weighed ∙ sym (weight_of-entries r.kept.cells) ∙ ap weight_of r.kept.is,
        held.counted ∙ sym (length-entries r.kept.cells) ∙ ap length r.kept.is,
        omega (arith, held.weighed, held.within, r.kept.bound),
      )
