-- ===== src/Lru/Refines.antt =====
-- Runs of the operations of crates/gitility-core/src/lru.rs beside the same runs of the recency list.
use mathlib.Core.Path.{subst, sym}
use gitility.Base.{
  get_elem?, ℕ, suc, ◌+◌, ◌-◌, ◌≡◌, refl, ap, ◌∙◌, true, false, List, [], ◌∷◌, ◌++◌, Option, none,
  some, ◌==◌, ◌||◌, ltb, length, min, u64_max, arith, Bool-cases, inl, inr,
}
use gitility.Lru.{
  ◌>>=◌, Key, Node, LruCache, find_index, touch, remove_index, get, remove, pop_lru, evict,
  take_slot, fill, drop_key, insert_counting_evictions,
}
use gitility.Lru.Segments.{Entry}
use gitility.Lru.Represents.{Represents, remove_index-Represents}
use gitility.Lru.Moves.{touch-Represents}
use gitility.Lru.Insert.{take_slot-Ready, fill-Represents}
use gitility.Lru.Recency.{
  entries, entries-append, weight_of, weight_of-entries, length-entries, kept, lookup, without,
  without-absent, without-found, lookup-absent, lookup-found,
}
use gitility.Lru.Located.{locate}
use gitility.Lru.Evict.{evict-Evicted, drop_key-Dropped}
use gitility.Lru.Recency

module _ {K V : Type 0} ⦃eq : Key K⦄ where
  -- A cache of some capacity that holds the entries, the least recent first.
  pub record Holds (capacity : ℕ) (c : LruCache K V) (es : List (Entry K V)) : Type 0 where
    pub cells : List (ℕ × Entry K V)
    pub holds : Represents c cells
    pub is : entries cells ≡ es
    pub bound : c.capacity ≡ capacity

  -- An operation gives the output and the cache of its counterpart on the list.
  pub record Refines {A : Type 0} (capacity : ℕ) (result : Option (A × LruCache K V))
      (expected : A × List (Entry K V)) : Type 0 where
    pub cache : LruCache K V
    pub returns : result ≡ some (expected.0, cache)
    pub kept : Holds capacity cache expected.1

  -- From the cells of a cache to its entries.
  pub from-Holds :
      {A : Type 0} (capacity : ℕ) (c : LruCache K V) (es : List (Entry K V))
      (result : Option (A × LruCache K V)) (expected : ℕ → List (Entry K V) → A × List (Entry K V))
      → ((cells : List (ℕ × Entry K V))
          → Represents c cells
          → Refines c.capacity result (expected c.capacity (entries cells)))
      → Holds capacity c es
      → Refines capacity result (expected capacity es)
  from-Holds capacity c es result expected f h =
      subst (λ n. Refines n result (expected n es)) h.bound
        (subst (λ ds. Refines c.capacity result (expected c.capacity ds)) h.is (f h.cells h.holds))

  get-absent : (k : K) (c : LruCache K V) → find_index k c.indices ≡ none → get k c ≡ some (none, c)
  unfolding get
  get-absent k c h = rw (h, get)

  get-found :
      (k : K) (i : ℕ) (c d : LruCache K V) {n : Node K V}
      → find_index k c.indices ≡ some i
      → touch i c ≡ some d
      → get_elem? d.nodes i ≡ some (some n)
      → get k c ≡ some (some n.value, d)
  unfolding get
  get-found k i c d h g n = rw (h, get, g, ◌>>=◌, n)

  pub list-get-absent :
      (k : K) (es : List (Entry K V)) → lookup k es ≡ none → Recency.get k es ≡ (none, es)
  unfolding Recency.get
  list-get-absent k es h = rw (h, Recency.get)

  pub list-get-found :
      (k : K) (es rest : List (Entry K V)) {e : Entry K V}
      → lookup k es ≡ some e
      → without k es ≡ rest
      → Recency.get k es ≡ (some e.value, rest ++ (e ∷ []))
  unfolding Recency.get
  list-get-found k es rest h g = rw (h, g, Recency.get)

  -- A result that refines one expectation refines an equal one.
  refine :
      {A : Type 0} (capacity : ℕ) {result : Option (A × LruCache K V)}
      {expected other : A × List (Entry K V)}
      → expected ≡ other
      → Refines capacity result expected
      → Refines capacity result other
  refine capacity {result} e r = subst (Refines capacity result) e r

  pub get-Refines :
      (k : K) (c : LruCache K V) (cells : List (ℕ × Entry K V))
      → Represents c cells
      → Refines c.capacity (get k c) (Recency.get k (entries cells))
  get-Refines k c cells r = elim (locate k c cells r) [
    | inl a ↦ refine c.capacity (sym (list-get-absent k (entries cells) a.unlisted)) (record {
      cache = c;
      returns = get-absent k c a.unmapped;
      kept = record { cells = cells; holds = r; is = refl; bound = refl };
    })
    | inr f ↦
        (let (d, touches, rep, cap, (n, at, is)) =
            touch-Represents c f.front f.back f.index f.entry f.holds in
          refine c.capacity
            (sym (list-get-found k (entries cells) (entries (f.front ++ f.back)) f.listed f.others))
            (record {
              cache = d;
              returns = get-found k f.index c d f.mapped touches at ∙ ap (λ v. some (some v, d)) is;
              kept = record {
                cells = (f.front ++ f.back) ++ ((f.index, f.entry) ∷ []);
                holds = rep;
                is = entries-append (f.front ++ f.back) ((f.index, f.entry) ∷ []);
                bound = cap;
              };
            }))
  ]

  remove-absent :
      (k : K) (c : LruCache K V) → find_index k c.indices ≡ none → remove k c ≡ some (none, c)
  unfolding remove
  remove-absent k c h = rw (h, remove)

  remove-found :
      (k : K) (i : ℕ) (c d : LruCache K V) {n : Node K V}
      → find_index k c.indices ≡ some i
      → remove_index i c ≡ some (some n, d)
      → remove k c ≡ some (some n.value, d)
  unfolding remove
  remove-found k i c d h g = rw (h, remove, g, ◌>>=◌)

  pub list-remove :
      (k : K) (es rest : List (Entry K V)) (o : Option (Entry K V))
      → lookup k es ≡ o
      → without k es ≡ rest
      → Recency.remove k es ≡ (Recency.value o, rest)
  unfolding Recency.remove
  list-remove k es rest o h g = rw (h, g, Recency.remove)

  pub remove-Refines :
      (k : K) (c : LruCache K V) (cells : List (ℕ × Entry K V))
      → Represents c cells
      → Refines c.capacity (remove k c) (Recency.remove k (entries cells))
  remove-Refines k c cells r = elim (locate k c cells r) [
    | inl a ↦
        refine c.capacity
          (sym (list-remove k (entries cells) (entries cells) none a.unlisted a.others))
          (record {
            cache = c;
            returns = remove-absent k c a.unmapped;
            kept = record { cells = cells; holds = r; is = refl; bound = refl };
          })
    | inr f ↦
        (let (d, removes, rep, cap) =
            remove_index-Represents c f.front f.back f.index f.entry f.holds in
          refine c.capacity
            (sym (
              list-remove k (entries cells) (entries (f.front ++ f.back)) (some f.entry) f.listed
                f.others))
            (record {
              cache = d;
              returns = remove-found k f.index c d f.mapped removes;
              kept = record { cells = f.front ++ f.back; holds = rep; is = refl; bound = cap };
            }))
  ]

  pop_lru-empty : (c : LruCache K V) → c.least_recent ≡ none → pop_lru c ≡ some (none, c)
  unfolding pop_lru
  pop_lru-empty c h = grind (arith, h)

  pop_lru-first :
      (i : ℕ) (c d : LruCache K V) {n : Node K V}
      → c.least_recent ≡ some i
      → remove_index i c ≡ some (some n, d)
      → pop_lru c ≡ some (some (n.key, n.value), d)
  unfolding pop_lru
  pop_lru-first i c d h g = rw (h, pop_lru, g, ◌>>=◌)

  pub pop_lru-Refines :
      (c : LruCache K V) (cells : List (ℕ × Entry K V))
      → Represents c cells
      → Refines c.capacity (pop_lru c) (Recency.pop_lru (entries cells))
  pop_lru-Refines c [] r = record {
    cache = c;
    returns = pop_lru-empty c r.least;
    kept = record { cells = []; holds = r; is = refl; bound = refl };
  }
  pop_lru-Refines c ((i, e) ∷ cells) r =
      let (d, removes, rep, cap) = remove_index-Represents c [] cells i e r in
      record {
        cache = d;
        returns = pop_lru-first i c d r.least removes;
        kept = record { cells = cells; holds = rep; is = refl; bound = cap };
      }

  insert-bypassed :
      (k : K) (v : V) (w : ℕ) (c d : LruCache K V)
      → drop_key k c ≡ some d
      → (d.capacity == 0 || ltb d.capacity w) ≡ true
      → insert_counting_evictions k v w c ≡ some (0, d)
  unfolding insert_counting_evictions
  insert-bypassed k v w c d h g = rw (h, insert_counting_evictions, ◌>>=◌, g)

  insert-filled :
      (k : K) (v : V) (w n : ℕ) (c d b e : LruCache K V)
      → drop_key k c ≡ some d
      → (d.capacity == 0 || ltb d.capacity w) ≡ false
      → evict (suc (length d.indices)) w 0 d ≡ some (n, b)
      → fill k v w (take_slot b) ≡ some e
      → insert_counting_evictions k v w c ≡ some (n, e)
  unfolding insert_counting_evictions
  insert-filled k v w n c d b e h g f a = rw (h, insert_counting_evictions, ◌>>=◌, g, f, a)

  pub list-insert-bypassed :
      (capacity : ℕ) (k : K) (v : V) (w : ℕ) (es rest : List (Entry K V))
      → (capacity == 0 || ltb capacity w) ≡ true
      → without k es ≡ rest
      → Recency.insert capacity k v w es ≡ (0, rest)
  unfolding Recency.insert
  list-insert-bypassed capacity k v w es rest h g = rw (h, Recency.insert, g)

  pub list-insert-filled :
      (capacity : ℕ) (k : K) (v : V) (w : ℕ) (es rest stay : List (Entry K V))
      → (capacity == 0 || ltb capacity w) ≡ false
      → without k es ≡ rest
      → kept (capacity - w) rest ≡ stay
      → Recency.insert capacity k v w es ≡ (
        min (length rest - length stay) u64_max,
        stay ++ (record { key = k; value = v; weight = w } ∷ []),
      )
  unfolding Recency.insert
  list-insert-filled capacity k v w es rest stay h g f = rw (h, Recency.insert, g, f)

  pub insert-Refines :
      (k : K) (v : V) (w : ℕ) (c : LruCache K V) (cells : List (ℕ × Entry K V))
      → Represents c cells
      → Refines c.capacity
          (insert_counting_evictions k v w c)
          (Recency.insert c.capacity k v w (entries cells))
  insert-Refines k v w c cells r =
      let d = drop_key-Dropped k c cells r in
      elim (Bool-cases (c.capacity == 0 || ltb c.capacity w)) [
        | inl s ↦
            refine c.capacity
              (sym (
                list-insert-bypassed c.capacity k v w (entries cells) (entries d.rest) s
                  (sym d.is)))
              (record {
                cache = d.cache;
                returns =
                    insert-bypassed k v w c d.cache d.returns
                      (ap (λ n. n == 0 || ltb n w) d.bound ∙ s);
                kept = record { cells = d.rest; holds = d.holds; is = refl; bound = d.bound };
              })
        | inr s ↦
            (let b =
                evict-Evicted (suc (length d.cache.indices)) w 0 d.cache d.rest d.holds
                  (omega (arith, d.holds.counted)) (ground (arith, s, d.bound)) (omega arith) in
              let t = take_slot-Ready b.cache b.rest b.holds in
              let entry : Entry K V = record { key = k; value = v; weight = w } in
              let (e, fills, rep, cap) =
                fill-Represents k v w (take_slot b.cache).1 b.rest (take_slot b.cache).0 t.holds
                  t.empty t.taken (b.absent k d.absent) (omega (arith, b.fits, t.bound, b.bound)) in
              refine c.capacity
                (ap (λ n. (n, entries b.rest ++ (entry ∷ [])))
                    (omega (arith, length-entries b.rest, length-entries d.rest))
                  ∙ sym (
                      list-insert-filled c.capacity k v w (entries cells) (entries d.rest)
                        (entries b.rest) s (sym d.is)
                        (ap (λ n. kept (n - w) (entries d.rest)) (sym d.bound) ∙ sym b.is)))
                (record {
                  cache = e;
                  returns =
                      insert-filled k v w (min (0 + (length d.rest - length b.rest)) u64_max) c
                        d.cache b.cache e d.returns (ap (λ n. n == 0 || ltb n w) d.bound ∙ s)
                        b.returns fills;
                  kept = record {
                    cells = b.rest ++ (((take_slot b.cache).0, entry) ∷ []);
                    holds = rep;
                    is = entries-append b.rest (((take_slot b.cache).0, entry) ∷ []);
                    bound = cap ∙ t.bound ∙ b.bound ∙ d.bound;
                  };
                }))
      ]
