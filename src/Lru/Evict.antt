-- ===== src/Lru/Evict.antt =====
-- The evictions that make room for an entry in crates/gitility-core/src/lru.rs.
use mathlib.Core.Path.{sym}
use gitility.Base.{
  ℕ, zero, suc, ◌+◌, ◌-◌, ◌≤◌, ◌<◌, ◌≡◌, refl, ap, ◌∙◌, true, false, List, [], ◌∷◌, ◌++◌, Option,
  none, some, ltb, length, min, u64_max, saturating_add, arith, Bool-cases, inl, inr,
}
use gitility.Lru.{◌>>=◌, Key, LruCache, evict, drop_key, find_index, remove_index}
use gitility.Lru.Segments.{Entry}
use gitility.Lru.Keys.{index_of}
use gitility.Lru.Cells.{total}
use gitility.Lru.Represents.{Represents, remove_index-Represents}
use gitility.Lru.Located.{locate}
use gitility.Lru.Recency.{entries, kept, weight_of, weight_of-entries, without}

module _ {K V : Type 0} ⦃eq : Key K⦄ where
  -- The cells that stay, and the cache that holds them.
  pub record Evicted (c : LruCache K V) (cells : List (ℕ × Entry K V)) (weight n : ℕ)
      (result : Option (ℕ × LruCache K V)) : Type 0 where
    pub cache : LruCache K V
    pub rest : List (ℕ × Entry K V)
    pub returns : result ≡ some (min (n + (length cells - length rest)) u64_max, cache)
    pub holds : Represents cache rest
    pub bound : cache.capacity ≡ c.capacity
    pub is : entries rest ≡ kept (c.capacity - weight) (entries cells)
    pub fits : total rest + weight ≤ c.capacity
    pub fewer : length rest ≤ length cells
    pub absent : (k : K) → index_of k cells ≡ none → index_of k rest ≡ none

  stop :
      (fuel weight n : ℕ) (c : LruCache K V)
      → ltb c.capacity (saturating_add c.used weight) ≡ false
      → evict (suc fuel) weight n c ≡ some (n, c)
  unfolding evict
  stop fuel weight n c h = rw (h, evict)

  next :
      (fuel weight n i : ℕ) (c d : LruCache K V) {o : _}
      → ltb c.capacity (saturating_add c.used weight) ≡ true
      → c.least_recent ≡ some i
      → remove_index i c ≡ some (o, d)
      → evict (suc fuel) weight n c ≡ evict fuel weight (saturating_add n 1) d
  unfolding evict
  next fuel weight n i c d h g r = rw (h, evict, g, r, ◌>>=◌)

  kept-all : (room : ℕ) (es : List (Entry K V)) → weight_of es ≤ room → kept room es ≡ es
  unfolding kept weight_of
  kept-all room [] h = refl
  kept-all room (e ∷ es) h = grind (arith, h)

  kept-next :
      (room : ℕ) (e : Entry K V) (es : List (Entry K V))
      → room < e.weight + weight_of es
      → kept room (e ∷ es) ≡ kept room es
  unfolding kept weight_of
  kept-next room e es h = grind (arith, h)

  -- There is room already.
  stays :
      (fuel weight n : ℕ) (c : LruCache K V) (cells : List (ℕ × Entry K V))
      → Represents c cells
      → total cells + weight ≤ c.capacity
      → n ≤ u64_max
      → Evicted c cells weight n (evict (suc fuel) weight n c)
  stays fuel weight n c cells r fits m = record {
    cache = c;
    rest = cells;
    returns =
        stop fuel weight n c (ground (arith, r.weighed, r.word, fits))
        ∙ ap (λ a. some (a, c)) (omega (arith, m));
    holds = r;
    bound = refl;
    is = sym (
        kept-all (c.capacity - weight) (entries cells)
          (omega (arith, fits, weight_of-entries cells)));
    fits = fits;
    fewer = omega arith;
    absent = λ k a. a;
  }

  absent-behind :
      (k : K) (i : ℕ) (e : Entry K V) (cells : List (ℕ × Entry K V))
      → index_of k ((i, e) ∷ cells) ≡ none
      → index_of k cells ≡ none
  unfolding index_of
  absent-behind k i e cells h = grind (arith, h)

  pub evict-Evicted :
      (fuel weight n : ℕ) (c : LruCache K V) (cells : List (ℕ × Entry K V))
      → Represents c cells
      → length cells < fuel
      → weight ≤ c.capacity
      → n ≤ u64_max
      → Evicted c cells weight n (evict fuel weight n c)
  evict-Evicted zero weight n c cells r h w m = absurd (omega (arith, h))
  evict-Evicted (suc fuel) weight n c [] r h w m = stays fuel weight n c [] r (omega (arith, w)) m
  evict-Evicted (suc fuel) weight n c ((i, e) ∷ cells) r h w m =
      elim (Bool-cases (ltb c.capacity (saturating_add c.used weight))) [
        | inr s ↦ stays fuel weight n c ((i, e) ∷ cells) r (ground (arith, s, r.weighed)) m
        | inl s ↦
            (let (d, removes, rep, cap) = remove_index-Represents c [] cells i e r in
              let b =
                evict-Evicted fuel weight (saturating_add n 1) d cells rep (omega (arith, h))
                  (omega (arith, w, cap)) (omega arith) in
              let over : c.capacity - weight < e.weight + weight_of (entries cells) =
                ground (arith, s, r.weighed, w, weight_of-entries cells) in
              record {
                cache = b.cache;
                rest = b.rest;
                returns =
                    next fuel weight n i c d s r.least removes
                    ∙ b.returns
                    ∙ ap (λ a. some (a, b.cache)) (omega (arith, b.fewer));
                holds = b.holds;
                bound = b.bound ∙ cap;
                is =
                    b.is
                    ∙ ap (λ a. kept (a - weight) (entries cells)) cap
                    ∙ sym (kept-next (c.capacity - weight) e (entries cells) over);
                fits = omega (arith, b.fits, cap);
                fewer = omega (arith, b.fewer);
                absent = λ k a. b.absent k (absent-behind k i e cells a);
              })
      ]

  drop_key-absent :
      (k : K) (c : LruCache K V) → find_index k c.indices ≡ none → drop_key k c ≡ some c
  unfolding drop_key
  drop_key-absent k c h = rw (h, drop_key)

  drop_key-found :
      (k : K) (i : ℕ) (c d : LruCache K V) {o : _}
      → find_index k c.indices ≡ some i
      → remove_index i c ≡ some (o, d)
      → drop_key k c ≡ some d
  unfolding drop_key
  drop_key-found k i c d h g = rw (h, drop_key, g, ◌>>=◌)

  -- The cells of the other keys.
  pub record Dropped (k : K) (c : LruCache K V) (cells : List (ℕ × Entry K V)) : Type 0 where
    pub cache : LruCache K V
    pub rest : List (ℕ × Entry K V)
    pub returns : drop_key k c ≡ some cache
    pub holds : Represents cache rest
    pub bound : cache.capacity ≡ c.capacity
    pub is : entries rest ≡ without k (entries cells)
    pub absent : index_of k rest ≡ none

  pub drop_key-Dropped :
      (k : K) (c : LruCache K V) (cells : List (ℕ × Entry K V))
      → Represents c cells
      → Dropped k c cells
  drop_key-Dropped k c cells r = elim (locate k c cells r) [
    | inl a ↦ record {
      cache = c;
      rest = cells;
      returns = drop_key-absent k c a.unmapped;
      holds = r;
      bound = refl;
      is = sym a.others;
      absent = a.absent;
    }
    | inr f ↦
        (let (d, removes, rep, cap) =
            remove_index-Represents c f.front f.back f.index f.entry f.holds in
          record {
            cache = d;
            rest = f.front ++ f.back;
            returns = drop_key-found k f.index c d f.mapped removes;
            holds = rep;
            bound = cap;
            is = sym f.others;
            absent = f.absent;
          })
  ]
