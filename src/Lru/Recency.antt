-- ===== src/Lru/Recency.antt =====
-- What the cache of crates/gitility-core/src/lru.rs promises: a list of entries, the least recent
-- first, and the operations on it.
use gitility.Base.{
  ℕ, ◌+◌, ◌-◌, ◌≡◌, refl, ap, List, [], ◌∷◌, ◌++◌, Option, none, some, if◌then◌else◌, ltb, ◌==◌,
  ◌||◌, length, min, u64_max, arith,
}
use gitility.Lru.{Key}
use gitility.Lru.Segments.{Entry}
use gitility.Lru.Keys.{index_of, same_refl}
use gitility.Lru.Cells.{total}

module _ {K V : Type 0} where
  unfoldable pub weight_of : List (Entry K V) → ℕ
  weight_of [] = 0
  weight_of (e ∷ es) = e.weight + weight_of es

  -- The longest end of the list within some weight.
  unfoldable pub kept : ℕ → List (Entry K V) → List (Entry K V)
  unfolding weight_of
  kept room [] = []
  kept room (e ∷ es) =
      let rest = kept room es in if ltb room (e.weight + weight_of es) then rest else e ∷ es

  -- The entries of the cells.
  abbrev pub entries : List (ℕ × Entry K V) → List (Entry K V)
  entries [] = []
  entries ((i, e) ∷ cells) = e ∷ entries cells

  pub entries-append :
      (xs ys : List (ℕ × Entry K V)) → entries (xs ++ ys) ≡ entries xs ++ entries ys
  entries-append [] ys = refl
  entries-append ((i, e) ∷ xs) ys = ap (◌∷◌ e) (entries-append xs ys)

  pub weight_of-entries : (cells : List (ℕ × Entry K V)) → weight_of (entries cells) ≡ total cells
  unfolding weight_of
  weight_of-entries [] = refl
  weight_of-entries ((i, e) ∷ cells) = ap (λ n. e.weight + n) (weight_of-entries cells)

  pub length-entries : (cells : List (ℕ × Entry K V)) → length (entries cells) ≡ length cells
  length-entries [] = refl
  length-entries ((i, e) ∷ cells) = omega (arith, length-entries cells)

module _ {K V : Type 0} ⦃eq : Key K⦄ where
  unfoldable pub lookup : K → List (Entry K V) → Option (Entry K V)
  lookup k [] = none
  lookup k (e ∷ es) = if eq.same e.key k then some e else lookup k es

  unfoldable pub without : K → List (Entry K V) → List (Entry K V)
  without k [] = []
  without k (e ∷ es) = if eq.same e.key k then es else e ∷ without k es

  unfoldable pub get : K → List (Entry K V) → Option V × List (Entry K V)
  unfolding lookup without
  get k es = elim (lookup k es) [
    | none ↦ (none, es)
    | some e ↦ (some e.value, without k es ++ (e ∷ []))
  ]

  abbrev pub value : Option (Entry K V) → Option V
  value none = none
  value (some e) = some e.value

  unfoldable pub remove : K → List (Entry K V) → Option V × List (Entry K V)
  unfolding lookup without
  remove k es = (value (lookup k es), without k es)

  abbrev pub pop_lru : List (Entry K V) → Option (K × V) × List (Entry K V)
  pop_lru [] = (none, [])
  pop_lru (e ∷ es) = (some (e.key, e.value), es)

  -- The new entry is the most recent one, behind those that leave room for it.
  unfoldable pub insert : ℕ → K → V → ℕ → List (Entry K V) → ℕ × List (Entry K V)
  unfolding without kept
  insert capacity k v weight es =
      let others = without k es in
      let stay = kept (capacity - weight) others in
      if capacity == 0 || ltb capacity weight then (0, others) else (
        min (length others - length stay) u64_max,
        stay ++ (record { key = k; value = v; weight = weight } ∷ []),
      )

  pub lookup-absent :
      (k : K) (cells : List (ℕ × Entry K V))
      → index_of k cells ≡ none
      → lookup k (entries cells) ≡ none
  unfolding index_of lookup
  lookup-absent k [] h = refl
  lookup-absent k ((i, e) ∷ cells) h = grind (arith, h, lookup-absent k cells)

  pub without-absent :
      (k : K) (cells : List (ℕ × Entry K V))
      → index_of k cells ≡ none
      → without k (entries cells) ≡ entries cells
  unfolding index_of without
  without-absent k [] h = refl
  without-absent k ((i, e) ∷ cells) h = grind (arith, h, without-absent k cells)

  pub lookup-found :
      (e : Entry K V) (xs ys : List (ℕ × Entry K V)) (i : ℕ)
      → index_of e.key xs ≡ none
      → lookup e.key (entries (xs ++ ((i, e) ∷ ys))) ≡ some e
  unfolding index_of lookup
  lookup-found e [] ys i h = grind (arith, same_refl e.key)
  lookup-found e ((j, d) ∷ xs) ys i h = grind (arith, h, lookup-found e xs ys i)

  pub without-found :
      (e : Entry K V) (xs ys : List (ℕ × Entry K V)) (i : ℕ)
      → index_of e.key xs ≡ none
      → without e.key (entries (xs ++ ((i, e) ∷ ys))) ≡ entries (xs ++ ys)
  unfolding index_of without
  without-found e [] ys i h = grind (arith, same_refl e.key)
  without-found e ((j, d) ∷ xs) ys i h = grind (arith, h, without-found e xs ys i)
