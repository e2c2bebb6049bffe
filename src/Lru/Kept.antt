-- ===== src/Lru/Kept.antt =====
-- What the operations on the recency list of crates/gitility-core/src/lru.rs leave of its entries.
use mathlib.Core.Path.{subst}
use gitility.Base.{
  ℕ, suc, ◌-◌, ◌≤◌, ◌≡◌, refl, ap, ◌∙◌, sym, List, [], ◌∷◌, some, length, All, All-append,
  length-append, arith, if-cases, Bool-cases, Option-cases, inl, inr, ltb, ◌==◌, ◌||◌,
}
use gitility.Lru.{Key}
use gitility.Lru.Segments.{Entry}
use gitility.Lru.Keys.{eq_of_same}
use gitility.Lru.Recency.{lookup, without, kept, weight_of}
use gitility.Lru.Refines.{list-get-absent, list-get-found, list-insert-bypassed, list-insert-filled}
use gitility.Lru.Recency

module _ {K V : Type 0} ⦃eq : Key K⦄ (Q : Entry K V → Type 0) where
  pub without-All : (k : K) (es : List (Entry K V)) → All Q es → All Q (without k es)
  unfolding without
  without-All k [] h = tt
  without-All k (e ∷ es) h =
      if-cases (All Q) (eq.same e.key k) (λ _. h.1) (λ _. (h.0, without-All k es h.1))

  pub kept-All : (room : ℕ) (es : List (Entry K V)) → All Q es → All Q (kept room es)
  unfolding kept
  kept-All room [] h = tt
  kept-All room (e ∷ es) h =
      if-cases (All Q) (ltb room (weight_of (e ∷ es))) (λ _. kept-All room es h.1) (λ _. h)

  pub lookup-All :
      (k : K) (es : List (Entry K V)) {e : Entry K V}
      → All Q es
      → lookup k es ≡ some e
      → Q e × (e.key ≡ k)
  unfolding lookup
  lookup-All k [] all h = absurd (cc)
  lookup-All k (d ∷ es) {e} all h = elim (Bool-cases (eq.same d.key k)) [
    | inl s ↦
        (let is : d ≡ e = grind (arith, h, s) in
          subst (λ a. Q a × (a.key ≡ k)) is (all.0, eq_of_same d.key k s))
    | inr s ↦ lookup-All k es {e = e} all.1 (grind (arith, h, s))
  ]

  pub get-All : (k : K) (es : List (Entry K V)) → All Q es → All Q (Recency.get k es).1
  get-All k es h = elim (Option-cases (lookup k es)) [
    | inl n ↦ subst (λ r. All Q r.1) (sym (list-get-absent k es n)) h
    | inr (e, s) ↦
        subst (λ r. All Q r.1) (sym (list-get-found k es (without k es) {e = e} s refl))
          (All-append Q (without k es) (e ∷ []) (without-All k es h)
            ((lookup-All k es {e = e} h s).0, tt))
  ]

  pub get-found :
      (k : K) (es : List (Entry K V)) {v : V}
      → All Q es
      → (Recency.get k es).0 ≡ some v
      → (e : Entry K V) × Q e × (e.key ≡ k) × (e.value ≡ v)
  get-found k es {v} h g = elim (Option-cases (lookup k es)) [
    | inl n ↦ absurd (let miss = list-get-absent k es n in cc)
    | inr (e, s) ↦
        (let (q, is) = lookup-All k es {e = e} h s in
          (e, q, is, let hit = list-get-found k es (without k es) {e = e} s refl in cc))
  ]

  pub remove-All : (k : K) (es : List (Entry K V)) → All Q es → All Q (Recency.remove k es).1
  unfolding Recency.remove
  remove-All k es h = without-All k es h

  pub pop_lru-All : (es : List (Entry K V)) → All Q es → All Q (Recency.pop_lru es).1
  pop_lru-All [] h = tt
  pop_lru-All (e ∷ es) h = h.1

  pub insert-All :
      (capacity : ℕ) (k : K) (v : V) (w : ℕ) (es : List (Entry K V))
      → All Q es
      → Q (record { key = k; value = v; weight = w })
      → All Q (Recency.insert capacity k v w es).1
  insert-All capacity k v w es h q =
      let entry : Entry K V = record { key = k; value = v; weight = w } in
      let rest = without k es in
      let stay = kept (capacity - w) rest in
      elim (Bool-cases (capacity == 0 || ltb capacity w)) [
        | inl s ↦
            subst (λ r. All Q r.1) (sym (list-insert-bypassed capacity k v w es rest s refl))
              (without-All k es h)
        | inr s ↦
            subst (λ r. All Q r.1)
              (sym (list-insert-filled capacity k v w es rest stay s refl refl))
              (All-append Q stay (entry ∷ []) (kept-All (capacity - w) rest (without-All k es h))
                (q, tt))
      ]

module _ {K V : Type 0} ⦃eq : Key K⦄ where
  pub length-kept : (room : ℕ) (es : List (Entry K V)) → length (kept room es) ≤ length es
  unfolding kept weight_of
  length-kept room [] = omega arith
  length-kept room (e ∷ es) = grind (arith, length-kept room es)

  pub length-without : (k : K) (es : List (Entry K V)) → length (without k es) ≤ length es
  unfolding without
  length-without k [] = omega arith
  length-without k (e ∷ es) = grind (arith, length-without k es)

  pub length-without-found :
      (k : K) (es : List (Entry K V)) {e : Entry K V}
      → lookup k es ≡ some e
      → suc (length (without k es)) ≡ length es
  unfolding without lookup
  length-without-found k [] h = absurd (cc)
  length-without-found k (e ∷ es) h = grind (arith, length-without-found k es)

  pub length-get : (k : K) (es : List (Entry K V)) → length (Recency.get k es).1 ≡ length es
  length-get k es = elim (Option-cases (lookup k es)) [
    | inl n ↦ ap (λ r. length r.1) (list-get-absent k es n)
    | inr (e, s) ↦
        ap (λ r. length r.1) (list-get-found k es (without k es) {e = e} s refl)
        ∙ omega (arith, length-append (without k es) (e ∷ []), length-without-found k es {e = e} s)
  ]

  pub length-insert :
      (capacity : ℕ) (k : K) (v : V) (w : ℕ) (es : List (Entry K V))
      → length (Recency.insert capacity k v w es).1 ≤ suc (length es)
  length-insert capacity k v w es =
      let entry : Entry K V = record { key = k; value = v; weight = w } in
      let rest = without k es in
      let stay = kept (capacity - w) rest in
      elim (Bool-cases (capacity == 0 || ltb capacity w)) [
        | inl s ↦
            subst (λ r. length r.1 ≤ suc (length es))
              (sym (list-insert-bypassed capacity k v w es rest s refl))
              (omega (arith, length-without k es))
        | inr s ↦
            subst (λ r. length r.1 ≤ suc (length es))
              (sym (list-insert-filled capacity k v w es rest stay s refl refl))
              (omega (
                arith,
                length-without k es,
                length-kept (capacity - w) rest,
                length-append stay (entry ∷ []),
              ))
      ]
