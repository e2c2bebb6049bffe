-- ===== src/Lru/Cells.antt =====
-- The cells of the recency list in the slab of crates/gitility-core/src/lru.rs: indices and links.
use mathlib.Core.Path.{subst, sym}
use gitility.Base.{
  or-left, or-right, ℕ, ◌+◌, ◌≡◌, refl, ◌∙◌, Bool, true, false, List, [], ◌∷◌, ◌++◌, none, some,
  ◌==◌, ◌||◌, get_elem?, length, All, arith, Bool-cases, inl, inr,
}
use gitility.Lru.{Slots, link_next, link_previous}
use gitility.Lru.Segments.{
  Entry, first_or, last_or, has, AreApart, Segment, has-append, Segment-join, SameOutside,
  Segment-agree, link_next-Relinked, link_previous-Relinked,
}

-- The free indices, none of them twice.
abbrev pub contains : ℕ → List ℕ → Bool
contains i [] = false
contains i (j ∷ js) = j == i || contains i js

abbrev pub AreUnique : List ℕ → Type 0
AreUnique [] = Unit
AreUnique (i ∷ is) = (contains i is ≡ false) × AreUnique is

module _ {K V : Type 0} where
  abbrev pub total : List (ℕ × Entry K V) → ℕ
  total [] = 0
  total ((i, e) ∷ cells) = e.weight + total cells

  -- The nodes of the free indices are gone.
  abbrev pub AreFree : Slots K V → List ℕ → Type 0
  AreFree nodes = All (λ i. get_elem? nodes i ≡ some none)

  pub total-append : (xs ys : List (ℕ × Entry K V)) → total (xs ++ ys) ≡ total xs + total ys
  total-append [] ys = omega arith
  total-append ((i, e) ∷ xs) ys = omega (arith, total-append xs ys)

  pub AreApart-remove :
      (xs ys : List (ℕ × Entry K V)) (i : ℕ) (e : Entry K V)
      → AreApart (xs ++ ((i, e) ∷ ys))
      → AreApart (xs ++ ys) × (has i (xs ++ ys) ≡ false)
  AreApart-remove [] ys i e h = (h.1, h.0)
  AreApart-remove ((j, d) ∷ xs) ys i e h =
      let (apart, out) = AreApart-remove xs ys i e h.1 in
      (
        (grind (arith, h.0, has-append j xs ((i, e) ∷ ys), has-append j xs ys), apart),
        grind (arith, h.0, out, has-append j xs ((i, e) ∷ ys)),
      )

  pub AreApart-left : (xs ys : List (ℕ × Entry K V)) → AreApart (xs ++ ys) → AreApart xs
  AreApart-left [] ys h = tt
  AreApart-left ((j, d) ∷ xs) ys h =
      (grind (arith, h.0, has-append j xs ys), AreApart-left xs ys h.1)

  pub AreApart-right : (xs ys : List (ℕ × Entry K V)) → AreApart (xs ++ ys) → AreApart ys
  AreApart-right [] ys h = h
  AreApart-right ((j, d) ∷ xs) ys h = AreApart-right xs ys h.1

  -- An index of the front is none behind.
  pub AreApart-Disjoint :
      (xs ys : List (ℕ × Entry K V)) (j : ℕ)
      → AreApart (xs ++ ys)
      → has j xs ≡ true
      → has j ys ≡ false
  AreApart-Disjoint [] ys j h m = absurd (cc)
  AreApart-Disjoint ((k, d) ∷ xs) ys j h m = elim (Bool-cases (k == j)) [
    | inl e ↦
        (let same : k ≡ j = ground (arith, e) in
          grind (arith, subst (λ n. has n (xs ++ ys) ≡ false) same h.0, has-append j xs ys))
    | inr e ↦ AreApart-Disjoint xs ys j h.1 (grind (arith, m, e))
  ]

  pub AreApart-snoc :
      (xs : List (ℕ × Entry K V)) (i : ℕ) (e : Entry K V)
      → AreApart xs
      → has i xs ≡ false
      → AreApart (xs ++ ((i, e) ∷ []))
  AreApart-snoc [] i e h out = (refl, tt)
  AreApart-snoc ((j, d) ∷ xs) i e h out = (
    grind (arith, h.0, out, has-append j xs ((i, e) ∷ [])),
    AreApart-snoc xs i e h.1 (grind (arith, out)),
  )

  -- The links around an index bypass it.
  pub record Bypassed (nodes : Slots K V) (xs ys : List (ℕ × Entry K V)) : Type 0 where
    pub outer : Slots K V
    pub slots : Slots K V
    pub front : link_next (last_or none xs) (first_or ys none) nodes ≡ some outer
    pub back : link_previous (first_or ys none) (last_or none xs) outer ≡ some slots
    pub segment : Segment slots none (xs ++ ys) none
    pub outside : SameOutside (xs ++ ys) nodes slots
    pub size : length slots ≡ length nodes

  pub bypass :
      (nodes : Slots K V) (i : ℕ) (xs ys : List (ℕ × Entry K V))
      → AreApart (xs ++ ys)
      → Segment nodes none xs (some i)
      → Segment nodes (some i) ys none
      → Bypassed nodes xs ys
  bypass nodes i xs ys apart before behind =
      let f =
        link_next-Relinked nodes none (some i) (first_or ys none) xs before
          (AreApart-left xs ys apart) in
      let b =
        link_previous-Relinked f.slots (some i) none (last_or none xs) ys
          (Segment-agree nodes f.slots (some i) none ys (λ j m. f.outside j (away j m)) behind)
          (AreApart-right xs ys apart) in
      record {
        outer = f.slots;
        slots = b.slots;
        front = f.returns;
        back = b.returns;
        segment =
            Segment-join b.slots none none xs ys
              (Segment-agree f.slots b.slots none (first_or ys none) xs
                (λ j m. b.outside j (AreApart-Disjoint xs ys j apart m)) f.segment)
              b.segment;
        outside = λ j out.
            b.outside j (or-right (has j xs) (has j ys) (sym (has-append j xs ys) ∙ out))
            ∙ f.outside j (or-left (has j xs) (has j ys) (sym (has-append j xs ys) ∙ out));
        size = b.size ∙ f.size;
      }
    where
      away : (j : ℕ) → has j ys ≡ true → has j xs ≡ false
      away j m = elim (Bool-cases (has j xs)) [
        | inr e ↦ e
        | inl e ↦ absurd (grind (arith, AreApart-Disjoint xs ys j apart e, m))
      ]
