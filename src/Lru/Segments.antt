-- ===== src/Lru/Segments.antt =====
-- The linked list in the slab of crates/gitility-core/src/lru.rs: runs of linked nodes.
use mathlib.Core.Path.{subst, sym}
use gitility.Base.{
  ℕ, ◌≡◌, refl, ap, ◌∙◌, Bool, true, false, List, [], ◌∷◌, ◌++◌, Option, none, some, ◌==◌, ◌||◌,
  get_elem?, set, get_elem?-set, length, length-set, arith, Bool-cases, inl, inr,
}
use gitility.Lru.{Node, Slots, node_at, change, link_next, link_previous}

-- An entry of the cache, without its links.
pub record Entry (K V : Type 0) : Type 0 where
  pub key : K
  pub value : V
  pub weight : ℕ

module _ {K V : Type 0} where
  abbrev pub linked : Entry K V → Option ℕ → Option ℕ → Node K V
  linked e previous next = record {
    key = e.key;
    value = e.value;
    weight = e.weight;
    previous = previous;
    next = next;
  }

  abbrev pub first_or : List (ℕ × Entry K V) → Option ℕ → Option ℕ
  first_or [] q = q
  first_or ((i, e) ∷ cells) q = some i

  abbrev pub last_or : Option ℕ → List (ℕ × Entry K V) → Option ℕ
  last_or p [] = p
  last_or p ((i, e) ∷ cells) = last_or (some i) cells

  abbrev pub has : ℕ → List (ℕ × Entry K V) → Bool
  has i [] = false
  has i ((j, e) ∷ cells) = j == i || has i cells

  abbrev pub AreApart : List (ℕ × Entry K V) → Type 0
  AreApart [] = Unit
  AreApart ((i, e) ∷ cells) = (has i cells ≡ false) × AreApart cells

  -- The cells, linked from `p` in front of them to `q` behind them.
  abbrev pub Segment : Slots K V → Option ℕ → List (ℕ × Entry K V) → Option ℕ → Type 0
  Segment nodes p [] q = Unit
  Segment nodes p ((i, e) ∷ cells) q =
      (get_elem? nodes i ≡ some (some (linked e p (first_or cells q))))
      × Segment nodes (some i) cells q

  pub has-append :
      (i : ℕ) (xs ys : List (ℕ × Entry K V)) → has i (xs ++ ys) ≡ (has i xs || has i ys)
  has-append i [] ys = refl
  has-append i ((j, e) ∷ xs) ys = ground (arith, has-append i xs ys)

  pub first_or-append :
      (xs ys : List (ℕ × Entry K V)) (q : Option ℕ)
      → first_or (xs ++ ys) q ≡ first_or xs (first_or ys q)
  first_or-append [] ys q = refl
  first_or-append (x ∷ xs) ys q = refl

  pub last_or-append :
      (p : Option ℕ) (xs ys : List (ℕ × Entry K V))
      → last_or p (xs ++ ys) ≡ last_or (last_or p xs) ys
  last_or-append p [] ys = refl
  last_or-append p ((i, e) ∷ xs) ys = last_or-append (some i) xs ys

  pub Segment-split :
      (nodes : Slots K V) (p q : Option ℕ) (xs ys : List (ℕ × Entry K V))
      → Segment nodes p (xs ++ ys) q
      → Segment nodes p xs (first_or ys q) × Segment nodes (last_or p xs) ys q
  Segment-split nodes p q [] ys h = (tt, h)
  Segment-split nodes p q ((i, e) ∷ xs) ys h =
      let (before, behind) = Segment-split nodes (some i) q xs ys h.1 in
      (
        (
          subst (λ t. get_elem? nodes i ≡ some (some (linked e p t))) (first_or-append xs ys q) h.0,
          before,
        ),
        behind,
      )

  pub Segment-join :
      (nodes : Slots K V) (p q : Option ℕ) (xs ys : List (ℕ × Entry K V))
      → Segment nodes p xs (first_or ys q)
      → Segment nodes (last_or p xs) ys q
      → Segment nodes p (xs ++ ys) q
  Segment-join nodes p q [] ys h k = k
  Segment-join nodes p q ((i, e) ∷ xs) ys h k = (
    subst (λ t. get_elem? nodes i ≡ some (some (linked e p t))) (sym (first_or-append xs ys q)) h.0,
    Segment-join nodes (some i) q xs ys h.1 k,
  )

  -- The slabs agree away from some cells.
  abbrev pub SameOutside : List (ℕ × Entry K V) → Slots K V → Slots K V → Type 0
  SameOutside cells nodes others =
      (j : ℕ) → has j cells ≡ false → get_elem? others j ≡ get_elem? nodes j

  -- No index is in both.
  abbrev pub Disjoint : List (ℕ × Entry K V) → List (ℕ × Entry K V) → Type 0
  Disjoint xs ys = (j : ℕ) → has j ys ≡ true → has j xs ≡ false

  pub Segment-agree :
      (nodes others : Slots K V) (p q : Option ℕ) (xs : List (ℕ × Entry K V))
      → ((j : ℕ) → has j xs ≡ true → get_elem? others j ≡ get_elem? nodes j)
      → Segment nodes p xs q
      → Segment others p xs q
  Segment-agree nodes others p q [] same h = tt
  Segment-agree nodes others p q ((i, e) ∷ xs) same h = (
    same i (ground arith) ∙ h.0,
    Segment-agree nodes others (some i) q xs (λ j m. same j (ground (arith, m))) h.1,
  )

  pub has-apart :
      (i j : ℕ) (xs : List (ℕ × Entry K V)) → has j xs ≡ true → has i xs ≡ false → (i == j) ≡ false
  has-apart i j xs h k = elim (Bool-cases (i == j)) [
    | inr e ↦ e
    | inl e ↦ absurd (
        let same : i ≡ j = ground (arith, e) in
        let both : true ≡ false = sym h ∙ ap (λ n. has n xs) (sym same) ∙ k in cc)
  ]

  -- A write away from the segment.
  pub Segment-set :
      (nodes : Slots K V) (p q : Option ℕ) (xs : List (ℕ × Entry K V)) (i : ℕ)
      (slot : Option (Node K V)) {old : Option (Node K V)}
      → get_elem? nodes i ≡ some old
      → has i xs ≡ false
      → Segment nodes p xs q
      → Segment (set nodes i slot) p xs q
  Segment-set nodes p q xs i slot was out h =
      Segment-agree nodes (set nodes i slot) p q xs
        (λ j m.
          get_elem?-set nodes i j slot was
          ∙ (let apart = has-apart i j xs m out in ground (arith, apart)))
        h

  set-SameOutside :
      (nodes : Slots K V) (i : ℕ) (e : Entry K V) (slot : Option (Node K V))
      {old : Option (Node K V)}
      → get_elem? nodes i ≡ some old
      → SameOutside ((i, e) ∷ []) nodes (set nodes i slot)
  set-SameOutside nodes i e slot was j out = get_elem?-set nodes i j slot was ∙ ground (arith, out)

  pub change-found :
      (f : Node K V → Node K V) (i : ℕ) (nodes : Slots K V) {n : Node K V}
      → get_elem? nodes i ≡ some (some n)
      → change f i nodes ≡ some (set nodes i (some (f n)))
  unfolding change node_at
  change-found f i nodes h = rw (h, change, node_at)

  -- The segment with another end behind it, by a write to its last node.
  pub record Relinked (cells : List (ℕ × Entry K V)) (nodes : Slots K V) (p q : Option ℕ)
      (result : Option (Slots K V)) : Type 0 where
    pub slots : Slots K V
    pub returns : result ≡ some slots
    pub segment : Segment slots p cells q
    pub outside : SameOutside cells nodes slots
    pub size : length slots ≡ length nodes

  pub link_next-Relinked :
      (nodes : Slots K V) (p q r : Option ℕ) (cells : List (ℕ × Entry K V))
      → Segment nodes p cells q
      → AreApart cells
      → Relinked cells nodes p r (link_next (last_or none cells) r nodes)
  unfolding link_next
  link_next-Relinked nodes p q r [] h apart = record {
    slots = nodes;
    returns = refl;
    segment = tt;
    outside = λ j out. refl;
    size = refl;
  }
  link_next-Relinked nodes p q r ((i, e) ∷ []) h apart = record {
    slots = set nodes i (some (linked e p r));
    returns = change-found (λ n. record n { next = r }) i nodes h.0;
    segment = (get_elem?-set nodes i i (some (linked e p r)) h.0 ∙ ground arith, tt);
    outside = set-SameOutside nodes i e (some (linked e p r)) h.0;
    size = length-set nodes i (some (linked e p r));
  }
  link_next-Relinked nodes p q r ((i, e) ∷ (j, d) ∷ cells) h apart =
      let rest = link_next-Relinked nodes (some i) q r ((j, d) ∷ cells) h.1 apart.1 in
      record {
        slots = rest.slots;
        returns = rest.returns;
        segment = (rest.outside i apart.0 ∙ h.0, rest.segment);
        outside = λ k out. rest.outside k (ground (arith, out));
        size = rest.size;
      }

  pub link_previous-Relinked :
      (nodes : Slots K V) (p q r : Option ℕ) (cells : List (ℕ × Entry K V))
      → Segment nodes p cells q
      → AreApart cells
      → Relinked cells nodes r q (link_previous (first_or cells none) r nodes)
  unfolding link_previous
  link_previous-Relinked nodes p q r [] h apart = record {
    slots = nodes;
    returns = refl;
    segment = tt;
    outside = λ j out. refl;
    size = refl;
  }
  link_previous-Relinked nodes p q r ((i, e) ∷ cells) h apart =
      let slot = some (linked e r (first_or cells q)) in
      record {
        slots = set nodes i slot;
        returns = change-found (λ n. record n { previous = r }) i nodes h.0;
        segment = (
          get_elem?-set nodes i i slot h.0 ∙ ground arith,
          Segment-set nodes (some i) q cells i slot h.0 apart.0 h.1,
        );
        outside = λ j out. get_elem?-set nodes i j slot h.0 ∙ ground (arith, out);
        size = length-set nodes i slot;
      }
