-- ===== src/Lru/Represents.antt =====
-- Which recency list a cache of crates/gitility-core/src/lru.rs holds: the least recent entry first.
use mathlib.Core.Path.{subst, sym}
use mathlib.Core.List.{append-nil}
use gitility.Base.{
  or-left, or-right, ℕ, ◌-◌, ◌≤◌, ◌<◌, ◌≡◌, refl, ap, ◌∙◌, false, List, [], ◌∷◌, ◌++◌, Option, none,
  some, ◌==◌, get_elem?, set, get_elem?-set, length, length-append, arith, Bool-cases, inl, inr,
  u64_max,
}
use gitility.Lru.{
  ◌>>=◌, Key, Node, Slots, LruCache, find_index, remove_key, link_next, link_previous, or_else,
  node_at, unlink, remove_index,
}
use gitility.Lru.Segments.{
  Entry, linked, first_or, last_or, has, AreApart, Segment, has-append, last_or-append,
  Segment-split, Segment-set,
}
use gitility.Lru.Keys.{
  AreMapped, find_index-remove_key_other, find_index-remove_key, remove_key-AreMapped,
  length-remove_key, index_of, AreKeyed, index_of-left, index_of-middle, index_of-remove_other,
  AreKeyed-remove, eq_of_same,
}
use gitility.Lru.Cells.{contains, AreUnique, total, AreFree, total-append, AreApart-remove, bypass}

module _ {K V : Type 0} ⦃eq : Key K⦄ where
  pub record Represents (c : LruCache K V) (cells : List (ℕ × Entry K V)) : Type 0 where
    pub links : Segment c.nodes none cells none
    pub least : c.least_recent ≡ first_or cells none
    pub most : c.most_recent ≡ last_or none cells
    pub apart : AreApart cells
    pub keyed : AreKeyed cells
    pub indexed : (k : K) → find_index k c.indices ≡ index_of k cells
    pub mapped : AreMapped c.indices
    pub counted : length c.indices ≡ length cells
    pub unused : AreFree c.nodes c.free
    pub unique : AreUnique c.free
    pub weighed : c.used ≡ total cells
    pub within : total cells ≤ c.capacity
    pub word : c.capacity < u64_max

  pub AreFree-agree :
      (nodes others : Slots K V) (free : List ℕ)
      → ((j : ℕ) → get_elem? nodes j ≡ some none → get_elem? others j ≡ some none)
      → AreFree nodes free
      → AreFree others free
  AreFree-agree nodes others [] same h = tt
  AreFree-agree nodes others (i ∷ free) same h =
      (same i h.0, AreFree-agree nodes others free same h.1)

  -- A free index is no cell's.
  pub has-free :
      (nodes : Slots K V) (p q : Option ℕ) (cells : List (ℕ × Entry K V)) (j : ℕ)
      → Segment nodes p cells q
      → get_elem? nodes j ≡ some none
      → has j cells ≡ false
  has-free nodes p q [] j h free = refl
  has-free nodes p q ((i, e) ∷ cells) j h free = elim (Bool-cases (i == j)) [
    | inl s ↦ absurd (
        let same : i ≡ j = ground (arith, s) in
        let node = sym h.0 ∙ ap (get_elem? nodes) same ∙ free in cc)
    | inr s ↦ grind (arith, s, has-free nodes (some i) q cells j h.1 free)
  ]

  contains-free :
      (nodes : Slots K V) (free : List ℕ) (i : ℕ) {n : Node K V}
      → AreFree nodes free
      → get_elem? nodes i ≡ some (some n)
      → contains i free ≡ false
  contains-free nodes [] i h e = refl
  contains-free nodes (j ∷ free) i h e = elim (Bool-cases (j == i)) [
    | inl s ↦ absurd (
        let same : j ≡ i = ground (arith, s) in
        let node = sym h.0 ∙ ap (get_elem? nodes) same ∙ e in cc)
    | inr s ↦ grind (arith, s, contains-free nodes free i h.1 e)
  ]

  -- The part of a represented cache around one cell.
  pub record Around (c : LruCache K V) (xs ys : List (ℕ × Entry K V)) (i : ℕ) (e : Entry K V)
      : Type 0 where
    pub front : Segment c.nodes none xs (some i)
    pub here : get_elem? c.nodes i ≡ some (some (linked e (last_or none xs) (first_or ys none)))
    pub back : Segment c.nodes (some i) ys none
    pub apart : AreApart (xs ++ ys)
    pub out : has i (xs ++ ys) ≡ false
    pub keyed : AreKeyed (xs ++ ys)
    pub absent : index_of e.key (xs ++ ys) ≡ none

  pub around :
      (c : LruCache K V) (xs ys : List (ℕ × Entry K V)) (i : ℕ) (e : Entry K V)
      → Represents c (xs ++ ((i, e) ∷ ys))
      → Around c xs ys i e
  around c xs ys i e r =
      let (before, behind) = Segment-split c.nodes none none xs ((i, e) ∷ ys) r.links in
      let (apart, out) = AreApart-remove xs ys i e r.apart in
      let (keyed, absent) = AreKeyed-remove xs ys i e r.keyed in
      record {
        front = before;
        here = behind.0;
        back = behind.1;
        apart = apart;
        out = out;
        keyed = keyed;
        absent = absent;
      }

  pub last_or-some : (j : ℕ) (xs : List (ℕ × Entry K V)) → (i : ℕ) × (last_or (some j) xs ≡ some i)
  last_or-some j [] = (j, refl)
  last_or-some j ((i, e) ∷ xs) = last_or-some i xs

  pub node_at-found :
      (nodes : Slots K V) (i : ℕ) {n : Node K V}
      → get_elem? nodes i ≡ some (some n)
      → node_at nodes i ≡ some n
  unfolding node_at
  node_at-found nodes i h = rw h

  unlink-some :
      (n : Node K V) (i : ℕ) (c : LruCache K V) (outer slots : Slots K V)
      → link_next n.previous n.next (set c.nodes i none) ≡ some outer
      → link_previous n.next n.previous outer ≡ some slots
      → unlink n i c
        ≡ some (record c {
          indices = remove_key n.key c.indices;
          nodes = slots;
          free = i ∷ c.free;
          least_recent = or_else n.previous n.next c.least_recent;
          most_recent = or_else n.next n.previous c.most_recent;
          used = c.used - n.weight;
        })
  unfolding unlink
  unlink-some n i c outer slots h k = rw (h, k, ◌>>=◌)

  remove_index-some :
      (n : Node K V) (i : ℕ) (c d : LruCache K V)
      → node_at c.nodes i ≡ some n
      → unlink n i c ≡ some d
      → remove_index i c ≡ some (some n, d)
  unfolding remove_index
  remove_index-some n i c d h k = rw (h, remove_index, k)

  pub first-removed :
      (xs ys : List (ℕ × Entry K V)) (i : ℕ) (e : Entry K V)
      → or_else (last_or none xs) (first_or ys none) (first_or (xs ++ ((i, e) ∷ ys)) none)
        ≡ first_or (xs ++ ys) none
  first-removed [] ys i e = refl
  first-removed ((j, d) ∷ xs) ys i e = let (k, e) = last_or-some j xs in rw e

  last-removed :
      (xs ys : List (ℕ × Entry K V)) (i : ℕ) (e : Entry K V)
      → or_else (first_or ys none) (last_or none xs) (last_or none (xs ++ ((i, e) ∷ ys)))
        ≡ last_or none (xs ++ ys)
  last-removed xs [] i e = ap (last_or none) (sym (append-nil xs))
  last-removed xs ((j, d) ∷ ys) i e =
      last_or-append none xs ((i, e) ∷ (j, d) ∷ ys) ∙ sym (last_or-append none xs ((j, d) ∷ ys))

  -- The map behind the removal of a key.
  indexed :
      (c : LruCache K V) (xs ys : List (ℕ × Entry K V)) (i : ℕ) (e : Entry K V)
      → Represents c (xs ++ ((i, e) ∷ ys))
      → (k : K) → find_index k (remove_key e.key c.indices) ≡ index_of k (xs ++ ys)
  indexed c xs ys i e r k = elim (Bool-cases (eq.same e.key k)) [
    | inl s ↦
        subst (λ l. find_index l (remove_key e.key c.indices) ≡ index_of l (xs ++ ys))
          (eq_of_same e.key k s)
          (find_index-remove_key e.key c.indices r.mapped
            ∙ sym ((AreKeyed-remove xs ys i e r.keyed).1))
    | inr s ↦
        find_index-remove_key_other e.key k c.indices s
        ∙ r.indexed k
        ∙ index_of-remove_other k xs ys i e s
  ]

  pub has-rest :
      (c : LruCache K V) (xs ys : List (ℕ × Entry K V)) (i : ℕ) (e : Entry K V)
      → Represents c (xs ++ ((i, e) ∷ ys))
      → (j : ℕ) → get_elem? c.nodes j ≡ some none
      → has j (xs ++ ys) ≡ false
  has-rest c xs ys i e r j free = grind (
    arith,
    has-free c.nodes none none (xs ++ ((i, e) ∷ ys)) j r.links free,
    has-append j xs ((i, e) ∷ ys),
    has-append j xs ys,
  )

  -- The cell of an index is taken out, and its node returned.
  pub remove_index-Represents :
      (c : LruCache K V) (xs ys : List (ℕ × Entry K V)) (i : ℕ) (e : Entry K V)
      → Represents c (xs ++ ((i, e) ∷ ys))
      → (d : LruCache K V) × (remove_index i c
          ≡ some (some (linked e (last_or none xs) (first_or ys none)), d))
        × Represents d (xs ++ ys)
        × (d.capacity ≡ c.capacity)
  unfolding remove_index unlink
  remove_index-Represents c xs ys i e r =
      let a = around c xs ys i e r in
      let nodes = set c.nodes i none in
      let b =
        bypass nodes i xs ys a.apart
          (Segment-set c.nodes none (some i) xs i none a.here
            (or-left (has i xs) (has i ys) (sym (has-append i xs ys) ∙ a.out)) a.front)
          (Segment-set c.nodes (some i) none ys i none a.here
            (or-right (has i xs) (has i ys) (sym (has-append i xs ys) ∙ a.out)) a.back) in
      (
        record c {
          indices = remove_key e.key c.indices;
          nodes = b.slots;
          free = i ∷ c.free;
          least_recent = or_else (last_or none xs) (first_or ys none) c.least_recent;
          most_recent = or_else (first_or ys none) (last_or none xs) c.most_recent;
          used = c.used - e.weight;
        },
        remove_index-some (linked e (last_or none xs) (first_or ys none)) i c _
            (node_at-found c.nodes i a.here)
            (unlink-some (linked e (last_or none xs) (first_or ys none)) i c b.outer b.slots b.front
              b.back),
        record {
          links = b.segment;
          least =
              ap (or_else (last_or none xs) (first_or ys none)) r.least ∙ first-removed xs ys i e;
          most = ap (or_else (first_or ys none) (last_or none xs)) r.most ∙ last-removed xs ys i e;
          apart = a.apart;
          keyed = a.keyed;
          indexed = λ k. indexed c xs ys i e r k;
          mapped = remove_key-AreMapped e.key c.indices r.mapped;
          counted = omega (
            arith,
            r.counted,
            length-append xs ((i, e) ∷ ys),
            length-append xs ys,
            length-remove_key e.key c.indices
                (r.indexed e.key ∙ index_of-middle xs ys i e (index_of-left e.key xs ys a.absent)),
          );
          unused = (
            b.outside i a.out ∙ get_elem?-set c.nodes i i none a.here ∙ ground arith,
            AreFree-agree c.nodes b.slots c.free
                (λ j free.
                  b.outside j (has-rest c xs ys i e r j free)
                  ∙ get_elem?-set c.nodes i j none a.here
                  ∙ ground (arith, free))
                r.unused,
          );
          unique = (contains-free c.nodes c.free i r.unused a.here, r.unique);
          weighed = omega (arith, r.weighed, total-append xs ((i, e) ∷ ys), total-append xs ys);
          within = omega (arith, r.within, total-append xs ((i, e) ∷ ys), total-append xs ys);
          word = r.word;
        },
        refl,
      )
