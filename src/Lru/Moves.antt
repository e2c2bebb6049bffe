-- ===== src/Lru/Moves.antt =====
-- The promotion of an entry in crates/gitility-core/src/lru.rs.
use mathlib.Core.Path.{subst, sym}
use mathlib.Core.List.{append-nil}
use gitility.Base.{
  true, ◌||◌, if◌then◌else◌, ℕ, ◌≡◌, refl, ap, ◌∙◌, false, List, [], ◌∷◌, ◌++◌, Option, none, some,
  ◌==◌, get_elem?, set, get_elem?-set, length-append, arith, Bool-cases, inl, inr,
}
use gitility.Lru.{
  ◌>>=◌, Key, Node, Slots, LruCache, link_next, link_previous, or_else, node_at, move_last, touch,
  is_index, change,
}
use gitility.Lru.Segments.{
  Entry, linked, first_or, last_or, has, has-append, last_or-append, Segment-set, Segment-join,
  link_next-Relinked, change-found,
}
use gitility.Lru.Keys.{AreKeyed-snoc, index_of-move}
use gitility.Lru.Cells.{total-append, AreApart-remove, AreApart-snoc, bypass}
use gitility.Lru.Represents.{
  Represents, around, first-removed, last_or-some, node_at-found, AreFree-agree, has-rest,
}

is_index-some : (o : Option ℕ) (i : ℕ) → is_index o i ≡ true → o ≡ some i
is_index-some none i h = absurd (cc)
is_index-some (some j) i h = ground (arith, h)

module _ {K V : Type 0} ⦃eq : Key K⦄ where
  last-kept :
      (xs ys : List (ℕ × Entry K V)) (i : ℕ) (e : Entry K V) (most : Option ℕ)
      → most ≡ last_or none (xs ++ ((i, e) ∷ ys))
      → is_index most i ≡ false
      → most ≡ last_or none (xs ++ ys)
  last-kept xs [] i e most h k = absurd (
      let last : most ≡ some i = h ∙ last_or-append none xs ((i, e) ∷ []) in grind (arith, last, k))
  last-kept xs ((j, d) ∷ ys) i e most h k =
      h ∙ last_or-append none xs ((i, e) ∷ (j, d) ∷ ys) ∙ sym (last_or-append none xs ((j, d) ∷ ys))

  pub first-appended :
      (zs : List (ℕ × Entry K V)) (i : ℕ) (e : Entry K V)
      → or_else (last_or none zs) (some i) (first_or zs none) ≡ first_or (zs ++ ((i, e) ∷ [])) none
  first-appended [] i e = refl
  first-appended ((j, d) ∷ zs) i e = let (k, h) = last_or-some j zs in rw h

  pub last-appended :
      (zs : List (ℕ × Entry K V)) (i : ℕ) (e : Entry K V)
      → last_or none (zs ++ ((i, e) ∷ [])) ≡ some i
  last-appended zs i e = last_or-append none zs ((i, e) ∷ [])

  free-apart :
      (nodes : Slots K V) (i j : ℕ) {n : Node K V}
      → get_elem? nodes i ≡ some (some n)
      → get_elem? nodes j ≡ some none
      → (i == j) ≡ false
  free-apart nodes i j h free = elim (Bool-cases (i == j)) [
    | inr s ↦ s
    | inl s ↦ absurd (
        let is : i ≡ j = ground (arith, s) in
        let node = sym h ∙ ap (get_elem? nodes) is ∙ free in cc)
  ]

  move_last-some :
      (i : ℕ) (c : LruCache K V) (n : Node K V) (outer unlinked relinked nodes : Slots K V)
      → node_at c.nodes i ≡ some n
      → link_next n.previous n.next c.nodes ≡ some outer
      → link_previous n.next n.previous outer ≡ some unlinked
      → change (λ m. record m { previous = c.most_recent; next = none }) i unlinked ≡ some relinked
      → link_next c.most_recent (some i) relinked ≡ some nodes
      → move_last i c
        ≡ some (record c {
          nodes = nodes;
          least_recent = or_else c.most_recent (some i) (or_else n.previous n.next c.least_recent);
          most_recent = some i;
        })
  unfolding move_last
  move_last-some i c n outer unlinked relinked nodes h0 h1 h2 h3 h4 =
      rw (h0, move_last, ◌>>=◌, h1, h2, h3, h4)

  -- The cell of an index becomes the last one.
  move_last-Represents :
      (c : LruCache K V) (xs ys : List (ℕ × Entry K V)) (i : ℕ) (e : Entry K V)
      → Represents c (xs ++ ((i, e) ∷ ys))
      → is_index c.most_recent i ≡ false
      → (d : LruCache K V) × (move_last i c ≡ some d)
        × Represents d ((xs ++ ys) ++ ((i, e) ∷ []))
        × (d.capacity ≡ c.capacity)
        × (get_elem? d.nodes i ≡ some (some (linked e c.most_recent none)))
  move_last-Represents c xs ys i e r other =
      let a = around c xs ys i e r in
      let b = bypass c.nodes i xs ys a.apart a.front a.back in
      let most = last-kept xs ys i e c.most_recent r.most other in
      let at = b.outside i a.out ∙ a.here in
      let slot = some (linked e c.most_recent none) in
      let relinked = set b.slots i slot in
      let n =
        link_next-Relinked relinked none none (some i) (xs ++ ys)
          (Segment-set b.slots none none (xs ++ ys) i slot at a.out b.segment) a.apart in
      let last : get_elem? n.slots i ≡ some slot =
        n.outside i a.out ∙ get_elem?-set b.slots i i slot at ∙ ground arith in
      let zs = xs ++ ys in
      let same : (j : ℕ)
          → has j zs ≡ false
          → (i == j) ≡ false
          → get_elem? n.slots j ≡ get_elem? c.nodes j =
        λ j out apart.
          n.outside j out
          ∙ get_elem?-set b.slots i j slot at
          ∙ ground (arith, apart)
          ∙ b.outside j out in
      (
        record c {
          nodes = n.slots;
          least_recent =
              or_else c.most_recent (some i)
                (or_else (last_or none xs) (first_or ys none) c.least_recent);
          most_recent = some i;
        },
        move_last-some i c (linked e (last_or none xs) (first_or ys none)) b.outer b.slots relinked
            n.slots (node_at-found c.nodes i a.here) b.front b.back
            (change-found (λ m. record m { previous = c.most_recent; next = none }) i b.slots at)
            (ap (λ m. link_next m (some i) relinked) most ∙ n.returns),
        record {
          links =
              Segment-join n.slots none none zs ((i, e) ∷ []) n.segment
                (last ∙ ap (λ m. some (some (linked e m none))) most, tt);
          least =
              ap
                (λ m.
                  or_else m (some i) (or_else (last_or none xs) (first_or ys none) c.least_recent))
                most
              ∙ ap
                  (λ l.
                    or_else (last_or none zs) (some i)
                      (or_else (last_or none xs) (first_or ys none) l))
                  r.least
              ∙ ap (or_else (last_or none zs) (some i)) (first-removed xs ys i e)
              ∙ first-appended zs i e;
          most = sym (last-appended zs i e);
          apart = AreApart-snoc zs i e a.apart a.out;
          keyed = AreKeyed-snoc zs i e a.keyed a.absent;
          indexed = λ k. r.indexed k ∙ index_of-move k xs ys i e a.absent;
          mapped = r.mapped;
          counted = omega (
            arith,
            r.counted,
            length-append xs ((i, e) ∷ ys),
            length-append xs ys,
            length-append zs ((i, e) ∷ []),
          );
          unused =
              AreFree-agree c.nodes n.slots c.free
                (λ j free.
                  same j (has-rest c xs ys i e r j free) (free-apart c.nodes i j a.here free)
                  ∙ free)
                r.unused;
          unique = r.unique;
          weighed = omega (
            arith,
            r.weighed,
            total-append xs ((i, e) ∷ ys),
            total-append xs ys,
            total-append zs ((i, e) ∷ []),
          );
          within = omega (
            arith,
            r.within,
            total-append xs ((i, e) ∷ ys),
            total-append xs ys,
            total-append zs ((i, e) ∷ []),
          );
          word = r.word;
        },
        refl,
        last,
      )

  -- The last node of a segment is one of its own.
  has-last :
      (p : ℕ) (ys : List (ℕ × Entry K V)) {i : ℕ}
      → last_or (some p) ys ≡ some i
      → ((p == i) || has i ys) ≡ true
  has-last p [] h = grind (arith, h)
  has-last p ((j, d) ∷ ys) {i = i} h = grind (arith, has-last j ys {i = i} h)

  -- The most recent index is that of the last cell.
  already :
      (c : LruCache K V) (xs ys : List (ℕ × Entry K V)) (i : ℕ) (e : Entry K V)
      → Represents c (xs ++ ((i, e) ∷ ys))
      → is_index c.most_recent i ≡ true
      → xs ++ ((i, e) ∷ ys) ≡ (xs ++ ys) ++ ((i, e) ∷ [])
  already c xs [] i e r s = ap (λ zs. zs ++ ((i, e) ∷ [])) (sym (append-nil xs))
  already c xs ((j, d) ∷ ys) i e r s = absurd (
      let last : last_or (some j) ys ≡ some i =
        sym (last_or-append none xs ((i, e) ∷ (j, d) ∷ ys))
        ∙ sym r.most
        ∙ is_index-some c.most_recent i s in
      let (apart, out) = AreApart-remove xs ((j, d) ∷ ys) i e r.apart in
      grind (arith, has-last j ys {i = i} last, out, has-append i xs ((j, d) ∷ ys)))

  -- `touch`: the cell of an index becomes the last one, if it is not there already.
  pub touch-Represents :
      (c : LruCache K V) (xs ys : List (ℕ × Entry K V)) (i : ℕ) (e : Entry K V)
      → Represents c (xs ++ ((i, e) ∷ ys))
      → (d : LruCache K V) × (touch i c ≡ some d)
        × Represents d ((xs ++ ys) ++ ((i, e) ∷ []))
        × (d.capacity ≡ c.capacity)
        × ((n : Node K V) × (get_elem? d.nodes i ≡ some (some n)) × (n.value ≡ e.value))
  unfolding touch
  touch-Represents c xs ys i e r = elim (Bool-cases (is_index c.most_recent i)) [
    | inr s ↦
        (let (d, ends, rep, cap, node) = move_last-Represents c xs ys i e r s in
          (
            d,
            ap (λ b. if b then some c else move_last i c) s ∙ ends,
            rep,
            cap,
            (linked e c.most_recent none, node, refl),
          ))
    | inl s ↦
        (let here = (around c xs ys i e r).here in
          (
            c,
            ap (λ b. if b then some c else move_last i c) s,
            subst (Represents c) (already c xs ys i e r s) r,
            refl,
            (linked e (last_or none xs) (first_or ys none), here, refl),
          ))
  ]
