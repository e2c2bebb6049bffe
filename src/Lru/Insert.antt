-- ===== src/Lru/Insert.antt =====
-- The insertion of an entry in crates/gitility-core/src/lru.rs.
use mathlib.Core.Path.{subst, sym}
use mathlib.Core.List.{append-nil}
use gitility.Base.{
  ℕ, zero, suc, ◌+◌, ◌≤◌, ◌≡◌, refl, ap, ◌∙◌, false, List, [], ◌∷◌, ◌++◌, Option, none, some, ◌==◌,
  get_elem?, set, get_elem?-set, length, length-append, arith, Bool-cases, inl, inr, saturating_add,
}
use gitility.Lru.{
  ◌>>=◌, Key, Slots, LruCache, link_next, or_else, take_slot, fill, find_index, remove_key,
}
use gitility.Lru.Segments.{
  Entry, linked, last_or, Segment, Segment-set, Segment-join, link_next-Relinked,
}
use gitility.Lru.Keys.{
  AreKeyed-snoc, index_of, find_index-remove_key, find_index-remove_key_other, remove_key-AreMapped,
  remove_key_absent, index_of-middle, index_of-remove_other, eq_of_same,
}
use gitility.Lru.Cells.{total, total-append, AreFree, AreUnique, contains, AreApart-snoc}
use gitility.Lru.Represents.{Represents, AreFree-agree, has-free}
use gitility.Lru.Moves.{first-appended, last-appended}

get_elem?-left :
    {A : Type 0} (xs ys : List A) (i : ℕ) {a : A}
    → get_elem? xs i ≡ some a
    → get_elem? (xs ++ ys) i ≡ some a
get_elem?-left [] ys i h = absurd (cc)
get_elem?-left (x ∷ xs) ys zero h = h
get_elem?-left (x ∷ xs) ys (suc i) h = get_elem?-left xs ys i h

get_elem?-middle :
    {A : Type 0} (xs : List A) (a : A) → get_elem? (xs ++ (a ∷ [])) (length xs) ≡ some a
get_elem?-middle [] a = refl
get_elem?-middle (x ∷ xs) a = get_elem?-middle xs a

module _ {K V : Type 0} where
  Segment-left :
      (nodes others : Slots K V) (p q : Option ℕ) (cells : List (ℕ × Entry K V))
      → Segment nodes p cells q
      → Segment (nodes ++ others) p cells q
  Segment-left nodes others p q [] h = tt
  Segment-left nodes others p q ((i, e) ∷ cells) h =
      (get_elem?-left nodes others i h.0, Segment-left nodes others (some i) q cells h.1)

  AreFree-other :
      (nodes others : Slots K V) (i : ℕ) (free : List ℕ)
      → contains i free ≡ false
      → ((j : ℕ)
          → (i == j) ≡ false
          → get_elem? nodes j ≡ some none
          → get_elem? others j ≡ some none)
      → AreFree nodes free
      → AreFree others free
  AreFree-other nodes others i [] out same h = tt
  AreFree-other nodes others i (j ∷ free) out same h = (
    same j (grind (arith, out)) h.0,
    AreFree-other nodes others i free (grind (arith, out)) same h.1,
  )

module _ {K V : Type 0} ⦃eq : Key K⦄ where
  -- A slot that is empty and no longer free.
  pub record Ready (cells : List (ℕ × Entry K V)) (capacity : ℕ) (r : ℕ × LruCache K V)
      : Type 0 where
    pub holds : Represents r.1 cells
    pub empty : get_elem? r.1.nodes r.0 ≡ some none
    pub taken : contains r.0 r.1.free ≡ false
    pub bound : r.1.capacity ≡ capacity

  take_slot-grown :
      (c : LruCache K V)
      → c.free ≡ []
      → take_slot c ≡ (length c.nodes, record c { nodes = c.nodes ++ (none ∷ []) })
  unfolding take_slot
  take_slot-grown c h = rw h

  take_slot-popped :
      (c : LruCache K V) (i : ℕ) (free : List ℕ)
      → c.free ≡ i ∷ free
      → take_slot c ≡ (i, record c { free = free })
  unfolding take_slot
  take_slot-popped c i free h = rw h

  pub take_slot-Ready :
      (c : LruCache K V) (cells : List (ℕ × Entry K V))
      → Represents c cells
      → Ready cells c.capacity (take_slot c)
  take_slot-Ready c cells r = from c.free refl
    where
      from : (free : List ℕ) → c.free ≡ free → Ready cells c.capacity (take_slot c)
      from [] h = subst (Ready cells c.capacity) (sym (take_slot-grown c h)) (record {
        holds = record {
          links = Segment-left c.nodes (none ∷ []) none none cells r.links;
          least = r.least;
          most = r.most;
          apart = r.apart;
          keyed = r.keyed;
          indexed = r.indexed;
          mapped = r.mapped;
          counted = r.counted;
          unused =
              AreFree-agree c.nodes (c.nodes ++ (none ∷ [])) c.free
                (λ j free. get_elem?-left c.nodes (none ∷ []) j free) r.unused;
          unique = r.unique;
          weighed = r.weighed;
          within = r.within;
          word = r.word;
        };
        empty = get_elem?-middle c.nodes none;
        taken = ap (contains (length c.nodes)) h;
        bound = refl;
      })
      from (i ∷ free) h =
          let unused = subst (AreFree c.nodes) h r.unused in
          let unique = subst AreUnique h r.unique in
          subst (Ready cells c.capacity) (sym (take_slot-popped c i free h)) (record {
            holds = record {
              links = r.links;
              least = r.least;
              most = r.most;
              apart = r.apart;
              keyed = r.keyed;
              indexed = r.indexed;
              mapped = r.mapped;
              counted = r.counted;
              unused = unused.1;
              unique = unique.1;
              weighed = r.weighed;
              within = r.within;
              word = r.word;
            };
            empty = unused.0;
            taken = unique.0;
            bound = refl;
          })

  fill-some :
      (k : K) (v : V) (w i : ℕ) (c : LruCache K V) (nodes : Slots K V)
      → get_elem? c.nodes i ≡ some none
      → link_next c.most_recent (some i) (
          set c.nodes i (
            some
              (record { key = k; value = v; weight = w; previous = c.most_recent; next = none })))
        ≡ some nodes
      → fill k v w (i, c)
        ≡ some (record c {
          indices = (k, i) ∷ remove_key k c.indices;
          nodes = nodes;
          least_recent = or_else c.most_recent (some i) c.least_recent;
          most_recent = some i;
          used = saturating_add c.used w;
        })
  unfolding fill
  fill-some k v w i c nodes h g = rw (h, ◌>>=◌, g)

  indexed-snoc :
      (c : LruCache K V) (cells : List (ℕ × Entry K V)) (i : ℕ) (e : Entry K V)
      → Represents c cells
      → index_of e.key cells ≡ none
      → (l : K)
      → find_index l ((e.key, i) ∷ remove_key e.key c.indices) ≡ index_of l (cells ++ ((i, e) ∷ []))
  unfolding find_index
  indexed-snoc c cells i e r absent l = elim (Bool-cases (eq.same e.key l)) [
    | inl s ↦
        (let is : index_of l (cells ++ ((i, e) ∷ [])) ≡ some i =
            subst (λ m. index_of m (cells ++ ((i, e) ∷ [])) ≡ some i) (eq_of_same e.key l s)
              (index_of-middle cells [] i e absent) in
          grind (arith, s, is))
    | inr s ↦
        (let is : index_of l (cells ++ ((i, e) ∷ [])) ≡ index_of l cells =
            index_of-remove_other l cells [] i e s ∙ ap (index_of l) (append-nil cells) in
          let was : find_index l (remove_key e.key c.indices) ≡ index_of l cells =
            find_index-remove_key_other e.key l c.indices s ∙ r.indexed l in
          grind (arith, s, is, was))
  ]

  -- The entry becomes the last cell.
  pub fill-Represents :
      (k : K) (v : V) (w : ℕ) (c : LruCache K V) (cells : List (ℕ × Entry K V)) (i : ℕ)
      → Represents c cells
      → get_elem? c.nodes i ≡ some none
      → contains i c.free ≡ false
      → index_of k cells ≡ none
      → total cells + w ≤ c.capacity
      → (d : LruCache K V) × (fill k v w (i, c) ≡ some d)
        × Represents d (cells ++ ((i, record { key = k; value = v; weight = w }) ∷ []))
        × (d.capacity ≡ c.capacity)
  fill-Represents k v w c cells i r empty taken absent fits =
      let e : Entry K V = record { key = k; value = v; weight = w } in
      let out = has-free c.nodes none none cells i r.links empty in
      let slot = some (linked e c.most_recent none) in
      let n =
        link_next-Relinked (set c.nodes i slot) none none (some i) cells
          (Segment-set c.nodes none none cells i slot empty out r.links) r.apart in
      let last : get_elem? n.slots i ≡ some slot =
        n.outside i out ∙ get_elem?-set c.nodes i i slot empty ∙ ground arith in
      (
        record c {
          indices = (k, i) ∷ remove_key k c.indices;
          nodes = n.slots;
          least_recent = or_else c.most_recent (some i) c.least_recent;
          most_recent = some i;
          used = saturating_add c.used w;
        },
        fill-some k v w i c n.slots empty
            (ap (λ m. link_next m (some i) (set c.nodes i slot)) r.most ∙ n.returns),
        record {
          links =
              Segment-join n.slots none none cells ((i, e) ∷ []) n.segment
                (last ∙ ap (λ m. some (some (linked e m none))) r.most, tt);
          least =
              ap (λ m. or_else m (some i) c.least_recent) r.most
              ∙ ap (or_else (last_or none cells) (some i)) r.least
              ∙ first-appended cells i e;
          most = sym (last-appended cells i e);
          apart = AreApart-snoc cells i e r.apart out;
          keyed = AreKeyed-snoc cells i e r.keyed absent;
          indexed = indexed-snoc c cells i e r absent;
          mapped = (
            find_index-remove_key k c.indices r.mapped,
            remove_key-AreMapped k c.indices r.mapped,
          );
          counted =
              ap (λ is. suc (length is)) (remove_key_absent k c.indices (r.indexed k ∙ absent))
              ∙ omega (arith, r.counted, length-append cells ((i, e) ∷ []));
          unused =
              AreFree-other c.nodes n.slots i c.free taken
                (λ j apart free.
                  n.outside j (has-free c.nodes none none cells j r.links free)
                  ∙ get_elem?-set c.nodes i j slot empty
                  ∙ ground (arith, apart, free))
                r.unused;
          unique = r.unique;
          weighed = omega (arith, r.weighed, r.word, fits, total-append cells ((i, e) ∷ []));
          within = omega (arith, fits, total-append cells ((i, e) ∷ []));
          word = r.word;
        },
        refl,
      )
