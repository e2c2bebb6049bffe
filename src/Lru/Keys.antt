-- ===== src/Lru/Keys.antt =====
-- The key map of crates/gitility-core/src/lru.rs against the cells of the recency list.
use mathlib.Core.Path.{subst, sym}
use mathlib.Core.List.{append-nil}
use gitility.Base.{
  ℕ, suc, ◌≡◌, refl, ap, ◌∙◌, true, false, List, [], ◌∷◌, ◌++◌, Option, none, some, if◌then◌else◌,
  if-cases, length, arith, Bool-cases, inl, inr,
}
use gitility.Lru.{Key, find_index, remove_key}
use gitility.Lru.Segments.{Entry}

module _ {K : Type 0} ⦃eq : Key K⦄ where
  pub same_refl : (a : K) → eq.same a a ≡ true
  same_refl a = (eq.same_iff a a).1 refl

  pub eq_of_same : (a b : K) → eq.same a b ≡ true → a ≡ b
  eq_of_same a b = (eq.same_iff a b).0

  pub same_comm : (a b : K) → eq.same a b ≡ false → eq.same b a ≡ false
  same_comm a b h = elim (Bool-cases (eq.same b a)) [
    | inr e ↦ e
    | inl e ↦
        absurd (let s : eq.same a b ≡ true = (eq.same_iff a b).1 (sym (eq_of_same b a e)) in cc)
  ]

  -- No key twice in the map.
  abbrev pub AreMapped : List (K × ℕ) → Type 0
  AreMapped [] = Unit
  AreMapped ((k, i) ∷ indices) = (find_index k indices ≡ none) × AreMapped indices

  pub find_index-remove_key_other :
      (k l : K) (indices : List (K × ℕ))
      → eq.same k l ≡ false
      → find_index l (remove_key k indices) ≡ find_index l indices
  unfolding find_index remove_key
  find_index-remove_key_other k l [] h = refl
  find_index-remove_key_other k l ((m, i) ∷ indices) h = elim (Bool-cases (eq.same m k)) [
    | inl e ↦
        (let s : eq.same m l ≡ false =
            subst (λ n. eq.same n l ≡ false) (sym (eq_of_same m k e)) h in
          grind (arith, e, s))
    | inr e ↦ grind (arith, e, find_index-remove_key_other k l indices h)
  ]

  pub find_index-remove_key :
      (k : K) (indices : List (K × ℕ))
      → AreMapped indices
      → find_index k (remove_key k indices) ≡ none
  unfolding find_index remove_key
  find_index-remove_key k [] h = refl
  find_index-remove_key k ((m, i) ∷ indices) h = elim (Bool-cases (eq.same m k)) [
    | inl e ↦
        (let s : find_index k indices ≡ none =
            subst (λ n. find_index n indices ≡ none) (eq_of_same m k e) h.0 in
          grind (arith, e, s))
    | inr e ↦ grind (arith, e, find_index-remove_key k indices h.1)
  ]

  pub remove_key-AreMapped :
      (k : K) (indices : List (K × ℕ)) → AreMapped indices → AreMapped (remove_key k indices)
  unfolding find_index remove_key
  remove_key-AreMapped k [] h = tt
  remove_key-AreMapped k ((m, i) ∷ indices) h =
      if-cases AreMapped (eq.same m k) (λ _. h.1)
        (λ e. (
          find_index-remove_key_other k m indices (same_comm m k e) ∙ h.0,
          remove_key-AreMapped k indices h.1,
        ))

  pub length-remove_key :
      (k : K) (indices : List (K × ℕ)) {i : ℕ}
      → find_index k indices ≡ some i
      → suc (length (remove_key k indices)) ≡ length indices
  unfolding find_index remove_key
  length-remove_key k [] h = absurd (cc)
  length-remove_key k ((m, i) ∷ indices) h = grind (arith, length-remove_key k indices)

  pub remove_key_absent :
      (k : K) (indices : List (K × ℕ))
      → find_index k indices ≡ none
      → remove_key k indices ≡ indices
  unfolding find_index remove_key
  remove_key_absent k [] h = refl
  remove_key_absent k ((m, i) ∷ indices) h = grind (arith, remove_key_absent k indices)

module _ {K V : Type 0} ⦃eq : Key K⦄ where
  -- Where a key stands among the cells.
  unfoldable pub index_of : K → List (ℕ × Entry K V) → Option ℕ
  index_of k [] = none
  index_of k ((i, e) ∷ cells) = if eq.same e.key k then some i else index_of k cells

  abbrev pub AreKeyed : List (ℕ × Entry K V) → Type 0
  AreKeyed [] = Unit
  AreKeyed ((i, e) ∷ cells) = (index_of e.key cells ≡ none) × AreKeyed cells

  pub index_of-append :
      (k : K) (xs ys : List (ℕ × Entry K V))
      → index_of k xs ≡ none
      → index_of k (xs ++ ys) ≡ index_of k ys
  unfolding index_of
  index_of-append k [] ys h = refl
  index_of-append k ((i, e) ∷ xs) ys h = grind (arith, index_of-append k xs ys)

  pub index_of-left :
      (k : K) (xs ys : List (ℕ × Entry K V)) → index_of k (xs ++ ys) ≡ none → index_of k xs ≡ none
  unfolding index_of
  index_of-left k [] ys h = refl
  index_of-left k ((i, e) ∷ xs) ys h = grind (arith, index_of-left k xs ys)

  pub index_of-middle :
      (xs ys : List (ℕ × Entry K V)) (i : ℕ) (e : Entry K V)
      → index_of e.key xs ≡ none
      → index_of e.key (xs ++ ((i, e) ∷ ys)) ≡ some i
  unfolding index_of
  index_of-middle xs ys i e h =
      index_of-append e.key xs ((i, e) ∷ ys) h ∙ grind (arith, same_refl e.key)

  -- A cell taken out of the middle: other keys stand where they stood, and its key nowhere.
  pub index_of-remove_other :
      (k : K) (xs ys : List (ℕ × Entry K V)) (i : ℕ) (e : Entry K V)
      → eq.same e.key k ≡ false
      → index_of k (xs ++ ((i, e) ∷ ys)) ≡ index_of k (xs ++ ys)
  unfolding index_of
  index_of-remove_other k [] ys i e h = grind (arith, h)
  index_of-remove_other k ((j, d) ∷ xs) ys i e h =
      grind (arith, index_of-remove_other k xs ys i e h)

  pub AreKeyed-remove :
      (xs ys : List (ℕ × Entry K V)) (i : ℕ) (e : Entry K V)
      → AreKeyed (xs ++ ((i, e) ∷ ys))
      → AreKeyed (xs ++ ys) × (index_of e.key (xs ++ ys) ≡ none)
  unfolding index_of
  AreKeyed-remove [] ys i e h = (h.1, h.0)
  AreKeyed-remove ((j, d) ∷ xs) ys i e h =
      let (keyed, out) = AreKeyed-remove xs ys i e h.1 in
      let apart : eq.same e.key d.key ≡ false = absent_apart d.key xs ys i e h.0 in
      (
        (sym (index_of-remove_other d.key xs ys i e apart) ∙ h.0, keyed),
        grind (arith, out, same_comm e.key d.key apart),
      )
    where
      absent_apart :
          (k : K) (xs ys : List (ℕ × Entry K V)) (i : ℕ) (e : Entry K V)
          → index_of k (xs ++ ((i, e) ∷ ys)) ≡ none
          → eq.same e.key k ≡ false
      absent_apart k [] ys i e h = grind (arith, h)
      absent_apart k ((j, d) ∷ xs) ys i e h = absent_apart k xs ys i e (grind (arith, h))

  -- A cell that moves to the end stands at its index still.
  pub index_of-move :
      (k : K) (xs ys : List (ℕ × Entry K V)) (i : ℕ) (e : Entry K V)
      → index_of e.key (xs ++ ys) ≡ none
      → index_of k (xs ++ ((i, e) ∷ ys)) ≡ index_of k ((xs ++ ys) ++ ((i, e) ∷ []))
  index_of-move k xs ys i e absent = elim (Bool-cases (eq.same e.key k)) [
    | inl s ↦
        subst (λ l. index_of l (xs ++ ((i, e) ∷ ys)) ≡ index_of l ((xs ++ ys) ++ ((i, e) ∷ [])))
          (eq_of_same e.key k s)
          (index_of-middle xs ys i e (index_of-left e.key xs ys absent)
            ∙ sym (index_of-middle (xs ++ ys) [] i e absent))
    | inr s ↦
        index_of-remove_other k xs ys i e s
        ∙ ap (index_of k) (sym (append-nil (xs ++ ys)))
        ∙ sym (index_of-remove_other k (xs ++ ys) [] i e s)
  ]

  pub AreKeyed-snoc :
      (xs : List (ℕ × Entry K V)) (i : ℕ) (e : Entry K V)
      → AreKeyed xs
      → index_of e.key xs ≡ none
      → AreKeyed (xs ++ ((i, e) ∷ []))
  unfolding index_of
  AreKeyed-snoc [] i e h out = (refl, tt)
  AreKeyed-snoc ((j, d) ∷ xs) i e h out = elim (Bool-cases (eq.same d.key e.key)) [
    | inl s ↦ absurd (grind (arith, out, s))
    | inr s ↦ (
      index_of-append d.key xs ((i, e) ∷ []) h.0 ∙ grind (arith, same_comm d.key e.key s),
      AreKeyed-snoc xs i e h.1 (grind (arith, out, s)),
    )
  ]

  -- The cell of a key, and the cells on its two sides.
  pub record Split (k : K) (i : ℕ) (cells : List (ℕ × Entry K V)) : Type 0 where
    pub front : List (ℕ × Entry K V)
    pub entry : Entry K V
    pub back : List (ℕ × Entry K V)
    pub is : cells ≡ front ++ ((i, entry) ∷ back)
    pub keyed : entry.key ≡ k
    pub first : index_of k front ≡ none

  pub index_of-Split :
      (k : K) (cells : List (ℕ × Entry K V)) {i : ℕ} → index_of k cells ≡ some i → Split k i cells
  unfolding index_of
  index_of-Split k [] h = absurd (cc)
  index_of-Split k ((j, d) ∷ cells) {i} h = elim (Bool-cases (eq.same d.key k)) [
    | inl e ↦ record {
      front = [];
      entry = d;
      back = cells;
      is = grind (arith, h, e);
      keyed = eq_of_same d.key k e;
      first = refl;
    }
    | inr e ↦
        (let s = index_of-Split k cells {i = i} (grind (arith, h, e)) in
          record {
            front = (j, d) ∷ s.front;
            entry = s.entry;
            back = s.back;
            is = ap (◌∷◌ (j, d)) s.is;
            keyed = s.keyed;
            first = grind (arith, s.first, e);
          })
  ]
