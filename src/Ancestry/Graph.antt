-- ===== src/Ancestry/Graph.antt =====
-- The commit graph behind crates/gitility-core/src/ancestry.rs, and the sets of its search.
use mathlib.Core.Path.{subst}
use gitility.Base.{
  ℕ, ◌+◌, ◌≤◌, ◌≡◌, refl, ap, true, false, ◌||◌, if◌then◌else◌, List, [], ◌∷◌, length, All, arith,
  inl, inr, Bool-cases,
}
use gitility.Oid.{Oid, oid_eq}
use gitility.Oid.Equal.{oid_eq_refl, oid_eq-eq}
use gitility.Budget.Suspend.{contains}
use gitility.Ancestry.{extended}

module _ (parents : Oid → List Oid) where
  -- An ancestor is the commit itself or one of a parent.
  pub data Reaches : Oid → Oid → Type 0 where
    here : (x : Oid) → Reaches x x
    over : (x p y : Oid) → contains p (parents x) ≡ true → Reaches p y → Reaches x y

  -- One more parent behind a path.
  pub Reaches-parent : (x y p : Oid) → Reaches x y → contains p (parents y) ≡ true → Reaches x p
  Reaches-parent x _ p (here _) h = over x p p h (here p)
  Reaches-parent x y p (over _ q _ m r) h = over x q p m (Reaches-parent q y p r h)

  -- A set that has the parents of its members has all that they reach.
  pub closed-Reaches :
      (seen : List Oid)
      → ((x p : Oid)
          → contains x seen ≡ true
          → contains p (parents x) ≡ true
          → contains p seen ≡ true)
      → (x y : Oid) → Reaches x y
      → contains x seen ≡ true
      → contains y seen ≡ true
  closed-Reaches seen closed x _ (here _) h = h
  closed-Reaches seen closed x y (over _ p _ m r) h =
      closed-Reaches seen closed p y r (closed x p h m)

  -- Closure under parents, member by member.
  pub closed-All :
      (all rest : List Oid)
      → All (λ x. (p : Oid) → contains p (parents x) ≡ true → contains p all ≡ true) rest
      → (x p : Oid) → contains x rest ≡ true
      → contains p (parents x) ≡ true
      → contains p all ≡ true
  unfolding contains
  closed-All all [] h x p m n = absurd (cc)
  closed-All all (y ∷ rest) h x p m n = elim (Bool-cases (oid_eq x y)) [
    | inl e ↦ h.0 p (subst (λ z. contains p (parents z) ≡ true) (oid_eq-eq x y e) n)
    | inr e ↦ closed-All all rest h.1 x p (ground (arith, m, e)) n
  ]

  -- The parents of the commits that were not seen.
  unfoldable pub unseen : List Oid → List Oid → ℕ
  unseen [] seen = 0
  unseen (x ∷ all) seen = (if contains x seen then 0 else length (parents x)) + unseen all seen

  unseen-more : (all seen : List Oid) (id : Oid) → unseen all (id ∷ seen) ≤ unseen all seen
  unfolding unseen contains
  unseen-more [] seen id = omega arith
  unseen-more (x ∷ all) seen id = grind (arith, unseen-more all seen id)

  -- To see a commit leaves its parents less.
  pub unseen-seen :
      (all seen : List Oid) (id : Oid)
      → contains id all ≡ true
      → contains id seen ≡ false
      → unseen all (id ∷ seen) + length (parents id) ≤ unseen all seen
  unfolding unseen contains
  unseen-seen [] seen id m out = absurd (cc)
  unseen-seen (x ∷ all) seen id m out = elim (Bool-cases (oid_eq id x)) [
    | inl e ↦
        (let is = oid_eq-eq id x e in
          let self : oid_eq x id ≡ true = subst (λ z. oid_eq z id ≡ true) is (oid_eq_refl id) in
          let new : contains x seen ≡ false = subst (λ z. contains z seen ≡ false) is out in
          let count : length (parents id) ≡ length (parents x) = ap (λ z. length (parents z)) is in
          grind (arith, self, new, count, unseen-more all seen id))
    | inr e ↦ (let rest = unseen-seen all seen id (ground (arith, m, e)) out in grind (arith, rest))
  ]

pub contains-extended :
    (x : Oid) (ps pending : List Oid)
    → contains x (extended ps pending) ≡ (contains x ps || contains x pending)
unfolding contains extended
contains-extended x [] pending = refl
contains-extended x (p ∷ ps) pending = grind (arith, contains-extended x ps (p ∷ pending))

pub length-extended :
    (ps pending : List Oid) → length (extended ps pending) ≡ length ps + length pending
unfolding extended
length-extended [] pending = omega arith
length-extended (p ∷ ps) pending = omega (arith, length-extended ps (p ∷ pending))
