-- ===== src/Odb/Layered/Answers.antt =====
-- What the layers of crates/gitility-core/src/layered_odb.rs answer, as functions of the object ID.
use mathlib.Core.Path.{subst, sym}
use gitility.Base.{
  ℕ, zero, suc, ◌≤◌, ◌≡◌, refl, ◌∙◌, true, false, List, [], ◌∷◌, Option, none, some, take, drop,
  arith, Bool-cases, Option-cases, inl, inr,
}
use gitility.Oid.{Oid, oid_eq}
use gitility.Oid.Equal.{oid_eq-eq, oid_eq_refl}
use gitility.Budget.Suspend.{contains}
use gitility.Odb.{Object}
use gitility.Odb.Layered.{Progress, Resolved, resolved_at}

-- The answer of the first layer that has the object.
unfoldable pub first_answer : List (Oid → Option Object) → Oid → Option Object
first_answer [] oid = none
first_answer (a ∷ answers) oid = elim (a oid) [
  | none ↦ first_answer answers oid
  | some object ↦ some object
]

pub first_answer-none :
    (a : Oid → Option Object) (answers : List (Oid → Option Object)) (oid : Oid)
    → a oid ≡ none
    → first_answer (a ∷ answers) oid ≡ first_answer answers oid
unfolding first_answer
first_answer-none a answers oid h = rw (h, first_answer)

pub first_answer-some :
    (a : Oid → Option Object) (answers : List (Oid → Option Object)) (oid : Oid) {o : Object}
    → a oid ≡ some o
    → first_answer (a ∷ answers) oid ≡ some o
unfolding first_answer
first_answer-some a answers oid h = rw (h, first_answer)

-- Where the whole misses, so does its first layer, and so do the others.
first_answer-missed :
    (a : Oid → Option Object) (answers : List (Oid → Option Object)) (oid : Oid)
    → first_answer (a ∷ answers) oid ≡ none
    → (a oid ≡ none) × (first_answer answers oid ≡ none)
first_answer-missed a answers oid h = elim (Option-cases (a oid)) [
  | inl n ↦ (n, sym (first_answer-none a answers oid n) ∙ h)
  | inr (o, s) ↦ absurd (let hit = first_answer-some a answers oid s in cc)
]

-- Layers that miss can be left out in front.
pub missed-drop :
    (answers : List (Oid → Option Object)) (at index : ℕ) (oid : Oid)
    → at ≤ index
    → first_answer (take index answers) oid ≡ none
    → first_answer (drop at answers) oid ≡ first_answer (drop index answers) oid
missed-drop answers zero zero oid le h = refl
missed-drop answers (suc at) zero oid le h = absurd (omega (arith, le))
missed-drop [] zero (suc index) oid le h = refl
missed-drop [] (suc at) (suc index) oid le h = refl
missed-drop (a ∷ answers) zero (suc index) oid le h =
    let (n, m) = first_answer-missed a (take index answers) oid h in
    first_answer-none a answers oid n ∙ missed-drop answers zero index oid (omega arith) m
missed-drop (a ∷ answers) (suc at) (suc index) oid le h =
    let (n, m) = first_answer-missed a (take index answers) oid h in
    missed-drop answers at index oid (omega (arith, le)) m

pub missed-next :
    (answers : List (Oid → Option Object)) (index : ℕ) (oid : Oid) {a : Oid → Option Object}
    {rest : List (Oid → Option Object)}
    → drop index answers ≡ a ∷ rest
    → first_answer (take index answers) oid ≡ none
    → a oid ≡ none
    → first_answer (take (suc index) answers) oid ≡ none
missed-next [] zero oid h m n = absurd (cc)
missed-next [] (suc index) oid h m n = absurd (cc)
missed-next (b ∷ answers) zero oid {a} {rest} h m n =
    let is : b ≡ a = cc in first_answer-none b [] oid (subst (λ c. c oid ≡ none) (sym is) n) ∙ m
missed-next (b ∷ answers) (suc index) oid {a} {rest} h m n =
    let (x, y) = first_answer-missed b (take index answers) oid m in
    first_answer-none b (take (suc index) answers) oid x
    ∙ missed-next answers index oid {a = a} {rest = rest} h y n

pub drop-next :
    {A : Type 0} (xs : List A) (index : ℕ) {x : A} {rest : List A}
    → drop index xs ≡ x ∷ rest
    → drop (suc index) xs ≡ rest
drop-next [] zero h = absurd (cc)
drop-next [] (suc index) h = absurd (cc)
drop-next (y ∷ xs) zero h = cc
drop-next (y ∷ xs) (suc index) h = drop-next xs index h

pub contains-tail :
    (other oid : Oid) (oids : List Oid)
    → contains other oids ≡ true
    → contains other (oid ∷ oids) ≡ true
unfolding contains
contains-tail other oid oids h = ground (arith, h)

pub contains-head : (oid : Oid) (oids : List Oid) → contains oid (oid ∷ oids) ≡ true
unfolding contains
contains-head oid oids = ground (arith, oid_eq_refl oid)

module _ (answer : Oid → Option Object) where
  -- What is left of the object IDs, and that the others are found.
  pub record Part (Left : Oid → Type 0) (oids : List Oid) (resolved : Resolved) (p : Progress)
      : Type 0 where
    pub left :
        (oid : Oid) → contains oid p.unresolved ≡ true → (contains oid oids ≡ true) × Left oid
    pub found :
        (oid : Oid)
        → contains oid oids ≡ true
        → contains oid p.unresolved ≡ false
        → resolved_at oid p.resolved ≡ answer oid
    pub others :
        (oid : Oid)
        → contains oid oids ≡ false
        → resolved_at oid p.resolved ≡ resolved_at oid resolved

  pub Part-none :
      (Left : Oid → Type 0) (resolved : Resolved) (bytes : ℕ)
      → Part Left [] resolved
          (record { unresolved = []; resolved = resolved; result_bytes = bytes })
  unfolding contains
  Part-none Left resolved bytes = record {
    left = λ oid h. absurd (cc);
    found = λ oid h. absurd (cc);
    others = λ oid h. refl;
  }

  pub Part-hit :
      (Left : Oid → Type 0) (oid : Oid) (object : Object) (oids : List Oid) (resolved : Resolved)
      (p : Progress)
      → answer oid ≡ some object
      → Part Left oids ((oid, some object) ∷ resolved) p
      → Part Left (oid ∷ oids) resolved p
  unfolding contains resolved_at
  Part-hit Left oid object oids resolved p is part = record {
    left = λ other h. (let l = part.left other h in (ground (arith, l.0), l.1));
    found = λ other h out. elim (Bool-cases (contains other oids)) [
      | inl m ↦ part.found other m out
      | inr m ↦
          (let same : other ≡ oid = oid_eq-eq other oid (ground (arith, h, m)) in
            part.others other m
            ∙ subst (λ o. resolved_at o ((oid, some object) ∷ resolved) ≡ answer o) (sym same)
                (grind (arith, oid_eq_refl oid, is)))
    ];
    others = λ other h. part.others other (ground (arith, h)) ∙ ground (arith, h);
  }

  pub Part-miss :
      (Left : Oid → Type 0) (oid : Oid) (oids : List Oid) (resolved : Resolved) (p : Progress)
      → Left oid
      → Part Left oids resolved p
      → Part Left (oid ∷ oids) resolved (record p { unresolved = oid ∷ p.unresolved })
  unfolding contains
  Part-miss Left oid oids resolved p is part = record {
    left = λ other h. elim (Bool-cases (oid_eq other oid)) [
      | inl e ↦ (ground (arith, e), subst Left (sym (oid_eq-eq other oid e)) is)
      | inr e ↦ (let l = part.left other (ground (arith, h, e)) in (ground (arith, l.0), l.1))
    ];
    found = λ other h out. part.found other (ground (arith, h, out)) (ground (arith, out));
    others = λ other h. part.others other (ground (arith, h));
  }
