-- ===== src/Odb/Layered/Settled.antt =====
-- Where the object IDs of a batch stand, between the layers of
-- crates/gitility-core/src/layered_odb.rs.
use mathlib.Core.Path.{subst, sym}
use gitility.Base.{
  ℕ, zero, suc, ◌≡◌, refl, ap, ◌∙◌, true, false, ◌==◌, List, [], ◌∷◌, Option, none, take, drop, map,
  length, arith, Bool-cases, inl, inr,
}
use gitility.Oid.{Oid, oid_eq}
use gitility.Oid.Equal.{oid_eq-eq}
use gitility.Budget.Suspend.{contains, insert_new}
use gitility.Odb.{Object}
use gitility.Odb.Layered.{Progress, Resolved, resolved_at, distinct, with_misses, results}
use gitility.Odb.Layered.Answers.{first_answer, contains-head, contains-tail, Part}

pub distinct-covers :
    (seen oids : List Oid) (oid : Oid)
    → contains oid oids ≡ true
    → contains oid seen ≡ false
    → contains oid (distinct seen oids) ≡ true
unfolding contains distinct insert_new
distinct-covers seen [] oid h out = absurd (cc)
distinct-covers seen (x ∷ oids) oid h out = elim (Bool-cases (contains x seen)) [
  | inl s ↦
      (let there : contains oid oids ≡ true = elim (Bool-cases (oid_eq oid x)) [
        | inr e ↦ ground (arith, h, e)
        | inl e ↦
            absurd
              (let again = subst (λ o. contains o seen ≡ true) (sym (oid_eq-eq oid x e)) s in cc)
      ] in
        let covered = distinct-covers seen oids oid there out in grind (arith, s, covered))
  | inr s ↦ elim (Bool-cases (oid_eq oid x)) [
    | inl e ↦ grind (arith, s, e)
    | inr e ↦
        (let covered =
            distinct-covers (x ∷ seen) oids oid (ground (arith, h, e)) (ground (arith, out, e)) in
          grind (arith, s, e, covered))
  ]
]

misses-out :
    (oids : List Oid) (resolved : Resolved) (oid : Oid)
    → contains oid oids ≡ false
    → resolved_at oid (with_misses oids resolved) ≡ resolved_at oid resolved
unfolding contains resolved_at with_misses
misses-out [] resolved oid h = refl
misses-out (x ∷ oids) resolved oid h =
    misses-out oids ((x, none) ∷ resolved) oid (ground (arith, h)) ∙ ground (arith, h)

misses-in :
    (oids : List Oid) (resolved : Resolved) (oid : Oid)
    → contains oid oids ≡ true
    → resolved_at oid (with_misses oids resolved) ≡ none
unfolding contains resolved_at with_misses
misses-in [] resolved oid h = absurd (cc)
misses-in (x ∷ oids) resolved oid h = elim (Bool-cases (contains oid oids)) [
  | inl m ↦ misses-in oids ((x, none) ∷ resolved) oid m
  | inr m ↦ misses-out oids ((x, none) ∷ resolved) oid m ∙ ground (arith, h, m)
]

-- Where the object IDs of a batch stand, in front of the layer of an index.
pub record Settled (answers : List (Oid → Option Object)) (wanted : List Oid) (index : ℕ)
    (p : Progress) : Type 0 where
  pub left :
      (oid : Oid)
      → contains oid p.unresolved ≡ true
      → (contains oid wanted ≡ true) × (first_answer (take index answers) oid ≡ none)
  pub found :
      (oid : Oid)
      → contains oid wanted ≡ true
      → contains oid p.unresolved ≡ false
      → resolved_at oid p.resolved ≡ first_answer answers oid

pub Settled-next :
    (answers : List (Oid → Option Object)) (wanted : List Oid) (index next : ℕ)
    (Left : Oid → Type 0) (p q : Progress)
    → ((oid : Oid)
        → first_answer (take index answers) oid ≡ none
        → Left oid
        → first_answer (take next answers) oid ≡ none)
    → Settled answers wanted index p
    → Part (λ oid. first_answer answers oid) Left p.unresolved p.resolved q
    → Settled answers wanted next q
Settled-next answers wanted index next Left p q step s part = record {
  left = λ oid h. let l = part.left oid h in let k = s.left oid l.0 in (k.0, step oid k.1 l.1);
  found = λ oid h out. elim (Bool-cases (contains oid p.unresolved)) [
    | inl m ↦ part.found oid m out
    | inr m ↦ part.others oid m ∙ s.found oid h m
  ];
}

-- Where no layer is left, or no object ID.
pub record Ended (answers : List (Oid → Option Object)) (wanted : List Oid) (p : Progress)
    : Type 0 where
  pub left : (oid : Oid) → contains oid p.unresolved ≡ true → first_answer answers oid ≡ none
  pub found :
      (oid : Oid)
      → contains oid wanted ≡ true
      → contains oid p.unresolved ≡ false
      → resolved_at oid p.resolved ≡ first_answer answers oid

pub results-Ended :
    (answers : List (Oid → Option Object)) (wanted oids : List Oid) (p : Progress)
    → ((oid : Oid) → contains oid oids ≡ true → contains oid wanted ≡ true)
    → Ended answers wanted p
    → results oids p ≡ map (first_answer answers) oids
unfolding results
results-Ended answers wanted [] p within e = refl
results-Ended answers wanted (oid ∷ oids) p within e =
    let here : resolved_at oid (with_misses p.unresolved p.resolved) ≡ first_answer answers oid =
      elim (Bool-cases (contains oid p.unresolved)) [
        | inl m ↦ misses-in p.unresolved p.resolved oid m ∙ sym (e.left oid m)
        | inr m ↦
            misses-out p.unresolved p.resolved oid m
            ∙ e.found oid (within oid (contains-head oid oids)) m
      ] in
    let rest : results oids p ≡ map (first_answer answers) oids =
      results-Ended answers wanted oids p (λ o m. within o (contains-tail o oid oids m)) e in
    ap (λ v. v ∷ results oids p) here ∙ ap (◌∷◌ (first_answer answers oid)) rest

drop-nil : {A : Type 0} (xs : List A) (index : ℕ) → drop index xs ≡ [] → take index xs ≡ xs
drop-nil [] zero h = refl
drop-nil [] (suc index) h = refl
drop-nil (x ∷ xs) zero h = absurd (cc)
drop-nil (x ∷ xs) (suc index) h = ap (◌∷◌ x) (drop-nil xs index h)

-- Behind the last layer every object ID that is left is missing.
pub Settled-last :
    (answers : List (Oid → Option Object)) (wanted : List Oid) (index : ℕ) (p : Progress)
    → drop index answers ≡ []
    → Settled answers wanted index p
    → Ended answers wanted p
Settled-last answers wanted index p h s = record {
  left =
      λ oid m. subst (λ xs. first_answer xs oid ≡ none) (drop-nil answers index h) (s.left oid m).1;
  found = s.found;
}

pub Settled-empty :
    (answers : List (Oid → Option Object)) (wanted : List Oid) (index : ℕ) (p : Progress)
    → (length p.unresolved == 0) ≡ true
    → Settled answers wanted index p
    → Ended answers wanted p
unfolding contains
Settled-empty answers wanted index p h s = record {
  left = λ oid m. absurd (empty p.unresolved oid h m);
  found = s.found;
}
  where
    empty : (oids : List Oid) (oid : Oid) → (length oids == 0) ≡ true → contains oid oids ≡ true → ⊥
    empty [] oid h m = cc
    empty (x ∷ oids) oid h m = ground (arith, h)

pub Settled-first :
    (answers : List (Oid → Option Object)) (wanted : List Oid)
    → Settled answers wanted 0 (record { unresolved = wanted; resolved = []; result_bytes = 0 })
unfolding first_answer
Settled-first answers wanted = record {
  left = λ oid m. (m, refl);
  found = λ oid m out. absurd (cc);
}

pub none_seen : (oid : Oid) → contains oid [] ≡ false
unfolding contains
none_seen oid = refl
