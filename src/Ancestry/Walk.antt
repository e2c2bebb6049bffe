-- ===== src/Ancestry/Walk.antt =====
-- The search of crates/gitility-core/src/ancestry.rs beside reachability.
use mathlib.Core.Path.{subst, sym}
use gitility.Base.{
  ℕ, zero, suc, ◌+◌, ◌<◌, ◌≡◌, refl, ap, ◌∙◌, Bool, true, false, ◌||◌, if-cases, List, [], ◌∷◌,
  Option, none, some, length, arith, ◌↔◌, inl, inr, Bool-cases,
}
use gitility.Oid.{Oid, oid_eq}
use gitility.Oid.Equal.{oid_eq_refl, oid_eq-eq}
use gitility.Error.{Result, ok, err, Ensures, with_oid_if_none}
use gitility.Budget.{check}
use gitility.Budget.Suspend.{contains}
use gitility.Odb.{World, Object, ObjectDb, Clock}
use gitility.Odb.Safe.{
  Outcome, Safe, any, pure-Safe, lift-Safe, at_now-Safe, bind-Safe, map_err-Safe,
}
use gitility.Decode.{Parser}
use gitility.Ancestry.{ensure_sha1, parents_of, read_parents, walk, is_ancestor, extended}
use gitility.Ancestry.Graph.{
  Reaches, here, over, Reaches-parent, closed-Reaches, unseen, unseen-seen, contains-extended,
  length-extended,
}

module _ (parents : Oid → List Oid) (ancestor descendant : Oid) (all : List Oid) where
  -- Between two turns of the loop.
  record IsSearch (fuel : ℕ) (pending seen : List Oid) : Type 0 where
    pub reached : (p : Oid) → contains p pending ≡ true → Reaches parents descendant p
    pub known : (p : Oid) → contains p pending ≡ true → contains p all ≡ true
    pub closed :
        (x p : Oid)
        → contains x seen ≡ true
        → contains p (parents x) ≡ true
        → (contains p seen || contains p pending) ≡ true
    pub start : contains descendant seen ≡ true
    pub avoided : contains ancestor seen ≡ false
    pub fueled : length pending + unseen parents all seen < fuel

  -- Where nothing is pending the ancestor is out of reach.
  exhausted :
      (fuel : ℕ) (seen : List Oid) → IsSearch fuel [] seen → ¬ Reaches parents descendant ancestor
  unfolding contains
  exhausted fuel seen s r =
      let in_seen =
        closed-Reaches parents seen (λ x p m n. let c = s.closed x p m n in ground (arith, c))
          descendant ancestor r s.start in
      let out = s.avoided in cc

  popped :
      (fuel : ℕ) (id : Oid) (pending seen : List Oid)
      → IsSearch (suc fuel) (id ∷ pending) seen
      → contains id seen ≡ true
      → IsSearch fuel pending seen
  unfolding contains
  popped fuel id pending seen s old = record {
    reached = λ p m. s.reached p (ground (arith, m));
    known = λ p m. s.known p (ground (arith, m));
    closed = λ x p m n. elim (Bool-cases (oid_eq p id)) [
      | inl e ↦
          (let is : contains p seen ≡ true =
              subst (λ z. contains z seen ≡ true) (sym (oid_eq-eq p id e)) old in
            ground (arith, is))
      | inr e ↦ (let c = s.closed x p m n in ground (arith, c, e))
    ];
    start = s.start;
    avoided = s.avoided;
    fueled = omega (arith, s.fueled);
  }

  grown :
      (closed_all : (x p : Oid)
        → contains x all ≡ true
        → contains p (parents x) ≡ true
        → contains p all ≡ true)
      (fuel : ℕ) (id : Oid) (pending seen : List Oid)
      → IsSearch (suc fuel) (id ∷ pending) seen
      → contains id seen ≡ false
      → oid_eq id ancestor ≡ false
      → IsSearch fuel (extended (parents id) pending) (id ∷ seen)
  unfolding contains
  grown closed_all fuel id pending seen s new other =
      let here : contains id (id ∷ pending) ≡ true = ground (arith, oid_eq_refl id) in
      record {
        reached = λ p m. elim (Bool-cases (contains p (parents id))) [
          | inl e ↦ Reaches-parent parents descendant id p (s.reached id here) e
          | inr e ↦
              s.reached p
                (let c = contains-extended p (parents id) pending in ground (arith, c, m, e))
        ];
        known = λ p m. elim (Bool-cases (contains p (parents id))) [
          | inl e ↦ closed_all id p (s.known id here) e
          | inr e ↦
              s.known p
                (let c = contains-extended p (parents id) pending in ground (arith, c, m, e))
        ];
        closed = λ x p m n. elim (Bool-cases (oid_eq x id)) [
          | inl e ↦
              (let mine : contains p (parents id) ≡ true =
                  subst (λ z. contains p (parents z) ≡ true) (oid_eq-eq x id e) n in
                let c = contains-extended p (parents id) pending in ground (arith, c, mine))
          | inr e ↦
              (let k = s.closed x p (ground (arith, m, e)) n in
                let c = contains-extended p (parents id) pending in ground (arith, c, k))
        ];
        start = (let c = s.start in ground (arith, c));
        avoided = elim (Bool-cases (oid_eq ancestor id)) [
          | inr e ↦ (let c = s.avoided in ground (arith, c, e))
          | inl e ↦ absurd (
              let same : oid_eq id ancestor ≡ true =
                subst (λ z. oid_eq id z ≡ true) (sym (oid_eq-eq ancestor id e)) (oid_eq_refl id) in
              cc)
        ];
        fueled = omega (
          arith,
          s.fueled,
          length-extended (parents id) pending,
          unseen-seen parents all seen id (s.known id here) new,
        );
      }

  started :
      ((x p : Oid) → contains x all ≡ true → contains p (parents x) ≡ true → contains p all ≡ true)
      → (fuel : ℕ) → contains descendant all ≡ true
      → unseen parents all [] < fuel
      → oid_eq ancestor descendant ≡ false
      → IsSearch fuel (extended (parents descendant) []) (descendant ∷ [])
  unfolding contains
  started closed_all fuel within enough other = record {
    reached = λ p m.
        over descendant p p
          (let c = contains-extended p (parents descendant) [] in ground (arith, c, m)) (here p);
    known = λ p m.
        closed_all descendant p within
          (let c = contains-extended p (parents descendant) [] in ground (arith, c, m));
    closed = λ x p m n.
        let mine : contains p (parents descendant) ≡ true =
          subst (λ z. contains p (parents z) ≡ true) (oid_eq-eq x descendant (ground (arith, m)))
            n in
        let c = contains-extended p (parents descendant) [] in ground (arith, c, mine);
    start = ground (arith, oid_eq_refl descendant);
    avoided = ground (arith, other);
    fueled = omega (
      arith,
      enough,
      length-extended (parents descendant) [],
      unseen-seen parents all [] descendant within (ground arith),
    );
  }

contains-first : (x : Oid) (xs : List Oid) → contains x (x ∷ xs) ≡ true
unfolding contains
contains-first x xs = ground (arith, oid_eq_refl x)

module _ {S : Type 0} (J : S → Type 0) (clock : Clock S)
    (ticks : (s : S) → J s → J (clock.read s).1) (parser : Parser) (store : ObjectDb S)
    (answer : Oid → Option Object) where
  abbrev pub value_or : Result (List Oid) → List Oid
  value_or (ok parents) = parents
  value_or (err e) = []

  -- The parents of each commit, as the store answers: those of its payload, and none at a shallow
  -- boundary, nor where there is no commit.
  abbrev pub parents_at : Oid → List Oid
  parents_at oid = value_or (parents_of parser store.shallow_roots oid false (answer oid))

  ensures_value :
      (r q : Result (List Oid))
      → value_or r ≡ value_or q
      → Ensures (λ parents. parents ≡ value_or q) r
  ensures_value (ok parents) q h = h
  ensures_value (err e) q h = tt

  same_parents :
      (oid : Oid) (input : Bool) (found : Option Object)
      → value_or (parents_of parser store.shallow_roots oid input found)
        ≡ value_or (parents_of parser store.shallow_roots oid false found)
  unfolding parents_of
  same_parents oid input none = refl
  same_parents oid input (some object) = grind arith

  module _ (finds : (oid : Oid) → Safe J (λ found. found ≡ answer oid) (store.try_find oid)) where
    read_parents-Safe :
        (oid : Oid) (input : Bool)
        → Safe J (λ parents. parents ≡ parents_at oid) (read_parents parser clock store oid input)
    unfolding read_parents
    read_parents-Safe oid input =
        bind-Safe J (λ found. found ≡ answer oid) (λ parents. parents ≡ parents_at oid) _ _
          (map_err-Safe J (λ found. found ≡ answer oid) (with_oid_if_none oid) _ (finds oid))
          (λ found is.
            lift-Safe J (λ parents. parents ≡ parents_at oid)
              (parents_of parser store.shallow_roots oid input found)
              (ensures_value (parents_of parser store.shallow_roots oid input found)
                (parents_of parser store.shallow_roots oid false (answer oid))
                (same_parents oid input found
                  ∙ ap (λ o. value_or (parents_of parser store.shallow_roots oid false o)) is)))

    module _ (ancestor descendant : Oid) (all : List Oid)
        (closed_all : (x p : Oid)
          → contains x all ≡ true
          → contains p (parents_at x) ≡ true
          → contains p all ≡ true) where
      abbrev pub Decides : Bool → Type 0
      Decides b = (b ≡ true) ↔ Reaches parents_at descendant ancestor

      walk-Safe :
          (fuel : ℕ) (pending seen : List Oid)
          → IsSearch parents_at ancestor descendant all fuel pending seen
          → Safe J Decides (walk parser clock store fuel ancestor pending seen)
      unfolding walk
      walk-Safe zero pending seen s = absurd (omega (arith, s.fueled))
      walk-Safe (suc fuel) [] seen s = pure-Safe J Decides false (
        λ h. absurd (cc),
        λ r. absurd (exhausted parents_at ancestor descendant all (suc fuel) seen s r),
      )
      walk-Safe (suc fuel) (id ∷ pending) seen s =
          bind-Safe J (λ (_ : Unit {0}). Unit {0}) Decides _ _ (at_now-Safe J clock check ticks)
            (λ _ _.
              if-cases (Safe J Decides) (contains id seen)
                (λ old.
                  walk-Safe fuel pending seen
                    (popped parents_at ancestor descendant all fuel id pending seen s old))
                (λ new.
                  if-cases (Safe J Decides) (oid_eq id ancestor)
                    (λ is. pure-Safe J Decides true (
                      λ _.
                          subst (Reaches parents_at descendant) (oid_eq-eq id ancestor is)
                            (s.reached id (contains-first id pending)),
                      λ _. refl,
                    ))
                    (λ other.
                      bind-Safe J (λ parents. parents ≡ parents_at id) Decides _ _
                        (read_parents-Safe id false)
                        (λ ps same.
                          subst
                            (λ qs. Safe J Decides (
                              walk parser clock store fuel ancestor (extended qs pending)
                                (id ∷ seen)))
                            (sym same)
                            (walk-Safe fuel (extended (parents_at id) pending) (id ∷ seen) (
                              grown parents_at ancestor descendant all closed_all fuel id pending
                                seen s new other))))))

      -- With fuel for the parents of all commits in a set that holds the descendant and the parents of
      -- its members, the search comes to an end, without a panic; where it succeeds, it says
      -- whether the ancestor is reachable.
      pub is_ancestor-Reaches :
          (fuel : ℕ)
          → contains descendant all ≡ true
          → unseen parents_at all [] < fuel
          → (w : World S) → J w.outside
          → Outcome J Decides (is_ancestor parser clock store fuel ancestor descendant w)
      unfolding is_ancestor
      is_ancestor-Reaches fuel within enough =
          bind-Safe J (λ (_ : Unit {0}). Unit {0}) Decides _ _
            (lift-Safe J (λ (_ : Unit {0}). Unit {0})
              (ensure_sha1 store.hash_kind (ancestor ∷ descendant ∷ []))
              (any (ensure_sha1 store.hash_kind (ancestor ∷ descendant ∷ []))))
            (λ _ _.
              bind-Safe J (λ (_ : Unit {0}). Unit {0}) Decides _ _ (at_now-Safe J clock check ticks)
                (λ _ _.
                  bind-Safe J (λ parents. parents ≡ parents_at ancestor) Decides _ _
                    (read_parents-Safe ancestor true)
                    (λ _ _.
                      if-cases (Safe J Decides) (oid_eq ancestor descendant)
                        (λ is. pure-Safe J Decides true (
                          λ _.
                              subst (Reaches parents_at descendant)
                                (sym (oid_eq-eq ancestor descendant is)) (here descendant),
                          λ _. refl,
                        ))
                        (λ other.
                          bind-Safe J (λ parents. parents ≡ parents_at descendant) Decides _ _
                            (read_parents-Safe descendant true)
                            (λ ps same.
                              subst
                                (λ qs. Safe J Decides (
                                  walk parser clock store fuel ancestor (extended qs [])
                                    (descendant ∷ [])))
                                (sym same)
                                (walk-Safe fuel (extended (parents_at descendant) [])
                                  (descendant ∷ [])
                                  (started parents_at ancestor descendant all closed_all fuel within
                                    enough other)))))))
