-- ===== src/Refs/Names/Finishes.antt =====
-- Which resolutions of crates/gitility-core/src/refs.rs succeed.
use gitility.Base.{
  ℕ, zero, suc, ◌≤◌, ◌<◌, ◌≡◌, refl, ap, ◌∙◌, true, false, Bool-cases, inl, inr, List, [], ◌∷◌,
  ◌++◌, Option, none, some, bytes_eq, bytes_eq-eq, arith,
}
use gitility.Error.{Result, ok}
use gitility.Budget.{check}
use gitility.Odb.{World, Io, Clock, at_now, and_then, ◌>>=◌, lift}
use gitility.Refs.Names.{
  NameRules, RefTarget, direct, symbolic, validate_full_ref_name, named_target, validate_target,
  name_in, follow, hop, resolve_with,
}
use gitility.Refs.Names.Leads.{Leads, missing, found, over, Leads-unique, Leads-positive}

module _ {S : Type 0} (K : World S → Type 0) where
  -- A result, in a world where a predicate holds.
  pub record Gives {A : Type 0} (a : A) (result : Option (Result A × World S)) : Type 0 where
    pub world : World S
    pub returns : result ≡ some (ok a, world)
    pub keeps : K world

  abbrev pub Always : {A : Type 0} → A → Io S A → Type 0
  Always a io = (w : World S) → K w → Gives a (io w)

  pure-Always : {A : Type 0} (a : A) → Always a (λ w. some (ok a, w))
  pure-Always a w k = record { world = w; returns = refl; keeps = k }

  bind-Always :
      {A B : Type 0} (a : A) (b : B) (io : Io S A) (f : A → Io S B)
      → Always a io
      → Always b (f a)
      → Always b (io >>= f)
  bind-Always a b io f h g w k =
      let first = h w k in
      let second = g first.world first.keeps in
      record {
        world = second.world;
        returns = ap (λ r. and_then r f) first.returns ∙ second.returns;
        keeps = second.keeps;
      }

module _ (rules : NameRules) (target_of : List ℕ → Option RefTarget) where
  -- No name that was seen has a chain of so few names.
  abbrev Behind : ℕ → List (List ℕ) → Type 0
  Behind n seen =
      (name : List ℕ) (m : ℕ) (end : Option RefTarget)
      → name_in name seen ≡ true
      → Leads rules target_of m name end
      → n < m

  behind_empty : (n : ℕ) → Behind n []
  unfolding name_in
  behind_empty n name m end h l = absurd (cc)

  behind_next :
      (n : ℕ) (name : List ℕ) (end : Option RefTarget) (seen : List (List ℕ))
      → Leads rules target_of (suc n) name end
      → Behind (suc n) seen
      → Behind n (name ∷ seen)
  unfolding name_in
  behind_next n name end seen leads b other m end' h l = elim (Bool-cases (bytes_eq other name)) [
    | inl e ↦
        (let same =
            Leads-unique rules target_of m (suc n) other name end' end (bytes_eq-eq other name e) l
              leads in
          omega (arith, same))
    | inr e ↦ omega (arith, b other m end' (ground (arith, h, e)) l)
  ]

  unseen :
      (n : ℕ) (name : List ℕ) (end : Option RefTarget) (seen : List (List ℕ))
      → Leads rules target_of n name end
      → Behind n seen
      → name_in name seen ≡ false
  unseen n name end seen leads b = elim (Bool-cases (name_in name seen)) [
    | inl h ↦ absurd (omega (arith, b name n end h leads))
    | inr h ↦ h
  ]

  valid_target :
      (next : List ℕ)
      → validate_full_ref_name rules next ≡ ok tt
      → validate_target rules next ≡ ok tt
  unfolding validate_target
  valid_target next h = ap (named_target rules next) h

  module _ {S : Type 0} (K : World S → Type 0) (clock : Clock S)
      (resolve_one : List ℕ → Io S (Option RefTarget)) (checks : Always K tt (at_now clock check))
      (answers : (name : List ℕ) → Always K (target_of name) (resolve_one name)) where
    lift-Always : {A : Type 0} (r : Result A) (a : A) → r ≡ ok a → Always K a (lift r)
    lift-Always r a h w k = record { world = w; returns = ap (λ x. some (x, w)) h; keeps = k }

    follow-Always :
        (again : List ℕ → Io S (Option RefTarget)) (name next : List ℕ) (end : Option RefTarget)
        → target_of name ≡ some (symbolic next)
        → validate_full_ref_name rules next ≡ ok tt
        → Always K end (again next)
        → Always K end (follow rules clock resolve_one again (target_of name))
    unfolding follow
    follow-Always again name next end h valid further = rw h (
        bind-Always K tt end _ _
          (lift-Always (validate_target rules next) tt (valid_target next valid)) further)

    ended-Always :
        (again : List ℕ → Io S (Option RefTarget)) (answer : Option RefTarget)
        → ((next : List ℕ) → answer ≡ some (symbolic next) → ⊥)
        → Always K answer (follow rules clock resolve_one again answer)
    unfolding follow
    ended-Always again none h = pure-Always K none
    ended-Always again (some (direct oid peeled)) h = pure-Always K (some (direct oid peeled))
    ended-Always again (some (symbolic next)) h = absurd (h next refl)

    turn-Always :
        (hops : ℕ) (current : List ℕ) (seen chain : List (List ℕ)) (end : Option RefTarget)
        → name_in current seen ≡ false
        → Always K end (
            follow rules clock resolve_one
              (λ next.
                hop rules clock resolve_one hops next (current ∷ seen) (chain ++ (current ∷ [])))
              (target_of current))
        → Always K end (hop rules clock resolve_one (suc hops) current seen chain)
    unfolding hop
    turn-Always hops current seen chain end new h =
        bind-Always K tt end _ _ checks
          (rw new (bind-Always K (target_of current) end _ _ (answers current) h))

    hop-Always :
        (n hops : ℕ) (current : List ℕ) (end : Option RefTarget) (seen chain : List (List ℕ))
        → n ≤ hops
        → Behind n seen
        → Leads rules target_of n current end
        → Always K end (hop rules clock resolve_one hops current seen chain)
    hop-Always n zero current end seen chain short b leads =
        absurd (omega (arith, short, Leads-positive rules target_of n current end leads))
    hop-Always _ (suc hops) _ _ seen chain short b (missing current h) =
        turn-Always hops current seen chain none (unseen 1 current none seen (missing current h) b)
          (rw h (ended-Always _ none (λ next e. absurd (cc))))
    hop-Always _ (suc hops) _ _ seen chain short b (found current oid peeled h) =
        turn-Always hops current seen chain (some (direct oid peeled))
          (unseen 1 current _ seen (found current oid peeled h) b)
          (rw h (ended-Always _ (some (direct oid peeled)) (λ next e. absurd (cc))))
    hop-Always _ (suc hops) _ _ seen chain short b (over n current next end h valid leads) =
        let whole = over n current next end h valid leads in
        turn-Always hops current seen chain end (unseen (suc n) current end seen whole b) (
          follow-Always _ current next end h valid (
            hop-Always n hops next end (current ∷ seen) (chain ++ (current ∷ []))
              (omega (arith, short)) (behind_next n current end seen whole b) leads))

    -- Over worlds where a predicate holds, which makes every check of the budget succeed and the store
    -- answer each name with its target by a fixed function, and lasts over both: where a valid full
    -- name starts a chain of at most 16 names, over valid full names, a resolution succeeds with the
    -- end of the chain, and the predicate lasts.
    pub resolve_with-Finishes :
        (n : ℕ) (name : List ℕ) (end : Option RefTarget) (w : World S)
        → n ≤ 16
        → validate_full_ref_name rules name ≡ ok tt
        → Leads rules target_of n name end
        → K w
        → Gives K end (resolve_with rules clock resolve_one name w)
    unfolding resolve_with
    resolve_with-Finishes n name end w short valid leads =
        bind-Always K tt end _ _ (lift-Always (validate_full_ref_name rules name) tt valid)
          (hop-Always n 16 name end [] [] short (behind_empty n) leads) w
