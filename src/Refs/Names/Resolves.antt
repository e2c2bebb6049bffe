-- ===== src/Refs/Names/Resolves.antt =====
-- What a resolution of crates/gitility-core/src/refs.rs answers.
use gitility.Base.{
  ℕ, zero, suc, ◌≡◌, refl, sym, List, [], ◌∷◌, ◌++◌, Option, none, some, if-cases, arith,
}
use gitility.Error.{Result, ok, err, Ensures}
use gitility.Budget.{check}
use gitility.Odb.{World, Io, Clock}
use gitility.Odb.Safe.{
  Outcome, Safe, pure-Safe, fail-Safe, lift-Safe, at_now-Safe, bind-Safe, weaken-Safe,
}
use gitility.Refs.Names.{
  NameRules, RefTarget, direct, symbolic, validate_full_ref_name, named_target, validate_target,
  name_in, symbolic_cycle, too_many_hops, follow, hop, resolve_with,
}
use gitility.Refs.Names.Leads.{Ends, missing, found, over}

module _ {S : Type 0} (J : S → Type 0) (clock : Clock S)
    (ticks : (s : S) → J s → J (clock.read s).1) (rules : NameRules)
    (resolve_one : List ℕ → Io S (Option RefTarget)) (target_of : List ℕ → Option RefTarget)
    (answers : (name : List ℕ) → Safe J (λ found. found ≡ target_of name) (resolve_one name)) where
  abbrev IsValidName : List ℕ → Unit {0} → Type 0
  IsValidName name u = validate_full_ref_name rules name ≡ ok tt

  valid-Ensures : (name : List ℕ) → Ensures (IsValidName name) (validate_full_ref_name rules name)
  valid-Ensures name = ensured (validate_full_ref_name rules name)
    where
      ensured : (r : Result (Unit {0})) → Ensures (λ u. r ≡ ok tt) r
      ensured (ok u) = refl
      ensured (err e) = tt

  target-Ensures : (next : List ℕ) → Ensures (IsValidName next) (validate_target rules next)
  unfolding validate_target
  target-Ensures next = ensured (validate_full_ref_name rules next)
    where
      ensured : (r : Result (Unit {0})) → Ensures (λ u. r ≡ ok tt) (named_target rules next r)
      ensured (ok u) = refl
      ensured (err e) = tt

  follow-Safe :
      (hops : ℕ) (name : List ℕ) (again : List ℕ → Io S (Option RefTarget))
      (answer : Option RefTarget)
      → answer ≡ target_of name
      → ((next : List ℕ) → Safe J (Ends rules target_of hops next) (again next))
      → Safe J (Ends rules target_of (suc hops) name) (follow rules clock resolve_one again answer)
  unfolding follow
  follow-Safe hops name again none is further =
      pure-Safe J (Ends rules target_of (suc hops) name) none
        (1, omega arith, missing name (sym is))
  follow-Safe hops name again (some (direct oid peeled)) is further =
      pure-Safe J (Ends rules target_of (suc hops) name) (some (direct oid peeled))
        (1, omega arith, found name oid peeled (sym is))
  follow-Safe hops name again (some (symbolic next)) is further =
      bind-Safe J (IsValidName next) (Ends rules target_of (suc hops) name) _ _
        (lift-Safe J (IsValidName next) (validate_target rules next) (target-Ensures next))
        (λ _ valid.
          weaken-Safe J
            (λ end (n, short, leads).
              (suc n, omega arith, over n name next end (sym is) valid leads))
            (further next))

  hop-Safe :
      (hops : ℕ) (current : List ℕ) (seen chain : List (List ℕ))
      → Safe J
          (Ends rules target_of hops current)
          (hop rules clock resolve_one hops current seen chain)
  unfolding hop
  hop-Safe zero current seen chain =
      fail-Safe J (Ends rules target_of zero current) (too_many_hops rules chain)
  hop-Safe (suc hops) current seen chain =
      bind-Safe J (λ (_ : Unit {0}). Unit {0}) (Ends rules target_of (suc hops) current) _ _
        (at_now-Safe J clock check ticks)
        (λ _ _.
          if-cases (Safe J (Ends rules target_of (suc hops) current)) (name_in current seen)
            (λ old.
              fail-Safe J (Ends rules target_of (suc hops) current)
                (symbolic_cycle rules (chain ++ (current ∷ []))))
            (λ new.
              bind-Safe J (λ answer. answer ≡ target_of current)
                (Ends rules target_of (suc hops) current) _ _ (answers current)
                (λ answer is.
                  follow-Safe hops current _ answer is
                    (λ next. hop-Safe hops next (current ∷ seen) (chain ++ (current ∷ []))))))

  -- Over a store that does not panic, keeps an invariant of what lies outside, which reads of the clock
  -- keep too, and answers a name only with its target by a fixed function: a resolution does not
  -- panic, and succeeds only from a valid full name, with the end of the chain of at most 16 names that
  -- starts there, each symbolic target a valid full name.
  pub resolve_with-Ends :
      (name : List ℕ) (w : World S)
      → J w.outside
      → Outcome J
          (λ end. (validate_full_ref_name rules name ≡ ok tt) × Ends rules target_of 16 name end)
          (resolve_with rules clock resolve_one name w)
  unfolding resolve_with
  resolve_with-Ends name =
      bind-Safe J (IsValidName name)
        (λ end. (validate_full_ref_name rules name ≡ ok tt) × Ends rules target_of 16 name end) _ _
        (lift-Safe J (IsValidName name) (validate_full_ref_name rules name) (valid-Ensures name))
        (λ _ valid. weaken-Safe J (λ end leads. (valid, leads)) (hop-Safe 16 name [] []))
