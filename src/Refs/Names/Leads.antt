-- ===== src/Refs/Names/Leads.antt =====
-- The chains of symbolic references that crates/gitility-core/src/refs.rs follows.
use gitility.Base.{ℕ, suc, ◌≤◌, ◌<◌, ◌≡◌, refl, ap, sym, ◌∙◌, List, Option, none, some, arith}
use gitility.Oid.{Oid}
use gitility.Error.{ok}
use gitility.Refs.Names.{NameRules, RefTarget, direct, symbolic, validate_full_ref_name}

module _ (rules : NameRules) (target_of : List ℕ → Option RefTarget) where
  -- A chain of so many names from a name to its end, over valid full names.
  pub data Leads : ℕ → List ℕ → Option RefTarget → Type 0 where
    missing : (name : List ℕ) → target_of name ≡ none → Leads 1 name none
    found :
        (name : List ℕ) (oid : Oid) (peeled : Option Oid)
        → target_of name ≡ some (direct oid peeled)
        → Leads 1 name (some (direct oid peeled))
    over :
        (n : ℕ) (name next : List ℕ) (end : Option RefTarget)
        → target_of name ≡ some (symbolic next)
        → validate_full_ref_name rules next ≡ ok tt
        → Leads n next end
        → Leads (suc n) name end

  -- The end of a chain of at most so many names.
  abbrev pub Ends : ℕ → List ℕ → Option RefTarget → Type 0
  Ends hops name end = (n : ℕ) × (n ≤ hops) × Leads n name end

  next_of : Option RefTarget → List ℕ → List ℕ
  next_of (some (symbolic next)) name = next
  next_of (some (direct oid peeled)) name = name
  next_of none name = name

  same_next :
      (name x y : List ℕ)
      → target_of name ≡ some (symbolic x)
      → target_of name ≡ some (symbolic y)
      → x ≡ y
  unfolding next_of
  same_next name x y h k = ap (λ t. next_of t name) (sym h ∙ k)

  -- A name has one chain at most.
  pub Leads-unique :
      (m n : ℕ) (x y : List ℕ) (p q : Option RefTarget) → x ≡ y → Leads m x p → Leads n y q → m ≡ n
  Leads-unique _ _ _ _ _ _ e (missing x h) (missing y k) = refl
  Leads-unique _ _ _ _ _ _ e (missing x h) (found y oid peeled k) = refl
  Leads-unique _ _ _ _ _ _ e (missing x h) (over n y next end k v r) =
      absurd (let t = ap target_of e in cc)
  Leads-unique _ _ _ _ _ _ e (found x oid peeled h) (missing y k) = refl
  Leads-unique _ _ _ _ _ _ e (found x oid peeled h) (found y oid' peeled' k) = refl
  Leads-unique _ _ _ _ _ _ e (found x oid peeled h) (over n y next end k v r) =
      absurd (let t = ap target_of e in cc)
  Leads-unique _ _ _ _ _ _ e (over m x next end h u l) (missing y k) =
      absurd (let t = ap target_of e in cc)
  Leads-unique _ _ _ _ _ _ e (over m x next end h u l) (found y oid peeled k) =
      absurd (let t = ap target_of e in cc)
  Leads-unique _ _ _ _ _ _ e (over m x next end h u l) (over n y next' end' k v r) = ap suc (
      Leads-unique m n next next' end end' (same_next y next next' (ap target_of (sym e) ∙ h) k) l
        r)

  pub Leads-positive : (n : ℕ) (name : List ℕ) (end : Option RefTarget) → Leads n name end → 0 < n
  Leads-positive _ _ _ (missing name h) = omega arith
  Leads-positive _ _ _ (found name oid peeled h) = omega arith
  Leads-positive _ _ _ (over n name next end h v l) = omega arith
