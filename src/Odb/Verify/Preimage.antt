-- ===== src/Odb/Verify/Preimage.antt =====
-- The bytes that crates/gitility-core/src/verify.rs hashes.
use gitility.Base.{
  ℕ, zero, suc, ◌+◌, ◌/◌, ◌%◌, ◌<◌, ◌≡◌, refl, sym, ap, ◌∙◌, ltb, if-cases, List, [], ◌∷◌, ◌++◌,
  All, length, arith,
}
use gitility.Oid.{HashKind, ObjectKind, commit, tree, blob, tag}
use gitility.Odb.Verify.{kind_text, decimal, digits_before, filled}

abbrev IsDigit : ℕ → Type 0
IsDigit d = 0 < d

digits_before-IsDigit :
    (fuel n : ℕ) (digits : List ℕ) → All IsDigit digits → All IsDigit (digits_before fuel n digits)
unfolding digits_before
digits_before-IsDigit zero n digits h = h
digits_before-IsDigit (suc fuel) n digits h =
    if-cases (All IsDigit) (ltb n 10) (λ _. (omega arith, h))
      (λ _. digits_before-IsDigit fuel (n / 10) ((b'0' + n % 10) ∷ digits) (omega arith, h))

abbrev kind_of_text : List ℕ → ℕ × ℕ
kind_of_text (a ∷ b ∷ rest) = (a, b)
kind_of_text _ = (0, 0)

abbrev first_bytes : ObjectKind → ℕ × ℕ
first_bytes commit = (b'c', b'o')
first_bytes tree = (b't', b'r')
first_bytes blob = (b'b', b'l')
first_bytes tag = (b't', b'a')

kind_of_text-filled :
    (h : HashKind) (k : ObjectKind) (p : List ℕ)
    → kind_of_text (filled h k p).content ≡ first_bytes k
unfolding filled kind_text
kind_of_text-filled h commit p = refl
kind_of_text-filled h tree p = refl
kind_of_text-filled h blob p = refl
kind_of_text-filled h tag p = refl

first_bytes-injective : (k l : ObjectKind) → first_bytes k ≡ first_bytes l → k ≡ l
first_bytes-injective commit commit e = refl
first_bytes-injective tree tree e = refl
first_bytes-injective blob blob e = refl
first_bytes-injective tag tag e = refl
first_bytes-injective commit tree e = absurd (omega (arith, ap (λ x. x.0) e))
first_bytes-injective commit blob e = absurd (omega (arith, ap (λ x. x.0) e))
first_bytes-injective commit tag e = absurd (omega (arith, ap (λ x. x.0) e))
first_bytes-injective tree commit e = absurd (omega (arith, ap (λ x. x.0) e))
first_bytes-injective tree blob e = absurd (omega (arith, ap (λ x. x.0) e))
first_bytes-injective tree tag e = absurd (omega (arith, ap (λ x. x.1) e))
first_bytes-injective blob commit e = absurd (omega (arith, ap (λ x. x.0) e))
first_bytes-injective blob tree e = absurd (omega (arith, ap (λ x. x.0) e))
first_bytes-injective blob tag e = absurd (omega (arith, ap (λ x. x.0) e))
first_bytes-injective tag commit e = absurd (omega (arith, ap (λ x. x.0) e))
first_bytes-injective tag tree e = absurd (omega (arith, ap (λ x. x.1) e))
first_bytes-injective tag blob e = absurd (omega (arith, ap (λ x. x.0) e))

append-cancel : {A : Type 0} (xs ys zs : List A) → xs ++ ys ≡ xs ++ zs → ys ≡ zs
append-cancel [] ys zs e = e
append-cancel (x ∷ xs) ys zs e = append-cancel xs ys zs (cc)

-- The first zero ends the digits.
zero-ends :
    (ds es p q : List ℕ)
    → All IsDigit ds
    → All IsDigit es
    → (ds ++ (0 ∷ [])) ++ p ≡ (es ++ (0 ∷ [])) ++ q
    → p ≡ q
zero-ends [] [] p q hd he e = cc
zero-ends [] (x ∷ es) p q hd he e = absurd (let z : 0 ≡ x = cc in omega (arith, z, he.0))
zero-ends (x ∷ ds) [] p q hd he e = absurd (let z : x ≡ 0 = cc in omega (arith, z, hd.0))
zero-ends (x ∷ ds) (y ∷ es) p q hd he e = zero-ends ds es p q hd.1 he.1 (cc)

filled-split :
    (h : HashKind) (k : ObjectKind) (p : List ℕ)
    → (filled h k p).content
      ≡ (kind_text k ++ (b' ' ∷ [])) ++ ((decimal (length p) ++ (0 ∷ [])) ++ p)
unfolding filled kind_text
filled-split h commit p = refl
filled-split h tree p = refl
filled-split h blob p = refl
filled-split h tag p = refl

-- The bytes that are hashed determine the kind and the payload.
pub filled-injective :
    (h i : HashKind) (k l : ObjectKind) (p q : List ℕ)
    → (filled h k p).content ≡ (filled i l q).content
    → (k ≡ l) × (p ≡ q)
unfolding decimal
filled-injective h i k l p q e =
    let kinds : k ≡ l =
      first_bytes-injective k l
        (sym (kind_of_text-filled h k p) ∙ ap kind_of_text e ∙ kind_of_text-filled i l q) in
    let rest = append-cancel (kind_text k ++ (b' ' ∷ [])) _ _ (
      sym (filled-split h k p)
      ∙ e
      ∙ filled-split i l q
      ∙ ap (λ m. (kind_text m ++ (b' ' ∷ [])) ++ ((decimal (length q) ++ (0 ∷ [])) ++ q))
          (sym kinds)) in
    (
      kinds,
      zero-ends (decimal (length p)) (decimal (length q)) p q
          (digits_before-IsDigit (suc (length p)) (length p) [] tt)
          (digits_before-IsDigit (suc (length q)) (length q) [] tt) rest,
    )
