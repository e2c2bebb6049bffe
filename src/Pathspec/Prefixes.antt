-- ===== src/Pathspec/Prefixes.antt =====
-- Paths below a path: what `path_prefixes_overlap` and literal patterns decide.
use gitility.Base.{
  ℕ, zero, suc, ◌≡◌, refl, Bool, true, false, ◌&&◌, ◌||◌, List, [], ◌∷◌, some, arith, ◌==◌, take,
  bytes_eq, starts_with, rposition,
}
use gitility.Pathspec.{is_slash, path_prefixes_overlap, matches_literal}

-- `path` is `dir` itself or lies below it.
unfoldable pub under : List ℕ → List ℕ → Bool
under [] [] = true
under [] (c ∷ path) = c == b'/'
under (d ∷ dir) [] = false
under (d ∷ dir) (c ∷ path) = c == d && under dir path

pub literal-under : (dir path : List ℕ) → matches_literal dir path ≡ under dir path
unfolding matches_literal starts_with under
literal-under [] [] = refl
literal-under [] (c ∷ path) = refl
literal-under (d ∷ dir) [] = refl
literal-under (d ∷ dir) (c ∷ path) = ground (arith, literal-under dir path)

bytes_eq_comm : (xs ys : List ℕ) → bytes_eq xs ys ≡ bytes_eq ys xs
bytes_eq_comm [] [] = refl
bytes_eq_comm [] (y ∷ ys) = refl
bytes_eq_comm (x ∷ xs) [] = refl
bytes_eq_comm (x ∷ xs) (y ∷ ys) = ground (arith, bytes_eq_comm xs ys)

-- Two paths overlap exactly when one lies below the other.
pub overlap-under :
    (left right : List ℕ)
    → path_prefixes_overlap left right ≡ (under left right || under right left)
unfolding path_prefixes_overlap
overlap-under left right =
    rw (← literal-under left right, ← literal-under right left)
      (unfold matches_literal in ground (arith, bytes_eq_comm left right))

-- Two paths above one path lie one below the other.
pub under_both :
    (a b path : List ℕ)
    → under a path ≡ true
    → under b path ≡ true
    → (under a b || under b a) ≡ true
unfolding under
under_both [] [] path h k = refl
under_both [] (y ∷ b) (c ∷ path) h k = ground arith
under_both [] (y ∷ b) [] h k = absurd (cc)
under_both (x ∷ a) [] (c ∷ path) h k = ground arith
under_both (x ∷ a) [] [] h k = absurd (cc)
under_both (x ∷ a) (y ∷ b) [] h k = absurd (cc)
under_both (x ∷ a) (y ∷ b) (c ∷ path) h k = ground (arith, under_both a b path)

-- The directory portion of a text that a path begins with lies above the path.
pub directory-under :
    (fixed path : List ℕ) (n : ℕ)
    → starts_with path fixed ≡ true
    → rposition is_slash fixed ≡ some n
    → under (take n fixed) path ≡ true
unfolding starts_with rposition under
directory-under [] path n h e = absurd (cc)
directory-under (x ∷ fixed) [] n h e = absurd (cc)
directory-under (x ∷ fixed) (c ∷ path) zero h e = ground arith
directory-under (x ∷ fixed) (c ∷ path) (suc n) h e = ground (arith, directory-under fixed path n)
