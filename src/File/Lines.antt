-- ===== src/File/Lines.antt =====
-- The lines of a file, beside the spans of crates/gitility-core/src/file.rs.
use gitility.Base.{
  ℕ, zero, suc, ◌+◌, ◌≤◌, ◌<◌, ◌≡◌, refl, ap, sym, ◌∙◌, Bool-cases, inl, inr, ltb, ◌==◌,
  if◌then◌else◌, List, [], ◌∷◌, ◌++◌, map, length, take, drop, get_elem?, some, length-append,
  arith,
}
use gitility.File.{spans_from, line_spans}

-- One more byte in front of the first line.
abbrev pub onto_first : ℕ → List (List ℕ) → List (List ℕ)
onto_first b [] = (b ∷ []) ∷ []
onto_first b (line ∷ lines) = (b ∷ line) ∷ lines

-- The bytes cut behind each newline.
unfoldable pub lines_of : List ℕ → List (List ℕ)
lines_of [] = []
lines_of (b ∷ bytes) = if b == 10 then (b ∷ []) ∷ lines_of bytes else onto_first b (lines_of bytes)

unfoldable pub joined : List (List ℕ) → List ℕ
joined [] = []
joined (line ∷ lines) = line ++ joined lines

pub joined-lines_of : (bytes : List ℕ) → joined (lines_of bytes) ≡ bytes
unfolding joined lines_of
joined-lines_of [] = refl
joined-lines_of (b ∷ bytes) = elim (Bool-cases (b == 10)) [
  | inl e ↦ rw (e, joined-lines_of bytes)
  | inr e ↦ rw e (joined_first (lines_of bytes) ∙ ap (λ bs. b ∷ bs) (joined-lines_of bytes))
]
  where
    joined_first : (lines : List (List ℕ)) → joined (onto_first b lines) ≡ b ∷ joined lines
    joined_first [] = refl
    joined_first (line ∷ lines) = refl

abbrev pub lengths : List (List ℕ) → List ℕ
lengths lines = map length lines

-- So many bytes more in front of the first line.
grow : ℕ → List ℕ → List ℕ
grow k [] = if ltb 0 k then k ∷ [] else []
grow k (n ∷ ns) = (k + n) ∷ ns

-- The spans of lines of these lengths, from an offset on.
unfoldable pub spans : ℕ → List ℕ → List (ℕ × ℕ)
spans start [] = []
spans start (n ∷ ns) = (start, start + n) ∷ spans (start + n) ns

grow_zero : (ns : List ℕ) → grow 0 ns ≡ ns
unfolding grow
grow_zero [] = refl
grow_zero (n ∷ ns) = ap (λ m. m ∷ ns) (omega arith)

grow_more :
    (k : ℕ) (lines : List (List ℕ)) (b : ℕ)
    → grow k (lengths (onto_first b lines)) ≡ grow (k + 1) (lengths lines)
unfolding grow
grow_more k [] b = ground arith
grow_more k (line ∷ lines) b = ap (λ m. m ∷ map length lines) (omega arith)

spans_from-grow :
    (bytes : List ℕ) (start k : ℕ)
    → spans_from bytes start (start + k) ≡ spans start (grow k (lengths (lines_of bytes)))
unfolding spans_from lines_of grow spans
spans_from-grow [] start zero = ground arith
spans_from-grow [] start (suc k) = ground arith
spans_from-grow (b ∷ bytes) start k =
    let next = start + k + 1 in
    let ns = lengths (lines_of bytes) in
    let ended : spans_from bytes next next ≡ spans next ns =
      ap (spans_from bytes next) (omega arith)
      ∙ spans_from-grow bytes next 0
      ∙ ap (spans next) (grow_zero ns) in
    let further : spans_from bytes start next ≡ spans start (grow (k + 1) ns) =
      ap (spans_from bytes start) (omega arith) ∙ spans_from-grow bytes start (k + 1) in
    elim (Bool-cases (b == 10)) [
      | inl e ↦
          rw e (ap (λ t. (start, next) ∷ t) ended ∙ ap (λ m. (start, m) ∷ spans m ns) (omega arith))
      | inr e ↦ rw e (further ∙ ap (spans start) (sym (grow_more k (lines_of bytes) b)))
    ]

pub line_spans-spans : (bytes : List ℕ) → line_spans bytes ≡ spans 0 (lengths (lines_of bytes))
unfolding line_spans
line_spans-spans bytes =
    spans_from-grow bytes 0 0 ∙ ap (spans 0) (grow_zero (lengths (lines_of bytes)))

-- How many bytes so many lines have.
unfoldable pub reach : ℕ → List ℕ → ℕ
reach zero ns = 0
reach (suc i) [] = 0
reach (suc i) (n ∷ ns) = n + reach i ns

pub spans-reach :
    (start i : ℕ) (ns : List ℕ)
    → i < length ns
    → get_elem? (spans start ns) i ≡ some (start + reach i ns, start + reach (suc i) ns)
unfolding spans reach
spans-reach start i [] h = absurd (omega (arith, h))
spans-reach start zero (n ∷ ns) h =
    ap some (ap (λ a. (a, start + n)) (omega arith) ∙ ap (λ a. (start + 0, a)) (omega arith))
spans-reach start (suc i) (n ∷ ns) h =
    spans-reach (start + n) i ns (omega (arith, h))
    ∙ ap some (
        ap (λ a. (a, start + n + (reach (suc i) ns))) (omega arith)
        ∙ ap (λ a. (start + (n + reach i ns), a)) (omega arith))

pub length-spans : (start : ℕ) (ns : List ℕ) → length (spans start ns) ≡ length ns
unfolding spans
length-spans start [] = refl
length-spans start (n ∷ ns) = ap suc (length-spans (start + n) ns)

-- The bytes of the lines behind some, and of some lines.
pub drop-reach :
    (i : ℕ) (lines : List (List ℕ))
    → drop (reach i (lengths lines)) (joined lines) ≡ joined (drop i lines)
unfolding reach joined
drop-reach zero lines = refl
drop-reach (suc i) [] = refl
drop-reach (suc i) (line ∷ lines) =
    drop-past line (joined lines) (reach i (map length lines)) ∙ drop-reach i lines
  where
    drop-past : (xs ys : List ℕ) (n : ℕ) → drop (length xs + n) (xs ++ ys) ≡ drop n ys
    drop-past [] ys n = ap (λ m. drop m ys) (omega arith)
    drop-past (x ∷ xs) ys n =
        let more : length (x ∷ xs) + n ≡ suc (length xs + n) = omega arith in
        ap (λ m. drop m (x ∷ (xs ++ ys))) more ∙ drop-past xs ys n

pub take-reach :
    (i : ℕ) (lines : List (List ℕ))
    → take (reach i (lengths lines)) (joined lines) ≡ joined (take i lines)
unfolding reach joined
take-reach zero lines = refl
take-reach (suc i) [] = refl
take-reach (suc i) (line ∷ lines) =
    take-past line (joined lines) (reach i (map length lines))
    ∙ ap (λ t. line ++ t) (take-reach i lines)
  where
    take-past : (xs ys : List ℕ) (n : ℕ) → take (length xs + n) (xs ++ ys) ≡ xs ++ take n ys
    take-past [] ys n = ap (λ m. take m ys) (omega arith)
    take-past (x ∷ xs) ys n =
        let more : length (x ∷ xs) + n ≡ suc (length xs + n) = omega arith in
        ap (λ m. take m (x ∷ (xs ++ ys))) more ∙ ap (λ t. x ∷ t) (take-past xs ys n)

pub reach-le : (i : ℕ) (lines : List (List ℕ)) → reach i (lengths lines) ≤ length (joined lines)
unfolding reach joined
reach-le zero lines = omega arith
reach-le (suc i) [] = omega arith
reach-le (suc i) (line ∷ lines) = omega (arith, reach-le i lines, length-append line (joined lines))

reach-none : (j : ℕ) → 0 ≡ 0 + reach j []
unfolding reach
reach-none zero = refl
reach-none (suc j) = refl

pub reach-add :
    (i j : ℕ) (lines : List (List ℕ))
    → reach (i + j) (lengths lines) ≡ reach i (lengths lines) + reach j (lengths (drop i lines))
unfolding reach
reach-add zero j lines =
    let same : 0 + j ≡ j = omega arith in ap (λ m. reach m (map length lines)) same ∙ omega arith
reach-add (suc i) j [] =
    let more : suc i + j ≡ suc (i + j) = omega arith in ap (λ m. reach m []) more ∙ reach-none j
reach-add (suc i) j (line ∷ lines) =
    let more : suc i + j ≡ suc (i + j) = omega arith in
    ap (λ m. reach m (map length (line ∷ lines))) more ∙ omega (arith, reach-add i j lines)
