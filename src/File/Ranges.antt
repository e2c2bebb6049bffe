-- ===== src/File/Ranges.antt =====
-- The line range that crates/gitility-core/src/file.rs returns.
use gitility.Base.{
  ℕ, zero, suc, ◌+◌, ◌-◌, ◌^◌, ◌≤◌, ◌<◌, ◌≡◌, refl, ap, sym, ◌∙◌, min, true, false, Bool-cases, inl,
  inr, ltb, leb, ◌==◌, ==_iff, if◌then◌else◌, List, [], ◌∷◌, length, take, drop, get_elem?, Option,
  none, some, length-map, length-drop, arith,
}
use gitility.Error.{ok}
use gitility.File.{SlicedPayload, slice_at, spanned, slice_range, slice_payload}
use gitility.File.Lines.{
  lines_of, joined, joined-lines_of, lengths, spans, line_spans-spans, reach, spans-reach,
  length-spans, drop-reach, take-reach, reach-le, reach-add,
}

-- The lines from one to another, both counted from 1.
abbrev pub lines_between : ℕ → ℕ → List (List ℕ) → List (List ℕ)
lines_between start end lines = take (end + 1 - start) (drop (start - 1) lines)

abbrev pub in_file : ℕ → ℕ → ℕ → Option ℕ
in_file start total line = if leb start total then some line else none

abbrev pub range_of : List (List ℕ) → ℕ → ℕ → SlicedPayload
range_of lines start end =
    let total = length lines in
    record {
      content = joined (lines_between start end lines);
      start_line = in_file start total start;
      end_line = in_file start total (min end total);
      total_lines = some total;
      truncated = false;
      stopped_by = none;
    }

take-enough :
    {A : Type 0} (m n : ℕ) (xs : List A)
    → min m (length xs) ≡ min n (length xs)
    → take m xs ≡ take n xs
take-enough zero zero xs h = refl
take-enough zero (suc n) [] h = refl
take-enough zero (suc n) (x ∷ xs) h = absurd (omega (arith, h))
take-enough (suc m) zero [] h = refl
take-enough (suc m) zero (x ∷ xs) h = absurd (omega (arith, h))
take-enough (suc m) (suc n) [] h = refl
take-enough (suc m) (suc n) (x ∷ xs) h = ap (λ t. x ∷ t) (take-enough m n xs (omega (arith, h)))

drop-beyond : {A : Type 0} (n : ℕ) (xs : List A) → length xs ≤ n → drop n xs ≡ []
drop-beyond zero [] h = refl
drop-beyond zero (x ∷ xs) h = absurd (omega (arith, h))
drop-beyond (suc n) [] h = refl
drop-beyond (suc n) (x ∷ xs) h = drop-beyond n xs (omega (arith, h))

-- The bytes between two lines.
slice_at-lines :
    (lines : List (List ℕ)) (i j : ℕ)
    → slice_at (joined lines) (reach i (lengths lines)) (reach (i + j) (lengths lines))
      ≡ some (joined (take j (drop i lines)))
unfolding slice_at
slice_at-lines lines i j =
    let first = reach i (lengths lines) in
    let sum = reach-add i j lines in
    let ordered : leb first (reach (i + j) (lengths lines)) ≡ true = ground (arith, sum) in
    let inside : leb (reach (i + j) (lengths lines)) (length (joined lines)) ≡ true =
      ground (arith, reach-le (i + j) lines) in
    let size : reach (i + j) (lengths lines) - first ≡ reach j (lengths (drop i lines)) =
      omega (arith, sum) in
    rw (ordered, inside, size, drop-reach i lines, take-reach j (drop i lines))

module _ (lines : List (List ℕ)) (start end : ℕ) (positive : 1 ≤ start)
    (ordered : start ≤ end) where
  ns : List ℕ
  ns = lengths lines

  total_lines : length ns ≡ length lines
  unfolding ns
  total_lines = length-map lines length

  spanned-lines :
      start ≤ length lines
      → spanned
          (joined lines)
          start
          (min end (length lines))
          (length lines)
          (get_elem? (spans 0 ns) (start - 1))
          (get_elem? (spans 0 ns) (min end (length lines) - 1))
        ≡ some (joined (lines_between start end lines))
  unfolding ns
  spanned-lines within =
      let i = start - 1 in
      let last = min end (length lines) - 1 in
      let j = suc last - i in
      let at_first = spans-reach 0 i ns (omega (arith, total_lines)) in
      let at_last = spans-reach 0 last ns (omega (arith, total_lines)) in
      let from : 0 + reach i ns ≡ reach i ns = omega arith in
      let upto : 0 + reach (suc last) ns ≡ reach (i + j) ns =
        (let same : suc last ≡ i + j = omega (arith, positive, ordered, within) in
          omega arith ∙ ap (λ m. reach m ns) same) in
      let enough : take j (drop i lines) ≡ lines_between start end lines =
        take-enough j (end + 1 - start) (drop i lines)
          (omega (arith, length-drop i lines, positive, ordered, within)) in
      rw (at_first, at_last, from, upto, slice_at-lines lines i j, enough)

  count : length (spans 0 ns) ≡ length lines
  count = length-spans 0 ns ∙ total_lines

  nothing : length lines < start → joined (lines_between start end lines) ≡ []
  unfolding joined
  nothing beyond =
      ap (λ ls. joined (take (end + 1 - start) ls))
        (drop-beyond (start - 1) lines (omega (arith, beyond)))
      ∙ ap joined (take-nothing (end + 1 - start))
    where
      take-nothing : (n : ℕ) → take {A = List ℕ} n [] ≡ []
      take-nothing zero = refl
      take-nothing (suc n) = refl

  module _ (few : length lines < 2 ^ 32) where
    representable : ltb (length lines) (2 ^ 32) ≡ true
    representable = ground (arith, few)

    outside_range :
        length lines < start
        → slice_range (joined lines) (spans 0 ns) start end ≡ some (ok (range_of lines start end))
    unfolding slice_range
    outside_range beyond =
        let late : ltb (length lines) start ≡ true = ground (arith, beyond) in
        let not_there : leb start (length lines) ≡ false = ground (arith, beyond) in
        elim (Bool-cases (length lines == 0)) [
          | inl e ↦
              (let none_at_all : length lines ≡ 0 = (==_iff (length lines) 0).0 e in
                rw (count, not_there, nothing beyond, none_at_all))
          | inr e ↦ rw (count, e, representable, late, not_there, nothing beyond)
        ]

    inside_range :
        start ≤ length lines
        → slice_range (joined lines) (spans 0 ns) start end ≡ some (ok (range_of lines start end))
    unfolding slice_range
    inside_range within =
        let there : leb start (length lines) ≡ true = ground (arith, within) in
        let early : ltb (length lines) start ≡ false = ground (arith, within) in
        let some_lines : (length lines == 0) ≡ false = ground (arith, within, positive) in
        let from_one : (start == 0) ≡ false = ground (arith, positive) in
        let to_one : (min end (length lines) == 0) ≡ false =
          ground (arith, positive, ordered, within) in
        rw (count, some_lines, representable, early, from_one, to_one, spanned-lines within, there)

-- Where the whole file is scanned and has fewer than 2^32 lines: a range that is counted from 1 and
-- ordered gives, without a panic or an error, the bytes of its lines, with the first and the last
-- line that the file has in it, or with neither if the range is behind the file; and the number of
-- the file's lines.
pub slice_payload-Lines :
    (payload : List ℕ) (max_bytes start end : ℕ)
    → length payload ≤ max_bytes
    → length (lines_of payload) < 2 ^ 32
    → 1 ≤ start
    → start ≤ end
    → slice_payload payload (record { lines = some (start, end); max_bytes = max_bytes })
      ≡ some (ok (range_of (lines_of payload) start end))
unfolding slice_payload ns
slice_payload-Lines payload max_bytes start end scanned few positive ordered =
    let lines = lines_of payload in
    let whole : ltb (min (length payload) max_bytes) (length payload) ≡ false =
      ground (arith, scanned) in
    rw whole (
      ap (λ s. slice_range payload s start end) (line_spans-spans payload)
      ∙ ap (λ bytes. slice_range bytes (spans 0 (lengths lines)) start end)
          (sym (joined-lines_of payload))
      ∙ elim (Bool-cases (leb start (length lines))) [
        | inl e ↦ inside_range lines start end positive ordered few (ground (arith, e))
        | inr e ↦ outside_range lines start end positive ordered few (ground (arith, e))
      ])
