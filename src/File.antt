-- ===== src/File.antt =====
-- crates/gitility-core/src/file.rs: the slice of a file that a query returns. Outside of a slice's
-- bounds an index panics, which is `none`.
pub mod Lines
pub mod Ranges
pub mod Lfs
mod Tests
use gitility.Base.{
  ℕ, zero, suc, ◌+◌, ◌-◌, ◌^◌, min, Bool, true, false, ◌&&◌, ◌||◌, not, ltb, leb, ◌==◌,
  if◌then◌else◌, is_some, String, List, [], ◌∷◌, ◌++◌, Option, none, some, length, take, drop,
  get_elem?, rposition,
}
use gitility.Error.{Error, Result, ok, err, ◌>>=◌, new_text, result_too_large}

-- A 1-based inclusive line range, and how many bytes are scanned.
pub record FileOptions : Type 0 where
  pub lines : Option (ℕ × ℕ)
  pub max_bytes : ℕ

pub record SlicedPayload : Type 0 where
  pub content : List ℕ
  pub start_line : Option ℕ
  pub end_line : Option ℕ
  pub total_lines : Option ℕ
  pub truncated : Bool
  pub stopped_by : Option String

abbrev pub too_many_lines : Error
too_many_lines =
    new_text result_too_large "file contains more lines than the result format can represent"

-- `u32::try_from`.
abbrev pub to_u32 : ℕ → Result ℕ
to_u32 n = if ltb n (2 ^ 32) then ok n else err too_many_lines

unfoldable pub newlines : List ℕ → ℕ
newlines [] = 0
newlines (b ∷ bytes) = if b == 10 then suc (newlines bytes) else newlines bytes

unfoldable pub ends_with_newline : List ℕ → Bool
ends_with_newline [] = false
ends_with_newline (b ∷ []) = b == 10
ends_with_newline (b ∷ c ∷ bytes) = ends_with_newline (c ∷ bytes)

abbrev pub is_empty : List ℕ → Bool
is_empty bytes = length bytes == 0

-- A last line without its newline.
abbrev pub is_partial : List ℕ → Bool
is_partial bytes = not (is_empty bytes) && not (ends_with_newline bytes)

abbrev pub as_number : Bool → ℕ
as_number b = if b then 1 else 0

unfoldable pub line_count : List ℕ → Result ℕ
unfolding newlines ends_with_newline
line_count bytes = to_u32 (newlines bytes + as_number (is_partial bytes))

-- The loop over the bytes that are left, behind so many, with the start of the line.
unfoldable pub spans_from : List ℕ → ℕ → ℕ → List (ℕ × ℕ)
spans_from [] start index = if ltb start index then (start, index) ∷ [] else []
spans_from (b ∷ bytes) start index =
    let ended = spans_from bytes (index + 1) (index + 1) in
    let further = spans_from bytes start (index + 1) in
    if b == 10 then (start, index + 1) ∷ ended else further

unfoldable pub line_spans : List ℕ → List (ℕ × ℕ)
unfolding spans_from
line_spans bytes = spans_from bytes 0 0

-- `bytes[first..last]`.
unfoldable pub slice_at : List ℕ → ℕ → ℕ → Option (List ℕ)
slice_at bytes first last =
    if leb first last && leb last (length bytes)
    then some (take (last - first) (drop first bytes))
    else none

abbrev pub whole_lines : Option ℕ → SlicedPayload
whole_lines total = record {
  content = [];
  start_line = none;
  end_line = none;
  total_lines = total;
  truncated = false;
  stopped_by = none;
}

-- The prefix that is returned: up to the last newline, if the cap cuts a line.
unfoldable pub returned_len : Bool → List ℕ → ℕ
unfolding ends_with_newline rposition
returned_len capped scanned =
    if capped && is_partial scanned
    then elim (rposition (λ b. b == 10) scanned) [ some i ↦ i + 1 | none ↦ length scanned ]
    else length scanned

abbrev pub stopped : Bool → Option String
stopped stop = if stop then some "max_bytes" else none

unfoldable pub slice_whole : List ℕ → List ℕ → Bool → Result SlicedPayload
unfolding returned_len line_count
slice_whole payload scanned capped = do
  total ← if capped then ok none else (line_count payload >>= λ n. ok (some n))
  ok (record {
    content = take (returned_len capped scanned) scanned;
    start_line = none;
    end_line = none;
    total_lines = total;
    truncated = capped;
    stopped_by = stopped capped;
  })

-- The lines of a range, where all bytes are there.
abbrev pub spanned : List ℕ → ℕ → ℕ → ℕ → Option (ℕ × ℕ) → Option (ℕ × ℕ) → Option (List ℕ)
spanned payload start end total (some first) (some last) = slice_at payload first.0 last.1
spanned payload start end total (some first) none = none
spanned payload start end total none last = none

abbrev pub ranged : ℕ → ℕ → ℕ → Option (List ℕ) → Option (Result SlicedPayload)
ranged start end total none = none
ranged start end total (some content) = some (
    ok (record {
      content = content;
      start_line = some start;
      end_line = some end;
      total_lines = some total;
      truncated = false;
      stopped_by = none;
    }))

unfoldable pub slice_range : List ℕ → List (ℕ × ℕ) → ℕ → ℕ → Option (Result SlicedPayload)
unfolding slice_at
slice_range payload spans requested_start requested_end =
    let total = length spans in
    let end = min requested_end total in
    let found =
      if requested_start == 0 || end == 0
      then none
      else spanned payload requested_start end total (get_elem? spans (requested_start - 1))
          (get_elem? spans (end - 1)) in
    if total == 0
    then some (ok (whole_lines (some 0)))
    else if not (ltb total (2 ^ 32))
    then some (err too_many_lines)
    else if ltb total requested_start
    then some (ok (whole_lines (some total)))
    else ranged requested_start end total found

-- What the loop over the lines of a capped scan has: the data, and the first and the last line.
pub record Collected : Type 0 where
  pub content : List ℕ
  pub start_line : Option ℕ
  pub end_line : Option ℕ

abbrev pub or_line : Option ℕ → ℕ → Option ℕ
or_line none line = some line
or_line (some first) line = some first

unfoldable pub collect : List ℕ → Bool → ℕ → ℕ → ℕ → ℕ → List (ℕ × ℕ) → Collected → Result Collected
collect scanned partial count requested_start requested_end index [] c = ok c
collect scanned partial count requested_start requested_end index ((start, end) ∷ spans) c =
    let line = index + 1 in
    let incomplete = partial && line == count in
    let taken : Collected = record {
      content = c.content ++ take (end - start) (drop start scanned);
      start_line = or_line c.start_line line;
      end_line = some line;
    } in
    let skipped = collect scanned partial count requested_start requested_end (index + 1) spans c in
    let further =
      collect scanned partial count requested_start requested_end (index + 1) spans taken in
    if not (ltb line (2 ^ 32))
    then err too_many_lines
    else if ltb line requested_start || ltb requested_end line
    then skipped
    else if incomplete && is_some c.start_line
    then ok c
    else if incomplete
    then ok taken
    else further

unfoldable pub slice_capped : List ℕ → ℕ → ℕ → Result SlicedPayload
unfolding line_spans ends_with_newline collect
slice_capped scanned requested_start requested_end = do
  let spans = line_spans scanned
  let partial = is_partial scanned
  let completed = leb requested_end (length spans - as_number partial)
  c ←
      collect scanned partial (length spans) requested_start requested_end 0 spans
        (record { content = []; start_line = none; end_line = none })
  ok (record {
    content = c.content;
    start_line = c.start_line;
    end_line = c.end_line;
    total_lines = none;
    truncated = not completed;
    stopped_by = stopped (not completed);
  })

abbrev pub sliced : List ℕ → List ℕ → Bool → Option (ℕ × ℕ) → Option (Result SlicedPayload)
sliced payload scanned capped none = some (slice_whole payload scanned capped)
sliced payload scanned capped (some range) =
    if capped
    then some (slice_capped scanned range.0 range.1)
    else slice_range payload (line_spans payload) range.0 range.1

unfoldable pub slice_payload : List ℕ → FileOptions → Option (Result SlicedPayload)
unfolding slice_whole slice_range slice_capped line_spans
slice_payload payload opts =
    let scan_len = min (length payload) opts.max_bytes in
    sliced payload (take scan_len payload) (ltb scan_len (length payload)) opts.lines
