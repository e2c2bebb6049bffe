-- ===== src/File/Tests.antt =====
-- Two lines and a part of one.
use gitility.Base.{
  ℕ, zero, suc, ◌≤◌, ◌++◌, length, replicate, All, ◌≡◌, refl, true, false, List, [], ◌∷◌, none,
  some, arith,
}
use gitility.Error.{ok}
use gitility.File.{FileOptions, slice_payload}
use gitility.File.Lfs.{codes, LfsPointer, is_hex, parse_lfs_pointer}
use gitility.File.Lfs.Printed.{IsPointer, print, parse_lfs_pointer-print}
use gitility.File.Lines.{lines_of}
use gitility.File.Ranges.{range_of, slice_payload-Lines}

abbrev text : List ℕ
text = b'a' ∷ 10 ∷ b'b' ∷ b'b' ∷ 10 ∷ b'c' ∷ []

-- The second line and what there is of the third.
abbrev behind_first : FileOptions
behind_first = record { lines = some (2, 9); max_bytes = 100 }

slices :
    slice_payload text behind_first
    ≡ some (
        ok (record {
          content = b'b' ∷ b'b' ∷ 10 ∷ b'c' ∷ [];
          start_line = some 2;
          end_line = some 3;
          total_lines = some 3;
          truncated = false;
          stopped_by = none;
        }))
unfolding slice_payload
slices = refl

-- A scan that ends within the second line.
cuts :
    slice_payload text (record { lines = some (1, 2); max_bytes = 4 })
    ≡ some (
        ok (record {
          content = b'a' ∷ 10 ∷ [];
          start_line = some 1;
          end_line = some 1;
          total_lines = none;
          truncated = true;
          stopped_by = some "max_bytes";
        }))
unfolding slice_payload
cuts = refl

slice_payload-Lines_example :
    slice_payload text behind_first ≡ some (ok (range_of (lines_of text) 2 9))
unfolding lines_of
slice_payload-Lines_example =
    slice_payload-Lines text 100 2 9 (omega arith) (omega arith) (omega arith) (omega arith)

abbrev pointer : LfsPointer
pointer = record { oid = replicate 64 b'a'; size = 12 }

pointer-IsPointer : IsPointer pointer
pointer-IsPointer = record { digits = refl; hex = letters 64; size = omega arith }
  where
    letters : (n : ℕ) → All (λ c. is_hex c ≡ true) (replicate n b'a')
    letters zero = tt
    letters (suc n) = (refl, letters n)

short_pointer : length (print pointer) ≤ 1024
unfolding gitility.Odb.Verify.decimal
short_pointer = omega arith

parse_lfs_pointer-print_example : parse_lfs_pointer (print pointer) ≡ some pointer
parse_lfs_pointer-print_example = parse_lfs_pointer-print pointer pointer-IsPointer short_pointer

-- A pointer with no digest.
abbrev undigested : List ℕ
undigested = codes "version https://git-lfs.github.com/spec/v1" ++ (10 ∷ codes "size 12")

no_digest : parse_lfs_pointer undigested ≡ none
unfolding parse_lfs_pointer
no_digest = refl
