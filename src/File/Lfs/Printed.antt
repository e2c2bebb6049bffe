-- ===== src/File/Lfs/Printed.antt =====
-- Which LFS pointers crates/gitility-core/src/file.rs reads as they were written.
use gitility.Base.{
  ℕ, ◌^◌, ◌<◌, ◌≤◌, ◌≡◌, refl, ap, ◌∙◌, true, false, not, ltb, ◌==◌, List, [], ◌∷◌, ◌++◌, Option,
  none, some, length, All, All-append, starts_with, strip_prefix, position, any, arith,
}
use gitility.Odb.Verify.{decimal}
use gitility.Decode.{parse_i64, pos}
use gitility.Decode.Identities.{
  IsDigit, decimal-IsDigit, length-decimal, digits_value-decimal, parse_unsigned,
}
use gitility.File.Lfs.{
  codes, LfsPointer, lfs_version, is_hex, find_space, leading_lfs_space, last?, trim_lfs_space,
  split_lines, physical_lines, digest_of, Fields, no_fields, with_oid, with_size, unsigned, field,
  split_field, bytes_le, pointer_of, read_fields, pointer_in, parse_lfs_pointer,
}
use gitility.File.Lfs.Lines.{
  IsPlain, split_lines-append, split_lines_one, strip_return_plain, last?-append, last-IsDigit,
  last?-behind, trimmed_line,
}

-- A pointer that can be written: a digest of 64 lowercase hexadecimal digits and a size of 63 bits.
pub record IsPointer (p : LfsPointer) : Type 0 where
  pub digits : length p.oid ≡ 64
  pub hex : All (λ c. is_hex c ≡ true) p.oid
  pub size : p.size < 2 ^ 63

abbrev oid_line : LfsPointer → List ℕ
oid_line p = codes "oid sha256:" ++ p.oid

abbrev size_line : LfsPointer → List ℕ
size_line p = codes "size " ++ decimal p.size

abbrev body : LfsPointer → List ℕ
body p = lfs_version ++ (10 ∷ (oid_line p ++ (10 ∷ size_line p)))

-- The three lines that the specification of LFS asks for.
abbrev pub print : LfsPointer → List ℕ
print p = body p ++ (10 ∷ [])

hex-IsPlain : (oid : List ℕ) → All (λ c. is_hex c ≡ true) oid → All IsPlain oid
hex-IsPlain [] h = tt
hex-IsPlain (c ∷ oid) h = (ground (arith, h.0), hex-IsPlain oid h.1)

digit-IsPlain : (ds : List ℕ) → All IsDigit ds → All IsPlain ds
digit-IsPlain [] h = tt
digit-IsPlain (d ∷ ds) h = (omega (arith, h.0), digit-IsPlain ds h.1)

All-hex : (oid : List ℕ) → All (λ c. is_hex c ≡ true) oid → any (λ c. not (is_hex c)) oid ≡ false
unfolding any
All-hex [] h = refl
All-hex (c ∷ oid) h = rw (h.0, All-hex oid h.1)

last?-body : (p : LfsPointer) → last? (body p) ≡ last? (decimal p.size)
last?-body p =
    last?-append lfs_version 10 (oid_line p ++ (10 ∷ size_line p))
    ∙ last?-append (10 ∷ oid_line p) 10 (size_line p)
    ∙ last?-behind (10 ∷ codes "size ") (decimal p.size) (length-decimal p.size)

leading-print : (p : LfsPointer) → leading_lfs_space (print p) ≡ none
unfolding leading_lfs_space find_space starts_with
leading-print p = refl

trimmed : (p : LfsPointer) → trim_lfs_space (print p) ≡ body p
trimmed p =
    let (d, l, digit) =
      last-IsDigit (decimal p.size) (length-decimal p.size) (decimal-IsDigit p.size) in
    trimmed_line (body p) d (leading-print p) (last?-body p ∙ l) digit

version-IsPlain : All IsPlain lfs_version
version-IsPlain = omega arith

oid-IsPlain : (p : LfsPointer) → IsPointer p → All IsPlain (oid_line p)
oid-IsPlain p h =
    All-append IsPlain (codes "oid sha256:") p.oid (omega arith) (hex-IsPlain p.oid h.hex)

size-IsPlain : (p : LfsPointer) → All IsPlain (size_line p)
size-IsPlain p =
    All-append IsPlain (codes "size ") (decimal p.size) (omega arith)
      (digit-IsPlain (decimal p.size) (decimal-IsDigit p.size))

split_lines-body :
    (p : LfsPointer)
    → IsPointer p
    → split_lines (body p) ≡ lfs_version ∷ oid_line p ∷ size_line p ∷ []
split_lines-body p h =
    split_lines-append lfs_version (oid_line p ++ (10 ∷ size_line p)) version-IsPlain
    ∙ ap (λ ls. lfs_version ∷ ls) (split_lines-append (oid_line p) (size_line p) (oid-IsPlain p h))
    ∙ ap (λ ls. lfs_version ∷ oid_line p ∷ ls) (split_lines_one (size_line p) (size-IsPlain p))

physical_lines-next :
    (line : List ℕ) (lines : List (List ℕ))
    → All IsPlain line
    → 0 < length line
    → physical_lines (line ∷ lines) ≡ line ∷ physical_lines lines
unfolding physical_lines
physical_lines-next line lines h n =
    let filled : (length line == 0) ≡ false = ground (arith, n) in
    rw (strip_return_plain line h, filled)

physical_lines-nil : physical_lines [] ≡ []
unfolding physical_lines
physical_lines-nil = refl

physical_lines-body :
    (p : LfsPointer)
    → IsPointer p
    → physical_lines (split_lines (body p)) ≡ lfs_version ∷ oid_line p ∷ size_line p ∷ []
physical_lines-body p h =
    ap physical_lines (split_lines-body p h)
    ∙ physical_lines-next lfs_version (oid_line p ∷ size_line p ∷ []) version-IsPlain (omega arith)
    ∙ ap (λ ls. lfs_version ∷ ls)
        (physical_lines-next (oid_line p) (size_line p ∷ []) (oid-IsPlain p h) (omega arith))
    ∙ ap (λ ls. lfs_version ∷ oid_line p ∷ ls)
        (physical_lines-next (size_line p) [] (size-IsPlain p) (omega arith))
    ∙ ap (λ ls. lfs_version ∷ oid_line p ∷ size_line p ∷ ls) physical_lines-nil

digest_of-oid : (p : LfsPointer) → IsPointer p → digest_of (codes "sha256:" ++ p.oid) ≡ some p.oid
unfolding digest_of strip_prefix
digest_of-oid p h =
    let full : (length p.oid == 64) ≡ true = ground (arith, h.digits) in
    rw (full, All-hex p.oid h.hex)

parse-size : (p : LfsPointer) → IsPointer p → parse_i64 (decimal p.size) ≡ some (pos p.size)
parse-size p h =
    parse_unsigned (decimal p.size) p.size (length-decimal p.size) (decimal-IsDigit p.size)
      (digits_value-decimal p.size) h.size

abbrev with_digest : LfsPointer → Fields
with_digest p = record no_fields { previous_key = some (codes "oid"); oid = some p.oid }

field-oid :
    (value : List ℕ) (key : Option (List ℕ))
    → field (codes "oid") value (record no_fields { previous_key = key })
      ≡ with_oid (record no_fields { previous_key = key }) (digest_of value)
unfolding field
field-oid value key = refl

field-size :
    (value : List ℕ) (f : Fields)
    → f.size ≡ none
    → field (codes "size") value f ≡ with_size f (unsigned (parse_i64 value))
unfolding field
field-size value f h = rw (h, field)

split-oid_line :
    (p : LfsPointer)
    → IsPointer p
    → split_field (oid_line p) no_fields (position (λ c. c == b' ') (oid_line p))
      ≡ some (with_digest p)
unfolding position
split-oid_line p h =
    let started = record no_fields { previous_key = some (codes "oid") } in
    let filled : (length (codes "sha256:" ++ p.oid) == 0) ≡ false = ground arith in
    rw filled (
      field-oid (codes "sha256:" ++ p.oid) (some (codes "oid"))
      ∙ ap (with_oid started) (digest_of-oid p h))

with_all : LfsPointer → Fields
with_all p = record (with_digest p) { previous_key = some (codes "size"); size = some p.size }

split-size_line :
    (p : LfsPointer)
    → IsPointer p
    → split_field (size_line p) (with_digest p) (position (λ c. c == b' ') (size_line p))
      ≡ some (with_all p)
unfolding position bytes_le with_all
split-size_line p h =
    let started = record (with_digest p) { previous_key = some (codes "size") } in
    let filled : (length (decimal p.size) == 0) ≡ false = ground (arith, length-decimal p.size) in
    rw filled (
      field-size (decimal p.size) started refl
      ∙ ap (λ (o : _). with_size started (unsigned o)) (parse-size p h))

read_fields-next :
    (line : List ℕ) (lines : List (List ℕ)) (f g : Fields)
    → split_field line f (position (λ c. c == b' ') line) ≡ some g
    → read_fields (line ∷ lines) f ≡ read_fields lines g
unfolding read_fields
read_fields-next line lines f g h =
    ap
      (λ (o : Option Fields). elim o as (λ _. Option Fields) [
        | none ↦ none
        | some g ↦ read_fields lines g
      ])
      h

read_fields-nil : (f : Fields) → read_fields [] f ≡ some f
unfolding read_fields
read_fields-nil f = refl

pointer_in-version :
    (lines : List (List ℕ))
    → pointer_in (lfs_version ∷ lines) ≡ pointer_of (read_fields lines no_fields)
unfolding pointer_in
pointer_in-version lines = refl

pointer_in-body :
    (p : LfsPointer)
    → IsPointer p
    → pointer_in (lfs_version ∷ oid_line p ∷ size_line p ∷ []) ≡ some p
unfolding with_all
pointer_in-body p h =
    pointer_in-version (oid_line p ∷ size_line p ∷ [])
    ∙ ap pointer_of (
        read_fields-next (oid_line p) (size_line p ∷ []) no_fields (with_digest p)
          (split-oid_line p h)
        ∙ read_fields-next (size_line p) [] (with_digest p) (with_all p) (split-size_line p h)
        ∙ read_fields-nil (with_all p))

parse_lfs_pointer-eq :
    (payload : List ℕ)
    → length payload ≤ 1024
    → parse_lfs_pointer payload ≡ pointer_in (physical_lines (split_lines (trim_lfs_space payload)))
unfolding parse_lfs_pointer
parse_lfs_pointer-eq payload short =
    let small : ltb 1024 (length payload) ≡ false = ground (arith, short) in rw small

-- A pointer with a digest of 64 lowercase hexadecimal digits and a size of 63 bits, printed in at
-- most 1024 bytes as the lines of the specification, is recognised as what it is.
pub parse_lfs_pointer-print :
    (p : LfsPointer) → IsPointer p → length (print p) ≤ 1024 → parse_lfs_pointer (print p) ≡ some p
parse_lfs_pointer-print p h short =
    parse_lfs_pointer-eq (print p) short
    ∙ ap (λ bytes. pointer_in (physical_lines (split_lines bytes))) (trimmed p)
    ∙ ap pointer_in (physical_lines-body p h)
    ∙ pointer_in-body p h
