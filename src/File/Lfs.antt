-- ===== src/File/Lfs.antt =====
-- The recognition of Git LFS pointers in crates/gitility-core/src/file.rs.
pub mod Lines
pub mod Printed
use Prim.Native.Char.{code}
use Prim.Native.String
use gitility.Base.{
  ℕ, zero, suc, ◌+◌, ◌-◌, Bool, true, false, ◌&&◌, ◌||◌, not, ltb, leb, ◌==◌, if◌then◌else◌,
  is_some, String, List, [], ◌∷◌, ◌++◌, Option, none, some, length, take, drop, bytes_eq,
  starts_with, strip_prefix, any, position,
}
use gitility.Decode.{ℤ, pos, negsuc, parse_i64}
use gitility.File.Lines.{onto_first}

-- The bytes of a text in ASCII.
abbrev pub codes : String → List ℕ
codes String.[] = []
codes (String.◌∷◌ c text) = code c ∷ codes text

pub record LfsPointer : Type 0 where
  pub oid : List ℕ
  pub size : ℕ

abbrev pub max_pointer_bytes : ℕ
max_pointer_bytes = 1024

abbrev pub lfs_version : List ℕ
lfs_version = codes "version https://git-lfs.github.com/spec/v1"

abbrev pub is_version : List ℕ → Bool
is_version line =
    bytes_eq line lfs_version
    || bytes_eq line (codes "version https://hawser.github.com/spec/v1")
    || bytes_eq line (codes "version http://git-media.io/v/2")

-- `UNICODE_SPACES`.
abbrev pub unicode_spaces : List (List ℕ)
unicode_spaces =
    (0xc2 ∷ 0x85 ∷ [])
    ∷ (0xc2 ∷ 0xa0 ∷ [])
    ∷ (0xe1 ∷ 0x9a ∷ 0x80 ∷ [])
    ∷ (0xe2 ∷ 0x80 ∷ 0x80 ∷ [])
    ∷ (0xe2 ∷ 0x80 ∷ 0x81 ∷ [])
    ∷ (0xe2 ∷ 0x80 ∷ 0x82 ∷ [])
    ∷ (0xe2 ∷ 0x80 ∷ 0x83 ∷ [])
    ∷ (0xe2 ∷ 0x80 ∷ 0x84 ∷ [])
    ∷ (0xe2 ∷ 0x80 ∷ 0x85 ∷ [])
    ∷ (0xe2 ∷ 0x80 ∷ 0x86 ∷ [])
    ∷ (0xe2 ∷ 0x80 ∷ 0x87 ∷ [])
    ∷ (0xe2 ∷ 0x80 ∷ 0x88 ∷ [])
    ∷ (0xe2 ∷ 0x80 ∷ 0x89 ∷ [])
    ∷ (0xe2 ∷ 0x80 ∷ 0x8a ∷ [])
    ∷ (0xe2 ∷ 0x80 ∷ 0xa8 ∷ [])
    ∷ (0xe2 ∷ 0x80 ∷ 0xa9 ∷ [])
    ∷ (0xe2 ∷ 0x80 ∷ 0xaf ∷ [])
    ∷ (0xe2 ∷ 0x81 ∷ 0x9f ∷ [])
    ∷ (0xe3 ∷ 0x80 ∷ 0x80 ∷ [])
    ∷ []

abbrev pub is_space : ℕ → Bool
is_space c = (leb 9 c && leb c 13) || c == b' '

unfoldable pub ends_with : List ℕ → List ℕ → Bool
ends_with bytes suffix =
    leb (length suffix) (length bytes)
    && bytes_eq (drop (length bytes - length suffix) bytes) suffix

-- The length of the first space for which a test holds.
unfoldable pub find_space : (List ℕ → Bool) → List (List ℕ) → Option ℕ
find_space test [] = none
find_space test (space ∷ spaces) =
    if test space then some (length space) else find_space test spaces

unfoldable pub leading_lfs_space : List ℕ → Option ℕ
unfolding find_space starts_with
leading_lfs_space [] = none
leading_lfs_space (c ∷ bytes) =
    if is_space c then some 1 else find_space (starts_with (c ∷ bytes)) unicode_spaces

unfoldable pub last? : List ℕ → Option ℕ
last? [] = none
last? (c ∷ []) = some c
last? (c ∷ d ∷ bytes) = last? (d ∷ bytes)

abbrev pub space_at_end : List ℕ → Option ℕ → Option ℕ
space_at_end bytes none = none
space_at_end bytes (some c) =
    if is_space c then some 1 else find_space (ends_with bytes) unicode_spaces

unfoldable pub trailing_lfs_space : List ℕ → Option ℕ
unfolding find_space ends_with last?
trailing_lfs_space bytes = space_at_end bytes (last? bytes)

-- The two loops, with fuel for each space; a space has a byte at least.
unfoldable pub trim_front : ℕ → List ℕ → List ℕ
unfolding leading_lfs_space
trim_front zero bytes = bytes
trim_front (suc fuel) bytes = elim (leading_lfs_space bytes) [
  | some n ↦ trim_front fuel (drop n bytes)
  | none ↦ bytes
]

unfoldable pub trim_back : ℕ → List ℕ → List ℕ
unfolding trailing_lfs_space
trim_back zero bytes = bytes
trim_back (suc fuel) bytes = elim (trailing_lfs_space bytes) [
  | some n ↦ trim_back fuel (take (length bytes - n) bytes)
  | none ↦ bytes
]

unfoldable pub trim_lfs_space : List ℕ → List ℕ
unfolding trim_front trim_back
trim_lfs_space bytes = let front = trim_front (length bytes) bytes in trim_back (length front) front

-- `split` at line feeds.
unfoldable pub split_lines : List ℕ → List (List ℕ)
split_lines [] = [] ∷ []
split_lines (c ∷ bytes) =
    let lines = split_lines bytes in if c == 10 then [] ∷ lines else onto_first c lines

-- `strip_suffix` of a carriage return.
unfoldable pub strip_return : List ℕ → List ℕ
strip_return [] = []
strip_return (c ∷ []) = if c == 13 then [] else c ∷ []
strip_return (c ∷ d ∷ line) = c ∷ strip_return (d ∷ line)

unfoldable pub physical_lines : List (List ℕ) → List (List ℕ)
unfolding strip_return
physical_lines [] = []
physical_lines (line ∷ lines) =
    let stripped = strip_return line in
    if length stripped == 0 then physical_lines lines else stripped ∷ physical_lines lines

-- The derived order of byte slices.
unfoldable pub bytes_le : List ℕ → List ℕ → Bool
bytes_le [] ys = true
bytes_le (x ∷ xs) [] = false
bytes_le (x ∷ xs) (y ∷ ys) = ltb x y || (x == y && bytes_le xs ys)

abbrev pub is_word : ℕ → Bool
is_word c =
    (leb b'a' c && leb c b'z')
    || (leb b'A' c && leb c b'Z')
    || (leb b'0' c && leb c b'9')
    || c == b'_'

unfoldable pub lfs_extension_priority : List ℕ → Option ℕ
lfs_extension_priority (e ∷ x ∷ t ∷ a ∷ d ∷ b ∷ c ∷ key) =
    if bytes_eq (e ∷ x ∷ t ∷ a ∷ []) (codes "ext-")
      && (leb b'0' d && leb d b'9')
      && b == b'-'
      && is_word c
    then some (d - b'0')
    else none
lfs_extension_priority key = none

abbrev pub is_hex : ℕ → Bool
is_hex c = (leb b'0' c && leb c b'9') || (leb b'a' c && leb c b'f')

unfoldable pub digest_of : List ℕ → Option (List ℕ)
unfolding strip_prefix any
digest_of value = elim (strip_prefix value (codes "sha256:")) [
  | none ↦ none
  | some digest ↦
      if length digest == 64 && not (any (λ c. not (is_hex c)) digest) then some digest else none
]

-- What the loop over the lines has found.
pub record Fields : Type 0 where
  pub previous_key : Option (List ℕ)
  pub oid : Option (List ℕ)
  pub size : Option ℕ
  pub extension_priorities : List ℕ

abbrev pub unsigned : Option ℤ → Option ℕ
unsigned none = none
unsigned (some (pos n)) = some n
unsigned (some (negsuc n)) = none

abbrev pub follows : Option (List ℕ) → List ℕ → Bool
follows none key = true
follows (some prior) key = not (bytes_le key prior)

abbrev pub with_oid : Fields → Option (List ℕ) → Option Fields
with_oid f none = none
with_oid f (some digest) = some (record f { oid = some digest })

abbrev pub with_size : Fields → Option ℕ → Option Fields
with_size f none = none
with_size f (some n) = some (record f { size = some n })

abbrev with_extension : Fields → Option ℕ → Option (List ℕ) → Option Fields
with_extension f (some priority) (some digest) =
    if any (λ p. p == priority) f.extension_priorities
    then none
    else some (record f { extension_priorities = f.extension_priorities ++ (priority ∷ []) })
with_extension f none digest = none
with_extension f (some priority) none = none

unfoldable pub field : List ℕ → List ℕ → Fields → Option Fields
unfolding digest_of parse_i64 lfs_extension_priority any
field key value f =
    if bytes_eq key (codes "oid")
    then (if is_some f.oid then none else with_oid f (digest_of value))
    else if bytes_eq key (codes "size")
    then (if is_some f.size then none else with_size f (unsigned (parse_i64 value)))
    else with_extension f (lfs_extension_priority key) (digest_of value)

abbrev pub split_field : List ℕ → Fields → Option ℕ → Option Fields
split_field line f none = none
split_field line f (some separator) =
    let key = take separator line in
    let value = drop (separator + 1) line in
    if length key == 0 || length value == 0 || not (follows f.previous_key key)
    then none
    else field key value (record f { previous_key = some key })

unfoldable pub read_fields : List (List ℕ) → Fields → Option Fields
unfolding position bytes_le field
read_fields [] f = some f
read_fields (line ∷ lines) f = elim (split_field line f (position (λ c. c == b' ') line)) [
  | none ↦ none
  | some g ↦ read_fields lines g
]

abbrev pub pointer_of : Option Fields → Option LfsPointer
pointer_of none = none
pointer_of (some f) = elim f.oid [
  | none ↦ none
  | some oid ↦ elim f.size [ none ↦ none | some size ↦ some (record { oid = oid; size = size }) ]
]

abbrev pub no_fields : Fields
no_fields = record { previous_key = none; oid = none; size = none; extension_priorities = [] }

unfoldable pub pointer_in : List (List ℕ) → Option LfsPointer
unfolding read_fields
pointer_in [] = none
pointer_in (first ∷ lines) =
    if is_version first then pointer_of (read_fields lines no_fields) else none

unfoldable pub parse_lfs_pointer : List ℕ → Option LfsPointer
unfolding trim_lfs_space split_lines physical_lines pointer_in
parse_lfs_pointer payload =
    if ltb max_pointer_bytes (length payload)
    then none
    else pointer_in (physical_lines (split_lines (trim_lfs_space payload)))
