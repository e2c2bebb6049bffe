-- ===== src/Refs.antt =====
-- crates/gitility-core/src/refs.rs: the names of references, their resolution over symbolic ones, and
-- the cursors of a listing. The component rules of gix_ref for full names are a parameter.
pub mod Blocks
pub mod Names
pub mod Pages
pub mod Compact
mod Tests
use gitility.Base.{
  ℕ, zero, suc, ◌+◌, ◌-◌, ◌*◌, ◌/◌, ◌%◌, Bool, true, false, ◌&&◌, ◌||◌, not, ltb, leb, ◌==◌,
  if◌then◌else◌, List, [], ◌∷◌, ◌++◌, Option, none, some, length, take, drop, replicate, bytes_eq,
  any, to_le_bytes, from_le_bytes, starts_with,
}
use gitility.Oid.{HashKind, digest_len}
use gitility.Error.{
  Error, Result, ok, err, ◌>>=◌, ◌>>◌, ensure, ok_or, new_text, invalid_cursor, result_too_large,
}
use gitility.Cursor.{Cursor, CursorExpected, encode, decode, max_cursor_bytes, fnv1a_64}

abbrev pub max_ref_name_bytes : ℕ
max_ref_name_bytes = 4096

abbrev pub block_symbols : ℕ
block_symbols = 32

abbrev pub block_bytes : ℕ
block_bytes = 31

abbrev pub alphabet_len : ℕ
alphabet_len = 215

abbrev pub cursor_error : Error
cursor_error = new_text invalid_cursor "reference cursor position contains a forbidden byte"

-- `is_forbidden_ref_byte`: one of *:?[\^~.
abbrev pub is_forbidden_ref_byte : ℕ → Bool
is_forbidden_ref_byte c =
    c == b'*' || c == b':' || c == b'?' || c == b'[' || c == 92 || c == b'^' || c == b'~'

abbrev below : ℕ → ℕ → ℕ
below forbidden c = if ltb forbidden c then 1 else 0

abbrev pub skipped : ℕ → ℕ
skipped c =
    below b'*' c
    + below b':' c
    + below b'?' c
    + below b'[' c
    + below 92 c
    + below b'^' c
    + below b'~' c

unfoldable pub ref_name_alphabet_rank : ℕ → Option ℕ
ref_name_alphabet_rank c =
    if leb 128 c
    then some (87 + (c - 128))
    else if not (leb 33 c && leb c 126) || is_forbidden_ref_byte c
    then none
    else some (c - 33 - skipped c)

-- The loop over the bytes from `c` on, of which `count` are left.
unfoldable pub nth_allowed : ℕ → ℕ → ℕ → ℕ → Option ℕ
nth_allowed zero c seen rank = none
nth_allowed (suc count) c seen rank =
    let same = nth_allowed count (suc c) seen rank in
    let next = nth_allowed count (suc c) (suc seen) rank in
    if is_forbidden_ref_byte c then same else if seen == rank then some c else next

unfoldable pub ref_name_alphabet_byte : ℕ → Option ℕ
unfolding nth_allowed
ref_name_alphabet_byte rank =
    if leb 87 rank
    then (if leb rank 214 then some (128 + (rank - 87)) else none)
    else nth_allowed 94 33 0 rank

-- One symbol into the slots of a block, the lowest first: the slots and what does not fit.
unfoldable pub mul_add : List ℕ → ℕ → List ℕ × ℕ
mul_add [] carry = ([], carry)
mul_add (slot ∷ slots) carry =
    let value = slot * alphabet_len + carry in
    let (rest, out) = mul_add slots (value / 256) in (value % 256 ∷ rest, out)

-- One symbol out of the slots: the slots and the rank.
unfoldable pub div_rem : List ℕ → List ℕ × ℕ
div_rem [] = ([], 0)
div_rem (slot ∷ slots) =
    let (rest, remainder) = div_rem slots in
    let dividend = remainder * 256 + slot in
    (dividend / alphabet_len % 256 ∷ rest, dividend % alphabet_len)

unfoldable pub pack : List ℕ → List ℕ → Result (List ℕ)
unfolding ref_name_alphabet_rank mul_add
pack [] slots = ok slots
pack (c ∷ block) slots = do
  rank ← ok_or (ref_name_alphabet_rank c) cursor_error
  pack block (mul_add slots rank).0

-- The ranks of a block, from the last on, in front of those there are.
unfoldable pub unpack : ℕ → List ℕ → List ℕ → List ℕ × List ℕ
unfolding div_rem
unpack zero slots ranks = (slots, ranks)
unpack (suc count) slots ranks =
    let (rest, rank) = div_rem slots in unpack count rest (rank ∷ ranks)

abbrev pub zeros : List ℕ
zeros = replicate block_bytes 0

-- The blocks in front, and the tail as it is.
unfoldable pub encode_blocks : ℕ → List ℕ → Result (List ℕ)
unfolding pack
encode_blocks zero position = ok position
encode_blocks (suc blocks) position = do
  packed ← pack (take block_symbols position) zeros
  rest ← encode_blocks blocks (drop block_symbols position)
  ok (packed ++ rest)

unfoldable pub bytes_of : List ℕ → Result (List ℕ)
unfolding ref_name_alphabet_byte
bytes_of [] = ok []
bytes_of (rank ∷ ranks) = do
  c ←
      ok_or (ref_name_alphabet_byte rank)
        (new_text invalid_cursor "compact reference cursor rank is invalid")
  rest ← bytes_of ranks
  ok (c ∷ rest)

abbrev pub outside_alphabet : Error
outside_alphabet =
    new_text invalid_cursor "compact reference cursor block is outside the ref-name alphabet"

-- What is left of a block's slots, and its ranks.
unfoldable pub checked_block : List ℕ × List ℕ → Result (List ℕ)
unfolding bytes_of any
checked_block unpacked = do
  ensure (not (any (λ c. not (c == 0)) unpacked.0)) outside_alphabet
  bytes_of unpacked.1

unfoldable pub decode_block : List ℕ → Result (List ℕ)
unfolding unpack checked_block
decode_block packed = checked_block (unpack block_symbols packed [])

unfoldable pub decode_blocks : ℕ → List ℕ → Result (List ℕ)
unfolding decode_block
decode_blocks zero encoded = ok encoded
decode_blocks (suc blocks) encoded = do
  block ← decode_block (take block_bytes encoded)
  rest ← decode_blocks blocks (drop block_bytes encoded)
  ok (block ++ rest)

unfoldable pub encode_compact_ref_position : List ℕ → Result (List ℕ)
unfolding encode_blocks to_le_bytes
encode_compact_ref_position position = do
  ensure (ltb (length position) 65536)
      (new_text result_too_large "reference continuation name exceeds the compact cursor limit")
  blocks ← encode_blocks (length position / block_symbols) position
  ok (to_le_bytes 2 (length position) ++ blocks)

unfoldable pub decode_compact_ref_position : List ℕ → Result (List ℕ)
unfolding decode_blocks from_le_bytes
decode_compact_ref_position encoded = do
  ensure (leb 2 (length encoded))
      (new_text invalid_cursor "compact reference cursor length is missing")
  let count = from_le_bytes (take 2 encoded)
  ensure (leb count max_ref_name_bytes)
      (new_text invalid_cursor "compact reference cursor name exceeds 4096 bytes")
  ensure (length encoded == 2 + count / block_symbols * block_bytes + count % block_symbols)
      (new_text invalid_cursor "compact reference cursor payload length is invalid")
  decode_blocks (count / block_symbols) (drop 2 encoded)
