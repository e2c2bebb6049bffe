-- ===== src/Cursor.antt =====
-- crates/gitility-core/src/cursor.rs: the versioned, checksummed continuation cursors. A byte slice
-- is a list of numbers below 256; `usize` is 64 bits wide.
pub mod Slices
pub mod Roundtrip
pub mod Canonical
mod Tests
use Prim.Native.Nat.{bit_and, bit_xor}
use mathlib.Core.Option
use mathlib.Core.List.{head?, foldl}
use gitility.Base.{
  ℕ, zero, suc, ◌+◌, ◌-◌, ◌*◌, ◌/◌, ◌%◌, ◌^◌, Bool, false, String, List, ◌∷◌, ◌++◌, Option, none,
  some, leb, ◌==◌, if◌then◌else◌, length, take, drop, bytes_eq, to_le_bytes, from_le_bytes, u64_mod,
}
use gitility.Oid.{HashKind, sha1, sha256, digest_len}
use gitility.Error.{Error, Result, ok, ◌>>=◌, ◌>>◌, ensure, ok_or, new_text, invalid_cursor}

abbrev pub version : ℕ
version = 0x01

abbrev pub max_cursor_bytes : ℕ
max_cursor_bytes = 4096

abbrev pub crc_bytes : ℕ
crc_bytes = 4

-- The fixed query identity that a cursor must carry.
pub record CursorExpected : Type 0 where
  pub hash_kind : HashKind
  pub snapshot_digest : List ℕ
  pub operation_tag : ℕ
  pub option_fingerprint : ℕ

pub record Cursor : Type 0 where
  pub hash_kind : HashKind
  pub snapshot_digest : List ℕ
  pub operation_tag : ℕ
  pub option_fingerprint : ℕ
  pub generation : List ℕ
  pub position : List ℕ

unfoldable pub hash_tag : HashKind → ℕ
hash_tag sha1 = 0x01
hash_tag sha256 = 0x02

-- One round of the inner loop of `crc32`: the mask is all ones where the low bit is set.
crc_round : ℕ → ℕ
crc_round crc =
    bit_xor (crc / 2) (bit_and 0xedb8_8320 (if bit_and crc 1 == 1 then 2 ^ 32 - 1 else 0))

crc_rounds : ℕ → ℕ → ℕ
unfolding crc_round
crc_rounds zero crc = crc
crc_rounds (suc n) crc = crc_rounds n (crc_round crc)

crc_step : ℕ → ℕ → ℕ
unfolding crc_rounds
crc_step crc byte = crc_rounds 8 (bit_xor crc byte)

-- `crc32`: the last step is `!crc` in `u32`.
unfoldable pub crc32 : List ℕ → ℕ
unfolding crc_step
crc32 bytes = 2 ^ 32 - 1 - foldl crc_step (2 ^ 32 - 1) bytes

-- `fnv1a_64`.
unfoldable pub fnv1a_64 : List ℕ → ℕ
fnv1a_64 =
    foldl (λ hash byte. bit_xor hash byte * 0x0000_0100_0000_01b3 % u64_mod) 0xcbf2_9ce4_8422_2325

-- `u16::try_from(len).unwrap_or(u16::MAX)`.
abbrev pub len_u16 : ℕ → ℕ
len_u16 n = if leb n 65535 then n else 65535

-- What `encode` writes before the checksum.
unfoldable pub encode_body : Cursor → List ℕ
unfolding hash_tag
encode_body c =
    version
    ∷ hash_tag c.hash_kind
    ∷ (c.snapshot_digest
        ++ (c.operation_tag
            ∷ (to_le_bytes 8 c.option_fingerprint
                ++ (to_le_bytes 2 (len_u16 (length c.generation))
                    ++ (c.generation
                        ++ (to_le_bytes 2 (len_u16 (length c.position)) ++ c.position))))))

unfoldable pub encode : Cursor → List ℕ
encode c = let out = encode_body c in out ++ to_le_bytes crc_bytes (crc32 out)

abbrev pub invalid : String → Error
invalid message = new_text invalid_cursor message

-- `take`: the slice and the new offset. `checked_add` fails past 64 bits.
unfoldable pub take_at : List ℕ → ℕ → ℕ → Option (List ℕ × ℕ)
take_at bytes offset len =
    if leb u64_mod (offset + len)
    then none
    else if leb (offset + len) (length bytes)
    then some (take len (drop offset bytes), offset + len)
    else none

-- `read_u16_le`, `read_u32_le` and `read_u64_le`, at a width in bytes.
unfoldable pub read_le : ℕ → List ℕ → Option ℕ
read_le width bytes = if length bytes == width then some (from_le_bytes bytes) else none

-- `take(...).ok_or_else(...)`.
unfoldable pub field : List ℕ → ℕ → ℕ → String → Result (List ℕ × ℕ)
field body offset len message = ok_or (take_at body offset len) (invalid message)

-- `take(body, &mut offset, width).and_then(read).ok_or_else(...)`.
unfoldable pub number_field : List ℕ → ℕ → ℕ → String → Result (ℕ × ℕ)
number_field body offset width message = do
  (bytes, offset') ← field body offset width message
  n ← ok_or (read_le width bytes) (invalid message)
  ok (n, offset')

unfoldable pub tag_field : List ℕ → ℕ → Result (ℕ × ℕ)
tag_field body offset = do
  (bytes, offset') ← field body offset 1 "operation tag check failed: cursor is truncated"
  tag ← ok_or (head? bytes) (invalid "operation tag check failed: cursor is truncated")
  ok (tag, offset')

abbrev pub is_byte : Option ℕ → ℕ → Bool
is_byte none b = false
is_byte (some a) b = a == b

-- The checks of `decode` up to the checksum: the body of the cursor.
unfoldable pub checked_body : List ℕ → Result (List ℕ)
checked_body bytes = do
  ensure (leb (length bytes) max_cursor_bytes)
      (invalid "length check failed: cursor exceeds 4096 bytes")
  ensure (leb crc_bytes (length bytes)) (invalid "CRC check failed: cursor is too short")
  let body = take (length bytes - crc_bytes) bytes
  encoded_crc ←
      ok_or (read_le 4 (drop (length bytes - crc_bytes) bytes))
        (invalid "CRC check failed: cursor checksum is truncated")
  ensure (crc32 body == encoded_crc) (invalid "CRC check failed: cursor checksum does not match")
  ok body

-- The checks of `decode` on what a query fixes: the digest and the offset behind the fingerprint.
unfoldable pub check_identity : List ℕ → CursorExpected → Result (List ℕ × ℕ)
check_identity body expected = do
  ensure (is_byte (head? body) version) (invalid "version check failed: unsupported cursor version")
  ensure (is_byte (head? (drop 1 body)) (hash_tag expected.hash_kind))
      (invalid "hash kind check failed")
  ensure (length expected.snapshot_digest == digest_len expected.hash_kind)
      (invalid "snapshot digest check failed: expected digest is invalid")
  (digest, offset₁) ←
      field body 2 (digest_len expected.hash_kind)
        "snapshot digest check failed: cursor is truncated"
  ensure (bytes_eq digest expected.snapshot_digest) (invalid "snapshot digest check failed")
  (operation_tag, offset₂) ← tag_field body offset₁
  ensure (operation_tag == expected.operation_tag) (invalid "operation tag check failed")
  (fingerprint, offset₃) ←
      number_field body offset₂ 8 "option fingerprint check failed: cursor is truncated"
  ensure (fingerprint == expected.option_fingerprint) (invalid "option fingerprint check failed")
  ok (digest, offset₃)

-- The rest of `decode`: the two fields with a length, and nothing behind them.
unfoldable pub read_fields : List ℕ → ℕ → Result (List ℕ × List ℕ)
read_fields body offset = do
  (generation_len, offset₁) ← number_field body offset 2 "generation length check failed"
  (generation, offset₂) ← field body offset₁ generation_len "generation length check failed"
  (position_len, offset₃) ← number_field body offset₂ 2 "position length check failed"
  (position, offset₄) ← field body offset₃ position_len "position length check failed"
  ensure (offset₄ == length body) (invalid "trailing data check failed")
  ok (generation, position)

-- Fields that `check_identity` found equal are copied from `expected`.
unfoldable pub decode : List ℕ → CursorExpected → Result Cursor
unfolding checked_body check_identity read_fields
decode bytes expected = do
  body ← checked_body bytes
  (digest, offset) ← check_identity body expected
  (generation, position) ← read_fields body offset
  ok (record {
    hash_kind = expected.hash_kind;
    snapshot_digest = digest;
    operation_tag = expected.operation_tag;
    option_fingerprint = expected.option_fingerprint;
    generation = generation;
    position = position;
  })
