-- ===== src/Cursor/Roundtrip.antt =====
-- The decoder of crates/gitility-core/src/cursor.rs on what the encoder gives.
use mathlib.Core.List.{append-nil}
use gitility.Base.{
  ℕ, ◌+◌, ◌-◌, ◌≤◌, ◌<◌, ◌^◌, ◌≡◌, refl, sym, List, [], ◌∷◌, ◌++◌, arith, length, take, drop,
  u64_mod, length-append, take-append, drop-append, to_le_bytes, length-to_le_bytes,
  from_le_bytes-to_le_bytes, bytes_eq_refl,
}
use gitility.Oid.{digest_len}
use gitility.Error.{ok}
use gitility.Cursor.{
  number_field, Cursor, CursorExpected, encode, encode_body, decode, checked_body, check_identity,
  read_fields, crc32, len_u16, max_cursor_bytes,
}
use gitility.Cursor.Slices.{At, At-behind, field-At, tag_field-At, number_field-At, read_le_lem}

-- A cursor that the encoder can write and the decoder accepts by its size.
pub record IsValid (c : Cursor) : Type 0 where
  pub digest : length c.snapshot_digest ≡ digest_len c.hash_kind
  pub fingerprint : c.option_fingerprint < 256 ^ 8
  pub size : length (encode c) ≤ max_cursor_bytes

-- The identity that a cursor carries.
abbrev pub identity : Cursor → CursorExpected
identity c = record {
  hash_kind = c.hash_kind;
  snapshot_digest = c.snapshot_digest;
  operation_tag = c.operation_tag;
  option_fingerprint = c.option_fingerprint;
}

crc32-lt : (bytes : List ℕ) → crc32 bytes < 256 ^ 4
unfolding crc32
crc32-lt bytes = omega arith

pub length-encode : (c : Cursor) → length (encode c) ≡ length (encode_body c) + 4
unfolding encode
length-encode c =
    let body = encode_body c in
    omega
      (arith, length-append body (to_le_bytes 4 (crc32 body)), length-to_le_bytes 4 (crc32 body))

pub length-encode_body :
    (c : Cursor)
    → length (encode_body c)
      ≡ 15 + length c.snapshot_digest + length c.generation + length c.position
unfolding encode_body
length-encode_body c =
    let plen = to_le_bytes 2 (len_u16 (length c.position)) in
    let glen = to_le_bytes 2 (len_u16 (length c.generation)) in
    let fp = to_le_bytes 8 c.option_fingerprint in
    omega (
      arith,
      length-append c.snapshot_digest
          (c.operation_tag ∷ (fp ++ (glen ++ (c.generation ++ (plen ++ c.position))))),
      length-append fp (glen ++ (c.generation ++ (plen ++ c.position))),
      length-append glen (c.generation ++ (plen ++ c.position)),
      length-append c.generation (plen ++ c.position),
      length-append plen c.position,
      length-to_le_bytes 8 c.option_fingerprint,
      length-to_le_bytes 2 (len_u16 (length c.position)),
      length-to_le_bytes 2 (len_u16 (length c.generation)),
    )

split_body :
    (c : Cursor) (n : ℕ)
    → length (encode c) - 4 ≡ n
    → n ≡ length (encode_body c)
    → (take n (encode c) ≡ encode_body c)
      × (drop n (encode c) ≡ to_le_bytes 4 (crc32 (encode_body c)))
unfolding encode
split_body c n e k =
    let tail = to_le_bytes 4 (crc32 (encode_body c)) in
    (take-append n (encode_body c) tail (sym k), drop-append n (encode_body c) tail (sym k))

checked_body-encode :
    (c : Cursor)
    → length (encode c) ≤ max_cursor_bytes
    → checked_body (encode c) ≡ ok (encode_body c)
unfolding checked_body
checked_body-encode c h =
    let n = length (encode c) - 4 in
    let (front, back) = split_body c n refl (omega (arith, length-encode c)) in
    let tail = to_le_bytes 4 (crc32 (encode_body c)) in
    ground (
      arith,
      front,
      back,
      length-encode c,
      read_le_lem 4 tail (length-to_le_bytes 4 _),
      from_le_bytes-to_le_bytes 4 (crc32 (encode_body c)) (crc32-lt (encode_body c)),
    )

-- The bytes behind the digest, and those behind the fingerprint.
abbrev fields_of : Cursor → List ℕ
fields_of c =
    to_le_bytes 2 (len_u16 (length c.generation))
    ++ (c.generation ++ (to_le_bytes 2 (len_u16 (length c.position)) ++ c.position))

abbrev behind_digest : Cursor → List ℕ
behind_digest c = c.operation_tag ∷ (to_le_bytes 8 c.option_fingerprint ++ fields_of c)

module _ (c : Cursor) (v : IsValid c) where
  body : List ℕ
  body = encode_body c

  short : length body < u64_mod
  unfolding body
  short = omega (arith, v.size, length-encode c)

  At-digest : At body 2 (c.snapshot_digest ++ behind_digest c)
  unfolding encode_body body
  At-digest = record { left = refl; total = omega arith }

  At-tag : At body (2 + digest_len c.hash_kind) (behind_digest c)
  At-tag = At-behind c.snapshot_digest (behind_digest c) 2 _ v.digest At-digest

  At-fingerprint :
      At body (2 + digest_len c.hash_kind + 1) (to_le_bytes 8 c.option_fingerprint ++ fields_of c)
  At-fingerprint = At-behind (c.operation_tag ∷ []) _ _ 1 refl At-tag

  At-fields : At body (2 + digest_len c.hash_kind + 1 + 8) (fields_of c)
  At-fields =
      At-behind (to_le_bytes 8 c.option_fingerprint) (fields_of c) _ 8 (length-to_le_bytes 8 _)
        At-fingerprint

  check_identity-encode_body :
      check_identity body (identity c) ≡ ok (c.snapshot_digest, 2 + digest_len c.hash_kind + 1 + 8)
  unfolding check_identity encode_body body
  check_identity-encode_body = ground (
    arith,
    v.digest,
    field-At c.snapshot_digest (behind_digest c) 2 (digest_len c.hash_kind)
        "snapshot digest check failed: cursor is truncated" v.digest At-digest short,
    bytes_eq_refl c.snapshot_digest,
    tag_field-At c.operation_tag (to_le_bytes 8 c.option_fingerprint ++ fields_of c)
        (2 + digest_len c.hash_kind) At-tag short,
    number_field-At 8 c.option_fingerprint (fields_of c) (2 + digest_len c.hash_kind + 1)
        "option fingerprint check failed: cursor is truncated" v.fingerprint At-fingerprint short,
  )

  fits : (length c.generation ≤ 65535) × (length c.position ≤ 65535)
  fits = (
    omega (arith, v.size, length-encode c, length-encode_body c),
    omega (arith, v.size, length-encode c, length-encode_body c),
  )

  generation_len : len_u16 (length c.generation) ≡ length c.generation
  generation_len = ground (arith, fits.0)

  position_len : len_u16 (length c.position) ≡ length c.position
  position_len = ground (arith, fits.1)

  -- The offset behind the fingerprint.
  start : ℕ
  start = 2 + digest_len c.hash_kind + 1 + 8

  behind_generation : List ℕ
  behind_generation = to_le_bytes 2 (len_u16 (length c.position)) ++ c.position

  At-generation : At body (start + 2) (c.generation ++ behind_generation)
  unfolding start behind_generation
  At-generation = At-behind (to_le_bytes 2 _) _ start 2 (length-to_le_bytes 2 _) At-fields

  At-position_len : At body (start + 2 + length c.generation) behind_generation
  At-position_len = At-behind c.generation _ (start + 2) _ refl At-generation

  At-position : At body (start + 2 + length c.generation + 2) (c.position ++ [])
  unfolding behind_generation
  At-position =
      rw append-nil
        (At-behind (to_le_bytes 2 _) c.position _ 2 (length-to_le_bytes 2 _) At-position_len)

  At-end : At body (start + 2 + length c.generation + 2 + length c.position) []
  At-end = At-behind c.position [] _ _ refl At-position

  number_lt : (n : ℕ) → len_u16 n < 256 ^ 2
  number_lt n = ground arith

  read_generation_len :
      number_field body start 2 "generation length check failed"
      ≡ ok (len_u16 (length c.generation), start + 2)
  unfolding start
  read_generation_len =
      number_field-At 2 (len_u16 (length c.generation))
        (c.generation ++ (to_le_bytes 2 (len_u16 (length c.position)) ++ c.position)) _ _
        (number_lt (length c.generation)) At-fields short

  read_position_len :
      number_field body (start + 2 + length c.generation) 2 "position length check failed"
      ≡ ok (len_u16 (length c.position), start + 2 + length c.generation + 2)
  unfolding behind_generation
  read_position_len =
      number_field-At 2 (len_u16 (length c.position)) c.position _ _ (number_lt (length c.position))
        At-position_len short

  read_fields-encode_body : read_fields body start ≡ ok (c.generation, c.position)
  unfolding read_fields
  read_fields-encode_body = ground (
    arith,
    read_generation_len,
    generation_len,
    field-At c.generation behind_generation (start + 2) (length c.generation)
        "generation length check failed" refl At-generation short,
    read_position_len,
    position_len,
    field-At c.position [] (start + 2 + length c.generation + 2) (length c.position)
        "position length check failed" refl At-position short,
    At-end.total,
  )

-- A cursor whose digest has the length of its hash kind, whose fingerprint fits in 64 bits and
-- whose encoding has at most 4096 bytes decodes to itself under the identity that it carries.
pub decode-encode : (c : Cursor) → IsValid c → decode (encode c) (identity c) ≡ ok c
unfolding decode body start
decode-encode c v = ground (
  arith,
  checked_body-encode c v.size,
  check_identity-encode_body c v,
  read_fields-encode_body c v,
)
