-- ===== src/Cursor/Tests.antt =====
-- Cursors at concrete inputs, among them the frozen byte vector of the source's tests.
use gitility.Base.{ℕ, ◌≡◌, refl, List, [], ◌∷◌, ◌++◌, arith}
use gitility.Oid.{sha1}
use gitility.Error.{ok, err}
use gitility.Cursor.{
  Cursor, encode, decode, encode_body, crc32, fnv1a_64, invalid, take_at, read_le, field,
  number_field, tag_field, hash_tag,
}
use gitility.Cursor.Roundtrip.{IsValid, identity, decode-encode}
use gitility.Cursor.Canonical.{Accepted, decode-Accepted}

abbrev sample : Cursor
sample = record {
  hash_kind = sha1;
  snapshot_digest =
      0 ∷ 1 ∷ 2 ∷ 3 ∷ 4 ∷ 5 ∷ 6 ∷ 7 ∷ 8 ∷ 9 ∷ 10 ∷ 11 ∷ 12 ∷ 13 ∷ 14 ∷ 15 ∷ 16 ∷ 17 ∷ 18 ∷ 19 ∷ [];
  operation_tag = 0x01;
  option_fingerprint = 0x0123_4567_89ab_cdef;
  generation =
      b'p' ∷ b'a' ∷ b'c' ∷ b'k' ∷ b'-' ∷ b'g' ∷ b'e' ∷ b'n' ∷ b'e' ∷ b'r' ∷ b'a' ∷ b't' ∷ b'i'
      ∷ b'o' ∷ b'n' ∷ [];
  position = b's' ∷ b'r' ∷ b'c' ∷ b'/' ∷ b'l' ∷ b'i' ∷ b'b' ∷ b'.' ∷ b'r' ∷ b's' ∷ [];
}

abbrev sample_bytes : List ℕ
sample_bytes =
    0x01 ∷ 0x01 ∷ 0x00 ∷ 0x01 ∷ 0x02 ∷ 0x03 ∷ 0x04 ∷ 0x05 ∷ 0x06 ∷ 0x07 ∷ 0x08 ∷ 0x09 ∷ 0x0a ∷ 0x0b
    ∷ 0x0c ∷ 0x0d ∷ 0x0e ∷ 0x0f ∷ 0x10 ∷ 0x11 ∷ 0x12 ∷ 0x13 ∷ 0x01 ∷ 0xef ∷ 0xcd ∷ 0xab ∷ 0x89
    ∷ 0x67 ∷ 0x45 ∷ 0x23 ∷ 0x01 ∷ 0x0f ∷ 0x00 ∷ b'p' ∷ b'a' ∷ b'c' ∷ b'k' ∷ b'-' ∷ b'g' ∷ b'e'
    ∷ b'n' ∷ b'e' ∷ b'r' ∷ b'a' ∷ b't' ∷ b'i' ∷ b'o' ∷ b'n' ∷ 0x0a ∷ 0x00 ∷ b's' ∷ b'r' ∷ b'c'
    ∷ b'/' ∷ b'l' ∷ b'i' ∷ b'b' ∷ b'.' ∷ b'r' ∷ b's' ∷ 0x5d ∷ 0xd3 ∷ 0x97 ∷ 0x31 ∷ []

frozen_vector : encode sample ≡ sample_bytes
unfolding encode crc32 encode_body gitility.Base.to_le_bytes
frozen_vector = refl

published_fnv : fnv1a_64 (b'h' ∷ b'e' ∷ b'l' ∷ b'l' ∷ b'o' ∷ []) ≡ 0xa430_d846_80aa_bd0b
unfolding fnv1a_64
published_fnv = refl

sample-IsValid : IsValid sample
unfolding encode crc32 encode_body gitility.Base.to_le_bytes
sample-IsValid = record { digest = refl; fingerprint = omega arith; size = omega arith }

decode-encode_example : decode (encode sample) (identity sample) ≡ ok sample
decode-encode_example = decode-encode sample sample-IsValid

sample_decodes : decode sample_bytes (identity sample) ≡ ok sample
unfolding decode crc32 take_at read_le field number_field tag_field hash_tag
    gitility.Base.from_le_bytes
sample_decodes = refl

decode-Accepted_example : Accepted sample_bytes (identity sample) sample
decode-Accepted_example =
    decode-Accepted sample_bytes (identity sample) (omega arith) sample_decodes

corrupt_byte :
    decode (0x00 ∷ sample_bytes) (identity sample)
    ≡ err (invalid "CRC check failed: cursor checksum does not match")
unfolding decode crc32 read_le gitility.Base.from_le_bytes
corrupt_byte = refl
