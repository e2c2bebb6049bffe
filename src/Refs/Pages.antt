-- ===== src/Refs/Pages.antt =====
-- The cursors between the pages of references, of crates/gitility-core/src/refs.rs.
pub mod Fits
pub mod Resumes
use gitility.Base.{
  ℕ, zero, suc, ltb, if◌then◌else◌, Bool, true, false, List, [], ◌∷◌, ◌++◌, Option, none, some,
  length, bytes_eq, replicate, to_le_bytes,
}
use gitility.Oid.{HashKind, digest_len}
use gitility.Error.{
  Error, Result, ok, err, ◌>>=◌, ◌>>◌, ensure, new_text, invalid_cursor, result_too_large,
}
use gitility.Cursor.{Cursor, CursorExpected, encode, decode, max_cursor_bytes, fnv1a_64}
use gitility.Refs.{encode_compact_ref_position, decode_compact_ref_position}
use gitility.Refs.Names.{NameRules, validate_full_ref_name}

abbrev pub operation_refs : ℕ
operation_refs = 0x05

abbrev pub compact_cursor_generation : List ℕ
compact_cursor_generation = 1 ∷ []

-- `b"refs-v1\0"`.
abbrev pub query_version : List ℕ
query_version = b'r' ∷ b'e' ∷ b'f' ∷ b's' ∷ b'-' ∷ b'v' ∷ b'1' ∷ 0 ∷ []

unfoldable pub normalized : Option (List ℕ) → List ℕ
unfolding to_le_bytes
normalized none = query_version ++ (0 ∷ [])
normalized (some prefix) = query_version ++ (1 ∷ (to_le_bytes 8 (length prefix) ++ prefix))

unfoldable pub ref_query_fingerprint : Option (List ℕ) → ℕ
unfolding fnv1a_64 normalized
ref_query_fingerprint prefix = fnv1a_64 (normalized prefix)

abbrev pub cursor_identity : HashKind → List ℕ
cursor_identity hash = replicate (digest_len hash) 0

abbrev pub raw_cursor : HashKind → ℕ → List ℕ → Cursor
raw_cursor hash fingerprint position = record {
  hash_kind = hash;
  snapshot_digest = cursor_identity hash;
  operation_tag = operation_refs;
  option_fingerprint = fingerprint;
  generation = [];
  position = position;
}

abbrev pub compact_cursor : HashKind → ℕ → List ℕ → Cursor
compact_cursor hash fingerprint position = record (raw_cursor hash fingerprint position) {
  generation = compact_cursor_generation;
}

unfoldable pub within_limit : List ℕ → Result (List ℕ)
within_limit encoded =
    if ltb max_cursor_bytes (length encoded)
    then err (new_text result_too_large "reference continuation name exceeds the cursor size limit")
    else ok encoded

unfoldable pub encode_compact : HashKind → ℕ → List ℕ → Result (List ℕ)
unfolding encode encode_compact_ref_position
encode_compact hash fingerprint position = do
  packed ← encode_compact_ref_position position
  ok (encode (compact_cursor hash fingerprint packed))

unfoldable pub encode_ref_cursor : HashKind → ℕ → List ℕ → Result (List ℕ)
unfolding encode encode_compact within_limit
encode_ref_cursor hash fingerprint position = do
  encoded ←
      if ltb max_cursor_bytes (length (encode (raw_cursor hash fingerprint position)))
      then encode_compact hash fingerprint position
      else ok (encode (raw_cursor hash fingerprint position))
  within_limit encoded

-- The position by the generation of its cursor.
unfoldable pub position_of : List ℕ → List ℕ → Result (List ℕ)
unfolding decode_compact_ref_position
position_of [] position = ok position
position_of (g ∷ generation) position =
    if bytes_eq (g ∷ generation) compact_cursor_generation
    then decode_compact_ref_position position
    else err (new_text invalid_cursor "reference cursor generation is not recognized")

abbrev pub expected_of : HashKind → ℕ → CursorExpected
expected_of hash fingerprint = record {
  hash_kind = hash;
  snapshot_digest = cursor_identity hash;
  operation_tag = operation_refs;
  option_fingerprint = fingerprint;
}

abbrev as_position : List ℕ → Result (Unit {0}) → Result (List ℕ)
as_position position (ok u) = ok position
as_position position (err e) =
    err (new_text invalid_cursor "reference cursor position is not a full ref name")

module _ (rules : NameRules) where
  unfoldable pub checked_position : List ℕ → Result (List ℕ)
  unfolding validate_full_ref_name
  checked_position position = as_position position (validate_full_ref_name rules position)

  unfoldable pub decode_ref_cursor : List ℕ → HashKind → ℕ → Result (List ℕ)
  unfolding decode position_of checked_position
  decode_ref_cursor encoded hash fingerprint = do
    decoded ← decode encoded (expected_of hash fingerprint)
    position ← position_of decoded.generation decoded.position
    checked_position position
