-- ===== src/Object.antt =====
-- crates/gitility-core/src/object.rs: object IDs from digests and from hexadecimal text. A text
-- is the list of its bytes, a byte a number below 256.
pub mod Hex
mod Tests
use Prim.Native.Nat.{bit_and, bit_or}
use gitility.Base.{
  ℕ, ◌+◌, ◌-◌, ◌*◌, ◌/◌, ◌%◌, String, Bool, ◌&&◌, List, [], ◌∷◌, ◌++◌, ltb, leb, ◌==◌, not,
  if◌then◌else◌, length, take, replicate,
}
use gitility.Oid.{HashKind, sha1, sha256, Oid, digest_len, max_digest_len, as_bytes}
use gitility.Error.{
  Error, Result, ok, err, ◌>>=◌, ◌>>◌, ensure, new, new_text, text, number, invalid_oid,
}

-- The derived `Debug` of `HashKind`.
unfoldable pub kind_name : HashKind → String
kind_name sha1 = "Sha1"
kind_name sha256 = "Sha256"

-- The refusal of `Oid::new`.
wrong_length : HashKind → ℕ → Error
unfolding kind_name
wrong_length kind got = new invalid_oid (
    text (kind_name kind)
    ∷ text " digest must be "
    ∷ number (digest_len kind)
    ∷ text " bytes, got "
    ∷ number got
    ∷ [])

-- `Oid::new`.
unfoldable pub new_oid : HashKind → List ℕ → Result Oid
unfolding wrong_length
new_oid kind digest =
    if not (length digest == digest_len kind)
    then err (wrong_length kind (length digest))
    else ok (record { kind = kind; bytes = digest ++ replicate (max_digest_len - length digest) 0 })

unfoldable pub hex_val : ℕ → Result ℕ
hex_val c =
    if leb b'0' c && leb c b'9'
    then ok (c - b'0')
    else if leb b'a' c && leb c b'f'
    then ok (c - b'a' + 10)
    else if leb b'A' c && leb c b'F'
    then ok (c - b'A' + 10)
    else err (new_text invalid_oid "object ID contains a non-hex character")

-- The loop of `parse_hex` over `chunks_exact(2)`, which leaves an odd last byte out. A byte is
-- `(hi << 4) | lo` in `u8`.
unfoldable pub hex_pairs : List ℕ → Result (List ℕ)
hex_pairs (h ∷ l ∷ rest) = do
  hi ← hex_val h
  lo ← hex_val l
  digest ← hex_pairs rest
  ok (bit_or (hi * 16 % 256) lo ∷ digest)
hex_pairs _ = ok []

-- The hash kind by the length of the text.
unfoldable pub kind_of_length : ℕ → Result HashKind
kind_of_length n =
    if n == 40
    then ok sha1
    else if n == 64
    then ok sha256
    else err (new_text invalid_oid "expected a full 40- or 64-character hex object ID")

-- `Oid::parse_hex`. The digest array has `max_digest_len` bytes, zero past those decoded.
unfoldable pub parse_hex : List ℕ → Result Oid
parse_hex hex = do
  kind ← kind_of_length (length hex)
  decoded ← hex_pairs hex
  let digest = decoded ++ replicate (max_digest_len - length decoded) 0
  new_oid kind (take (digest_len kind) digest)

-- `char::from_digit(d, 16)`, for a digit below 16.
abbrev pub from_digit : ℕ → ℕ
from_digit d = if ltb d 10 then b'0' + d else b'a' + (d - 10)

unfoldable pub hex_digits : List ℕ → List ℕ
hex_digits [] = []
hex_digits (b ∷ bs) = from_digit (b / 16) ∷ from_digit (bit_and b 15) ∷ hex_digits bs

-- `Oid::to_hex`.
unfoldable pub to_hex : Oid → List ℕ
to_hex oid = hex_digits (as_bytes oid)
