-- ===== src/Object/Hex.antt =====
-- The hexadecimal form of an object ID in crates/gitility-core/src/object.rs: `to_hex` against
-- `parse_hex`.
use Prim.Native.Nat.{bit_and, bit_or}
use gitility.Base.{
  ℕ, ◌+◌, ◌-◌, ◌*◌, ◌/◌, ◌%◌, ◌<◌, ◌≡◌, refl, ap, true, ◌&&◌, List, [], ◌∷◌, ◌++◌, map, arith, leb,
  ◌==◌, ==_iff, if◌then◌else◌, length, take, replicate, take-append, length-map, ap, take,
  length-map, AreBytes, holds_below, holds_below_at,
}
use gitility.Oid.{HashKind, sha1, sha256, Oid, digest_len, max_digest_len, as_bytes}
use gitility.Error.{Result, ok, err, ◌>>=◌, Ensures, Ensures-ok}
use gitility.Object.{
  new_oid, hex_val, hex_pairs, kind_of_length, parse_hex, from_digit, hex_digits, to_hex,
}

-- The digest has the length of its kind, and zeros fill the inline storage behind it.
pub record IsValid (oid : Oid) : Type 0 where
  pub digest : length (as_bytes oid) ≡ digest_len oid.kind
  pub padded : as_bytes oid ++ replicate (max_digest_len - digest_len oid.kind) 0 ≡ oid.bytes
  pub bytes : AreBytes (as_bytes oid)

-- The lowercase form of an ASCII letter.
pub to_lower : ℕ → ℕ
to_lower c = if leb b'A' c && leb c b'F' then c + 32 else c

nibbles_table : holds_below (λ b. bit_or (b / 16 * 16 % 256) (bit_and b 15) == b) 256 ≡ true
unfolding holds_below
nibbles_table = refl

join_nibbles : (b : ℕ) → b < 256 → bit_or (b / 16 * 16 % 256) (bit_and b 15) ≡ b
join_nibbles b h = (==_iff _ b).0 (holds_below_at _ 256 nibbles_table b h)

low_table : holds_below (λ b. bit_and b 15 == b % 16) 256 ≡ true
unfolding holds_below
low_table = refl

low_nibble : (b : ℕ) → b < 256 → bit_and b 15 ≡ b % 16
low_nibble b h = (==_iff _ _).0 (holds_below_at _ 256 low_table b h)

hex_val-from_digit : (d : ℕ) → d < 16 → hex_val (from_digit d) ≡ ok d
unfolding hex_val
hex_val-from_digit d h = ground arith

hex_pairs-hex_digits : (bs : List ℕ) → AreBytes bs → hex_pairs (hex_digits bs) ≡ ok bs
unfolding hex_pairs hex_digits
hex_pairs-hex_digits [] h = refl
hex_pairs-hex_digits (b ∷ bs) (hb, h) = rw (
  hex_val-from_digit (b / 16) (omega arith),
  hex_val-from_digit (bit_and b 15) (omega (arith, low_nibble b hb)),
  hex_pairs-hex_digits bs h,
  join_nibbles b hb,
)

length-hex_digits : (bs : List ℕ) → length (hex_digits bs) ≡ 2 * length bs
unfolding hex_digits
length-hex_digits [] = refl
length-hex_digits (b ∷ bs) = omega (arith, length-hex_digits bs)

kind_of_length_lem : (kind : HashKind) → kind_of_length (2 * digest_len kind) ≡ ok kind
unfolding kind_of_length
kind_of_length_lem sha1 = refl
kind_of_length_lem sha256 = refl

new_oid_lem :
    (kind : HashKind) (digest : List ℕ)
    → length digest ≡ digest_len kind
    → new_oid kind digest
      ≡ ok
          (record { kind = kind; bytes = digest ++ replicate (max_digest_len - digest_len kind) 0 })
unfolding new_oid
new_oid_lem kind digest h = ground arith

-- Printing an object ID and parsing the text gives the ID back, for both hash kinds.
pub parse_hex-to_hex : (oid : Oid) → IsValid oid → parse_hex (to_hex oid) ≡ ok oid
unfolding parse_hex to_hex
parse_hex-to_hex oid v = rw (
  length-hex_digits digest,
  v.digest,
  kind_of_length_lem oid.kind,
  hex_pairs-hex_digits digest v.bytes,
  take-append (digest_len oid.kind) digest (replicate (max_digest_len - length digest) 0) v.digest,
  new_oid_lem oid.kind digest v.digest,
  v.padded,
)
  where
    digest : List ℕ
    digest = as_bytes oid

join_table :
    holds_below (λ h. holds_below (λ l. bit_or (h * 16 % 256) l == h * 16 + l) 16) 16 ≡ true
unfolding holds_below
join_table = refl

join_lem : (h l : ℕ) → h < 16 → l < 16 → bit_or (h * 16 % 256) l ≡ h * 16 + l
join_lem h l hh hl = (==_iff _ _).0 (holds_below_at _ 16 (holds_below_at _ 16 join_table h hh) l hl)

hex_val_lem : (c : ℕ) {d : ℕ} → hex_val c ≡ ok d → (d < 16) × (from_digit d ≡ to_lower c)
unfolding hex_val to_lower
hex_val_lem c h = ground arith

join_div : (h l : ℕ) → l < 16 → (h * 16 + l) / 16 ≡ h
join_div h l hl = omega arith

join_mod : (h l : ℕ) → l < 16 → (h * 16 + l) % 16 ≡ l
join_mod h l hl = omega arith

-- What the loop of `parse_hex` guarantees of the bytes it decodes.
record Decodes (hex bs : List ℕ) : Type 0 where
  bytes : AreBytes bs
  lower : hex_digits bs ≡ map to_lower hex

Decodes-cons :
    (h l : ℕ) (rest : List ℕ) (rh rl : Result ℕ) (rr : Result (List ℕ))
    → hex_val h ≡ rh
    → hex_val l ≡ rl
    → Ensures (Decodes rest) rr
    → Ensures
        (Decodes (h ∷ l ∷ rest))
        (rh >>= λ hi. rl >>= λ lo. rr >>= λ bs. ok (bit_or (hi * 16 % 256) lo ∷ bs))
unfolding hex_digits
Decodes-cons h l rest (ok hi) (ok lo) (ok bs) eh el d =
    let (hh, fh) = hex_val_lem h eh in
    let (hl, fl) = hex_val_lem l el in
    rw (join_lem hi lo hh hl) (record {
      bytes = (omega arith, d.bytes);
      lower = rw (
        low_nibble (hi * 16 + lo) (omega arith),
        join_div hi lo hl,
        join_mod hi lo hl,
        fh,
        fl,
        d.lower,
      );
    })
Decodes-cons h l rest (ok hi) (ok lo) (err e) eh el d = tt
Decodes-cons h l rest (ok hi) (err e) rr eh el d = tt
Decodes-cons h l rest (err e) rl rr eh el d = tt

hex_pairs-Decodes :
    (hex : List ℕ) (n : ℕ) → length hex ≡ 2 * n → Ensures (Decodes hex) (hex_pairs hex)
unfolding hex_pairs hex_digits
hex_pairs-Decodes [] n e = record { bytes = tt; lower = refl }
hex_pairs-Decodes (c ∷ []) n e = absurd (omega arith)
hex_pairs-Decodes (h ∷ l ∷ rest) n e =
    Decodes-cons h l rest (hex_val h) (hex_val l) (hex_pairs rest) refl refl
      (hex_pairs-Decodes rest (n - 1) (omega arith))

kind_of_length-Ensures : (n : ℕ) → Ensures (λ kind. n ≡ 2 * digest_len kind) (kind_of_length n)
unfolding kind_of_length
kind_of_length-Ensures n = ground arith

-- An ID that is the lowercase reading of a text.
pub record Reads (hex : List ℕ) (oid : Oid) : Type 0 where
  pub valid : IsValid oid
  pub lower : to_hex oid ≡ map to_lower hex

stored-Reads :
    (hex : List ℕ) (kind : HashKind) (bs : List ℕ)
    → length bs ≡ digest_len kind
    → Decodes hex bs
    → Reads hex
        (record { kind = kind; bytes = bs ++ replicate (max_digest_len - digest_len kind) 0 })
unfolding to_hex
stored-Reads hex kind bs n d =
    let e : take (digest_len kind) (bs ++ replicate (max_digest_len - digest_len kind) 0) ≡ bs =
      take-append (digest_len kind) bs (replicate (max_digest_len - digest_len kind) 0) n in
    record {
      valid = record { digest = rw e n; padded = rw e; bytes = rw e d.bytes };
      lower = rw e d.lower;
    }

Decodes-length : (hex bs : List ℕ) → Decodes hex bs → 2 * length bs ≡ length hex
Decodes-length hex bs d =
    omega (arith, length-hex_digits bs, ap length d.lower, length-map {0, 0} hex to_lower)

finish-Reads :
    (hex : List ℕ) (rk : Result HashKind) (rd : Result (List ℕ))
    → Ensures (λ kind. length hex ≡ 2 * digest_len kind) rk
    → ((n : ℕ) → length hex ≡ 2 * n → Ensures (Decodes hex) rd)
    → Ensures (Reads hex) (
        rk >>= λ kind. rd >>= λ decoded.
        new_oid kind
          (take (digest_len kind) (decoded ++ replicate (max_digest_len - length decoded) 0)))
finish-Reads hex (ok kind) (ok bs) n d =
    let m : length bs ≡ digest_len kind =
      omega (arith, Decodes-length hex bs (d (digest_len kind) n)) in
    rw
      (
        take-append (digest_len kind) bs (replicate (max_digest_len - length bs) 0) m,
        new_oid_lem kind bs m,
      )
      (stored-Reads hex kind bs m (d (digest_len kind) n))
finish-Reads hex (ok kind) (err e) n d = tt
finish-Reads hex (err e) rd n d = tt

-- An accepted text has 40 or 64 bytes, the ID that it gives is well formed, and that ID prints as
-- the text in lowercase.
pub parse_hex-Reads : (hex : List ℕ) {oid : Oid} → parse_hex hex ≡ ok oid → Reads hex oid
unfolding parse_hex
parse_hex-Reads hex = Ensures-ok (Reads hex) (parse_hex hex) (
    finish-Reads hex (kind_of_length (length hex)) (hex_pairs hex)
      (kind_of_length-Ensures (length hex)) (hex_pairs-Decodes hex))
