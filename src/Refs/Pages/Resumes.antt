-- ===== src/Refs/Pages/Resumes.antt =====
-- What a page of crates/gitility-core/src/refs.rs hands to the next one.
use gitility.Base.{
  ℕ, ◌≤◌, ◌<◌, ◌^◌, ◌≡◌, true, false, Bool-cases, inl, inr, ltb, List, length, All,
  length-replicate, arith,
}
use gitility.Oid.{HashKind, sha1, sha256, digest_len}
use gitility.Error.{ok}
use gitility.Cursor.{encode}
use gitility.Cursor.Roundtrip.{IsValid, decode-encode, length-encode, length-encode_body}
use gitility.Refs.Compact.{
  decode_compact_ref_position-encode_compact_ref_position, length-encode_compact_ref_position,
}
use gitility.Refs.Names.{NameRules, validate_full_ref_name}
use gitility.Refs.Pages.{
  cursor_identity, raw_cursor, compact_cursor, within_limit, encode_compact, encode_ref_cursor,
  position_of, checked_position, decode_ref_cursor,
}
use gitility.Refs.Pages.Fits.{IsAllowed, encode_compact_allowed, allowed-AreBytes}

digest_size : (hash : HashKind) → length (cursor_identity hash) ≡ digest_len hash
digest_size hash = length-replicate (digest_len hash) 0

digest_bound : (hash : HashKind) → digest_len hash ≤ 32
digest_bound sha1 = omega arith
digest_bound sha256 = omega arith

not_longer : (n : ℕ) → n ≤ 4096 → ltb 4096 n ≡ false
not_longer n h = ground (arith, h)

within : (encoded : List ℕ) → length encoded ≤ 4096 → within_limit encoded ≡ ok encoded
unfolding within_limit
within encoded h = ground (arith, h)

-- A cursor that goes on behind a position.
pub record Resumes (rules : NameRules) (hash : HashKind) (fingerprint : ℕ) (position : List ℕ)
    : Type 0 where
  pub encoded : List ℕ
  pub encodes : encode_ref_cursor hash fingerprint position ≡ ok encoded
  pub fits : length encoded ≤ 4096
  pub decodes : decode_ref_cursor rules encoded hash fingerprint ≡ ok position

module _ (rules : NameRules) (hash : HashKind) (fingerprint : ℕ)
    (small : fingerprint < 256 ^ 8) where
  checked :
      (position : List ℕ)
      → validate_full_ref_name rules position ≡ ok tt
      → checked_position rules position ≡ ok position
  unfolding checked_position
  checked position h = rw h

  raw-Resumes :
      (position : List ℕ)
      → validate_full_ref_name rules position ≡ ok tt
      → length (encode (raw_cursor hash fingerprint position)) ≤ 4096
      → Resumes rules hash fingerprint position
  unfolding encode_ref_cursor decode_ref_cursor position_of
  raw-Resumes position h fits =
      let c = raw_cursor hash fingerprint position in
      let valid : IsValid c = record {
        digest = digest_size hash;
        fingerprint = small;
        size = fits;
      } in
      let short : ltb 4096 (length (encode c)) ≡ false = not_longer (length (encode c)) fits in
      record {
        encoded = encode c;
        encodes = rw (short, within (encode c) fits);
        fits = fits;
        decodes = rw (decode-encode c valid, checked position h);
      }

  compact-Resumes :
      (position : List ℕ)
      → validate_full_ref_name rules position ≡ ok tt
      → length position ≤ 4096
      → All IsAllowed position
      → ltb 4096 (length (encode (raw_cursor hash fingerprint position))) ≡ true
      → Resumes rules hash fingerprint position
  unfolding encode_ref_cursor encode_compact decode_ref_cursor position_of
  compact-Resumes position h short allowed long =
      let bytes = allowed-AreBytes position allowed in
      let (packed, packs) = encode_compact_allowed position short allowed in
      let c = compact_cursor hash fingerprint packed in
      let fits : length (encode c) ≤ 4096 = omega (
        arith,
        length-encode c,
        length-encode_body c,
        length-encode_compact_ref_position position bytes packs,
        digest_size hash,
        digest_bound hash,
        short,
      ) in
      let valid : IsValid c = record {
        digest = digest_size hash;
        fingerprint = small;
        size = fits;
      } in
      record {
        encoded = encode c;
        encodes = rw (long, packs, within (encode c) fits);
        fits = fits;
        decodes = rw (
          decode-encode c valid,
          decode_compact_ref_position-encode_compact_ref_position position bytes short packs,
          checked position h,
        );
      }

module _ (rules : NameRules) where
  validate-short : (name : List ℕ) → validate_full_ref_name rules name ≡ ok tt → length name ≤ 4096
  unfolding validate_full_ref_name
  validate-short name h = ground (arith, h)

  validate-rules :
      (name : List ℕ) → validate_full_ref_name rules name ≡ ok tt → rules.is_full_name name ≡ true
  unfolding validate_full_ref_name
  validate-rules name h = ground (arith, h)

-- Where gix accepts only full names of bytes that are neither control characters nor blanks nor
-- forbidden: the cursor behind a valid full name is made, for any hash kind and any fingerprint of 64
-- bits, has at most 4096 bytes, and gives the name back to the same query.
pub encode_ref_cursor-Resumes :
    (rules : NameRules)
    → ((name : List ℕ) → rules.is_full_name name ≡ true → All IsAllowed name)
    → (hash : HashKind) (fingerprint : ℕ) (position : List ℕ) → fingerprint < 256 ^ 8
    → validate_full_ref_name rules position ≡ ok tt
    → Resumes rules hash fingerprint position
encode_ref_cursor-Resumes rules documented hash fingerprint position small h =
    let allowed = documented position (validate-rules rules position h) in
    let short = validate-short rules position h in
    elim (Bool-cases (ltb 4096 (length (encode (raw_cursor hash fingerprint position))))) [
      | inl long ↦ compact-Resumes rules hash fingerprint small position h short allowed long
      | inr fits ↦ raw-Resumes rules hash fingerprint small position h (ground (arith, fits))
    ]
