-- ===== src/Odb/Verify.antt =====
-- crates/gitility-core/src/verify.rs: object IDs from contents. The digests of the libraries sha1_checked
-- and sha2 are parameters; the first gives `none` where it detects a collision attack.
pub mod Preimage
use gitility.Base.{
  ℕ, zero, suc, ◌+◌, ◌/◌, ◌%◌, Bool, ltb, if◌then◌else◌, List, [], ◌∷◌, ◌++◌, Option, none, some,
  length,
}
use gitility.Oid.{HashKind, sha1, sha256, Oid, oid_eq, ObjectKind, commit, tree, blob, tag}
use gitility.Error.{
  Error, Result, ok, err, new, new_text, text, hex_of, hash_mismatch, ◌>>=◌, ensure, ◌>>◌,
}
use gitility.Object.{new_oid}

pub record Digests : Type 0 where
  pub sha1_digest : List ℕ → Option (List ℕ)
  pub sha256_digest : List ℕ → List ℕ

-- The bytes of `ObjectKind::as_str`.
unfoldable pub kind_text : ObjectKind → List ℕ
kind_text commit = b'c' ∷ b'o' ∷ b'm' ∷ b'm' ∷ b'i' ∷ b't' ∷ []
kind_text tree = b't' ∷ b'r' ∷ b'e' ∷ b'e' ∷ []
kind_text blob = b'b' ∷ b'l' ∷ b'o' ∷ b'b' ∷ []
kind_text tag = b't' ∷ b'a' ∷ b'g' ∷ []

-- The decimal digits of `to_string`, with fuel. Each turn makes the number smaller.
unfoldable pub digits_before : ℕ → ℕ → List ℕ → List ℕ
digits_before zero n digits = digits
digits_before (suc fuel) n digits =
    let longer = digits_before fuel (n / 10) ((b'0' + n % 10) ∷ digits) in
    if ltb n 10 then (b'0' + n) ∷ digits else longer

unfoldable pub decimal : ℕ → List ℕ
unfolding digits_before
decimal n = digits_before (suc n) n []

-- A hasher holds the bytes that it was given.
pub record ContentHasher : Type 0 where
  pub algorithm : HashKind
  pub content : List ℕ

-- `ContentHasher::new`.
abbrev pub new_hasher : HashKind → ContentHasher
new_hasher kind = record { algorithm = kind; content = [] }

abbrev pub updated : List ℕ → ContentHasher → ContentHasher
updated bytes h = record h { content = h.content ++ bytes }

abbrev checked : Option (List ℕ) → Result Oid
checked none =
    err (new_text hash_mismatch "SHA-1 collision attack detected while hashing object data")
checked (some digest) = new_oid sha1 digest

-- The hasher of `object_id`, with all that it is given.
unfoldable pub filled : HashKind → ObjectKind → List ℕ → ContentHasher
unfolding kind_text decimal
filled hash_kind object_kind payload =
    let named = updated (b' ' ∷ []) (updated (kind_text object_kind) (new_hasher hash_kind)) in
    let sized = updated (0 ∷ []) (updated (decimal (length payload)) named) in updated payload sized

module _ (digests : Digests) where
  unfoldable pub finalize : ContentHasher → Result Oid
  unfolding new_oid
  finalize h = elim h.algorithm [
    | sha1 ↦ checked (digests.sha1_digest h.content)
    | sha256 ↦ new_oid sha256 (digests.sha256_digest h.content)
  ]

  unfoldable pub object_id : HashKind → ObjectKind → List ℕ → Result Oid
  unfolding filled finalize
  object_id hash_kind object_kind payload = finalize (filled hash_kind object_kind payload)

  unfoldable pub verify : Oid → ObjectKind → List ℕ → Result (Unit {0})
  unfolding object_id
  verify oid kind payload = object_id oid.kind kind payload >>= λ actual.
      ensure (oid_eq actual oid) (
        new hash_mismatch (
          text "object hash mismatch: expected "
          ∷ hex_of oid
          ∷ text ", computed "
          ∷ hex_of actual
          ∷ []))
