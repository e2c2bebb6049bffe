-- ===== src/Oid.antt =====
-- The identity types of crates/gitility-core/src/object.rs. The operations of `Oid`, which can
-- fail, are in Object.
pub mod Equal
use gitility.Base.{ℕ, List, Bool, true, false, ◌&&◌, ◌==◌, bytes_eq, take}

pub data HashKind : Type 0 where
  sha1 sha256 : HashKind

-- `HashKind::digest_len`.
abbrev pub digest_len : HashKind → ℕ
digest_len sha1 = 20
digest_len sha256 = 32

-- The longest supported digest, used for inline storage.
abbrev pub max_digest_len : ℕ
max_digest_len = 32

-- The digest is stored inline, padded with zeros to `max_digest_len` bytes.
pub record Oid : Type 0 where
  pub kind : HashKind
  pub bytes : List ℕ

-- `Oid::as_bytes`: the digest, exactly `digest_len kind` long.
abbrev pub as_bytes : Oid → List ℕ
as_bytes oid = take (digest_len oid.kind) oid.bytes

abbrev pub kind_eq : HashKind → HashKind → Bool
kind_eq sha1 sha1 = true
kind_eq sha1 sha256 = false
kind_eq sha256 sha1 = false
kind_eq sha256 sha256 = true

-- The derived `PartialEq` of `Oid`.
abbrev pub oid_eq : Oid → Oid → Bool
oid_eq a b = kind_eq a.kind b.kind && bytes_eq a.bytes b.bytes

pub data ObjectKind : Type 0 where
  commit tree blob tag : ObjectKind

-- The derived `PartialEq` of `ObjectKind`.
abbrev rank_of : ObjectKind → ℕ
rank_of commit = 0
rank_of tree = 1
rank_of blob = 2
rank_of tag = 3

abbrev pub object_kind_eq : ObjectKind → ObjectKind → Bool
object_kind_eq a b = rank_of a == rank_of b
