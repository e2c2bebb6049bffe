-- ===== src/Oid/Equal.antt =====
-- The derived `PartialEq` of the identity types of crates/gitility-core/src/object.rs.
use gitility.Base.{◌≡◌, refl, true, bytes_eq_refl, bytes_eq-eq, arith}
use gitility.Oid.{HashKind, sha1, sha256, kind_eq, Oid, oid_eq}

pub kind_eq_refl : (k : HashKind) → kind_eq k k ≡ true
kind_eq_refl sha1 = refl
kind_eq_refl sha256 = refl

pub kind_eq-eq : (a b : HashKind) → kind_eq a b ≡ true → a ≡ b
kind_eq-eq sha1 sha1 h = refl
kind_eq-eq sha1 sha256 h = absurd (cc)
kind_eq-eq sha256 sha1 h = absurd (cc)
kind_eq-eq sha256 sha256 h = refl

pub oid_eq_refl : (oid : Oid) → oid_eq oid oid ≡ true
oid_eq_refl oid = rw (kind_eq_refl oid.kind, bytes_eq_refl oid.bytes)

pub oid_eq-eq : (a b : Oid) → oid_eq a b ≡ true → a ≡ b
oid_eq-eq a b h =
    let kinds : a.kind ≡ b.kind = kind_eq-eq a.kind b.kind (ground (arith, h)) in
    let bytes : a.bytes ≡ b.bytes = bytes_eq-eq a.bytes b.bytes (ground (arith, h)) in cc
