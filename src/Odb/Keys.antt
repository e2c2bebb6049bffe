-- ===== src/Odb/Keys.antt =====
-- The keys of the caches in crates/gitility-core/src/layered_odb.rs and commit_graph.rs.
use mathlib.Core.Path.{subst}
use gitility.Base.{◌≡◌, true, ◌&&◌, arith}
use gitility.Oid.{HashKind, kind_eq, Oid, oid_eq}
use gitility.Oid.Equal.{kind_eq_refl, kind_eq-eq, oid_eq_refl, oid_eq-eq}
use gitility.Lru.{Key}

-- The source's key repeats the kind of the object ID.
instance pub cache_key : Key (HashKind × Oid)
cache_key = record {
  same = λ a b. kind_eq a.0 b.0 && oid_eq a.1 b.1;
  same_iff = λ a b. (
    λ h. parts a b h,
    λ h.
        subst (λ c. (kind_eq a.0 c.0 && oid_eq a.1 c.1) ≡ true) h
          (rw (kind_eq_refl a.0, oid_eq_refl a.1)),
  );
}
  where
    parts : (a b : HashKind × Oid) → (kind_eq a.0 b.0 && oid_eq a.1 b.1) ≡ true → a ≡ b
    parts a b h =
        let kinds : a.0 ≡ b.0 = kind_eq-eq a.0 b.0 (ground (arith, h)) in
        let oids : a.1 ≡ b.1 = oid_eq-eq a.1 b.1 (ground (arith, h)) in cc

-- Object IDs as keys.
instance pub oid_key : Key Oid
oid_key = record {
  same = oid_eq;
  same_iff = λ a b. (oid_eq-eq a b, λ h. subst (λ c. oid_eq a c ≡ true) h (oid_eq_refl a));
}
