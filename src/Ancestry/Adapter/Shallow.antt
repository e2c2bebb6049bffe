-- ===== src/Ancestry/Adapter/Shallow.antt =====
-- What a walk sees of an object at a shallow boundary, described beside `GixFind::object` and
-- `without_parent_headers` of crates/gitility-core/src/commit_graph.rs: the lines of a commit up to
-- the first blank one are its headers.
use mathlib.Core.List.{append_assoc}
use gitility.Base.{
  ℕ, ◌≡◌, ◌≢◌, refl, ap, sym, ◌∙◌, Bool, true, false, ◌⊎◌, inl, inr, Bool-cases, List, [], ◌∷◌,
  ◌++◌, Option, none, some, All, arith, if◌then◌else◌, starts_with, bytes_eq, bytes_eq-eq,
  bytes_eq_refl,
}
use gitility.Oid.{Oid, ObjectKind, commit, object_kind_eq}
use gitility.Budget.Suspend.{contains}
use gitility.Odb.{Object}
use gitility.File.Lines.{lines_of, joined}
use gitility.Ancestry.{is_shallow}
use gitility.Ancestry.Adapter.{seen, without_parent_headers, unparented}

-- A header of a parent begins with `parent` and a blank.
abbrev pub is_parent : List ℕ → Bool
is_parent line = starts_with line (b'p' ∷ b'a' ∷ b'r' ∷ b'e' ∷ b'n' ∷ b't' ∷ b' ' ∷ [])

abbrev pub blank_line : List ℕ
blank_line = 10 ∷ []

unfoldable pub other_headers : List (List ℕ) → List (List ℕ)
other_headers [] = []
other_headers (line ∷ lines) =
    let rest = other_headers lines in if is_parent line then rest else line ∷ rest

-- A message, with the blank line in front of it, or none at all.
abbrev pub IsBody : List (List ℕ) → Type 0
IsBody [] = Unit
IsBody (line ∷ lines) = line ≡ blank_line

-- The headers of `payload`, its body, and what `out` has of them.
pub record Unparented (payload out : List ℕ) : Type 0 where
  pub headers : List (List ℕ)
  pub body : List (List ℕ)
  pub split : lines_of payload ≡ headers ++ body
  pub none_blank : All (λ line. line ≢ blank_line) headers
  pub is_body : IsBody body
  pub keeps : out ≡ joined (other_headers headers) ++ joined body

abbrev pub IsRoot : Option (List Oid) → Oid → Type 0
IsRoot none oid = ⊥
IsRoot (some list) oid = contains oid list ≡ true

-- A commit that is a root of the shallow history.
abbrev pub IsBoundary : Option (List Oid) → Oid → Object → Type 0
IsBoundary roots oid o = (o.kind ≡ commit) × IsRoot roots oid

-- The object as a walk sees it: without the headers of parents at the boundary, itself elsewhere.
abbrev pub ShownAs : Option (List Oid) → Oid → Object → Object → Type 0
ShownAs roots oid o shown =
    (IsBoundary roots oid o × (shown.kind ≡ commit) × Unparented o.payload shown.payload)
    ⊎ ((IsBoundary roots oid o → ⊥) × (shown ≡ o))

record Split (lines : List (List ℕ)) (out : List ℕ) : Type 0 where
  headers : List (List ℕ)
  body : List (List ℕ)
  split : lines ≡ headers ++ body
  none_blank : All (λ line. line ≢ blank_line) headers
  is_body : IsBody body
  keeps : out ≡ joined (other_headers headers) ++ joined body

unparented_body : (lines : List (List ℕ)) → unparented false lines ≡ joined lines
unfolding unparented joined
unparented_body [] = refl
unparented_body (line ∷ lines) = ap (λ t. line ++ t) (unparented_body lines)

unparented-Split : (lines : List (List ℕ)) → Split lines (unparented true lines)
unfolding unparented joined other_headers
unparented-Split [] = record {
  headers = [];
  body = [];
  split = refl;
  none_blank = tt;
  is_body = tt;
  keeps = refl;
}
unparented-Split (line ∷ lines) = elim (Bool-cases (bytes_eq line blank_line)) [
  | inl e ↦ record {
    headers = [];
    body = line ∷ lines;
    split = refl;
    none_blank = tt;
    is_body = bytes_eq-eq line blank_line e;
    keeps = rw e (ap (λ t. line ++ t) (unparented_body lines));
  }
  | inr e ↦
      let rest = unparented-Split lines in
      record {
        headers = line ∷ rest.headers;
        body = rest.body;
        split = ap (λ t. line ∷ t) rest.split;
        none_blank = (λ same. ground (arith, bytes_eq_refl line), rest.none_blank);
        is_body = rest.is_body;
        keeps = rw e (elim (Bool-cases (is_parent line)) [
          | inl p ↦ rw p rest.keeps
          | inr p ↦ rw p (ap (λ t. line ++ t) rest.keeps ∙ sym (append_assoc line _ _))
        ]);
      }
]

without_parent_headers-Unparented :
    (payload : List ℕ) → Unparented payload (without_parent_headers payload)
unfolding without_parent_headers
without_parent_headers-Unparented payload =
    let s = unparented-Split (lines_of payload) in
    record {
      headers = s.headers;
      body = s.body;
      split = s.split;
      none_blank = s.none_blank;
      is_body = s.is_body;
      keeps = s.keeps;
    }

object_kind_eq-eq : (a b : ObjectKind) → object_kind_eq a b ≡ true → a ≡ b
object_kind_eq-eq a b h = ground arith

not_root :
    (roots : Option (List Oid)) (oid : Oid) → is_shallow roots oid ≡ false → IsRoot roots oid → ⊥
not_root none oid h r = r
not_root (some list) oid h r = cc

root : (roots : Option (List Oid)) (oid : Oid) → is_shallow roots oid ≡ true → IsRoot roots oid
root none oid h = absurd (cc)
root (some list) oid h = h

pub seen-ShownAs :
    (roots : Option (List Oid)) (oid : Oid) (o : Object) → ShownAs roots oid o (seen roots oid o)
unfolding seen
seen-ShownAs roots oid o = elim (Bool-cases (object_kind_eq o.kind commit)) [
  | inl k ↦ elim (Bool-cases (is_shallow roots oid)) [
    | inl s ↦
        let is = object_kind_eq-eq o.kind commit k in
        rw (k, s) (inl ((is, root roots oid s), is, without_parent_headers-Unparented o.payload))
    | inr s ↦ rw (k, s) (inr (λ b. not_root roots oid s b.1, refl))
  ]
  | inr k ↦ rw k (inr (λ b. ground (arith, b.0), refl))
]
