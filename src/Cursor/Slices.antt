-- ===== src/Cursor/Slices.antt =====
-- The slice operations of crates/gitility-core/src/cursor.rs by offsets, against the bytes that
-- are left.
use mathlib.Core.List.{head?}
use gitility.Base.{
  ℕ, zero, suc, ◌+◌, ◌≤◌, ◌<◌, ◌^◌, ◌≡◌, refl, ap, ◌∙◌, List, [], ◌∷◌, ◌++◌, String, some, arith,
  inl, inr, Option-cases, length, take, drop, u64_mod, AreBytes, All-drop, All-left, length-append,
  length-take, length-drop, take-append, drop-append, take-append-drop, to_le_bytes, from_le_bytes,
  length-to_le_bytes, from_le_bytes-to_le_bytes, to_le_bytes-from_le_bytes, from_le_bytes-lt,
}
use gitility.Error.{◌>>=◌, ok_or, ok, Ensures, Ensures-bind, Ensures-ok}
use gitility.Cursor.{invalid, take_at, read_le, field, number_field, tag_field}

-- At an offset of the body, `rest` is what is left.
pub record At (body : List ℕ) (offset : ℕ) (rest : List ℕ) : Type 0 where
  pub left : drop offset body ≡ rest
  pub total : offset + length rest ≡ length body

pub At-length : {body rest : List ℕ} {offset : ℕ} → At body offset rest → offset ≤ length body
At-length a = omega (arith, a.total)

drop_add : (m n : ℕ) (xs : List ℕ) → drop (m + n) xs ≡ drop n (drop m xs)
drop_add zero n xs = ap (λ k. drop k xs) (omega arith)
drop_add (suc m) zero [] = let e : suc m + 0 ≡ suc m = omega arith in rw e
drop_add (suc m) (suc n) [] = let e : suc m + suc n ≡ suc (m + suc n) = omega arith in rw e
drop_add (suc m) n (x ∷ xs) =
    let e : suc m + n ≡ suc (m + n) = omega arith in rw e (drop_add m n xs)

At-next :
    {body : List ℕ} (x rest : List ℕ) (offset : ℕ)
    → At body offset (x ++ rest)
    → At body (offset + length x) rest
At-next {body} x rest offset a = record {
  left =
      drop_add offset (length x) body
      ∙ (ap (drop (length x)) a.left ∙ drop-append (length x) x rest refl);
  total = omega (arith, a.total, length-append x rest);
}

pub At-behind :
    {body : List ℕ} (x rest : List ℕ) (offset len : ℕ)
    → length x ≡ len
    → At body offset (x ++ rest)
    → At body (offset + len) rest
At-behind x rest offset len e a = rw (← e) (At-next x rest offset a)

-- A slice that is there is read, and the offset moves behind it.
pub take_at-At :
    {body : List ℕ} (x rest : List ℕ) (offset : ℕ)
    → At body offset (x ++ rest)
    → length body < u64_mod
    → take_at body offset (length x) ≡ some (x, offset + length x)
unfolding take_at
take_at-At {body} x rest offset a h =
    rw (a.left, take-append (length x) x rest refl) (ground (arith, a.total, length-append x rest))

-- Conversely, a slice that was read is what was left, up to the new offset.
pub record Splits (body rest : List ℕ) (r : List ℕ × ℕ) : Type 0 where
  pub slice : r.0 ++ drop r.1 body ≡ rest
  pub next : At body r.1 (drop r.1 body)

taken : List ℕ → ℕ → ℕ → List ℕ × ℕ
taken body offset len = (take len (drop offset body), offset + len)

take_at-taken :
    (body : List ℕ) (offset len : ℕ) {r : List ℕ × ℕ}
    → take_at body offset len ≡ some r
    → (offset + len ≤ length body) × (taken body offset len ≡ r)
unfolding take_at taken
take_at-taken body offset len h = ground arith

taken-Splits :
    {body rest : List ℕ} (offset len : ℕ)
    → At body offset rest
    → offset + len ≤ length body
    → Splits body rest (taken body offset len) × (length (taken body offset len).0 ≡ len)
unfolding taken
taken-Splits {body} offset len a h = (
  record {
    slice = rw (drop_add offset len body, take-append-drop len (drop offset body)) a.left;
    next = record { left = refl; total = omega (arith, length-drop (offset + len) body) };
  },
  omega (arith, length-take len (drop offset body), length-drop offset body),
)

-- What a slice operation that succeeds has read.
pub field-Splits :
    {body rest : List ℕ} (offset len : ℕ) (message : String)
    → At body offset rest
    → Ensures (λ r. Splits body rest r × (length r.0 ≡ len)) (field body offset len message)
unfolding field
field-Splits {body} offset len message a = elim (Option-cases (take_at body offset len)) [
  | inl e ↦ rw e tt
  | inr (r, e) ↦
      let (h, t) = take_at-taken body offset len e in rw (e, ← t) (taken-Splits offset len a h)
]

pub field-At :
    {body : List ℕ} (x rest : List ℕ) (offset len : ℕ) (message : String)
    → length x ≡ len
    → At body offset (x ++ rest)
    → length body < u64_mod
    → field body offset len message ≡ ok (x, offset + len)
unfolding field
field-At x rest offset len message e a h = rw (← e, take_at-At x rest offset a h)

pub tag_field-At :
    {body : List ℕ} (tag : ℕ) (rest : List ℕ) (offset : ℕ)
    → At body offset (tag ∷ rest)
    → length body < u64_mod
    → tag_field body offset ≡ ok (tag, offset + 1)
unfolding tag_field
tag_field-At tag rest offset a h = rw (field-At (tag ∷ []) rest offset 1 _ refl a h)

pub number_field-At :
    {body : List ℕ} (width n : ℕ) (rest : List ℕ) (offset : ℕ) (message : String)
    → n < 256 ^ width
    → At body offset (to_le_bytes width n ++ rest)
    → length body < u64_mod
    → number_field body offset width message ≡ ok (n, offset + width)
unfolding number_field read_le
number_field-At width n rest offset message b a h =
    rw
      (
        field-At (to_le_bytes width n) rest offset width message (length-to_le_bytes width n) a h,
        length-to_le_bytes width n,
        from_le_bytes-to_le_bytes width n b,
      )
      (ground arith)

-- A number that was read stands at the front of what was left.
pub record Counts (body rest : List ℕ) (width : ℕ) (r : ℕ × ℕ) : Type 0 where
  pub slice : to_le_bytes width r.0 ++ drop r.1 body ≡ rest
  pub next : At body r.1 (drop r.1 body)
  pub small : r.0 < 256 ^ width

pub read_le_lem :
    (width : ℕ) (bytes : List ℕ)
    → length bytes ≡ width
    → read_le width bytes ≡ some (from_le_bytes bytes)
unfolding read_le
read_le_lem width bytes e = ground arith

Counts-of :
    {body rest : List ℕ} (width : ℕ) (message : String) (r : List ℕ × ℕ)
    → AreBytes r.0
    → Splits body rest r
    → length r.0 ≡ width
    → Ensures
        (Counts body rest width)
        (ok_or (read_le width r.0) (invalid message) >>= λ n. ok (n, r.1))
Counts-of width message r b s e = rw (read_le_lem width r.0 e) (record {
  slice = rw (to_le_bytes-from_le_bytes width r.0 e b) s.slice;
  next = s.next;
  small = rw e at (from_le_bytes-lt r.0 b);
})

front_bytes :
    {body rest : List ℕ} {offset : ℕ} {r : List ℕ × ℕ}
    → At body offset rest
    → AreBytes body
    → Splits body rest r
    → AreBytes r.0
front_bytes {body} {rest} {offset} {r} a b s =
    All-left (λ x. x < 256) r.0 (drop r.1 body)
      (rw (s.slice, ← a.left) (All-drop (λ x. x < 256) offset body b))

pub number_field-Counts :
    {body rest : List ℕ} (offset width : ℕ) (message : String)
    → At body offset rest
    → AreBytes body
    → Ensures (Counts body rest width) (number_field body offset width message)
unfolding number_field
number_field-Counts {body} {rest} offset width message a b =
    Ensures-bind (Counts body rest width) (field body offset width message) _ λ r e.
      let (s, n) =
        Ensures-ok _ (field body offset width message) (field-Splits offset width message a) e in
      Counts-of width message r (front_bytes a b s) s n

pub record Tagged (body rest : List ℕ) (r : ℕ × ℕ) : Type 0 where
  pub slice : r.0 ∷ drop r.1 body ≡ rest
  pub next : At body r.1 (drop r.1 body)

Tagged-of :
    {body rest : List ℕ} (r : List ℕ × ℕ)
    → Splits body rest r
    → length r.0 ≡ 1
    → Ensures (Tagged body rest) (
        ok_or (head? r.0) (invalid "operation tag check failed: cursor is truncated") >>= λ tag.
        ok (tag, r.1))
Tagged-of ([], o) s e = absurd (omega arith)
Tagged-of (t ∷ [], o) s e = record { slice = s.slice; next = s.next }
Tagged-of (t ∷ u ∷ x, o) s e = absurd (omega arith)

pub tag_field-Tagged :
    {body rest : List ℕ} (offset : ℕ)
    → At body offset rest
    → Ensures (Tagged body rest) (tag_field body offset)
unfolding tag_field
tag_field-Tagged {body} {rest} offset a =
    let message : String = "operation tag check failed: cursor is truncated" in
    Ensures-bind (Tagged body rest) (field body offset 1 message) _ λ r e.
      let (s, n) = Ensures-ok _ (field body offset 1 message) (field-Splits offset 1 message a) e in
      Tagged-of r s n
