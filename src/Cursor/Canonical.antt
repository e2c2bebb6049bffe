-- ===== src/Cursor/Canonical.antt =====
-- Which bytes the decoder of crates/gitility-core/src/cursor.rs accepts, and as which cursor.
use mathlib.Core.List.{append-nil, head?}
use mathlib.Core.Path.{subst}
use gitility.Base.{
  ℕ, ◌-◌, ◌≤◌, ◌<◌, ◌^◌, ◌≡◌, refl, sym, ◌∙◌, true, String, List, [], ◌∷◌, ◌++◌, arith, length,
  drop, AreBytes, All-take, All-drop, take-append-drop, to_le_bytes, to_le_bytes-from_le_bytes,
  bytes_eq-eq, ==_iff, ◌==◌, bytes_eq,
}
use gitility.Oid.{digest_len}
use gitility.Error.{ok, Ensures-ok, >>=-eq-ok, ensure-eq-ok, ok-injective}
use gitility.Cursor.{
  Cursor, CursorExpected, encode, encode_body, decode, checked_body, check_identity, read_fields,
  crc32, hash_tag, len_u16, max_cursor_bytes, version, field, number_field, tag_field, is_byte,
  read_le,
}
use gitility.Cursor.Slices.{
  At, Splits, field-Splits, Counts, number_field-Counts, Tagged, tag_field-Tagged,
}
use gitility.Cursor.Roundtrip.{IsValid, identity}

record Checked (bytes body : List ℕ) : Type 0 where
  split : body ++ to_le_bytes 4 (crc32 body) ≡ bytes
  size : length bytes ≤ max_cursor_bytes
  are_bytes : AreBytes body

module _ (bytes : List ℕ) (b : AreBytes bytes) where
  checked_body-Checked : {body : List ℕ} → checked_body bytes ≡ ok body → Checked bytes body
  unfolding checked_body read_le
  checked_body-Checked h =
      let n = length bytes - 4 in
      record {
        split = ground (
          arith,
          to_le_bytes-from_le_bytes 4 (drop n bytes),
          All-drop (λ x. x < 256) n bytes b,
          take-append-drop n bytes,
        );
        size = ground arith;
        are_bytes = ground (arith, All-take (λ x. x < 256) n bytes b);
      }

-- What the identity checks have read, up to an offset.
record Identified (body : List ℕ) (x : CursorExpected) (r : List ℕ × ℕ) : Type 0 where
  prefix :
      version
        ∷ hash_tag x.hash_kind
        ∷ (x.snapshot_digest
            ++ (x.operation_tag ∷ (to_le_bytes 8 x.option_fingerprint ++ drop r.1 body)))
      ≡ body
  digest : r.0 ≡ x.snapshot_digest
  len : length x.snapshot_digest ≡ digest_len x.hash_kind
  fingerprint : x.option_fingerprint < 256 ^ 8
  next : At body r.1 (drop r.1 body)

record Headed (body : List ℕ) (tag : ℕ) : Type 0 where
  header : version ∷ tag ∷ drop 2 body ≡ body
  next : At body 2 (drop 2 body)

Headed-of :
    (body : List ℕ) (tag : ℕ)
    → is_byte (head? body) version ≡ true
    → is_byte (head? (drop 1 body)) tag ≡ true
    → Headed body tag
Headed-of [] tag v t = absurd (cc)
Headed-of (x ∷ []) tag v t = absurd (cc)
Headed-of (x ∷ y ∷ rest) tag v t = record {
  header = ground arith;
  next = record { left = refl; total = omega arith };
}

assembled :
    (body : List ℕ) (x : CursorExpected) (d : List ℕ × ℕ) (op fp : ℕ × ℕ)
    → Headed body (hash_tag x.hash_kind)
    → length x.snapshot_digest ≡ digest_len x.hash_kind
    → Splits body (drop 2 body) d
    → d.0 ≡ x.snapshot_digest
    → Tagged body (drop d.1 body) op
    → op.0 ≡ x.operation_tag
    → Counts body (drop op.1 body) 8 fp
    → fp.0 ≡ x.option_fingerprint
    → Identified body x (d.0, fp.1)
assembled body x d op fp h l s ds t ts c cs = record {
  prefix = rw (← ds, ← ts, ← cs, c.slice, t.slice, s.slice) h.header;
  digest = ds;
  len = l;
  fingerprint = rw (← cs) c.small;
  next = c.next;
}

module _ (body : List ℕ) (x : CursorExpected) (b : AreBytes body) where
  check_identity-Identified : {r : List ℕ × ℕ} → check_identity body x ≡ ok r → Identified body x r
  unfolding check_identity
  check_identity-Identified h =
      let (v, h₁) = ensure-eq-ok (is_byte (head? body) version) _ _ h in
      let (t, h₂) = ensure-eq-ok (is_byte (head? (drop 1 body)) (hash_tag x.hash_kind)) _ _ h₁ in
      let (l, h₃) = ensure-eq-ok (length x.snapshot_digest == digest_len x.hash_kind) _ _ h₂ in
      let (d, e₁, h₄) = >>=-eq-ok (field body 2 (digest_len x.hash_kind) cut) _ h₃ in
      let (de, h₅) = ensure-eq-ok (bytes_eq d.0 x.snapshot_digest) _ _ h₄ in
      let (op, e₂, h₆) = >>=-eq-ok (tag_field body d.1) _ h₅ in
      let (oe, h₇) = ensure-eq-ok (op.0 == x.operation_tag) _ _ h₆ in
      let (fp, e₃, h₈) = >>=-eq-ok (number_field body op.1 8 cut_print) _ h₇ in
      let (fe, h₉) = ensure-eq-ok (fp.0 == x.option_fingerprint) _ _ h₈ in
      let head = Headed-of body (hash_tag x.hash_kind) v t in
      let s =
        Ensures-ok _ (field body 2 (digest_len x.hash_kind) cut) (field-Splits 2 _ cut head.next)
          e₁ in
      let g = Ensures-ok _ (tag_field body d.1) (tag_field-Tagged d.1 s.0.next) e₂ in
      let c =
        Ensures-ok _ (number_field body op.1 8 cut_print)
          (number_field-Counts op.1 8 cut_print g.next b) e₃ in
      subst (Identified body x) (ok-injective h₉) (
        assembled body x d op fp head ((==_iff _ _).0 l) s.0 (bytes_eq-eq _ _ de) g
          ((==_iff _ _).0 oe) c ((==_iff _ _).0 fe))
    where
      cut : String
      cut = "snapshot digest check failed: cursor is truncated"

      cut_print : String
      cut_print = "option fingerprint check failed: cursor is truncated"

record Fielded (body : List ℕ) (offset : ℕ) (r : List ℕ × List ℕ) : Type 0 where
  rest :
      to_le_bytes 2 (length r.0) ++ (r.0 ++ (to_le_bytes 2 (length r.1) ++ r.1)) ≡ drop offset body
  generation : length r.0 < 65536
  position : length r.1 < 65536

nothing_left : {body rest : List ℕ} (o : ℕ) → o ≡ length body → At body o rest → rest ≡ []
nothing_left {rest = []} o e a = refl
nothing_left {rest = x ∷ rest} o e a = absurd (omega (arith, a.total))

fielded :
    (body : List ℕ) (offset : ℕ) (g p : ℕ × ℕ) (gen pos : List ℕ × ℕ)
    → Counts body (drop offset body) 2 g
    → Splits body (drop g.1 body) gen
    → length gen.0 ≡ g.0
    → Counts body (drop gen.1 body) 2 p
    → Splits body (drop p.1 body) pos
    → length pos.0 ≡ p.0
    → pos.1 ≡ length body
    → Fielded body offset (gen.0, pos.0)
fielded body offset g p gen pos cg sg lg cp sp lp e =
    let done : pos.0 ≡ drop p.1 body =
      sym (append-nil pos.0) ∙ rw (← nothing_left pos.1 e sp.next) sp.slice in
    record {
      rest = rw (lg, lp, done, cp.slice, sg.slice) cg.slice;
      generation = omega (arith, cg.small);
      position = omega (arith, cp.small);
    }

module _ (body : List ℕ) (offset : ℕ) (a : At body offset (drop offset body))
    (b : AreBytes body) where
  read_fields-Fielded :
      {r : List ℕ × List ℕ} → read_fields body offset ≡ ok r → Fielded body offset r
  unfolding read_fields
  read_fields-Fielded h =
      let (g, e₁, h₁) = >>=-eq-ok (number_field body offset 2 gen_cut) _ h in
      let (gen, e₂, h₂) = >>=-eq-ok (field body g.1 g.0 gen_cut) _ h₁ in
      let (p, e₃, h₃) = >>=-eq-ok (number_field body gen.1 2 pos_cut) _ h₂ in
      let (pos, e₄, h₄) = >>=-eq-ok (field body p.1 p.0 pos_cut) _ h₃ in
      let (e, h₅) = ensure-eq-ok (pos.1 == length body) _ _ h₄ in
      let cg =
        Ensures-ok _ (number_field body offset 2 gen_cut) (number_field-Counts offset 2 gen_cut a b)
          e₁ in
      let sg =
        Ensures-ok _ (field body g.1 g.0 gen_cut) (field-Splits g.1 g.0 gen_cut cg.next) e₂ in
      let cp =
        Ensures-ok _ (number_field body gen.1 2 pos_cut)
          (number_field-Counts gen.1 2 pos_cut sg.0.next b) e₃ in
      let sp =
        Ensures-ok _ (field body p.1 p.0 pos_cut) (field-Splits p.1 p.0 pos_cut cp.next) e₄ in
      subst (Fielded body offset) (ok-injective h₅)
        (fielded body offset g p gen pos cg sg.0 sg.1 cp sp.0 sp.1 ((==_iff _ _).0 e))
    where
      gen_cut : String
      gen_cut = "generation length check failed"

      pos_cut : String
      pos_cut = "position length check failed"

len_u16_lem : (n : ℕ) → n < 65536 → len_u16 n ≡ n
len_u16_lem n h = ground arith

-- The cursor that `decode` builds of its parts.
abbrev built : CursorExpected → List ℕ → List ℕ × List ℕ → Cursor
built x digest f = record {
  hash_kind = x.hash_kind;
  snapshot_digest = digest;
  operation_tag = x.operation_tag;
  option_fingerprint = x.option_fingerprint;
  generation = f.0;
  position = f.1;
}

-- What a successful decode says of the bytes and of the cursor.
pub record Accepted (bytes : List ℕ) (x : CursorExpected) (c : Cursor) : Type 0 where
  pub canonical : encode c ≡ bytes
  pub identified : identity c ≡ x
  pub valid : IsValid c

built-encode_body :
    (body : List ℕ) (x : CursorExpected) (d : List ℕ × ℕ) (f : List ℕ × List ℕ)
    → Identified body x d
    → Fielded body d.1 f
    → encode_body (built x d.0 f) ≡ body
unfolding encode_body
built-encode_body body x d f i r =
    rw
      (i.digest, len_u16_lem (length f.0) r.generation, len_u16_lem (length f.1) r.position, r.rest)
      i.prefix

built-Accepted :
    (bytes body : List ℕ) (x : CursorExpected) (d : List ℕ × ℕ) (f : List ℕ × List ℕ)
    → Checked bytes body
    → Identified body x d
    → Fielded body d.1 f
    → Accepted bytes x (built x d.0 f)
unfolding encode
built-Accepted bytes body x d f c i r =
    let e = built-encode_body body x d f i r in
    record {
      canonical = rw e c.split;
      identified = cc (i.digest);
      valid = record {
        digest = rw i.digest i.len;
        fingerprint = i.fingerprint;
        size = rw (e, c.split) c.size;
      };
    }

-- Bytes that decode under an expected identity are exactly the encoding of the cursor that comes
-- out; that cursor carries the expected identity, its digest has the length of its hash kind, its
-- fingerprint fits in 64 bits and its encoding has at most 4096 bytes.
pub decode-Accepted :
    (bytes : List ℕ) (x : CursorExpected) {c : Cursor}
    → AreBytes bytes
    → decode bytes x ≡ ok c
    → Accepted bytes x c
unfolding decode
decode-Accepted bytes x b h =
    let (body, e₁, h₁) = >>=-eq-ok (checked_body bytes) _ h in
    let (d, e₂, h₂) = >>=-eq-ok (check_identity body x) _ h₁ in
    let (f, e₃, h₃) = >>=-eq-ok (read_fields body d.1) _ h₂ in
    let c = checked_body-Checked bytes b e₁ in
    let i = check_identity-Identified body x c.are_bytes e₂ in
    let r = read_fields-Fielded body d.1 i.next c.are_bytes e₃ in
    subst (Accepted bytes x) (ok-injective h₃) (built-Accepted bytes body x d f c i r)
