-- ===== src/Decode.antt =====
-- crates/gitility-core/src/decode.rs: commits, tags and identities. The parser of gix_object, which
-- splits a payload into its raw fields, is a parameter. Times are 64-bit integers with a sign.
pub mod Identities
mod Tests
use gitility.Base.{
  ℕ, zero, suc, ◌+◌, ◌-◌, ◌*◌, ◌^◌, Bool, ◌&&◌, ◌||◌, not, ltb, leb, ◌==◌, if◌then◌else◌, List, [],
  ◌∷◌, ◌++◌, Option, none, some, String, length, take, drop, bytes_eq, position, rposition,
  strip_prefix, starts_with, any,
}
use gitility.Oid.{HashKind, Oid, ObjectKind, digest_len, kind_eq}
use gitility.Error.{Error, Result, ok, err, ◌>>=◌, ◌>>◌, ensure, ok_or, new, text, malformed_object}
use gitility.Object.{parse_hex}

-- The library's integers, over the native numbers.
pub data ℤ : Type 0 where
  pos : ℕ → ℤ
  negsuc : ℕ → ℤ

pub record Identity : Type 0 where
  pub name : List ℕ
  pub email : List ℕ
  pub time : ℤ
  pub tz : List ℕ

pub record Commit : Type 0 where
  pub tree_oid : Oid
  pub parents : List Oid
  pub author : Identity
  pub committer : Identity
  pub message : List ℕ
  pub signature_headers : List (List ℕ × List ℕ)
  pub extra_headers : List (List ℕ × List ℕ)

pub record Tag : Type 0 where
  pub target_oid : Oid
  pub target_kind : ObjectKind
  pub tagger : Option Identity
  pub name : List ℕ
  pub message : List ℕ

-- What the parser gives for a commit and for a tag.
pub record CommitRef : Type 0 where
  pub tree : List ℕ
  pub parents : List (List ℕ)
  pub author : List ℕ
  pub committer : List ℕ
  pub encoding : Option (List ℕ)
  pub headers : List (List ℕ × List ℕ)
  pub message : List ℕ

pub record TagRef : Type 0 where
  pub target : List ℕ
  pub target_kind : ObjectKind
  pub tagger : Option (List ℕ)
  pub name : List ℕ

pub record Parser : Type 0 where
  pub commit_ref : HashKind → List ℕ → Option CommitRef
  pub tag_ref : HashKind → List ℕ → Option TagRef

abbrev pub malformed : String → Error
malformed message = new malformed_object (text message ∷ [])

-- `u8::is_ascii_whitespace`.
abbrev pub is_whitespace : ℕ → Bool
is_whitespace c = c == b' ' || c == 9 || c == 10 || c == 12 || c == 13

unfoldable pub digits_value : List ℕ → ℕ → Option ℕ
digits_value [] n = some n
digits_value (c ∷ digits) n =
    let rest = digits_value digits (10 * n + (c - b'0')) in
    if leb b'0' c && leb c b'9' then rest else none

abbrev pub number_of : List ℕ → Option ℕ
number_of [] = none
number_of (c ∷ digits) = digits_value (c ∷ digits) 0

abbrev pub positive : Option ℕ → Option ℤ
positive none = none
positive (some n) = if ltb n (2 ^ 63) then some (pos n) else none

abbrev pub negative : Option ℕ → Option ℤ
negative none = none
negative (some zero) = some (pos 0)
negative (some (suc n)) = if ltb n (2 ^ 63) then some (negsuc n) else none

-- `str::parse::<i64>`: digits behind at most one sign, in range.
unfoldable pub parse_i64 : List ℕ → Option ℤ
unfolding digits_value
parse_i64 [] = none
parse_i64 (c ∷ rest) =
    if c == b'-'
    then negative (number_of rest)
    else if c == b'+'
    then positive (number_of rest)
    else positive (number_of (c ∷ rest))

-- The end of a name: behind its last byte that is no whitespace.
unfoldable pub name_end : List ℕ → ℕ
unfolding rposition
name_end raw = elim (rposition (λ c. not (is_whitespace c)) raw) [ none ↦ 0 | some i ↦ suc i ]

-- The timestamp and the timezone behind the email.
unfoldable pub decode_time : List ℕ → Result (ℤ × List ℕ)
unfolding strip_prefix position any parse_i64
decode_time rest = do
  suffix ← ok_or (strip_prefix rest (b' ' ∷ [])) (malformed "identity is missing its timestamp")
  separator ←
      ok_or (position (λ c. c == b' ') suffix) (malformed "identity is missing its timezone")
  let time_bytes = take separator suffix
  let tz = drop (separator + 1) suffix
  ensure
      (not (
        length time_bytes == 0
        || length tz == 0
        || any (λ c. c == b' ') tz
        || any (λ c. c == 9) tz))
      (malformed "identity timestamp or timezone is malformed")
  time ← ok_or (parse_i64 time_bytes) (malformed "identity timestamp is malformed")
  ok (time, tz)

unfoldable pub decode_identity : List ℕ → Result Identity
unfolding position name_end decode_time
decode_identity raw = do
  left ←
      ok_or (position (λ c. c == b'<') raw)
        (malformed "identity is missing an opening angle bracket")
  let behind = drop (left + 1) raw
  offset ←
      ok_or (position (λ c. c == b'>') behind)
        (malformed "identity is missing a closing angle bracket")
  times ← decode_time (drop (offset + 1) behind)
  ok (record {
    name = take (name_end (take left raw)) raw;
    email = take offset behind;
    time = times.0;
    tz = times.1;
  })

abbrev field_error : String → String → Error
field_error field problem = new malformed_object (text field ∷ text problem ∷ [])

abbrev or_malformed : {A : Type 0} → Error → Result A → Result A
or_malformed e (ok a) = ok a
or_malformed e (err _) = err e

-- A text that is no UTF-8 has no digits either, so that both fail alike.
unfoldable pub parse_embedded_oid : List ℕ → HashKind → String → Result Oid
unfolding parse_hex
parse_embedded_oid raw kind field = do
  ensure (length raw == digest_len kind * 2) (field_error field " object ID is malformed")
  oid ← or_malformed (field_error field " object ID is malformed") (parse_hex raw)
  ensure (kind_eq oid.kind kind) (field_error field " object ID uses the wrong hash algorithm")
  ok oid

unfoldable pub is_signature_header : List ℕ → Bool
unfolding starts_with
is_signature_header name =
    let gpgsig = b'g' ∷ b'p' ∷ b'g' ∷ b's' ∷ b'i' ∷ b'g' ∷ [] in
    bytes_eq name gpgsig || starts_with name (gpgsig ++ (b'-' ∷ []))

-- The headers that hold signatures, and the others.
unfoldable pub split_headers :
    List (List ℕ × List ℕ) → List (List ℕ × List ℕ) × List (List ℕ × List ℕ)
unfolding is_signature_header
split_headers [] = ([], [])
split_headers ((name, value) ∷ headers) =
    let (signatures, extra) = split_headers headers in
    if is_signature_header name
    then ((name, value) ∷ signatures, extra)
    else (signatures, (name, value) ∷ extra)

abbrev encoding_header : Option (List ℕ) → List (List ℕ × List ℕ)
encoding_header none = []
encoding_header (some encoding) =
    (b'e' ∷ b'n' ∷ b'c' ∷ b'o' ∷ b'd' ∷ b'i' ∷ b'n' ∷ b'g' ∷ [], encoding) ∷ []

unfoldable pub parse_parents : HashKind → List (List ℕ) → Result (List Oid)
unfolding parse_embedded_oid
parse_parents kind [] = ok []
parse_parents kind (raw ∷ parents) =
    let rest = parse_parents kind parents in
    parse_embedded_oid raw kind "commit parent" >>= λ oid. rest >>= λ oids. ok (oid ∷ oids)

-- The first blank line, behind which a tag's message stands.
unfoldable pub behind_blank_line : List ℕ → List ℕ
behind_blank_line [] = []
behind_blank_line (a ∷ []) = []
behind_blank_line (a ∷ b ∷ rest) =
    let later = behind_blank_line (b ∷ rest) in if a == 10 && b == 10 then rest else later

module _ (parser : Parser) where
  unfoldable pub decode_commit : List ℕ → HashKind → Result Commit
  unfolding parse_embedded_oid parse_parents decode_identity split_headers
  decode_commit payload kind = do
    parsed ← ok_or (parser.commit_ref kind payload) (malformed "commit payload is malformed")
    tree_oid ← parse_embedded_oid parsed.tree kind "commit tree"
    parents ← parse_parents kind parsed.parents
    author ← decode_identity parsed.author
    committer ← decode_identity parsed.committer
    let headers = split_headers parsed.headers
    ok (record {
      tree_oid = tree_oid;
      parents = parents;
      author = author;
      committer = committer;
      message = parsed.message;
      signature_headers = headers.0;
      extra_headers = encoding_header parsed.encoding ++ headers.1;
    })

  abbrev decode_tagger : Option (List ℕ) → Result (Option Identity)
  decode_tagger none = ok none
  decode_tagger (some raw) = decode_identity raw >>= λ tagger. ok (some tagger)

  unfoldable pub decode_tag : List ℕ → HashKind → Result Tag
  unfolding parse_embedded_oid decode_identity behind_blank_line
  decode_tag payload kind = do
    parsed ← ok_or (parser.tag_ref kind payload) (malformed "tag payload is malformed")
    target_oid ← parse_embedded_oid parsed.target kind "tag target"
    tagger ← decode_tagger parsed.tagger
    ok (record {
      target_oid = target_oid;
      target_kind = parsed.target_kind;
      tagger = tagger;
      name = parsed.name;
      message = behind_blank_line payload;
    })
