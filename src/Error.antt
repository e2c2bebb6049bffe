-- ===== src/Error.antt =====
-- crates/gitility-core/src/error.rs: the normalized error and its builders, and Rust's `Result`
-- with this error. A message that `format!` builds is the list of its pieces.
mod Code
mod Names
mod Tests
pub use Code.*
pub use Names.{find_named-as_str}
use mathlib.Core.Path.{subst}
use gitility.Base.{ℕ, ◌≡◌, refl, String, Bool, true, false, List, [], ◌∷◌, ◌++◌, Option, none, some}
use gitility.Oid.{Oid}

pub data Piece : Type 0 where
  text : String → Piece
  number : ℕ → Piece
  hex_of : Oid → Piece

pub data ErrorOrder : Type 0 where
  topological date : ErrorOrder

pub data ErrorFile : Type 0 where
  shallow gitmodules : ErrorFile

pub data ErrorLine : Type 0 where
  count : ℕ → ErrorLine
  source : ℕ → ErrorLine

pub record Error : Type 0 where
  pub code : ErrorCode
  pub message : List Piece
  pub retryable : Bool
  pub limit : Option String
  pub layer : Option ℕ
  pub object_oid : Option Oid
  pub order : Option ErrorOrder
  pub file : Option ErrorFile
  pub reason : Option String
  pub line : Option ErrorLine

-- `Error::new`.
abbrev pub new : ErrorCode → List Piece → Error
new code message = record {
  code = code;
  message = message;
  retryable = false;
  limit = none;
  layer = none;
  object_oid = none;
  order = none;
  file = none;
  reason = none;
  line = none;
}

-- `Error::new` with a fixed text.
abbrev pub new_text : ErrorCode → String → Error
new_text code message = new code (text message ∷ [])

-- `Error::retryable`.
abbrev pub new_retryable : ErrorCode → List Piece → Error
new_retryable code message = record (new code message) { retryable = true }

abbrev pub with_limit : String → Error → Error
with_limit limit e = record e { limit = some limit }

abbrev pub with_oid : Oid → Error → Error
with_oid oid e = record e { object_oid = some oid }

-- An object ID that a lower layer supplied is kept.
abbrev pub with_oid_if_none : Oid → Error → Error
with_oid_if_none oid e = elim e.object_oid [
  | none ↦ record e { object_oid = some oid }
  | some _ ↦ e
]

abbrev pub with_layer : ℕ → Error → Error
with_layer layer e = record e { layer = some layer }

abbrev pub with_order : ErrorOrder → Error → Error
with_order order e = record e { order = some order }

abbrev pub with_file : ErrorFile → Error → Error
with_file file e = record e { file = some file }

abbrev pub with_reason : String → Error → Error
with_reason reason e = record e { reason = some reason }

abbrev pub with_line_count : ℕ → Error → Error
with_line_count line_count e = record e { line = some (count line_count) }

abbrev pub with_line : ℕ → Error → Error
with_line line e = record e { line = some (source line) }

abbrev counted : ErrorLine → Option ℕ
counted (count n) = some n
counted (source n) = none

abbrev sourced : ErrorLine → Option ℕ
sourced (count n) = none
sourced (source n) = some n

-- `Error::line_count` and `Error::line`.
abbrev pub line_count : Error → Option ℕ
line_count e = elim e.line [ none ↦ none | some l ↦ counted l ]

abbrev pub source_line : Error → Option ℕ
source_line e = elim e.line [ none ↦ none | some l ↦ sourced l ]

abbrev pub order_as_str : ErrorOrder → String
order_as_str topological = "topological"
order_as_str date = "date"

abbrev pub file_as_str : ErrorFile → String
file_as_str shallow = "shallow"
file_as_str gitmodules = ".gitmodules"

-- `Display`, without the shape of `write!`.
abbrev pub display : Error → List Piece
display e = e.message ++ (text " (" ∷ text (as_str e.code) ∷ text ")" ∷ [])

pub data Result {ℓ} (A : Type ℓ) : Type ℓ where
  ok : A → Result A
  err : Error → Result A

-- The `?` operator.
infixl 5 ◌>>=◌
abbrev pub ◌>>=◌ {ℓ κ} : {A : Type ℓ} {B : Type κ} → Result A → (A → Result B) → Result B
◌>>=◌ (ok value) next = next value
◌>>=◌ (err failure) next = err failure

infixl 5 ◌>>◌
abbrev pub ◌>>◌ {ℓ} : {B : Type ℓ} → Result (Unit {0}) → Result B → Result B
◌>>◌ (ok _) next = next
◌>>◌ (err failure) next = err failure

-- `if !test { return Err(e) }`.
abbrev pub ensure : Bool → Error → Result (Unit {0})
ensure true e = ok tt
ensure false e = err e

-- `ok_or_else`.
abbrev pub ok_or {ℓ} : {A : Type ℓ} → Option A → Error → Result A
ok_or none e = err e
ok_or (some a) e = ok a

-- Where a chain succeeds its first part does, and so does the rest.
pub >>=-eq-ok {κ ℓ} :
    {B : Type κ} {A : Type ℓ} (first : Result A) (rest : A → Result B) {value : B}
    → (first >>= rest) ≡ ok value
    → (x : A) × (first ≡ ok x) × (rest x ≡ ok value)
>>=-eq-ok (err failure) rest e = absurd (cc)
>>=-eq-ok (ok x) rest e = (x, refl, e)

pub >>-eq-ok {ℓ} :
    {B : Type ℓ} (first : Result (Unit {0})) (rest : Result B) {value : B}
    → (first >> rest) ≡ ok value
    → (first ≡ ok tt) × (rest ≡ ok value)
>>-eq-ok (err failure) rest e = absurd (cc)
>>-eq-ok (ok x) rest e = (refl, e)

-- What a successful result satisfies.
abbrev pub Ensures {ℓ κ} : {A : Type ℓ} → (A → Type κ) → Result A → Type κ
Ensures P (ok a) = P a
Ensures P (err e) = Unit

pub Ensures-ok {ℓ κ} :
    {A : Type ℓ} (P : A → Type κ) (r : Result A) {a : A} → Ensures P r → r ≡ ok a → P a
Ensures-ok P (ok b) h e = subst P (cc) h
Ensures-ok P (err x) h e = absurd (cc)

-- A property of a bind's result, with the equation for the first part.
pub Ensures-bind {ℓ κ μ} :
    {A : Type ℓ} {B : Type κ} (Q : B → Type μ) (m : Result A) (f : A → Result B)
    → ((a : A) → m ≡ ok a → Ensures Q (f a))
    → Ensures Q (m >>= f)
Ensures-bind Q (ok a) f h = h a refl
Ensures-bind Q (err e) f h = tt

pub Ensures-ensure {κ μ} :
    {B : Type κ} (Q : B → Type μ) (test : Bool) (e : Error) (k : Result B)
    → (test ≡ true → Ensures Q k)
    → Ensures Q (ensure test e >> k)
Ensures-ensure Q true e k h = h refl
Ensures-ensure Q false e k h = tt

pub ensure-eq-ok {κ} :
    {B : Type κ} (test : Bool) (e : Error) (k : Result B) {b : B}
    → (ensure test e >> k) ≡ ok b
    → (test ≡ true) × (k ≡ ok b)
ensure-eq-ok true e k h = (refl, h)
ensure-eq-ok false e k h = absurd (cc)

pub ok-injective {ℓ} : {A : Type ℓ} {a b : A} → ok a ≡ ok b → a ≡ b
ok-injective h = cc
