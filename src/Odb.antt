-- ===== src/Odb.antt =====
-- crates/gitility-core/src/odb.rs: the contract of an object database. A store works on a world: what
-- lies outside of the core, its clock included, and the budget. `none` is a panic.
pub mod Keys
pub mod Cache
pub mod Safe
pub mod Layered
pub mod Verify
pub mod Static
mod Tests
use gitility.Base.{
  ℕ, Bool, true, false, ltb, if◌then◌else◌, List, [], ◌∷◌, Option, none, some, length,
  saturating_add,
}
use gitility.Oid.{HashKind, Oid, ObjectKind}
use gitility.Error.{
  Error, Result, ok, err, new_text, with_limit, result_too_large, unsupported_operation,
}
use gitility.Budget.{Budget, M, check}
use gitility.Budget.Suspend.{without_object_charge}

-- `ObjectHeader` of object.rs.
pub record ObjectHeader : Type 0 where
  pub kind : ObjectKind
  pub size : ℕ

pub data HeaderProvenance : Type 0 where
  verified unverified_provider : HeaderProvenance

pub record HeaderRead : Type 0 where
  pub header : ObjectHeader
  pub provenance : HeaderProvenance

pub record ReadManyBudget : Type 0 where
  pub max_total_bytes : Option ℕ

pub record CacheStats : Type 0 where
  pub bytes : ℕ
  pub entries : ℕ
  pub evictions : ℕ

-- A payload with its kind: the buffer that `try_find` fills.
pub record Object : Type 0 where
  pub kind : ObjectKind
  pub payload : List ℕ

pub record World (S : Type 0) : Type 0 where
  pub outside : S
  pub budget : Budget

abbrev pub Io : Type 0 → Type 0 → Type 0
Io S A = World S → Option (Result A × World S)

module _ {S : Type 0} where
  abbrev pub pure : {A : Type 0} → A → Io S A
  pure a w = some (ok a, w)

  abbrev pub fail : {A : Type 0} → Error → Io S A
  fail e w = some (err e, w)

  abbrev pub lift : {A : Type 0} → Result A → Io S A
  lift r w = some (r, w)

  abbrev pub and_then :
      {A B : Type 0} → Option (Result A × World S) → (A → Io S B) → Option (Result B × World S)
  and_then none f = none
  and_then (some (ok a, w)) f = f a w
  and_then (some (err e, w)) f = some (err e, w)

  infixl 5 ◌>>=◌
  abbrev pub ◌>>=◌ : {A B : Type 0} → Io S A → (A → Io S B) → Io S B
  ◌>>=◌ first next w = and_then (first w) next

  infixl 5 ◌>>◌
  abbrev pub ◌>>◌ : {B : Type 0} → Io S (Unit {0}) → Io S B → Io S B
  ◌>>◌ first next w = and_then (first w) (λ _. next)

  abbrev pub mapped_err :
      {A : Type 0} → (Error → Error) → Option (Result A × World S) → Option (Result A × World S)
  mapped_err f none = none
  mapped_err f (some (ok a, w)) = some (ok a, w)
  mapped_err f (some (err e, w)) = some (err (f e), w)

  abbrev pub map_err : {A : Type 0} → (Error → Error) → Io S A → Io S A
  map_err f io w = mapped_err f (io w)

  -- An operation of the budget.
  abbrev pub on_budget : {A : Type 0} → M A → Io S A
  on_budget m w = let (r, b) = m w.budget in some (r, record w { budget = b })

-- `Instant::now`.
pub record Clock (S : Type 0) : Type 0 where
  pub read : S → ℕ × S

module _ {S : Type 0} where
  abbrev pub at_now : {A : Type 0} → Clock S → (ℕ → M A) → Io S A
  at_now clock m w =
      let (now, s) = clock.read w.outside in on_budget (m now) (record w { outside = s })

-- The trait `ObjectDb`.
pub record ObjectDb (S : Type 0) : Type 0 where
  pub hash_kind : HashKind
  pub shallow_roots : Option (List Oid)
  pub try_header_with_provenance : Oid → Io S (Option HeaderRead)
  pub try_find : Oid → Io S (Option Object)
  pub try_find_many_bounded : List Oid → ReadManyBudget → Io S (List (Option Object))
  pub prefetch : List Oid → Io S (Unit {0})
  pub supports_prefetch : Bool
  pub refresh : Io S (Unit {0})

abbrev exceeds : Option ℕ → ℕ → Bool
exceeds none total = false
exceeds (some maximum) total = ltb maximum total

unfoldable pub enforce_read_many_budget : ℕ → ReadManyBudget → Result (Unit {0})
enforce_read_many_budget total read_budget =
    if exceeds read_budget.max_total_bytes total
    then err (
        with_limit "max_total_bytes"
          (new_text result_too_large "object batch exceeds max_total_bytes"))
    else ok tt

module _ {S : Type 0} where
  -- The default of `try_header_with_provenance`, over the store's `try_header`.
  unfoldable pub verified_reads :
      (Oid → Io S (Option ObjectHeader)) → Oid → Io S (Option HeaderRead)
  verified_reads try_header oid = do
    header ← try_header oid
    pure
        (elim header [ none ↦ none | some h ↦ some (record { header = h; provenance = verified }) ])

  abbrev unwrapped :
      {A : Type 0} → Budget → S → Option (Result A × World S) → Option (Result A × S) × Budget
  unwrapped b s none = (none, b)
  unwrapped b s (some (r, w)) = (some (r, w.outside), w.budget)

  abbrev rewrapped : {A : Type 0} → Option (Result A × S) × Budget → Option (Result A × World S)
  rewrapped (none, b) = none
  rewrapped (some (r, s), b) = some (r, record { outside = s; budget = b })

  -- The default of `try_find_graph`.
  unfoldable pub try_find_graph : ObjectDb S → Oid → Io S (Option Object)
  unfolding without_object_charge
  try_find_graph store oid w = rewrapped (
      without_object_charge oid
        (λ b. unwrapped b w.outside (store.try_find oid (record w { budget = b }))) w.budget)

  -- One result of the default batch, with the bytes so far, in front of the others.
  abbrev pub read_found :
      ReadManyBudget
      → ℕ
      → (ℕ → Io S (List (Option Object)))
      → Option Object
      → Io S (List (Option Object))
  read_found read_budget total rest none = rest total >>= λ values. pure (none ∷ values)
  read_found read_budget total rest (some object) =
      let longer = saturating_add total (length object.payload) in
      lift (enforce_read_many_budget longer read_budget)
      >> (rest longer >>= λ values. pure (some object ∷ values))

  -- The default of `try_find_many_bounded`.
  unfoldable pub read_each :
      (Oid → Io S (Option Object)) → List Oid → ReadManyBudget → ℕ → Io S (List (Option Object))
  unfolding enforce_read_many_budget
  read_each find [] read_budget total = pure []
  read_each find (oid ∷ oids) read_budget total =
      find oid >>= read_found read_budget total (read_each find oids read_budget)

  -- `try_find_many`.
  unfoldable pub try_find_many : ObjectDb S → List Oid → Io S (List (Option Object))
  try_find_many store oids = store.try_find_many_bounded oids (record { max_total_bytes = none })

  -- The defaults of `prefetch` and `refresh`.
  abbrev pub no_prefetch : List Oid → Io S (Unit {0})
  no_prefetch oids = pure tt

  unfoldable pub no_refresh : Clock S → Io S (Unit {0})
  unfolding check
  no_refresh clock =
      at_now clock check
      >> fail (new_text unsupported_operation "object store does not support refresh")
