-- ===== src/Ancestry/Adapter/Runs.antt =====
-- A walk's lookups through the adapter of crates/gitility-core/src/commit_graph.rs.
use gitility.Base.{◌≡◌, refl, ap, ◌∙◌, List, [], ◌∷◌, Option, none, some, String}
use gitility.Oid.{Oid}
use gitility.Error.{Error, ErrorCode, Result, ok, err, Ensures}
use gitility.Odb.{Object, ObjectDb, World, Clock}
use gitility.Odb.Safe.{Safe}
use gitility.Ancestry.Adapter.{Adapter, new_adapter, Call, find_object, take_error_or}
use gitility.Ancestry.Adapter.Answers.{note, IsSeen, Cached, find_object-Noted, new_adapter-Cached}

abbrev pub Answers : Type 0 → Type 0
Answers S = Option (List (Result Object) × Adapter × World S)

module _ {S : Type 0} where
  abbrev more : Result Object → Answers S → Answers S
  more value none = none
  more value (some (values, a, w)) = some (value ∷ values, a, w)

  abbrev and_then : Call S Object → (Adapter → World S → Answers S) → Answers S
  and_then none rest = none
  and_then (some (value, a, w)) rest = more value (rest a w)

  -- Lookups one after the other, whatever each gives.
  unfoldable pub find_all : Clock S → ObjectDb S → List Oid → Adapter → World S → Answers S
  unfolding find_object
  find_all clock store [] a w = some ([], a, w)
  find_all clock store (oid ∷ oids) a w =
      and_then (find_object clock store oid a w) (find_all clock store oids)

abbrev pub first_failure : List (Result Object) → Option Error
first_failure [] = none
first_failure (ok object ∷ values) = first_failure values
first_failure (err e ∷ values) = some e

abbrev or_later : Option Error → Option Error → Option Error
or_later none later = later
or_later (some e) later = some e

later_of :
    (first : Option Error) (value : Result Object) (values : List (Result Object))
    → or_later (note first value) (first_failure values)
      ≡ or_later first (first_failure (value ∷ values))
later_of none (ok object) values = refl
later_of (some e) (ok object) values = refl
later_of none (err e) values = refl
later_of (some f) (err e) values = refl

taken_first :
    (code : ErrorCode) (message : String) (a : Adapter) {e : Error}
    → a.first_error ≡ some e
    → (take_error_or code message a).0 ≡ e
unfolding take_error_or
taken_first code message a h = rw h

no_error : (first : Option Error) → first ≡ or_later first none
no_error none = refl
no_error (some e) = refl

module _ {S : Type 0} (store : ObjectDb S) (answer : Oid → Option Object) where
  -- One result for each object ID, as the store answers where it is no error.
  abbrev pub Answered : List Oid → List (Result Object) → Type 0
  Answered [] [] = Unit
  Answered [] (value ∷ values) = ⊥
  Answered (oid ∷ oids) [] = ⊥
  Answered (oid ∷ oids) (value ∷ values) =
      Ensures (IsSeen store.shallow_roots answer oid) value × Answered oids values

module _ {S : Type 0} (J : S → Type 0) (store : ObjectDb S) (answer : Oid → Option Object) where
  record Ran (first : Option Error) (oids : List Oid) (result : Answers S) : Type 0 where
    values : List (Result Object)
    adapter : Adapter
    world : World S
    returns : result ≡ some (values, adapter, world)
    invariant : J world.outside
    answered : Answered store answer oids values
    errors : adapter.first_error ≡ or_later first (first_failure values)

  -- What the lookups of a walk give, and the error that the walk's caller takes.
  pub record Faithful (oids : List Oid) (result : Answers S) : Type 0 where
    pub values : List (Result Object)
    pub adapter : Adapter
    pub world : World S
    pub returns : result ≡ some (values, adapter, world)
    pub invariant : J world.outside
    pub answered : Answered store answer oids values
    pub takes :
        (code : ErrorCode) (message : String) (e : Error)
        → first_failure values ≡ some e
        → (take_error_or code message adapter).0 ≡ e

module _ {S : Type 0} (J : S → Type 0) (clock : Clock S)
    (ticks : (s : S) → J s → J (clock.read s).1) (store : ObjectDb S) (answer : Oid → Option Object)
    (finds : (oid : Oid) → Safe J (λ found. found ≡ answer oid) (store.try_find oid)) where
  find_all-Ran :
      (oids : List Oid) (a : Adapter) (w : World S)
      → J w.outside
      → Cached store.shallow_roots answer a.objects
      → Ran J store answer a.first_error oids (find_all clock store oids a w)
  unfolding find_all
  find_all-Ran [] a w i c = record {
    values = [];
    adapter = a;
    world = w;
    returns = refl;
    invariant = i;
    answered = tt;
    errors = no_error a.first_error;
  }
  find_all-Ran (oid ∷ oids) a w i c =
      let r = find_object-Noted J clock ticks store answer finds oid a w i c in
      let rest = find_all-Ran oids r.adapter r.world r.invariant r.cached in
      record {
        values = r.value ∷ rest.values;
        adapter = rest.adapter;
        world = rest.world;
        returns =
            ap (λ call. and_then call (find_all clock store oids)) r.returns
            ∙ ap (more r.value) rest.returns;
        invariant = rest.invariant;
        answered = (r.ensures, rest.answered);
        errors =
            rest.errors
            ∙ ap (λ f. or_later f (first_failure rest.values)) r.errors
            ∙ later_of a.first_error r.value rest.values;
      }

  -- Over a store that does not panic, keeps an invariant of what lies outside, which reads of the clock
  -- keep too, and finds an object only as a fixed function of the object ID: lookups through a new
  -- adapter do not panic; each that succeeds, from the cache or not, gives the store's object, and
  -- a commit at a shallow boundary without the parents among its headers, all else as it was; and
  -- where some fail, the error that is taken at the end is the first.
  pub find_all-Faithful :
      (oids : List Oid) (w : World S)
      → J w.outside
      → Faithful J store answer oids (find_all clock store oids new_adapter w)
  unfolding new_adapter
  find_all-Faithful oids w i =
      let r = find_all-Ran oids new_adapter w i (new_adapter-Cached store.shallow_roots answer) in
      record {
        values = r.values;
        adapter = r.adapter;
        world = r.world;
        returns = r.returns;
        invariant = r.invariant;
        answered = r.answered;
        takes = λ code message e h. taken_first code message r.adapter {e = e} (r.errors ∙ h);
      }
