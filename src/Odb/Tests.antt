-- ===== src/Odb/Tests.antt =====
-- Stores with a few objects.
use gitility.Base.{
  ℕ, ◌≤◌, ◌<◌, ◌≡◌, refl, false, is_some, List, [], ◌∷◌, ◌++◌, Option, none, some, take, replicate,
  map, arith,
}
use gitility.Oid.{sha1, sha256, Oid, blob}
use gitility.Error.{Result, ok, err, new_text, unsupported_operation}
use gitility.Budget.{Budget, new_budget, default_limits, charge_object, record_cache_miss, charge}
use gitility.Odb.{Object, World, Clock, ReadManyBudget}
use gitility.Odb.Safe.{Outcome}
use gitility.Odb.Cache.{CacheOptions, CacheLayer, new_layer, stats}
use gitility.Odb.Cache.Keeps.{Keeps, new_layer-Keeps}
use gitility.Odb.Cache.Runs.{Call, read, store, run, run-IsBounded}
use gitility.Odb.Layered.{Layers, LayeredOdb, try_find_many_bounded}
use gitility.Odb.Layered.Answers.{first_answer}
use gitility.Odb.Layered.Reads.{IsLayers}
use gitility.Odb.Layered.Batch.{try_find_many_bounded-IsFaithful}
use gitility.Odb.Layered.Others.{refresh}
use gitility.Odb.Layered.Refresh.{refresh_of, above, refresh-Calls}
use gitility.Odb.Verify.{Digests, object_id}
use gitility.Odb.Verify.Preimage.{filled-injective}
use gitility.Odb.Static.{StaticOdb, object_at, static_db}
use gitility.Odb.Static.Loading.{
  from_addressed_objects, from_addressed_objects-IsVerified, names, IsVerified,
}
use gitility.Odb.Static.Lookup.{static_db-IsFaithful}

abbrev digests : Digests
digests = record {
  sha1_digest = λ bytes. some (take 20 (bytes ++ replicate 20 0));
  sha256_digest = λ bytes. take 32 (bytes ++ replicate 32 0);
}

abbrev greeting : Object
greeting = record { kind = blob; payload = b'h' ∷ b'i' ∷ [] }

abbrev digest : List ℕ
digest = b'b' ∷ b'l' ∷ b'o' ∷ b'b' ∷ b' ' ∷ b'2' ∷ 0 ∷ b'h' ∷ b'i' ∷ replicate 11 0

abbrev greeting_oid : Oid
greeting_oid = record { kind = sha1; bytes = digest ++ replicate 12 0 }

abbrev other_oid : Oid
other_oid = record { kind = sha1; bytes = replicate 32 1 }

abbrev loaded : StaticOdb
loaded = record { hash = sha1; objects = (greeting_oid, greeting) ∷ [] }

abbrev empty : StaticOdb
empty = record { hash = sha1; objects = [] }

greeting_id : object_id digests sha1 blob (b'h' ∷ b'i' ∷ []) ≡ ok greeting_oid
unfolding object_id
greeting_id = refl

loads : from_addressed_objects digests sha1 ((greeting_oid, greeting) ∷ []) ≡ ok loaded
unfolding from_addressed_objects
loads = refl

from_addressed_objects-IsVerified_example :
    ((oid : Oid)
      → is_some (object_at oid loaded.objects) ≡ names oid ((greeting_oid, greeting) ∷ []))
    × ((oid : Oid) (o : Object)
        → object_at oid loaded.objects ≡ some o
        → IsVerified digests sha1 oid o)
from_addressed_objects-IsVerified_example =
    from_addressed_objects-IsVerified digests sha1 ((greeting_oid, greeting) ∷ []) {store = loaded}
      loads

filled-injective_example : (blob ≡ blob) × (greeting.payload ≡ greeting.payload)
unfolding gitility.Odb.Verify.filled
filled-injective_example =
    filled-injective sha1 sha256 blob blob (b'h' ∷ b'i' ∷ []) (b'h' ∷ b'i' ∷ []) refl

abbrev options : CacheOptions
options = record { max_bytes = 3; max_entries = 1; max_object_bytes = 3 }

abbrev cache : CacheLayer
cache = record {
  options = options;
  objects = record {
    indices = [];
    nodes = [];
    free = [];
    least_recent = none;
    most_recent = none;
    used = 0;
    capacity = 3;
  };
  evictions = 0;
}

abbrev budget : Budget
budget = new_budget default_limits none false

abbrev calls : List Call
calls = store greeting_oid greeting ∷ read other_oid budget ∷ store other_oid greeting ∷ []

made : new_layer options ≡ ok cache
unfolding new_layer
made = refl

run-IsBounded_example :
    (d : CacheLayer) × (run calls cache ≡ some d) × ((stats d).bytes ≤ 3) × ((stats d).entries ≤ 1)
run-IsBounded_example = run-IsBounded options calls {c = cache} (ground arith) made

abbrev clock : Clock ℕ
clock = record { read = λ s. (s, s) }

abbrev Any : ℕ → Type 0
Any s = Unit

abbrev answers : List (Oid → Option Object)
answers = (λ oid. object_at oid empty.objects) ∷ (λ oid. object_at oid loaded.objects) ∷ []

abbrev layered : LayeredOdb ℕ
layered = record { hash = sha1; layers = static_db clock empty ∷ static_db clock loaded ∷ [] }

abbrev world : World (Layers ℕ)
world = record { outside = record { cache = some (1, cache); lower = 5 }; budget = budget }

abbrev no_bound : ReadManyBudget
no_bound = record { max_total_bytes = none }

abbrev wanted : List Oid
wanted = greeting_oid ∷ other_oid ∷ greeting_oid ∷ []

abbrev read_values : {A C : Type 0} → Option (Result A × C) → Option (Result A)
read_values none = none
read_values (some r) = some r.0

reads_run :
    read_values (try_find_many_bounded clock layered wanted no_bound world)
    ≡ some (ok (some greeting ∷ none ∷ some greeting ∷ []))
unfolding try_find_many_bounded static_db new_budget charge_object record_cache_miss charge
reads_run = refl

kept :
    Keeps
      (λ oid object. first_answer ((λ oid. object_at oid loaded.objects) ∷ []) oid ≡ some object)
      options
      0
      cache
    × (0 < 1)
kept =
    new_layer-Keeps
      (λ oid object. first_answer ((λ oid. object_at oid loaded.objects) ∷ []) oid ≡ some object)
      options {c = cache} (ground arith) made

try_find_many_bounded-IsFaithful_example :
    Outcome
      (IsLayers Any clock (λ s i. i) answers)
      (λ values. values ≡ map (first_answer answers) wanted)
      (try_find_many_bounded clock layered wanted no_bound world)
try_find_many_bounded-IsFaithful_example =
    try_find_many_bounded-IsFaithful Any clock (λ s i. i) answers layered wanted no_bound
      (
        static_db-IsFaithful Any clock (λ s i. i) empty,
        (static_db-IsFaithful Any clock (λ s i. i) loaded, tt),
      )
      world (tt, (options, kept.0, kept.1))

abbrev refusal : Result (Unit {0})
refusal = err (new_text unsupported_operation "object store does not support refresh")

abbrev lower_world : World ℕ
lower_world = record { outside = 5; budget = budget }

refresh-Calls_example :
    refresh layered world ≡ some (refresh_of (refusal ∷ refusal ∷ []), above world lower_world)
unfolding static_db new_budget
refresh-Calls_example =
    refresh-Calls layered world (refusal ∷ refusal ∷ []) lower_world
      (lower_world, refl, (lower_world, refl, refl))
