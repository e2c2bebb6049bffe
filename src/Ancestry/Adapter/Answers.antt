-- ===== src/Ancestry/Adapter/Answers.antt =====
-- What the adapter of crates/gitility-core/src/commit_graph.rs answers.
use mathlib.Core.Path.{subst, sym}
use gitility.Base.{ℕ, ◌≡◌, refl, ap, List, [], Option, none, some, length, All, arith}
use gitility.Oid.{Oid}
use gitility.Error.{Error, Result, ok, err, Ensures, with_oid_if_none}
use gitility.Budget.{check}
use gitility.Lru.{◌>>=◌, LruCache, get, insert, insert_counting_evictions, new_cache}
use gitility.Lru.Segments.{Entry}
use gitility.Lru.Refines.{Holds, from-Holds, get-Refines, insert-Refines}
use gitility.Lru.Kept.{get-All, get-found, insert-All}
use gitility.Lru.Runs.{new_cache-Represents}
use gitility.Lru.Recency
use gitility.Odb.{Object, ObjectDb, World, Clock}
use gitility.Odb.Keys.{oid_key}
use gitility.Odb.Safe.{Safe, at_now-Safe}
use gitility.Ancestry.{missing}
use gitility.Ancestry.Adapter.Shallow.{ShownAs, seen-ShownAs}
use gitility.Ancestry.Adapter.{
  Adapter, new_adapter, payload_cache_bytes, seen, first_of, record_first_error, Call, stored,
  received, looked_up, checked, object_of, noted, find_object,
}

-- The first error of those there are and a result.
abbrev pub note : {A : Type 0} → Option Error → Result A → Option Error
note first (ok a) = first
note first (err e) = first_of first e

note_again : (first : Option Error) (e : Error) → first_of (first_of first e) e ≡ first_of first e
note_again none e = refl
note_again (some f) e = refl

module _ (roots : Option (List Oid)) (answer : Oid → Option Object) where
  -- The object that the store has, as a walk sees it.
  abbrev pub IsSeen : Oid → Object → Type 0
  IsSeen oid object = (o : Object) × (answer oid ≡ some o) × ShownAs roots oid o object

  abbrev pub Fits : Entry Oid Object → Type 0
  Fits e = IsSeen e.key e.value

  pub record Cached (objects : LruCache Oid Object) : Type 0 where
    pub list : List (Entry Oid Object)
    pub held : Holds payload_cache_bytes objects list
    pub fits : All Fits list

insert-some :
    (k : Oid) (v : Object) (n : ℕ) (c d : LruCache Oid Object) {evicted : ℕ}
    → insert_counting_evictions k v n c ≡ some (evicted, d)
    → insert k v n c ≡ some d
unfolding insert
insert-some k v n c d h = rw (h, insert, ◌>>=◌)

module _ {S : Type 0} (J : S → Type 0) (roots : Option (List Oid))
    (answer : Oid → Option Object) where
  -- A call on an adapter that has kept some error or none.
  record Found (first : Option Error) (oid : Oid) (result : Call S Object) : Type 0 where
    value : Result Object
    adapter : Adapter
    world : World S
    returns : result ≡ some (value, adapter, world)
    invariant : J world.outside
    cached : Cached roots answer adapter.objects
    ensures : Ensures (IsSeen roots answer oid) value
    errors : note adapter.first_error value ≡ note first value

  stored-Found :
      (oid : Oid) (object : Object) (a : Adapter) (w : World S)
      → J w.outside
      → IsSeen roots answer oid object
      → Cached roots answer a.objects
      → Found a.first_error oid
          (stored object a w (insert oid object (length object.payload) a.objects))
  stored-Found oid object a w i is c =
      let size = length object.payload in
      let r =
        from-Holds payload_cache_bytes a.objects c.list
          (insert_counting_evictions oid object size a.objects)
          (λ n es. Recency.insert n oid object size es) (insert-Refines oid object size a.objects)
          c.held in
      record {
        value = ok object;
        adapter = record a { objects = r.cache };
        world = w;
        returns = ap (stored object a w) (insert-some oid object size a.objects r.cache r.returns);
        invariant = i;
        cached = record {
          list = (Recency.insert payload_cache_bytes oid object size c.list).1;
          held = r.kept;
          fits =
              insert-All (Fits roots answer) payload_cache_bytes oid object size c.list c.fits is;
        };
        ensures = is;
        errors = refl;
      }

  failed-Found :
      (oid : Oid) (e : Error) (a : Adapter) (w : World S)
      → J w.outside
      → Cached roots answer a.objects
      → Found a.first_error oid (some (err e, record_first_error e a, w))
  unfolding record_first_error
  failed-Found oid e a w i c = record {
    value = err e;
    adapter = record_first_error e a;
    world = w;
    returns = refl;
    invariant = i;
    cached = c;
    ensures = tt;
    errors = note_again a.first_error e;
  }

  received-Found :
      (oid : Oid) (a : Adapter) (value : Result (Option Object)) (w : World S)
      → J w.outside
      → Cached roots answer a.objects
      → Ensures (λ found. found ≡ answer oid) value
      → Found a.first_error oid (received roots oid a (some (value, w)))
  unfolding received
  received-Found oid a (err e) w i c h = failed-Found oid (with_oid_if_none oid e) a w i c
  received-Found oid a (ok none) w i c h = failed-Found oid (missing oid) a w i c
  received-Found oid a (ok (some object)) w i c h =
      stored-Found oid (seen roots oid object) a w i (object, sym h, seen-ShownAs roots oid object)
        c

module _ {S : Type 0} (J : S → Type 0) (clock : Clock S)
    (ticks : (s : S) → J s → J (clock.read s).1) (store : ObjectDb S) (answer : Oid → Option Object)
    (finds : (oid : Oid) → Safe J (λ found. found ≡ answer oid) (store.try_find oid)) where
  abbrev Gives : Option Error → Oid → Call S Object → Type 0
  Gives = Found J store.shallow_roots answer

  abbrev pub Holding : LruCache Oid Object → Type 0
  Holding = Cached store.shallow_roots answer

  looked_up-Found :
      (oid : Oid) (a : Adapter) (w : World S) (o : Option Object) (objects : LruCache Oid Object)
      → J w.outside
      → Holding objects
      → ((object : Object) → o ≡ some object → IsSeen store.shallow_roots answer oid object)
      → Gives a.first_error oid (looked_up clock store oid a w (some (o, objects)))
  unfolding looked_up
  looked_up-Found oid a w (some object) objects i c hit = record {
    value = ok object;
    adapter = record a { objects = objects };
    world = w;
    returns = refl;
    invariant = i;
    cached = c;
    ensures = hit object refl;
    errors = refl;
  }
  looked_up-Found oid a w none objects i c hit =
      let kept = record a { objects = objects } in
      let found = finds oid w i in
      subst (λ r. Gives a.first_error oid (received store.shallow_roots oid kept r))
        (sym found.returns)
        (received-Found J store.shallow_roots answer oid kept found.value found.world
          found.invariant c found.ensures)

  get-Found :
      (oid : Oid) (a : Adapter) (w : World S)
      → J w.outside
      → Holding a.objects
      → Gives a.first_error oid (looked_up clock store oid a w (get oid a.objects))
  get-Found oid a w i c =
      let r =
        from-Holds payload_cache_bytes a.objects c.list (get oid a.objects)
          (λ n es. Recency.get oid es) (get-Refines oid a.objects) c.held in
      subst (λ g. Gives a.first_error oid (looked_up clock store oid a w g)) (sym r.returns)
        (looked_up-Found oid a w (Recency.get oid c.list).0 r.cache i
          (record {
            list = (Recency.get oid c.list).1;
            held = r.kept;
            fits = get-All (Fits store.shallow_roots answer) oid c.list c.fits;
          })
          (λ object is.
            let (e, q, at, v) =
              get-found (Fits store.shallow_roots answer) oid c.list {v = object} c.fits is in
            subst (IsSeen store.shallow_roots answer oid) v
              (subst (λ k. IsSeen store.shallow_roots answer k e.value) at q)))

  checked-Found :
      (oid : Oid) (a : Adapter) (r : Result (Unit {0})) (w : World S)
      → J w.outside
      → Holding a.objects
      → Gives a.first_error oid (checked clock store oid a (some (r, w)))
  checked-Found oid a (err e) w i c = record {
    value = err e;
    adapter = a;
    world = w;
    returns = refl;
    invariant = i;
    cached = c;
    ensures = tt;
    errors = refl;
  }
  checked-Found oid a (ok u) w i c = get-Found oid (record a { current_oid = some oid }) w i c

  object_of-Found :
      (oid : Oid) (a : Adapter) (w : World S)
      → J w.outside
      → Holding a.objects
      → Gives a.first_error oid (object_of clock store oid a w)
  unfolding object_of
  object_of-Found oid a w i c =
      let k = at_now-Safe J clock check ticks w i in
      subst (λ r. Gives a.first_error oid (checked clock store oid a r)) (sym k.returns)
        (checked-Found oid a k.value k.world k.invariant c)

  -- A call that also keeps its error.
  pub record Noted (first : Option Error) (oid : Oid) (result : Call S Object) : Type 0 where
    pub value : Result Object
    pub adapter : Adapter
    pub world : World S
    pub returns : result ≡ some (value, adapter, world)
    pub invariant : J world.outside
    pub cached : Holding adapter.objects
    pub ensures : Ensures (IsSeen store.shallow_roots answer oid) value
    pub errors : adapter.first_error ≡ note first value

  noted-Noted :
      (first : Option Error) (oid : Oid) (value : Result Object) (a : Adapter) (w : World S)
      → J w.outside
      → Holding a.objects
      → Ensures (IsSeen store.shallow_roots answer oid) value
      → note a.first_error value ≡ note first value
      → Noted first oid (noted (some (value, a, w)))
  unfolding record_first_error
  noted-Noted first oid (ok object) a w i c h e = record {
    value = ok object;
    adapter = a;
    world = w;
    returns = refl;
    invariant = i;
    cached = c;
    ensures = h;
    errors = e;
  }
  noted-Noted first oid (err failure) a w i c h e = record {
    value = err failure;
    adapter = record_first_error failure a;
    world = w;
    returns = refl;
    invariant = i;
    cached = c;
    ensures = tt;
    errors = e;
  }

  pub find_object-Noted :
      (oid : Oid) (a : Adapter) (w : World S)
      → J w.outside
      → Holding a.objects
      → Noted a.first_error oid (find_object clock store oid a w)
  unfolding find_object
  find_object-Noted oid a w i c =
      let r = object_of-Found oid a w i c in
      subst (Noted a.first_error oid) (ap noted (sym r.returns)) (
        noted-Noted a.first_error oid r.value r.adapter r.world r.invariant r.cached r.ensures
          r.errors)

pub new_adapter-Cached :
    (roots : Option (List Oid)) (answer : Oid → Option Object)
    → Cached roots answer new_adapter.objects
unfolding new_adapter new_cache
new_adapter-Cached roots answer = record {
  list = [];
  held = record {
    cells = [];
    holds = new_cache-Represents payload_cache_bytes (omega arith);
    is = refl;
    bound = refl;
  };
  fits = tt;
}
