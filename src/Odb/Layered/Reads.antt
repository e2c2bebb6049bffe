-- ===== src/Odb/Layered/Reads.antt =====
-- Reads through the layers of crates/gitility-core/src/layered_odb.rs beside the answer of the first
-- layer that has the object.
use gitility.Base.{
  ℕ, ◌<◌, ◌≡◌, refl, ap, ◌∙◌, true, false, leb, List, [], ◌∷◌, Option, none, some, take, drop, map,
  length, arith, saturating_add, Bool-cases, inl, inr,
}
use gitility.Oid.{Oid}
use gitility.Error.{ok}
use gitility.Budget.{charge_object}
use gitility.Budget.Suspend.{contains}
use gitility.Odb.{Object, World, Io, Clock, ReadManyBudget, enforce_read_many_budget}
use gitility.Odb.Safe.{
  Safe, Outcome, pure-Safe, lift-Safe, at_now-Safe, bind-Safe, weaken-Safe, any,
}
use gitility.Odb.Cache.{CacheLayer, CacheOptions, cache_get, cache_insert, recorded}
use gitility.Odb.Cache.Keeps.{Keeps, cache_get-Served}
use gitility.Odb.Cache.Inserts.{cache_insert-Made}
use gitility.Odb.Layered.{
  Layers, Progress, Resolved, layered_clock, get_cached, insert_cached, serve, serve_found, absorb,
  gotten, kept_in,
}
use gitility.Odb.Layered.Answers.{
  first_answer, first_answer-some, missed-drop, contains-tail, contains-head, Part, Part-none,
  Part-hit, Part-miss,
}

module _ {S : Type 0} (J : S → Type 0) (clock : Clock S)
    (ticks : (s : S) → J s → J (clock.read s).1) (answers : List (Oid → Option Object)) where
  abbrev pub answer : Oid → Option Object
  answer oid = first_answer answers oid

  -- The cache holds what the layers behind it answer.
  abbrev pub Holds : ℕ → CacheLayer → Type 0
  Holds at c =
      (options : CacheOptions) × Keeps
        (λ oid object. first_answer (drop at answers) oid ≡ some object) options 0 c
      × (0 < options.max_entries)

  abbrev pub IsCache : Option (ℕ × CacheLayer) → Type 0
  IsCache none = Unit
  IsCache (some (at, c)) = Holds at c

  abbrev pub IsLayers : Layers S → Type 0
  IsLayers l = J l.lower × IsCache l.cache

  -- The cache is there, in front of some layer.
  pub record Behind (at : ℕ) (l : Layers S) : Type 0 where
    pub lower : J l.lower
    pub cache : CacheLayer
    pub is : l.cache ≡ some (at, cache)
    pub holds : Holds at cache

  get_cached-some :
      (oid : Oid) (at : ℕ) (c : CacheLayer) (w : World (Layers S))
      → w.outside.cache ≡ some (at, c)
      → get_cached oid w ≡ gotten at w (cache_get oid c w.budget)
  unfolding get_cached
  get_cached-some oid at c w h = rw (h, get_cached)

  get_cached-Safe :
      (at : ℕ) (oid : Oid)
      → Safe
          (Behind at)
          (λ found.
            (object : Object)
            → found ≡ some object
            → first_answer (drop at answers) oid ≡ some object)
          (get_cached oid)
  get_cached-Safe at oid w b =
      let (options, keeps, some_room) = b.holds in
      let s =
        cache_get-Served (λ o object. first_answer (drop at answers) o ≡ some object) oid options
          b.cache w.budget keeps in
      record {
        value = ok s.object;
        world = record {
          outside = record (w.outside) { cache = some (at, s.cache) };
          budget = recorded s.object w.budget;
        };
        returns = get_cached-some oid at b.cache w b.is ∙ ap (gotten at w) s.returns;
        invariant = record {
          lower = b.lower;
          cache = s.cache;
          is = refl;
          holds = (options, s.keeps, some_room);
        };
        ensures = s.found;
      }

  insert_cached-none :
      (index : ℕ) (oid : Oid) (object : Object) (w : World (Layers S))
      → w.outside.cache ≡ none
      → insert_cached index oid object w ≡ some (ok tt, w)
  unfolding insert_cached
  insert_cached-none index oid object w h = grind (arith, h)

  insert_cached-later :
      (index : ℕ) (oid : Oid) (object : Object) (w : World (Layers S)) (at : ℕ) (c : CacheLayer)
      → w.outside.cache ≡ some (at, c)
      → leb at index ≡ false
      → insert_cached index oid object w ≡ some (ok tt, w)
  unfolding insert_cached
  insert_cached-later index oid object w at c h g = grind (arith, h, g)

  insert_cached-into :
      (index : ℕ) (oid : Oid) (object : Object) (w : World (Layers S)) (at : ℕ) (c : CacheLayer)
      → w.outside.cache ≡ some (at, c)
      → leb at index ≡ true
      → insert_cached index oid object w ≡ kept_in at w (cache_insert oid object c)
  unfolding insert_cached
  insert_cached-into index oid object w at c h g = grind (arith, h, g)

  insert_cached-Safe :
      (index : ℕ) (oid : Oid) (object : Object)
      → first_answer (take index answers) oid ≡ none
      → first_answer (drop index answers) oid ≡ some object
      → Safe IsLayers (λ (_ : Unit {0}). Unit {0}) (insert_cached index oid object)
  insert_cached-Safe index oid object missed is w (lower, cache) = from w.outside.cache refl cache
    where
      from :
          (o : Option (ℕ × CacheLayer))
          → w.outside.cache ≡ o
          → IsCache o
          → Outcome IsLayers (λ (_ : Unit {0}). Unit {0}) (insert_cached index oid object w)
      from none e i = record {
        value = ok tt;
        world = w;
        returns = insert_cached-none index oid object w e;
        invariant = (lower, cache);
        ensures = tt;
      }
      from (some (at, c)) e (options, keeps, some_room) = elim (Bool-cases (leb at index)) [
        | inr s ↦ record {
          value = ok tt;
          world = w;
          returns = insert_cached-later index oid object w at c e s;
          invariant = (lower, cache);
          ensures = tt;
        }
        | inl s ↦
            (let m =
                cache_insert-Made (λ o object. first_answer (drop at answers) o ≡ some object) oid
                  object options c keeps some_room
                  (missed-drop answers at index oid (ground (arith, s)) missed ∙ is) in
              record {
                value = ok tt;
                world = record w { outside = record (w.outside) { cache = some (at, m.cache) } };
                returns =
                    insert_cached-into index oid object w at c e s ∙ ap (kept_in at w) m.returns;
                invariant = (lower, (options, m.keeps, some_room));
                ensures = tt;
              })
      ]

  -- The instants that the cache's charges read.
  layered_ticks : (l : Layers S) → IsLayers l → IsLayers ((layered_clock clock).read l).1
  layered_ticks l (lower, cache) = (ticks l.lower lower, cache)

  behind_ticks : (at : ℕ) (l : Layers S) → Behind at l → Behind at ((layered_clock clock).read l).1
  behind_ticks at l b = record {
    lower = ticks l.lower b.lower;
    cache = b.cache;
    is = b.is;
    holds = b.holds;
  }

  serve_found-Safe :
      (index : ℕ) (read_budget : ReadManyBudget) (oid : Oid) (oids : List Oid)
      (rest : Resolved → ℕ → Io (Layers S) Progress) (resolved : Resolved) (bytes : ℕ)
      (found : Option Object)
      → ((r : Resolved) (n : ℕ)
          → Safe (Behind index) (Part answer (λ _. Unit {0}) oids r) (rest r n))
      → ((object : Object) → found ≡ some object → answer oid ≡ some object)
      → Safe
          (Behind index)
          (Part answer (λ _. Unit {0}) (oid ∷ oids) resolved)
          (serve_found clock read_budget oid rest resolved bytes found)
  serve_found-Safe index read_budget oid oids rest resolved bytes none safe is =
      bind-Safe (Behind index) (Part answer (λ _. Unit {0}) oids resolved)
        (Part answer (λ _. Unit {0}) (oid ∷ oids) resolved) (rest resolved bytes) _
        (safe resolved bytes)
        (λ p part.
          pure-Safe (Behind index) (Part answer (λ _. Unit {0}) (oid ∷ oids) resolved) _
            (Part-miss answer (λ _. Unit {0}) oid oids resolved p tt part))
  serve_found-Safe index read_budget oid oids rest resolved bytes (some object) safe is =
      let total = saturating_add bytes (length object.payload) in
      bind-Safe (Behind index) (λ (_ : Unit {0}). Unit {0})
        (Part answer (λ _. Unit {0}) (oid ∷ oids) resolved) _ _
        (at_now-Safe (Behind index) (layered_clock clock)
          (λ now. charge_object now (length object.payload)) (behind_ticks index))
        (λ _ _.
          bind-Safe (Behind index) (λ (_ : Unit {0}). Unit {0})
            (Part answer (λ _. Unit {0}) (oid ∷ oids) resolved) _ _
            (lift-Safe (Behind index) (λ (_ : Unit {0}). Unit {0})
              (enforce_read_many_budget total read_budget)
              (any (enforce_read_many_budget total read_budget)))
            (λ _ _.
              weaken-Safe (Behind index)
                (λ p part.
                  Part-hit answer (λ _. Unit {0}) oid object oids resolved p (is object refl) part)
                (safe ((oid, some object) ∷ resolved) total)))

  -- The reads from the cache in front of a layer.
  pub serve-Safe :
      (index : ℕ) (read_budget : ReadManyBudget) (oids : List Oid) (resolved : Resolved) (bytes : ℕ)
      → ((oid : Oid) → contains oid oids ≡ true → first_answer (take index answers) oid ≡ none)
      → Safe
          (Behind index)
          (Part answer (λ _. Unit {0}) oids resolved)
          (serve clock read_budget oids resolved bytes)
  unfolding serve
  serve-Safe index read_budget [] resolved bytes missed =
      pure-Safe (Behind index) (Part answer (λ _. Unit {0}) [] resolved) _
        (Part-none answer (λ _. Unit {0}) resolved bytes)
  serve-Safe index read_budget (oid ∷ oids) resolved bytes missed =
      bind-Safe (Behind index)
        (λ found.
          (object : Object)
          → found ≡ some object
          → first_answer (drop index answers) oid ≡ some object)
        (Part answer (λ _. Unit {0}) (oid ∷ oids) resolved) (get_cached oid) _
        (get_cached-Safe index oid)
        (λ found q.
          serve_found-Safe index read_budget oid oids (serve clock read_budget oids) resolved bytes
            found
            (λ r n.
              serve-Safe index read_budget oids r n (λ o m. missed o (contains-tail o oid oids m)))
            (λ object is.
              missed-drop answers 0 index oid (omega arith) (missed oid (contains-head oid oids))
              ∙ q object is))

  absorb_one-Safe :
      (index : ℕ) (read_budget : ReadManyBudget) (a : Oid → Option Object)
      (rest : List (Oid → Option Object)) (oid : Oid) (oids : List Oid)
      (values : List (Option Object)) (resolved : Resolved) (bytes : ℕ) (value : Option Object)
      → drop index answers ≡ a ∷ rest
      → first_answer (take index answers) oid ≡ none
      → a oid ≡ value
      → ((r : Resolved) (n : ℕ)
          → Safe IsLayers
              (Part answer (λ oid. a oid ≡ none) oids r)
              (absorb clock index read_budget oids values r n))
      → Safe IsLayers
          (Part answer (λ oid. a oid ≡ none) (oid ∷ oids) resolved)
          (absorb clock index read_budget (oid ∷ oids) (value ∷ values) resolved bytes)
  unfolding absorb
  absorb_one-Safe index read_budget a rest oid oids values resolved bytes none here missed is safe =
      bind-Safe IsLayers (Part answer (λ oid. a oid ≡ none) oids resolved)
        (Part answer (λ oid. a oid ≡ none) (oid ∷ oids) resolved) _ _ (safe resolved bytes)
        (λ p part.
          pure-Safe IsLayers (Part answer (λ oid. a oid ≡ none) (oid ∷ oids) resolved) _
            (Part-miss answer (λ oid. a oid ≡ none) oid oids resolved p is part))
  absorb_one-Safe index read_budget a rest oid oids values resolved bytes (some object) here missed
        is safe =
      let total = saturating_add bytes (length object.payload) in
      let at : first_answer (drop index answers) oid ≡ some object =
        ap (λ bs. first_answer bs oid) here ∙ first_answer-some a rest oid is in
      bind-Safe IsLayers (λ (_ : Unit {0}). Unit {0})
        (Part answer (λ oid. a oid ≡ none) (oid ∷ oids) resolved) _ _
        (lift-Safe IsLayers (λ (_ : Unit {0}). Unit {0})
          (enforce_read_many_budget total read_budget)
          (any (enforce_read_many_budget total read_budget)))
        (λ _ _.
          bind-Safe IsLayers (λ (_ : Unit {0}). Unit {0})
            (Part answer (λ oid. a oid ≡ none) (oid ∷ oids) resolved) _ _
            (insert_cached-Safe index oid object missed at)
            (λ _ _.
              weaken-Safe IsLayers
                (λ p part.
                  Part-hit answer (λ oid. a oid ≡ none) oid object oids resolved p
                    (missed-drop answers 0 index oid (omega arith) missed ∙ at) part)
                (safe ((oid, some object) ∷ resolved) total)))

  -- The results of a layer: what it misses is left.
  pub absorb-Safe :
      (index : ℕ) (read_budget : ReadManyBudget) (a : Oid → Option Object)
      (rest : List (Oid → Option Object)) (oids : List Oid) (resolved : Resolved) (bytes : ℕ)
      → drop index answers ≡ a ∷ rest
      → ((oid : Oid) → contains oid oids ≡ true → first_answer (take index answers) oid ≡ none)
      → Safe IsLayers
          (Part answer (λ oid. a oid ≡ none) oids resolved)
          (absorb clock index read_budget oids (map a oids) resolved bytes)
  unfolding absorb
  absorb-Safe index read_budget a rest [] resolved bytes here missed =
      pure-Safe IsLayers (Part answer (λ oid. a oid ≡ none) [] resolved) _
        (Part-none answer (λ oid. a oid ≡ none) resolved bytes)
  absorb-Safe index read_budget a rest (oid ∷ oids) resolved bytes here missed =
      absorb_one-Safe index read_budget a rest oid oids (map a oids) resolved bytes (a oid) here
        (missed oid (contains-head oid oids)) refl
        (λ r n.
          absorb-Safe index read_budget a rest oids r n here
            (λ o m. missed o (contains-tail o oid oids m)))
