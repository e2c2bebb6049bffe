-- ===== src/Odb/Layered/Batch.antt =====
-- A batch through all layers of crates/gitility-core/src/layered_odb.rs.
use mathlib.Core.Path.{subst, sym}
use gitility.Base.{
  ℕ, suc, ◌≡◌, refl, ap, ◌∙◌, true, false, ◌==◌, if◌then◌else◌, List, [], ◌∷◌, Option, none, some,
  drop, map, length, length-map, if-cases, arith, Bool-cases, inl, inr,
}
use gitility.Oid.{Oid}
use gitility.Error.{Result, ok, with_layer}
use gitility.Odb.{Object, ObjectDb, World, Clock, ReadManyBudget, fail}
use gitility.Odb.Safe.{
  Safe, Outcome, pure-Safe, lift-Safe, bind-Safe, map_err-Safe, weaken-Safe, any, Outcome-invariant,
}
use gitility.Odb.Cache.{CacheLayer}
use gitility.Odb.Layered.{
  Layers, LayeredOdb, Progress, serve, serve_at, absorb, read_layer, read_layers, lowered, in_front,
  shortened, short_batch_error, distinct, results, try_find_many_bounded, ensure_oids,
}
use gitility.Odb.Layered.Answers.{first_answer, missed-next, drop-next}
use gitility.Odb.Layered.Reads.{IsLayers, IsCache, Holds, Behind, serve-Safe, absorb-Safe}
use gitility.Odb.Layered.Settled.{
  distinct-covers, Settled, Settled-next, results-Ended, Ended, Settled-last, Settled-empty,
  Settled-first, none_seen,
}

-- A store whose batches answer as a function of the object ID does, where they succeed.
abbrev pub IsFaithful : {S : Type 0} → (S → Type 0) → ObjectDb S → (Oid → Option Object) → Type 0
IsFaithful J layer a =
    (oids : List Oid) (read_budget : ReadManyBudget)
    → Safe J (λ values. values ≡ map a oids) (layer.try_find_many_bounded oids read_budget)

abbrev pub AreFaithful :
    {S : Type 0} → (S → Type 0) → List (ObjectDb S) → List (Oid → Option Object) → Type 0
AreFaithful J [] [] = Unit
AreFaithful J [] (a ∷ answers) = ⊥
AreFaithful J (layer ∷ layers) [] = ⊥
AreFaithful J (layer ∷ layers) (a ∷ answers) = IsFaithful J layer a × AreFaithful J layers answers

module _ {S : Type 0} (J : S → Type 0) (clock : Clock S)
    (ticks : (s : S) → J s → J (clock.read s).1) (answers : List (Oid → Option Object)) where
  on_layer-Outcome :
      {A : Type 0} (Q : A → Type 0) (cache : Option (ℕ × CacheLayer))
      (result : Option (Result A × World S))
      → IsCache J clock ticks answers cache
      → Outcome J Q result
      → Outcome (IsLayers J clock ticks answers) Q (lowered cache result)
  on_layer-Outcome Q cache result held o = record {
    value = o.value;
    world = record {
      outside = record { cache = cache; lower = o.world.outside };
      budget = o.world.budget;
    };
    returns = ap (lowered cache) o.returns;
    invariant = (o.invariant, held);
    ensures = o.ensures;
  }

  serve_at-skip :
      (index : ℕ) (read_budget : ReadManyBudget) (p : Progress) (w : World (Layers S))
      → in_front w.outside.cache index ≡ false
      → serve_at clock index read_budget p w ≡ some (ok p, w)
  unfolding serve_at
  serve_at-skip index read_budget p w h =
      ap
        (λ b.
          if b
          then serve clock read_budget p.unresolved p.resolved p.result_bytes w
          else some (ok p, w))
        h

  serve_at-serve :
      (index : ℕ) (read_budget : ReadManyBudget) (p : Progress) (w : World (Layers S))
      → in_front w.outside.cache index ≡ true
      → serve_at clock index read_budget p w
        ≡ serve clock read_budget p.unresolved p.resolved p.result_bytes w
  unfolding serve_at
  serve_at-serve index read_budget p w h =
      ap
        (λ b.
          if b
          then serve clock read_budget p.unresolved p.resolved p.result_bytes w
          else some (ok p, w))
        h

  behind :
      (index : ℕ) (l : Layers S)
      → IsLayers J clock ticks answers l
      → in_front l.cache index ≡ true
      → Behind J clock ticks answers index l
  behind index l (lower, cache) h = from l.cache refl cache h
    where
      from :
          (o : Option (ℕ × CacheLayer))
          → l.cache ≡ o
          → IsCache J clock ticks answers o
          → in_front o index ≡ true
          → Behind J clock ticks answers index l
      from none e i h = absurd (cc)
      from (some (at, c)) e i h =
          let same : at ≡ index = ground (arith, h) in
          record {
            lower = lower;
            cache = c;
            is = e ∙ ap (λ n. some (n, c)) same;
            holds = subst (λ n. Holds J clock ticks answers n c) same i;
          }

  in_layers :
      (index : ℕ) (l : Layers S)
      → Behind J clock ticks answers index l
      → IsLayers J clock ticks answers l
  in_layers index l b = (b.lower, subst (IsCache J clock ticks answers) (sym b.is) b.holds)

  serve_at-Safe :
      (wanted : List Oid) (index : ℕ) (read_budget : ReadManyBudget) (p : Progress)
      → Settled answers wanted index p
      → Safe
          (IsLayers J clock ticks answers)
          (Settled answers wanted index)
          (serve_at clock index read_budget p)
  unfolding serve_at
  serve_at-Safe wanted index read_budget p s w i =
      elim (Bool-cases (in_front w.outside.cache index)) [
        | inr skip ↦ record {
          value = ok p;
          world = w;
          returns = serve_at-skip index read_budget p w skip;
          invariant = i;
          ensures = s;
        }
        | inl serves ↦
            (let o =
                weaken-Safe (Behind J clock ticks answers index)
                  (λ q part.
                    Settled-next answers wanted index index (λ _. Unit {0}) p q (λ oid m _. m) s
                      part)
                  (serve-Safe J clock ticks answers index read_budget p.unresolved p.resolved
                    p.result_bytes (λ oid m. (s.left oid m).1))
                  w (behind index w.outside i serves) in
              let kept : Outcome (IsLayers J clock ticks answers) (Settled answers wanted index)
                  (serve clock read_budget p.unresolved p.resolved p.result_bytes w) =
                Outcome-invariant (in_layers index) o in
              record {
                value = kept.value;
                world = kept.world;
                returns = serve_at-serve index read_budget p w serves ∙ kept.returns;
                invariant = kept.invariant;
                ensures = kept.ensures;
              })
      ]

  read_layer-Safe :
      (wanted : List Oid) (index : ℕ) (read_budget : ReadManyBudget) (layer : ObjectDb S)
      (a : Oid → Option Object) (rest : List (Oid → Option Object)) (p : Progress)
      → drop index answers ≡ a ∷ rest
      → IsFaithful J layer a
      → Settled answers wanted index p
      → Safe
          (IsLayers J clock ticks answers)
          (Settled answers wanted (suc index))
          (read_layer clock index read_budget layer p)
  unfolding read_layer
  read_layer-Safe wanted index read_budget layer a rest p here faithful s =
      bind-Safe (IsLayers J clock ticks answers) (λ values. values ≡ map a p.unresolved)
        (Settled answers wanted (suc index)) _ _
        (map_err-Safe (IsLayers J clock ticks answers) (λ values. values ≡ map a p.unresolved)
          (with_layer index) _
          (λ w i.
            on_layer-Outcome (λ values. values ≡ map a p.unresolved) w.outside.cache _ i.1
              (faithful p.unresolved (shortened read_budget p.result_bytes) _ i.0)))
        (λ values is.
          subst
            (λ vs. Safe (IsLayers J clock ticks answers) (Settled answers wanted (suc index)) (
              if length vs == length p.unresolved
              then absorb clock index read_budget p.unresolved vs p.resolved p.result_bytes
              else fail (with_layer index short_batch_error)))
            (sym is)
            (subst
              (λ b. Safe (IsLayers J clock ticks answers) (Settled answers wanted (suc index)) (
                if b
                then absorb clock index read_budget p.unresolved (map a p.unresolved) p.resolved
                    p.result_bytes
                else fail (with_layer index short_batch_error)))
              (sym full)
              (weaken-Safe (IsLayers J clock ticks answers)
                (λ q part.
                  Settled-next answers wanted index (suc index) (λ oid. a oid ≡ none) p q
                    (λ oid m n. missed-next answers index oid here m n) s part)
                (absorb-Safe J clock ticks answers index read_budget a rest p.unresolved p.resolved
                  p.result_bytes here (λ oid m. (s.left oid m).1)))))
    where
      full : (length (map a p.unresolved) == length p.unresolved) ≡ true
      full = ground (arith, length-map p.unresolved a)

  read_layers-Safe :
      (wanted : List Oid) (index : ℕ) (read_budget : ReadManyBudget) (layers : List (ObjectDb S))
      (rest : List (Oid → Option Object)) (p : Progress)
      → drop index answers ≡ rest
      → AreFaithful J layers rest
      → Settled answers wanted index p
      → Safe
          (IsLayers J clock ticks answers)
          (Ended answers wanted)
          (read_layers clock index read_budget layers p)
  unfolding read_layers
  read_layers-Safe wanted index read_budget [] [] p here faithful s =
      pure-Safe (IsLayers J clock ticks answers) (Ended answers wanted) p
        (Settled-last answers wanted index p here s)
  read_layers-Safe wanted index read_budget [] (a ∷ rest) p here faithful s = absurd faithful
  read_layers-Safe wanted index read_budget (layer ∷ layers) [] p here faithful s = absurd faithful
  read_layers-Safe wanted index read_budget (layer ∷ layers) (a ∷ rest) p here faithful s =
      bind-Safe (IsLayers J clock ticks answers) (Settled answers wanted index)
        (Ended answers wanted) _ _ (serve_at-Safe wanted index read_budget p s)
        (λ q t.
          if-cases (Safe (IsLayers J clock ticks answers) (Ended answers wanted))
            (length q.unresolved == 0)
            (λ none_left.
              pure-Safe (IsLayers J clock ticks answers) (Ended answers wanted) q
                (Settled-empty answers wanted index q none_left t))
            (λ _.
              bind-Safe (IsLayers J clock ticks answers) (Settled answers wanted (suc index))
                (Ended answers wanted) _ _
                (read_layer-Safe wanted index read_budget layer a rest q here faithful.0 t)
                (λ r u.
                  read_layers-Safe wanted (suc index) read_budget layers rest r
                    (drop-next answers index here) faithful.1 u)))

  -- The batch of a layered store succeeds only with the answers of the first layers, in order; it
  -- never panics, and what its cache holds stays what the layers behind it answer.
  pub try_find_many_bounded-IsFaithful :
      (store : LayeredOdb S) (oids : List Oid) (read_budget : ReadManyBudget)
      → AreFaithful J store.layers answers
      → (w : World (Layers S)) → IsLayers J clock ticks answers w.outside
      → Outcome
          (IsLayers J clock ticks answers)
          (λ values. values ≡ map (first_answer answers) oids)
          (try_find_many_bounded clock store oids read_budget w)
  unfolding try_find_many_bounded
  try_find_many_bounded-IsFaithful store oids read_budget faithful =
      let wanted = distinct [] oids in
      bind-Safe (IsLayers J clock ticks answers) (λ (_ : Unit {0}). Unit {0})
        (λ values. values ≡ map (first_answer answers) oids) _ _
        (lift-Safe (IsLayers J clock ticks answers) (λ (_ : Unit {0}). Unit {0})
          (ensure_oids store oids) (any (ensure_oids store oids)))
        (λ _ _.
          bind-Safe (IsLayers J clock ticks answers) (Ended answers wanted)
            (λ values. values ≡ map (first_answer answers) oids) _ _
            (read_layers-Safe wanted 0 read_budget store.layers answers
              (record { unresolved = wanted; resolved = []; result_bytes = 0 }) refl faithful
              (Settled-first answers wanted))
            (λ p e.
              pure-Safe (IsLayers J clock ticks answers)
                (λ values. values ≡ map (first_answer answers) oids) (results oids p)
                (results-Ended answers wanted oids p
                  (λ oid m. distinct-covers [] oids oid m (none_seen oid)) e)))
