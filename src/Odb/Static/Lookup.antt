-- ===== src/Odb/Static/Lookup.antt =====
-- The store of crates/gitility-core/src/static_odb.rs behind the contract of odb.rs.
use gitility.Base.{
  ℕ, ◌≡◌, refl, ap, ◌∙◌, List, [], ◌∷◌, Option, none, some, length, map, saturating_add,
}
use gitility.Oid.{Oid}
use gitility.Budget.{check, charge_object}
use gitility.Odb.{
  Object, Io, Clock, ReadManyBudget, read_each, read_found, enforce_read_many_budget,
}
use gitility.Odb.Safe.{Safe, any, pure-Safe, lift-Safe, at_now-Safe, bind-Safe}
use gitility.Odb.Layered.Batch.{IsFaithful}
use gitility.Odb.Static.{StaticOdb, object_at, ensure_hash, payload_of, try_find, static_db}

module _ {S : Type 0} (J : S → Type 0) (clock : Clock S)
    (ticks : (s : S) → J s → J (clock.read s).1) where
  payload_of-Safe : (o : Option Object) → Safe J (λ found. found ≡ o) (payload_of clock o)
  payload_of-Safe none =
      bind-Safe J (λ (_ : Unit {0}). Unit {0}) (λ found. found ≡ none) _ _
        (at_now-Safe J clock check ticks) (λ _ _. pure-Safe J (λ found. found ≡ none) none refl)
  payload_of-Safe (some object) =
      bind-Safe J (λ (_ : Unit {0}). Unit {0}) (λ found. found ≡ some object) _ _
        (at_now-Safe J clock (λ now. charge_object now (length object.payload)) ticks)
        (λ _ _. pure-Safe J (λ found. found ≡ some object) (some object) refl)

  pub try_find-Safe :
      (store : StaticOdb) (oid : Oid)
      → Safe J (λ found. found ≡ object_at oid store.objects) (try_find clock store oid)
  unfolding try_find
  try_find-Safe store oid =
      bind-Safe J (λ (_ : Unit {0}). Unit {0}) (λ found. found ≡ object_at oid store.objects) _ _
        (lift-Safe J (λ (_ : Unit {0}). Unit {0}) (ensure_hash store.hash oid)
          (any (ensure_hash store.hash oid)))
        (λ _ _. payload_of-Safe (object_at oid store.objects))

  read_found-Safe :
      (a : Oid → Option Object) (oid : Oid) (oids : List Oid) (read_budget : ReadManyBudget)
      (total : ℕ) (rest : ℕ → Io S (List (Option Object))) (found : Option Object)
      → found ≡ a oid
      → ((n : ℕ) → Safe J (λ values. values ≡ map a oids) (rest n))
      → Safe J (λ values. values ≡ map a (oid ∷ oids)) (read_found read_budget total rest found)
  read_found-Safe a oid oids read_budget total rest none is safe =
      bind-Safe J (λ values. values ≡ map a oids) (λ values. values ≡ map a (oid ∷ oids)) _ _
        (safe total)
        (λ values same.
          pure-Safe J (λ values. values ≡ map a (oid ∷ oids)) (none ∷ values)
            (ap (λ o. o ∷ values) is ∙ ap (◌∷◌ (a oid)) same))
  read_found-Safe a oid oids read_budget total rest (some object) is safe =
      let longer = saturating_add total (length object.payload) in
      bind-Safe J (λ (_ : Unit {0}). Unit {0}) (λ values. values ≡ map a (oid ∷ oids)) _ _
        (lift-Safe J (λ (_ : Unit {0}). Unit {0}) (enforce_read_many_budget longer read_budget)
          (any (enforce_read_many_budget longer read_budget)))
        (λ _ _.
          bind-Safe J (λ values. values ≡ map a oids) (λ values. values ≡ map a (oid ∷ oids)) _ _
            (safe longer)
            (λ values same.
              pure-Safe J (λ values. values ≡ map a (oid ∷ oids)) (some object ∷ values)
                (ap (λ o. o ∷ values) is ∙ ap (◌∷◌ (a oid)) same)))

  -- The default batch of a store whose single reads answer as a function.
  read_each-Safe :
      (find : Oid → Io S (Option Object)) (a : Oid → Option Object) (oids : List Oid)
      (read_budget : ReadManyBudget) (total : ℕ)
      → ((oid : Oid) → Safe J (λ found. found ≡ a oid) (find oid))
      → Safe J (λ values. values ≡ map a oids) (read_each find oids read_budget total)
  unfolding read_each
  read_each-Safe find a [] read_budget total safe = pure-Safe J (λ values. values ≡ []) [] refl
  read_each-Safe find a (oid ∷ oids) read_budget total safe =
      bind-Safe J (λ found. found ≡ a oid) (λ values. values ≡ map a (oid ∷ oids)) _ _ (safe oid)
        (λ found is.
          read_found-Safe a oid oids read_budget total (read_each find oids read_budget) found is
            (λ n. read_each-Safe find a oids read_budget n safe))

  pub static_db-IsFaithful :
      (store : StaticOdb)
      → IsFaithful J (static_db clock store) (λ oid. object_at oid store.objects)
  unfolding static_db
  static_db-IsFaithful store oids read_budget =
      read_each-Safe (try_find clock store) (λ oid. object_at oid store.objects) oids read_budget 0
        (try_find-Safe store)
