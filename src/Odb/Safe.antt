-- ===== src/Odb/Safe.antt =====
-- Operations on the world of crates/gitility-core/src/odb.rs that keep an invariant of what lies
-- outside, do not panic, and give a result with a property where they succeed.
use gitility.Base.{ℕ, ◌≡◌, refl, ap, ◌∙◌, Option, some}
use gitility.Error.{Error, Result, ok, err, Ensures}
use gitility.Budget.{M, Budget}
use gitility.Odb.{and_then, mapped_err, World, Io, Clock, pure, fail, lift, ◌>>=◌, map_err, at_now}

pub any : {A : Type 0} (r : Result A) → Ensures (λ (a : A). Unit {0}) r
any (ok a) = tt
any (err e) = tt

module _ {S : Type 0} (I : S → Type 0) where
  pub record Outcome {A : Type 0} (Q : A → Type 0) (result : Option (Result A × World S))
      : Type 0 where
    pub value : Result A
    pub world : World S
    pub returns : result ≡ some (value, world)
    pub invariant : I world.outside
    pub ensures : Ensures Q value

  abbrev pub Safe : {A : Type 0} → (A → Type 0) → Io S A → Type 0
  Safe Q io = (w : World S) → I w.outside → Outcome Q (io w)

  pub pure-Safe : {A : Type 0} (Q : A → Type 0) (a : A) → Q a → Safe Q (pure a)
  pure-Safe Q a q w i = record {
    value = ok a;
    world = w;
    returns = refl;
    invariant = i;
    ensures = q;
  }

  pub fail-Safe : {A : Type 0} (Q : A → Type 0) (e : Error) → Safe Q (fail e)
  fail-Safe Q e w i = record {
    value = err e;
    world = w;
    returns = refl;
    invariant = i;
    ensures = tt;
  }

  pub lift-Safe : {A : Type 0} (Q : A → Type 0) (r : Result A) → Ensures Q r → Safe Q (lift r)
  lift-Safe Q r q w i = record { value = r; world = w; returns = refl; invariant = i; ensures = q }

  on_budget-Outcome :
      {A : Type 0} (r : Result A × Budget) (w : World S)
      → I w.outside
      → Outcome (λ (a : A). Unit {0}) (some (r.0, record w { budget = r.1 }))
  on_budget-Outcome (ok a, b) w i = record {
    value = ok a;
    world = record w { budget = b };
    returns = refl;
    invariant = i;
    ensures = tt;
  }
  on_budget-Outcome (err e, b) w i = record {
    value = err e;
    world = record w { budget = b };
    returns = refl;
    invariant = i;
    ensures = tt;
  }

  -- An operation of the budget, at an instant that the clock gives.
  pub at_now-Safe :
      {A : Type 0} (clock : Clock S) (m : ℕ → M A)
      → ((s : S) → I s → I (clock.read s).1)
      → Safe (λ (a : A). Unit {0}) (at_now clock m)
  at_now-Safe clock m ticks w i =
      let r = clock.read w.outside in
      on_budget-Outcome (m r.0 w.budget) (record w { outside = r.1 }) (ticks w.outside i)

  bind-Outcome :
      {A B : Type 0} (Q : A → Type 0) (R : B → Type 0) (f : A → Io S B)
      (result : Option (Result A × World S)) (r : Result A) (w : World S)
      → result ≡ some (r, w)
      → I w.outside
      → Ensures Q r
      → ((a : A) → Q a → Safe R (f a))
      → Outcome R (and_then result f)
  bind-Outcome Q R f result (ok a) w h i q k =
      let b = k a q w i in
      record {
        value = b.value;
        world = b.world;
        returns = ap (λ o. and_then o f) h ∙ b.returns;
        invariant = b.invariant;
        ensures = b.ensures;
      }
  bind-Outcome Q R f result (err e) w h i q k = record {
    value = err e;
    world = w;
    returns = ap (λ o. and_then o f) h;
    invariant = i;
    ensures = tt;
  }

  pub bind-Safe :
      {A B : Type 0} (Q : A → Type 0) (R : B → Type 0) (io : Io S A) (f : A → Io S B)
      → Safe Q io
      → ((a : A) → Q a → Safe R (f a))
      → Safe R (io >>= f)
  bind-Safe Q R io f h k w i =
      let a = h w i in bind-Outcome Q R f (io w) a.value a.world a.returns a.invariant a.ensures k

  map_err-Outcome :
      {A : Type 0} (Q : A → Type 0) (f : Error → Error) (result : Option (Result A × World S))
      (r : Result A) (w : World S)
      → result ≡ some (r, w)
      → I w.outside
      → Ensures Q r
      → Outcome Q (mapped_err f result)
  map_err-Outcome Q f result (ok a) w h i q = record {
    value = ok a;
    world = w;
    returns = ap (mapped_err f) h;
    invariant = i;
    ensures = q;
  }
  map_err-Outcome Q f result (err e) w h i q = record {
    value = err (f e);
    world = w;
    returns = ap (mapped_err f) h;
    invariant = i;
    ensures = tt;
  }

  pub map_err-Safe :
      {A : Type 0} (Q : A → Type 0) (f : Error → Error) (io : Io S A)
      → Safe Q io
      → Safe Q (map_err f io)
  map_err-Safe Q f io h w i =
      let a = h w i in map_err-Outcome Q f (io w) a.value a.world a.returns a.invariant a.ensures

  Ensures-weaken :
      {A : Type 0} {Q R : A → Type 0} (r : Result A)
      → ((a : A) → Q a → R a)
      → Ensures Q r
      → Ensures R r
  Ensures-weaken (ok a) f h = f a h
  Ensures-weaken (err e) f h = tt

  pub weaken-Safe :
      {A : Type 0} {Q R : A → Type 0} {io : Io S A} → ((a : A) → Q a → R a) → Safe Q io → Safe R io
  weaken-Safe f h w i =
      let a = h w i in
      record {
        value = a.value;
        world = a.world;
        returns = a.returns;
        invariant = a.invariant;
        ensures = Ensures-weaken a.value f a.ensures;
      }

pub Outcome-invariant :
    {S A : Type 0} {I J : S → Type 0} {Q : A → Type 0} {result : Option (Result A × World S)}
    → ((s : S) → I s → J s)
    → Outcome I Q result
    → Outcome J Q result
Outcome-invariant f o = record {
  value = o.value;
  world = o.world;
  returns = o.returns;
  invariant = f o.world.outside o.invariant;
  ensures = o.ensures;
}
