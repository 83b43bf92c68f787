-- ===== src/Storage/Engine/Rules.antt =====
-- How actions are taken apart: the rules for their results (nimbis-storage/src/storage.rs, error.rs).
use nimbis.Prelude.{◌≡◌, subst, ap, Bool, true, false, Result, ok, err}
use nimbis.Storage.Database.{Db}
use nimbis.Storage.Engine.{StorageError, database_error, World, Action, ◌>>=◌}

-- The errors that a strict statement allows: those of a database.
abbrev pub Allowed : {E : Type 0} → Bool → StorageError E → Type 0
Allowed true (database_error e) = Unit
Allowed true _ = ⊥
Allowed false e = Unit

pub database_error-Allowed :
    {E : Type 0} (strict : Bool) (e : E) → Allowed strict (database_error e)
database_error-Allowed true e = tt
database_error-Allowed false e = tt

module _ {D E : Type 0} {db : Db D E} where
  abbrev pub Outcome :
      {A : Type 0} → Bool → (A → World db → Type 0) → Result (StorageError E) A × World db → Type 0
  Outcome strict P (ok a, w) = P a w
  Outcome strict P (err e, w) = Allowed strict e

  -- An action ended with a result and a state that satisfy `P`, or with an error: one of a database, if
  -- the statement is strict.
  pub record Ensures {A : Type 0} (strict : Bool) (P : A → World db → Type 0)
      (r : Result (StorageError E) A × World db) : Type 0 where
    pub outcome : Outcome strict P r

  pub Ensures-pure :
      {A : Type 0} {strict : Bool} {P : A → World db → Type 0} {a : A} {w : World db}
      → P a w
      → Ensures strict P (ok a, w)
  Ensures-pure h = record { outcome = h }

  bind_outcome :
      {A B : Type 0} {strict : Bool} {Q : A → World db → Type 0} {P : B → World db → Type 0}
      (f : A → Action db B) (r : Result (StorageError E) A × World db)
      → Outcome strict Q r
      → ((a : A) (w' : World db) → Q a w' → Ensures strict P (f a w'))
      → Ensures strict P (((λ _. r) >>= f) r.1)
  bind_outcome f (ok a, w') q k = k a w' q
  bind_outcome f (err e, w') q k = record { outcome = q }

  pub Ensures-bind :
      {A B : Type 0} {strict : Bool} {Q : A → World db → Type 0} {P : B → World db → Type 0}
      (m : Action db A) (f : A → Action db B) (w : World db)
      → Ensures strict Q (m w)
      → ((a : A) (w' : World db) → Q a w' → Ensures strict P (f a w'))
      → Ensures strict P ((m >>= f) w)
  Ensures-bind {strict = strict} {Q} m f w q k =
      bind_outcome {strict = strict} {Q = Q} f (m w) q.outcome k

  mono_outcome :
      {A : Type 0} (strict : Bool) (P Q : A → World db → Type 0)
      (r : Result (StorageError E) A × World db)
      → Outcome strict P r
      → ((a : A) (w : World db) → P a w → Q a w)
      → Outcome strict Q r
  mono_outcome strict P Q (ok a, w) h p = p a w h
  mono_outcome strict P Q (err e, w) h p = h

  pub Ensures-mono :
      {A : Type 0} {strict : Bool} {P Q : A → World db → Type 0}
      {r : Result (StorageError E) A × World db}
      → Ensures strict P r
      → ((a : A) (w : World db) → P a w → Q a w)
      → Ensures strict Q r
  Ensures-mono {strict = strict} {P} {Q} {r} h p = record {
    outcome = mono_outcome strict P Q r h.outcome p;
  }

  pub ensures_ok :
      {A : Type 0} {strict : Bool} {P : A → World db → Type 0}
      {r : Result (StorageError E) A × World db} {a : A} {w' : World db}
      → Ensures strict P r
      → r ≡ (ok a, w')
      → P a w'
  ensures_ok {strict = strict} {P} q e = subst (Outcome strict P) e q.outcome

  pub bind_ok :
      {A B : Type 0} (m : Action db A) (f : A → Action db B) (w w' : World db) (a : A)
      → m w ≡ (ok a, w')
      → (m >>= f) w ≡ f a w'
  bind_ok m f w w' a h = ap (λ p. let (r, u) = p in elim r [ ok x ↦ f x u | err e ↦ (err e, u) ]) h

  pub bind_err :
      {A B : Type 0} (m : Action db A) (f : A → Action db B) (w w' : World db) (e : StorageError E)
      → m w ≡ (err e, w')
      → (m >>= f) w ≡ (err e, w')
  bind_err m f w w' e h = ap (λ p. let (r, u) = p in elim r [ ok x ↦ f x u | err e ↦ (err e, u) ]) h

  weak_outcome :
      {A : Type 0} (strict : Bool) (P : A → World db → Type 0)
      (r : Result (StorageError E) A × World db)
      → Outcome strict P r
      → Outcome false P r
  weak_outcome strict P (ok a, w) h = h
  weak_outcome strict P (err e, w) h = tt

  pub Ensures-weaken :
      {A : Type 0} {strict : Bool} {P : A → World db → Type 0}
      {r : Result (StorageError E) A × World db}
      → Ensures strict P r
      → Ensures false P r
  Ensures-weaken {strict = strict} {P} {r} h = record {
    outcome = weak_outcome strict P r h.outcome;
  }

  any_outcome :
      {A : Type 0} (r : Result (StorageError E) A × World db) → Outcome false (λ _ _. Unit {0}) r
  any_outcome (ok a, w) = tt
  any_outcome (err e, w) = tt

  pub Ensures-any :
      {A : Type 0} (r : Result (StorageError E) A × World db) → Ensures false (λ _ _. Unit {0}) r
  Ensures-any r = record { outcome = any_outcome r }

  -- An action whose end does not matter, and one behind it.
  pub Ensures-after :
      {A B : Type 0} {P : B → World db → Type 0} (m : Action db A) (f : A → Action db B)
      (w : World db)
      → ((a : A) (w' : World db) → Ensures false P (f a w'))
      → Ensures false P ((m >>= f) w)
  Ensures-after m f w h = Ensures-bind m f w (Ensures-any (m w)) λ a w' _. h a w'
