-- ===== src/Prelude/Keeps.antt =====
-- A property of the trace that a routine keeps, however its calls end.
use mathlib.Core.List.{List, [], ◌∷◌, ◌++◌}
use mathlib.Core.Bool.{Bool, true, false}
use mathlib.Core.Path.{◌≡◌, refl}
use rpm_ostree.Prelude.Text.{Text}
use rpm_ostree.Prelude.Tests.{if◌then◌else◌}
use rpm_ostree.Prelude.Result.{
  Result, ok, error, Action, pure, throw, call, continue, ◌>>=◌, perform, attempt, do_if,
}

pub record Keeps {E A : Type 0} (P : List E → Type 0) (m : Action E A) : Type 0 where
  pub at : (log : List E) → P log → P (m log).1

-- Adding an effect keeps the property.
abbrev pub Allows : {E : Type 0} → (List E → Type 0) → E → Type 0
Allows {E} P e = (log : List E) → P log → P (log ++ e ∷ [])

module _ {E : Type 0} (P : List E → Type 0) where
  continue_keeps :
      {A B : Type 0} (f : A → Action E B) (r : Result A × List E)
      → ((a : A) → Keeps P (f a))
      → P r.1
      → P (continue f r).1
  continue_keeps f (ok a, log) keeps p = (keeps a).at log p
  continue_keeps f (error e, log) keeps p = p

  pub >>=-Keeps :
      {A B : Type 0} (m : Action E A) (f : A → Action E B)
      → Keeps P m
      → ((a : A) → Keeps P (f a))
      → Keeps P (m >>= f)
  >>=-Keeps m f first rest = record { at = λ log p. continue_keeps f (m log) rest (first.at log p) }

  pub pure-Keeps : {A : Type 0} (a : A) → Keeps P (pure a)
  pure-Keeps a = record { at = λ log p. p }

  pub throw-Keeps : {A : Type 0} (e : Text) → Keeps {A = A} P (throw e)
  throw-Keeps e = record { at = λ log p. p }

  pub call-Keeps : {A : Type 0} (r : Result A) → Keeps P (call r)
  call-Keeps r = record { at = λ log p. p }

  pub perform-Keeps : (e : E) → Allows P e → Keeps P (perform e)
  perform-Keeps e allows = record { at = allows }

  pub attempt-Keeps : (e : E) (r : Result (Unit {0})) → Allows P e → Keeps P (attempt e r)
  attempt-Keeps e (ok u) allows = record { at = allows }
  attempt-Keeps e (error m) allows = record { at = λ log p. p }

  pub do_if-Keeps : (b : Bool) (m : Action E (Unit {0})) → Keeps P m → Keeps P (do_if b m)
  do_if-Keeps true m keeps = keeps
  do_if-Keeps false m keeps = record { at = λ log p. p }

  pub if-Keeps :
      {A : Type 0} (b : Bool) (m n : Action E A)
      → Keeps P m
      → Keeps P n
      → Keeps P (if b then m else n)
  if-Keeps true m n first second = first
  if-Keeps false m n first second = second

  -- A branch that is taken may use that it is.
  pub branch-Keeps :
      {A : Type 0} (b : Bool) (m n : Action E A)
      → (b ≡ true → Keeps P m)
      → (b ≡ false → Keeps P n)
      → Keeps P (if b then m else n)
  branch-Keeps true m n first second = first refl
  branch-Keeps false m n first second = second refl

-- The result of a routine, where it succeeds.
abbrev pub Succeeds {ℓ} : {A : Type 0} → (A → Type ℓ) → Result A → Type ℓ
Succeeds Q (ok a) = Q a
Succeeds Q (error e) = Unit

-- A routine that keeps a property of the trace, and whose result has another where it succeeds.
pub record Yields {E A : Type 0} (P : List E → Type 0) (Q : A → Type 0) (m : Action E A)
    : Type 0 where
  pub at : (log : List E) → P log → P (m log).1 × Succeeds Q (m log).0

module _ {E : Type 0} (P : List E → Type 0) where
  continue-Yields :
      {A B : Type 0} (Q : A → Type 0) (R : B → Type 0) (f : A → Action E B) (r : Result A × List E)
      → ((a : A) → Q a → Yields P R (f a))
      → P r.1
      → Succeeds Q r.0
      → P (continue f r).1 × Succeeds R (continue f r).0
  continue-Yields Q R f (ok a, log) yields p q = (yields a q).at log p
  continue-Yields Q R f (error e, log) yields p q = (p, tt)

  pub >>=-Yields :
      {A B : Type 0} (Q : A → Type 0) (R : B → Type 0) (m : Action E A) (f : A → Action E B)
      → Yields P Q m
      → ((a : A) → Q a → Yields P R (f a))
      → Yields P R (m >>= f)
  >>=-Yields Q R m f first rest = record {
    at = λ log p. continue-Yields Q R f (m log) rest (first.at log p).0 (first.at log p).1;
  }

  pub pure-Yields : {A : Type 0} (Q : A → Type 0) (a : A) → Q a → Yields P Q (pure a)
  pure-Yields Q a q = record { at = λ log p. (p, q) }

  pub throw-Yields : {A : Type 0} (Q : A → Type 0) (e : Text) → Yields P Q (throw e)
  throw-Yields Q e = record { at = λ log p. (p, tt) }

  Succeeds-any : {A : Type 0} (r : Result A) → Succeeds (λ a. Unit {0}) r
  Succeeds-any (ok a) = tt
  Succeeds-any (error e) = tt

  pub Keeps-Yields : {A : Type 0} (m : Action E A) → Keeps P m → Yields P (λ a. Unit {0}) m
  Keeps-Yields m keeps = record { at = λ log p. (keeps.at log p, Succeeds-any (m log).0) }

  pub branch-Yields :
      {A : Type 0} (Q : A → Type 0) (b : Bool) (m n : Action E A)
      → (b ≡ true → Yields P Q m)
      → (b ≡ false → Yields P Q n)
      → Yields P Q (if b then m else n)
  branch-Yields Q true m n first second = first refl
  branch-Yields Q false m n first second = second refl
