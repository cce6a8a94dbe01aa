-- ===== src/Prelude/Result.antt =====
-- The value of a call that can set a GError, and a routine that leaves a trace of what it did to the
-- outside. The message of an error is its text.
use mathlib.Core.List.{List, [], ◌∷◌, ◌++◌}
use mathlib.Core.Bool.{Bool, true, false}
use mathlib.Core.Path.{◌≡◌, refl, ap}
use mathlib.Core.Logic.{◌⊎◌, inl, inr}
use rpm_ostree.Prelude.Text.{Text, codes}

pub data Result {ℓ} (A : Type ℓ) : Type ℓ where
  ok : A → Result A
  error : Text → Result A

abbrev pub bind {ℓ κ} : {A : Type ℓ} {B : Type κ} → Result A → (A → Result B) → Result B
bind (ok a) k = k a
bind (error e) k = error e

-- GLNX_AUTO_PREFIX_ERROR and glnx_prefix_error
abbrev pub prefix_error {ℓ} : {A : Type ℓ} → Text → Result A → Result A
prefix_error prefix (ok a) = ok a
prefix_error prefix (error e) = error (prefix ++ codes ": " ++ e)

-- A routine with effects of type E: its result, and the effects so far, the oldest first.
abbrev pub Action : Type 0 → Type 0 → Type 0
Action E A = List E → Result A × List E

module _ {E A : Type 0} where
  abbrev pub pure : A → Action E A
  pure a log = (ok a, log)

  abbrev pub throw : Text → Action E A
  throw e log = (error e, log)

  -- A call without effects that are traced.
  abbrev pub call : Result A → Action E A
  call r log = (r, log)

abbrev pub continue : {E A B : Type 0} → (A → Action E B) → Result A × List E → Result B × List E
continue f (ok a, log) = f a log
continue f (error e, log) = (error e, log)

infixl 5 ◌>>=◌ ◌>>◌
abbrev pub ◌>>=◌ : {E A B : Type 0} → Action E A → (A → Action E B) → Action E B
◌>>=◌ m f log = continue f (m log)

abbrev pub ◌>>◌ : {E A B : Type 0} → Action E A → Action E B → Action E B
m >> k = m >>= λ _. k

-- An effect that succeeds.
abbrev pub perform : {E : Type 0} → E → Action E (Unit {0})
perform e log = (ok tt, log ++ e ∷ [])

-- A call that can fail, and has the effect if it does not.
abbrev pub attempt : {E : Type 0} → E → Result (Unit {0}) → Action E (Unit {0})
attempt e (ok u) log = (ok tt, log ++ e ∷ [])
attempt e (error m) log = (error m, log)

abbrev pub throw_if : {E : Type 0} → Bool → Text → Action E (Unit {0})
throw_if true e log = (error e, log)
throw_if false e log = (ok tt, log)

abbrev pub do_if : {E : Type 0} → Bool → Action E (Unit {0}) → Action E (Unit {0})
do_if true m = m
do_if false m = λ log. (ok tt, log)

pub Result-cases {ℓ} :
    {A : Type ℓ} (r : Result A) → ((a : A) × (r ≡ ok a)) ⊎ ((e : Text) × (r ≡ error e))
Result-cases (ok a) = inl (a, refl)
Result-cases (error e) = inr (e, refl)

pub >>=-ok :
    {E A B : Type 0} (m : Action E A) (f : A → Action E B) (log log' : List E) (a : A)
    → m log ≡ (ok a, log')
    → (m >>= f) log ≡ f a log'
>>=-ok m f log log' a e = ap (continue f) e

pub >>=-error :
    {E A B : Type 0} (m : Action E A) (f : A → Action E B) (log log' : List E) (e : Text)
    → m log ≡ (error e, log')
    → (m >>= f) log ≡ (error e, log')
>>=-error m f log log' e h = ap (continue f) h

-- A sequence that succeeds: so does its first part, and the rest goes on from there.
pub >>=-inv :
    {E A B : Type 0} (m : Action E A) (f : A → Action E B) (log log' : List E) (b : B)
    → (m >>= f) log ≡ (ok b, log')
    → (a : A) × (mid : List E) × (m log ≡ (ok a, mid)) × (f a mid ≡ (ok b, log'))
>>=-inv m f log log' b h = continue_inv (m log) refl h
  where
    continue_inv :
        (r : Result _ × List _)
        → m log ≡ r
        → continue f r ≡ (ok b, log')
        → (a : _) × (mid : List _) × (m log ≡ (ok a, mid)) × (f a mid ≡ (ok b, log'))
    continue_inv (ok a, mid) e k = (a, mid, e, k)
    continue_inv (error m', mid) e k = cc
