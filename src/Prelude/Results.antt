-- ===== src/Prelude/Results.antt =====
-- Go's `error` values and the calls that return them. `wrap` is `fmt.Errorf("…: %w", err)`, which
-- `errors.Is` looks through; a message that formats the cause by `%v` is an `opaque_cause`, which it
-- does not.
use Prim.Native.String.{String}
use mathlib.Core.Path.{◌≡◌, refl}
use mathlib.Core.Bool.{Bool, true, false, ◌||◌}
use pushboy.Prelude.Tests.{if◌then◌else◌}

pub data Error : Type 0 where
  already_exists not_found closed canceled deadline driver panic : Error
  duplicate rejected message : String → Error
  wrap opaque_cause : String → Error → Error
  join : Error → Error → Error

-- `errors.Is(err, target)` for a target without a cause of its own.
unfoldable pub is_error : (Error → Bool) → Error → Bool
is_error t (wrap s e) = is_error t e
is_error t (join a b) = is_error t a || is_error t b
is_error t e = t e

abbrev pub at_not_found : Error → Bool
at_not_found not_found = true
at_not_found _ = false

abbrev pub at_already_exists : Error → Bool
at_already_exists already_exists = true
at_already_exists _ = false

abbrev pub at_closed : Error → Bool
at_closed closed = true
at_closed _ = false

abbrev pub at_canceled : Error → Bool
at_canceled canceled = true
at_canceled _ = false

pub data Result {ℓ} (A : Type ℓ) : Type ℓ where
  ok : A → Result A
  err : Error → Result A

abbrev pub is_ok {ℓ} : {A : Type ℓ} → Result A → Bool
is_ok (ok a) = true
is_ok (err e) = false

-- A call that reads and writes a state and may return an error; what was written before the error
-- stays written.
abbrev pub Exec {ℓ} : Type ℓ → Type ℓ → Type ℓ
Exec S A = S → Result A × S

module _ {ℓ} {S A : Type ℓ} where
  unfoldable pub pure : A → Exec S A
  pure a s = (ok a, s)

  unfoldable pub raise : Error → Exec S A
  raise e s = (err e, s)

  unfoldable pub gets : (S → A) → Exec S A
  gets f s = (ok (f s), s)

  abbrev pub rewrap : (Error → Error) → Result A × S → Result A × S
  rewrap f (ok a, s) = (ok a, s)
  rewrap f (err e, s) = (err (f e), s)

  -- `if err != nil { return f(err) }`
  unfoldable pub on_error : (Error → Error) → Exec S A → Exec S A
  on_error f m s = rewrap f (m s)

module _ {ℓ} {S A B : Type ℓ} where
  abbrev pub continue : (A → Exec S B) → Result A × S → Result B × S
  continue f (ok a, s) = f a s
  continue f (err e, s) = (err e, s)

  infixl 10 ◌>>=◌ ◌>>◌
  -- Opening this opens the actions above too.
  unfoldable pub ◌>>=◌ : Exec S A → (A → Exec S B) → Exec S B
  unfolding pure raise gets on_error
  ◌>>=◌ m f s = continue f (m s)

  abbrev pub ◌>>◌ : Exec S A → Exec S B → Exec S B
  m >> k = m >>= λ _. k

  abbrev pub attempted : (Result A → Exec S B) → Result A × S → Result B × S
  attempted f (r, s) = f r s

  -- A call whose error the caller looks at itself.
  unfoldable pub attempt : Exec S A → (Result A → Exec S B) → Exec S B
  unfolding ◌>>=◌
  attempt m f s = attempted f (m s)

abbrev pub when {ℓ} : {S : Type ℓ} → Bool → Exec S (Unit {ℓ}) → Exec S (Unit {ℓ})
when c m = if c then m else pure tt

abbrev pub guard {ℓ} : {S : Type ℓ} → Bool → Error → Exec S (Unit {ℓ})
guard c e = if c then pure tt else raise e

-- An invariant `I` of the state that a call leaves true, whether or not it fails; a chain preserves
-- what all its parts preserve.
pub record Preserves {ℓ} {S A : Type ℓ} (I : S → Type ℓ) (call : Exec S A) : Type ℓ where
  pub holds : (before : S) → I before → I (call before).1

module _ {ℓ} {S A : Type ℓ} where
  rewrapped : (I : S → Type ℓ) (f : Error → Error) (r : Result A × S) → I r.1 → I (rewrap f r).1
  rewrapped I f (ok a, s) inv = inv
  rewrapped I f (err e, s) inv = inv

module _ {ℓ} {S A : Type ℓ} {I : S → Type ℓ} where
  pub Preserves-gets : (read : S → A) → Preserves I (gets read)
  unfolding gets
  Preserves-gets read = record { holds = λ before inv. inv }

  pub Preserves-raise : (e : Error) → Preserves I (raise {A = A} e)
  unfolding raise
  Preserves-raise e = record { holds = λ before inv. inv }

  pub Preserves-pure : (value : A) → Preserves I (pure value)
  unfolding pure
  Preserves-pure value = record { holds = λ before inv. inv }

  pub Preserves-if :
      (test : Bool) (one other : Exec S A)
      → Preserves I one
      → Preserves I other
      → Preserves I (if test then one else other)
  Preserves-if true one other p q = p
  Preserves-if false one other p q = q

  pub Preserves-on_error :
      (f : Error → Error) (call : Exec S A) → Preserves I call → Preserves I (on_error f call)
  unfolding on_error
  Preserves-on_error f call p = record {
    holds = λ before inv. rewrapped I f (call before) (p.holds before inv);
  }

module _ {ℓ} {S A B : Type ℓ} {I : S → Type ℓ} where
  continued :
      (next : A → Exec S B) (r : Result A × S)
      → ((value : A) → Preserves I (next value))
      → I r.1
      → I (continue next r).1
  continued next (ok a, s) all inv = (all a).holds s inv
  continued next (err e, s) all inv = inv

  pub Preserves-bind :
      (call : Exec S A) (next : A → Exec S B)
      → Preserves I call
      → ((value : A) → Preserves I (next value))
      → Preserves I (call >>= next)
  unfolding ◌>>=◌
  Preserves-bind call next p all = record {
    holds = λ before inv. continued next (call before) all (p.holds before inv);
  }

pub ruleset preserve_rules =
    (Preserves-pure, Preserves-gets, Preserves-raise, Preserves-on_error, Preserves-bind)

module _ {ℓ} {S A B : Type ℓ} where
  continue-ok :
      (f : A → Exec S B) (r : Result A × S) {b : B}
      → (continue f r).0 ≡ ok b
      → (a : A) × (s : S) × (r ≡ (ok a, s)) × (continue f r ≡ f a s)
  continue-ok f (ok a, s) h = (a, s, refl, refl)
  continue-ok f (err e, s) h = cc

  -- A chain that succeeds has a first part that does, and goes on from its state.
  pub bind-ok :
      (m : Exec S A) (f : A → Exec S B) (s : S) {b : B}
      → ((m >>= f) s).0 ≡ ok b
      → (a : A) × (s' : S) × (m s ≡ (ok a, s')) × ((m >>= f) s ≡ f a s')
  unfolding ◌>>=◌
  bind-ok m f s h = continue-ok f (m s) h
