-- ===== src/Prelude/Endings.antt =====
-- What a call that succeeds says of its value and of the state that it leaves.
use mathlib.Core.Path.{◌≡◌, refl, ap, subst}
use mathlib.Core.Bool.{Bool, true, false}
use pushboy.Prelude.Tests.{if◌then◌else◌}
use pushboy.Prelude.Results.{
  Error, Result, ok, err, Exec, pure, raise, on_error, rewrap, continue, attempted, attempt, ◌>>=◌,
}

module _ {S A : Type 0} where
  rewrapped_gives :
      (Q : A → S → Type 0) (f : Error → Error) (r : Result A × S) (value : A)
      → ((v : A) → r.0 ≡ ok v → Q v r.1)
      → (rewrap f r).0 ≡ ok value
      → Q value (rewrap f r).1
  rewrapped_gives Q f (ok a, s) value k h = k value h
  rewrapped_gives Q f (err e, s) value k h = cc

module _ {S A B : Type 0} where
  after_gives :
      (Q : B → S → Type 0) (next : A → Exec S B) (r : Result A × S) (value : B)
      → ((a : A) → r.0 ≡ ok a → (next a r.1).0 ≡ ok value → Q value (next a r.1).1)
      → (continue next r).0 ≡ ok value
      → Q value (continue next r).1
  after_gives Q next (ok a, s) value k h = k a refl h
  after_gives Q next (err e, s) value k h = cc

pub record Gives {S A : Type 0} (Q : A → S → Type 0) (call : Exec S A) : Type 0 where
  pub holds : (before : S) (value : A) → (call before).0 ≡ ok value → Q value (call before).1

module _ {S A : Type 0} {Q : A → S → Type 0} where
  pub Gives-raise : (e : Error) → Gives Q (raise e)
  unfolding raise
  Gives-raise e = record { holds = λ before value h. cc }

  pub Gives-if :
      (test : Bool) (one other : Exec S A)
      → Gives Q one
      → Gives Q other
      → Gives Q (if test then one else other)
  Gives-if true one other p q = p
  Gives-if false one other p q = q

  pub Gives-on_error :
      (f : Error → Error) (call : Exec S A) → Gives Q call → Gives Q (on_error f call)
  unfolding on_error
  Gives-on_error f call p = record {
    holds = λ before value. rewrapped_gives Q f (call before) value (p.holds before);
  }

module _ {S A B : Type 0} {Q : B → S → Type 0} where
  continued_gives :
      (next : A → Exec S B) (r : Result A × S) (value : B)
      → ((a : A) → Gives Q (next a))
      → (continue next r).0 ≡ ok value
      → Q value (continue next r).1
  continued_gives next (ok a, s) value all h = (all a).holds s value h
  continued_gives next (err e, s) value all h = cc

  -- The last part of a chain decides.
  pub Gives-bind :
      (call : Exec S A) (next : A → Exec S B)
      → ((a : A) → Gives Q (next a))
      → Gives Q (call >>= next)
  unfolding ◌>>=◌
  Gives-bind call next all = record {
    holds = λ before value. continued_gives next (call before) value all;
  }

  attempted_gives :
      (next : Result A → Exec S B) (r : Result A × S) (value : B)
      → ((a : A) → r.0 ≡ ok a → (next (ok a) r.1).0 ≡ ok value → Q value (next (ok a) r.1).1)
      → ((e : Error) → Gives Q (next (err e)))
      → (attempted next r).0 ≡ ok value
      → Q value (attempted next r).1
  attempted_gives next (ok a, s) value k all h = k a refl h
  attempted_gives next (err e, s) value k all h = (all e).holds s value h

  -- After a success, what follows knows the value and the state.
  pub Gives-attempt :
      (R : A → S → Type 0) (call : Exec S A) (next : Result A → Exec S B)
      → Gives R call
      → ((a : A) (s : S) (value : B)
          → R a s
          → (next (ok a) s).0 ≡ ok value
          → Q value (next (ok a) s).1)
      → ((e : Error) → Gives Q (next (err e)))
      → Gives Q (attempt call next)
  unfolding attempt
  Gives-attempt R call next p k all = record {
    holds = λ before value.
        attempted_gives next (call before) value (λ a e. k a _ value (p.holds before a e)) all;
  }

  pub Gives-after :
      (R : A → S → Type 0) (call : Exec S A) (next : A → Exec S B)
      → Gives R call
      → ((a : A) (s : S) (value : B) → R a s → (next a s).0 ≡ ok value → Q value (next a s).1)
      → Gives Q (call >>= next)
  unfolding ◌>>=◌
  Gives-after R call next p k = record {
    holds = λ before value.
        after_gives Q next (call before) value (λ a e. k a _ value (p.holds before a e));
  }

module _ {S A : Type 0} (Q : A → S → Type 0) where
  abbrev value_or : A → Result A → A
  value_or a (ok b) = b
  value_or a (err e) = a

  pub pure_gives :
      (a : A) (s : S) (value : A) → Q a s → (pure a s).0 ≡ ok value → Q value (pure a s).1
  unfolding pure
  pure_gives a s value q h = subst (λ (v : A). Q v s) (ap (value_or a) h) q

  pub Gives-pure : (a : A) → ((s : S) → Q a s) → Gives Q (pure a)
  Gives-pure a all = record { holds = λ before value. pure_gives a before value (all before) }
