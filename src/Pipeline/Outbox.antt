-- ===== src/Pipeline/Outbox.antt =====
-- internal/pipeline/pipeline.go, `Pipeline`: the interface as a caller of `Submit` uses it.
use pushboy.Prelude.{Option, none, some, List, [], ◌∷◌, ◌++◌, Error, Result, ok, err, Exec}

-- A pipeline as one of its callers meets it: the items it took, and what its next calls of
-- `Submit` return; where that has run out, they are taken.
pub record Outbox (T : Type 0) : Type 0 where
  pub taken : List T
  pub answers : List (Option Error)

module _ {T : Type 0} where
  abbrev answer : T → Outbox T → List (Option Error) → Result (Unit {0}) × Outbox T
  answer x b [] = (ok tt, record b { taken = b.taken ++ x ∷ [] })
  answer x b (none ∷ later) = (ok tt, record b { taken = b.taken ++ x ∷ []; answers = later })
  answer x b (some e ∷ later) = (err e, record b { answers = later })

  unfoldable pub submit : T → Exec (Outbox T) (Unit {0})
  submit x b = answer x b b.answers
