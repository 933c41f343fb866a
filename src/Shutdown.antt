-- ===== src/Shutdown.antt =====
-- cmd/pushboy/shutdown.go: the stages of a chain are drained one after the other.
use pushboy.Prelude.{String, List, [], ◌∷◌, Exec, pure, attempt, ◌>>◌}

-- A stage closes its pipeline, and waits until its workers have ended.
pub record DrainStage (S : Type 0) : Type 0 where
  pub name : String
  pub close : Exec S (Unit {0})
  pub wait : Exec S (Unit {0})

-- The error of `Close` is logged.
unfoldable pub drain_chain : {S : Type 0} → List (DrainStage S) → Exec S (Unit {0})
drain_chain [] = pure tt
drain_chain (stage ∷ later) = attempt stage.close (λ _. stage.wait) >> drain_chain later
