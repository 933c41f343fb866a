-- ===== src/Workers/Loops.antt =====
-- internal/workers/masters.go and senders.go: the loops of a master and of a sender. What the calls of
-- `Receive` return is given, first to last; a loop that has not been told to stop waits for more.
pub mod Drained
use pushboy.Prelude.{
  Bool, ◌||◌, List, [], ◌∷◌, Error, is_error, at_canceled, at_closed, Result, ok, err, Exec,
  if◌then◌else◌,
}

-- `errors.Is(err, context.Canceled) || errors.Is(err, pipeline.ErrClosed)`
abbrev pub stops : Error → Bool
stops e = is_error at_canceled e || is_error at_closed e

-- `MasterWorker`, with the `Submit` of its task pipeline.
pub record MasterWorker (S J T : Type 0) : Type 0 where
  pub submit : T → Exec S (Unit {0})
  pub fanout : J → (T → Exec S (Unit {0})) → Exec S (Unit {0})

-- `SenderWorker`: its dispatch function has the outcome pipeline.
pub record SenderWorker (S T : Type 0) : Type 0 where
  pub dispatch : T → Exec S (Unit {0})

-- The error of a fan-out or of a dispatch is logged.
module _ {S J T : Type 0} (m : MasterWorker S J T) where
  unfoldable pub master_start : List (Result J) → S → S
  unfolding is_error
  master_start [] s = s
  master_start (ok job ∷ rest) s = master_start rest (m.fanout job m.submit s).1
  master_start (err e ∷ rest) s = let on = master_start rest s in if stops e then s else on

module _ {S T : Type 0} (w : SenderWorker S T) where
  unfoldable pub sender_start : List (Result T) → S → S
  unfolding is_error
  sender_start [] s = s
  sender_start (ok task ∷ rest) s = sender_start rest (w.dispatch task s).1
  sender_start (err e ∷ rest) s = let on = sender_start rest s in if stops e then s else on
