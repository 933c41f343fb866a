-- ===== src/Workers/Outcome.antt =====
-- internal/workers/outcome.go: outcomes are gathered in a batch, which is applied when it is full, at
-- each tick and at the end. The goroutine that reads the pipeline hands its items over one by one to
-- the loop that applies them; which case the loop's `select` takes is an event.
pub mod Delivery
use pushboy.Prelude.{
  ℕ, suc, Bool, true, false, List, [], ◌∷◌, ◌++◌, map, eqb, leb, ltb, length, Error, Result, ok,
  err, Exec, if◌then◌else◌,
}
use pushboy.Workers.Loops.{stops}
use pushboy.Model.Task.{LaSendOutcome, SendOutcome, DeliveryReceipt}

abbrev pub at_least_one : ℕ → ℕ
at_least_one n = if ltb n 1 then 1 else n

unfoldable pub normalize_outcome_settings : ℕ → ℕ → ℕ × ℕ
normalize_outcome_settings queue_size flush_time =
    (at_least_one queue_size, at_least_one flush_time)

pub record OutcomeWorker (S O : Type 0) : Type 0 where
  pub apply : List O → Exec S (Unit {0})
  pub queue_size : ℕ
  pub queue_flush_time : ℕ

-- The worker of the push lane, over the store's `ApplyPushOutcomeBatch`.
unfoldable pub new_push_outcome_worker :
    {S : Type 0} → (List DeliveryReceipt → Exec S (Unit {0})) → ℕ → ℕ → OutcomeWorker S SendOutcome
unfolding normalize_outcome_settings
new_push_outcome_worker apply_push_outcome_batch size time = record {
  apply = λ outcomes. apply_push_outcome_batch (map (λ (o : SendOutcome). o.receipt) outcomes);
  queue_size = (normalize_outcome_settings size time).0;
  queue_flush_time = (normalize_outcome_settings size time).1;
}

-- The worker of the live activity lane, over the store's `ApplyLAOutcomeBatch`.
unfoldable pub new_la_outcome_worker :
    {S : Type 0} → (List LaSendOutcome → Exec S (Unit {0})) → ℕ → ℕ → OutcomeWorker S LaSendOutcome
unfolding normalize_outcome_settings
new_la_outcome_worker apply_la_outcome_batch size time = record {
  apply = apply_la_outcome_batch;
  queue_size = (normalize_outcome_settings size time).0;
  queue_flush_time = (normalize_outcome_settings size time).1;
}

pub data OutcomeEvent (O : Type 0) : Type 0 where
  delivery : O → OutcomeEvent O
  ticker : OutcomeEvent O
  channel_closed context_done : OutcomeEvent O

-- What a round of the receiving goroutine comes to: an item handed to the loop, an item that is dropped
-- because the context has ended, or an error of `Receive`.
pub data Received (O : Type 0) : Type 0 where
  handed dropped : O → Received O
  broken : Error → Received O

-- The receiving goroutine, as the events that it causes for the loop: when it returns, it closes the
-- channel between the two. Ticks and the end of the context come in between.
unfoldable pub receiver_start : {O : Type 0} → List (Received O) → List (OutcomeEvent O)
receiver_start [] = []
receiver_start (handed x ∷ rs) = delivery x ∷ receiver_start rs
receiver_start (dropped x ∷ rs) = channel_closed ∷ []
receiver_start (broken e ∷ rs) =
    let rest = receiver_start rs in if stops e then channel_closed ∷ [] else rest

-- The loop's variables: the batch, the state behind `apply`, and whether `Start` has returned.
pub record Loop (S O : Type 0) : Type 0 where
  pub batch : List O
  pub state : S
  pub stopped : Bool

abbrev pub begin : {S O : Type 0} → S → Loop S O
begin s = record { batch = []; state = s; stopped = false }

module _ {S O : Type 0} (o : OutcomeWorker S O) where
  -- A batch that could not be applied is kept.
  abbrev pub flushed : Loop S O → Result (Unit {0}) × S → Loop S O
  flushed l (ok _, s) = record l { batch = []; state = s }
  flushed l (err e, s) = record l { state = s }

  unfoldable pub flush : Loop S O → Loop S O
  flush l = if eqb (length l.batch) 0 then l else flushed l (o.apply l.batch l.state)

  abbrev pub stop : Loop S O → Loop S O
  stop l = record l { stopped = true }

  unfoldable pub take_delivery : O → Loop S O → Loop S O
  unfolding flush
  take_delivery x l =
      let m = record l { batch = l.batch ++ x ∷ [] } in
      if leb o.queue_size (length m.batch) then flush m else m

  unfoldable pub outcome_step : OutcomeEvent O → Loop S O → Loop S O
  unfolding take_delivery
  outcome_step (delivery x) l = take_delivery x l
  outcome_step ticker l = flush l
  outcome_step channel_closed l = stop (flush l)
  outcome_step context_done l = stop (flush l)

  unfoldable pub outcome_run : List (OutcomeEvent O) → Loop S O → Loop S O
  unfolding outcome_step
  outcome_run [] l = l
  outcome_run (e ∷ es) l =
      let rest = outcome_run es (outcome_step e l) in if l.stopped then l else rest
