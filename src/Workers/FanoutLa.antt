-- ===== src/Workers/FanoutLa.antt =====
-- internal/workers/fanout_la.go: a master turns a live activity dispatch into one task for each token.
pub mod Refused
pub mod Superseded
pub mod Forward
pub mod Ends
use pushboy.Prelude.{
  ℕ, zero, suc, ◌+◌, String, Bool, true, false, ◌&&◌, not, Option, none, some, List, [], ◌∷◌, ◌++◌,
  eqb, length, Error, wrap, join, deadline, panic, at_not_found, is_error, Result, ok, err, Exec,
  pure, raise, gets, on_error, attempt, ◌>>=◌, ◌>>◌, if◌then◌else◌,
}
use pushboy.Model.LiveActivity.{LiveActivityAction, in_progress}
use pushboy.Model.Task.{DeliveryStatus, LaSendTask, LaSendOutcome, LaJobItem}
use pushboy.Storage.Tables.{LiveActivityToken}
use pushboy.Storage.World.{World}
use pushboy.Storage.Paging.{Collation, TokenBatch}
use pushboy.Storage.LaTokens.{get_la_token_batch_for_dispatch}
use pushboy.Storage.LaJobs.{fail_la_job_if_active}
use pushboy.Storage.LaDispatches.{
  is_update, supersede_la_dispatch_if_stale, update_la_dispatch_status, fail_la_dispatch_enqueue,
  complete_la_dispatch_enqueue,
}
use pushboy.Storage.LaOutcomes.{apply_la_outcome_batch}
use pushboy.Pipeline.Outbox.{Outbox, submit}

-- The database and the task pipeline.
pub record LaLane : Type 0 where
  pub world : World
  pub tasks : Outbox LaSendTask

module _ {A : Type 0} where
  abbrev pub with_world : LaLane → Result A × World → Result A × LaLane
  with_world l (r, w) = (r, record l { world = w })

  abbrev pub with_tasks : LaLane → Result A × Outbox LaSendTask → Result A × LaLane
  with_tasks l (r, b) = (r, record l { tasks = b })

  unfoldable pub stored : Exec World A → Exec LaLane A
  stored m l = with_world l (m l.world)

  unfoldable pub emitted : Exec (Outbox LaSendTask) A → Exec LaLane A
  emitted m l = with_tasks l (m l.tasks)

abbrev pub la_task_for : LaJobItem → LiveActivityToken → LaSendTask
la_task_for job x = record {
  target = record { token_id = x.id; token = x.token; platform = x.platform };
  la_job = job;
}

-- The outcome of a task that the pipeline refused, at a time; its receipt has no id.
abbrev pub refused_outcome : ℕ → LaSendTask → LaSendOutcome
refused_outcome now task = record {
  task = task;
  receipt = record {
    id = "";
    job_id = task.la_job.dispatch_id;
    token_id = task.target.token_id;
    status = DeliveryStatus.failed;
    status_reason = "task enqueue failed";
    dispatched_at = now;
  };
}

abbrev pub note_refused :
    ℕ → LaSendTask → Result (Unit {0}) → List LaSendOutcome → List LaSendOutcome
note_refused now task (ok _) rest = rest
note_refused now task (err e) rest = refused_outcome now task ∷ rest

-- `pushLATokensToPipeline`, which returns the outcomes of the tasks that were refused.
unfoldable pub push_la_tokens_to_pipeline :
    LaJobItem → List LiveActivityToken → Exec LaLane (List LaSendOutcome)
unfolding emitted submit
push_la_tokens_to_pipeline job [] = pure []
push_la_tokens_to_pipeline job (x ∷ xs) = attempt (emitted (submit (la_task_for job x))) λ r. do
  now ← gets (λ (l : LaLane). l.world.clock)
  rest ← push_la_tokens_to_pipeline job xs
  pure (note_refused now (la_task_for job x) r rest)

unfoldable pub apply_la_enqueue_failures : List LaSendOutcome → Exec LaLane (Unit {0})
unfolding stored
apply_la_enqueue_failures os =
    if eqb (length os) 0
    then pure tt
    else on_error (wrap "error recording LA enqueue failures") (stored (apply_la_outcome_batch os))

abbrev is_start : LiveActivityAction → Bool
is_start LiveActivityAction.start = true
is_start _ = false

unfoldable pub fail_la_start_after_dispatch_failure : LaJobItem → Exec LaLane (Unit {0})
unfolding stored
fail_la_start_after_dispatch_failure job =
    if is_start job.action
    then attempt (stored (fail_la_job_if_active job.job_id)) (λ _. pure tt)
    else pure tt

abbrev joined_with : Error → Result (Unit {0}) → Error
joined_with cause (ok _) = cause
joined_with cause (err e) = join cause e

unfoldable pub fail_la_dispatch_fanout :
    {A : Type 0} → LaJobItem → ℕ → List LaSendOutcome → Error → Exec LaLane A
unfolding apply_la_enqueue_failures fail_la_start_after_dispatch_failure
fail_la_dispatch_fanout job total refused cause =
    attempt (stored (fail_la_dispatch_enqueue job.dispatch_id total)) λ a.
      attempt (apply_la_enqueue_failures refused)
        λ b. fail_la_start_after_dispatch_failure job >> raise (joined_with (joined_with cause a) b)

-- `if err != nil { return failLADispatchFanout(…) }`; a panic is not an error.
abbrev pub checked :
    {A B : Type 0}
    → LaJobItem
    → ℕ
    → List LaSendOutcome
    → String
    → (A → Exec LaLane B)
    → Result A
    → Exec LaLane B
checked job total refused text next (ok a) = next a
checked job total refused text next (err panic) = raise panic
checked job total refused text next (err e) =
    fail_la_dispatch_fanout job total refused (wrap text e)

-- The check before a batch: whether a newer update makes this one stale.
abbrev pub stale_check : LaJobItem → ℕ → Exec LaLane Bool
stale_check job total =
    if is_update job.action
    then stored (supersede_la_dispatch_if_stale job.dispatch_id total)
    else pure false

-- How the loop ends: superseded, or with the number of tokens; and the outcomes of refused tasks.
pub data LoopEnd : Type 0 where
  superseded : LoopEnd
  all_pushed : ℕ → LoopEnd

module _ (c : Collation) where
  unfoldable pub la_fanout_loop :
      ℕ
      → ℕ
      → LaJobItem
      → String
      → ℕ
      → List LaSendOutcome
      → Exec LaLane (LoopEnd × List LaSendOutcome)
  unfolding fail_la_dispatch_fanout push_la_tokens_to_pipeline
  la_fanout_loop zero size job cursor total refused = raise deadline
  la_fanout_loop (suc fuel) size job cursor total refused = attempt (stale_check job total) (
      checked job total refused "error checking supersede state for dispatch" λ stale.
        if stale
        then pure (superseded, refused)
        else attempt (stored (get_la_token_batch_for_dispatch c job.dispatch_id cursor size)) (
            checked job total refused "error fetching live activity tokens" λ batch. do
              outcomes ← push_la_tokens_to_pipeline job batch.tokens
              let total' = total + length batch.tokens in
                  let refused' = refused ++ outcomes in
                  let next = la_fanout_loop fuel size job batch.next_cursor total' refused' in
                  if not batch.has_more then pure (all_pushed total', refused') else next))

  abbrev pub finish_la : LaJobItem → LoopEnd × List LaSendOutcome → Exec LaLane (Unit {0})
  finish_la job (superseded, refused) = apply_la_enqueue_failures refused
  finish_la job (all_pushed total, refused) =
      attempt (stored (complete_la_dispatch_enqueue job.dispatch_id total)) (
        checked job total refused "error completing live activity dispatch enqueue"
          λ _. apply_la_enqueue_failures refused)

  unfoldable pub fanout_la_tokens : ℕ → ℕ → LaJobItem → Exec LaLane (Unit {0})
  unfolding la_fanout_loop
  fanout_la_tokens fuel size job = attempt (stale_check job 0) (
      checked job 0 [] "error checking supersede state for dispatch" λ stale.
        if stale
        then pure tt
        else attempt (stored (update_la_dispatch_status job.dispatch_id in_progress)) (
            checked job 0 [] "error marking live activity dispatch in progress"
              λ _. la_fanout_loop fuel size job "" 0 [] >>= finish_la job))
