-- ===== src/Workers/Fanout.antt =====
-- internal/workers/fanout.go, `FanoutPushToken`: a master turns a job into one task for each token.
pub mod Emission
pub mod Dispatched
pub mod Interrupted
use pushboy.Prelude.{
  ℕ, zero, suc, ◌+◌, String, Bool, true, false, not, List, [], ◌∷◌, ◌++◌, ◌==◌, length, Error,
  panic, message, opaque_cause, canceled, deadline, Result, ok, err, Exec, pure, raise, on_error,
  attempt, ◌>>=◌, ◌>>◌, if◌then◌else◌,
}
use pushboy.Model.Push.{in_progress, failed}
use pushboy.Model.Task.{SendTask, JobItem}
use pushboy.Storage.Tables.{Db, Token}
use pushboy.Storage.World.{World}
use pushboy.Storage.Paging.{Collation, TokenBatch}
use pushboy.Storage.Tokens.{
  user_tokens, topic_tokens, get_token_batch_for_user, get_token_batch_for_topic, from_result,
}
use pushboy.Storage.PushJobs.{update_job_status, finalize_job_dispatch, complete_job_if_done}

-- The database, the tasks that were emitted, and how many more are taken before the context ends.
pub record Lane : Type 0 where
  pub world : World
  pub emitted : List SendTask
  pub room : ℕ

module _ {A : Type 0} where
  abbrev pub relay : Lane → Result A × World → Result A × Lane
  relay l (r, w) = (r, record l { world = w })

  -- A call of the store.
  unfoldable pub stored : Exec World A → Exec Lane A
  stored m l = relay l (m l.world)

abbrev accept : ℕ → SendTask → Lane → Result (Unit {0}) × Lane
accept zero t l = (err canceled, l)
accept (suc n) t l = (ok tt, record l { emitted = l.emitted ++ t ∷ []; room = n })

unfoldable pub emit : SendTask → Exec Lane (Unit {0})
emit t l = accept l.room t l

abbrev pub task_for : JobItem → Token → SendTask
task_for job t = record {
  target = record { token_id = t.id; token = t.token; platform = t.platform };
  job = job;
}

unfoldable pub emit_all : JobItem → List Token → Exec Lane (Unit {0})
unfolding emit
emit_all job [] = pure tt
emit_all job (t ∷ ts) = emit (task_for job t) >> emit_all job ts

-- An error of the store fails the job and is returned; a panic is not an error.
abbrev failed_with : {A : Type 0} → String → String → Result A → Exec Lane A
failed_with id text (ok a) = pure a
failed_with id text (err panic) = raise panic
failed_with id text (err e) =
    attempt (stored (update_job_status id failed)) (λ _. raise (opaque_cause text e))

unfoldable pub or_fail : {A : Type 0} → String → String → Exec Lane A → Exec Lane A
or_fail id text m = attempt m (failed_with id text)

module _ (c : Collation) where
  -- The tokens that the job is for.
  abbrev pub targets : JobItem → Db → List Token
  targets job d =
      if not (job.topic_id == "") then topic_tokens job.topic_id d else user_tokens job.user_id d

  unfoldable pub fetch_batch : JobItem → String → ℕ → Exec Lane (TokenBatch Token)
  unfolding stored or_fail
  fetch_batch job cursor size =
      if not (job.topic_id == "")
      then or_fail job.id "error fetching tokens"
          (stored (get_token_batch_for_topic c job.topic_id cursor size))
      else if not (job.user_id == "")
      then or_fail job.id "error fetching tokens"
          (stored (get_token_batch_for_user c job.user_id cursor size))
      else raise
          (message "can only fetch tokens for either user or topic. Require topicID or userID")

  -- The loop, with the number of its rounds bounded; it returns `totalTokenCount`.
  unfoldable pub fanout_loop : ℕ → ℕ → JobItem → String → ℕ → Exec Lane ℕ
  unfolding fetch_batch emit_all
  fanout_loop zero size job cursor total = raise deadline
  fanout_loop (suc fuel) size job cursor total = do
    batch ← fetch_batch job cursor size
    emit_all job batch.tokens
    let total' = total + length batch.tokens in
        let next = fanout_loop fuel size job batch.next_cursor total' in
        if not batch.has_more then pure total' else next

  unfoldable pub fanout_push_token : ℕ → ℕ → JobItem → Exec Lane (Unit {0})
  unfolding fanout_loop
  fanout_push_token fuel size job = attempt (stored (update_job_status job.id in_progress)) λ _. do
    total ← fanout_loop fuel size job "" 0
    or_fail job.id "error finalizing dispatch" (stored (finalize_job_dispatch job.id total))
    on_error (opaque_cause "error rechechking job completion")
        (stored (complete_job_if_done job.id))
