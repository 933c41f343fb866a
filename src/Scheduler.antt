-- ===== src/Scheduler.antt =====
-- internal/scheduler/scheduler.go: due jobs go to the job pipeline, and expired tokens are swept.
pub mod Handover
use pushboy.Prelude.{
  ℕ, zero, suc, String, Bool, List, [], ◌∷◌, ltb, Error, Result, ok, err, Exec, pure, attempt,
  ◌>>=◌, ◌>>◌, if◌then◌else◌,
}
use pushboy.Model.Push.{failed}
use pushboy.Model.Task.{JobItem, push}
use pushboy.Storage.Tables.{PublishJob}
use pushboy.Storage.World.{World}
use pushboy.Storage.PushJobs.{update_job_status, get_scheduled_jobs}
use pushboy.Storage.LaTokens.Upkeep.{invalidate_expired_la_update_tokens}
use pushboy.Pipeline.Outbox.{Outbox, submit}

pub record Due : Type 0 where
  pub world : World
  pub jobs : Outbox JobItem

module _ {A : Type 0} where
  abbrev with_world : Due → Result A × World → Result A × Due
  with_world s (r, w) = (r, record s { world = w })

  abbrev with_jobs : Due → Result A × Outbox JobItem → Result A × Due
  with_jobs s (r, b) = (r, record s { jobs = b })

  unfoldable pub stored : Exec World A → Exec Due A
  stored m s = with_world s (m s.world)

  unfoldable pub to_queue : Exec (Outbox JobItem) A → Exec Due A
  to_queue m s = with_jobs s (m s.jobs)

abbrev pub item_of : PublishJob → JobItem
item_of j = record {
  id = j.id;
  job_type = push;
  payload = j.payload;
  max_retry = 0;
  topic_id = j.topic_id;
  user_id = j.user_id;
  total_count = 0;
}

abbrev give_up : String → Result (Unit {0}) → Exec Due (Unit {0})
give_up id (ok _) = pure tt
give_up id (err e) = attempt (stored (update_job_status id failed)) (λ _. pure tt)

unfoldable pub submit_jobs : List PublishJob → Exec Due (Unit {0})
unfolding stored to_queue submit
submit_jobs [] = pure tt
submit_jobs (j ∷ js) = attempt (to_queue (submit (item_of j))) (give_up j.id) >> submit_jobs js

abbrev on_jobs : Result (List PublishJob) → Exec Due (Unit {0})
on_jobs (ok js) = submit_jobs js
on_jobs (err e) = pure tt

unfoldable pub process_scheduled_jobs : Exec Due (Unit {0})
unfolding submit_jobs
process_scheduled_jobs = attempt (stored get_scheduled_jobs) on_jobs

abbrev pub live_activity_sweep_batch_size : ℕ
live_activity_sweep_batch_size = 1000

abbrev pub live_activity_sweep_max_batches : ℕ
live_activity_sweep_max_batches = 2

module _ {S : Type 0} (sweep : ℕ → Exec S ℕ) where
  -- The loop of `runLiveActivitySweep`, with `n` rounds to go.
  unfoldable pub sweep_batches : ℕ → Exec S (Unit {0})
  sweep_batches zero = pure tt
  sweep_batches (suc n) = do
    count ← sweep live_activity_sweep_batch_size
    let rest = sweep_batches n in if ltb count live_activity_sweep_batch_size then pure tt else rest

  unfoldable pub run_live_activity_sweep : Exec S (Unit {0})
  unfolding sweep_batches
  run_live_activity_sweep = sweep_batches live_activity_sweep_max_batches

-- The error of a sweep is logged.
unfoldable pub sweep_live_activity_state : Exec Due (Unit {0})
unfolding stored run_live_activity_sweep invalidate_expired_la_update_tokens
sweep_live_activity_state =
    attempt (run_live_activity_sweep (λ size. stored (invalidate_expired_la_update_tokens size)))
      (λ _. pure tt)

-- What `Start` meets: a tick, or the closed `stopChan`.
pub data SchedulerEvent : Type 0 where
  tick stop : SchedulerEvent

-- The goroutine of `Start`.
unfoldable pub scheduler_start : List SchedulerEvent → Due → Due
unfolding process_scheduled_jobs sweep_live_activity_state
scheduler_start [] s = s
scheduler_start (tick ∷ rest) s =
    scheduler_start rest (sweep_live_activity_state (process_scheduled_jobs s).1).1
scheduler_start (stop ∷ rest) s = s
