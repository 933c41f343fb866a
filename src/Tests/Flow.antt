-- ===== src/Tests/Flow.antt =====
-- The pipelines and what stands at their ends.
use pushboy.Prelude.{
  map, ℕ, String, ◌<◌, ◌≡◌, refl, ◌↔◌, true, false, Option, none, some, List, [], ◌∷◌, ◌++◌, Result,
  ok, err, is_error, closed, canceled, message, arith, length, All,
}
use pushboy.Model.Push.{Platform, queued}
use pushboy.Model.Task.{success, SendTask}
use pushboy.Pipeline.{
  MemoryPipeline, PipelineEvent, submit, send_case, receive, receive_done, close, pipeline_run,
  pipeline_step, sent, outputs, no_item,
}
use pushboy.Pipeline.Order.{pipeline_fifo, shut_drains}
use pushboy.Pipeline.Retry.{new_delivery, retries, submits, retries_unlimited}
use pushboy.Workers.Outcome.{
  OutcomeWorker, OutcomeEvent, delivery, ticker, channel_closed, begin, outcome_run,
}
use pushboy.Workers.Outcome.Delivery.{
  recording, forget, deliveries, outcome_run_once, outcome_run_complete,
}
use pushboy.Workers.Dispatch.{
  Dispatcher, dispatch_push_task, dispatch_la_task, push_receipt, la_receipt,
}
use pushboy.Workers.Loops.{sender_start}
use pushboy.Workers.Loops.Drained.{
  until_stop, has_stopped, all_lasting, receive_results, calls, push_sender, outcome_of,
  sender_drains,
}
use pushboy.Workers.Dispatch.Recorded.{dispatch_push_task_lem, dispatch_la_task_lem}
use pushboy.Storage.Tables.{PublishJob}
use pushboy.Storage.PushJobs.{is_due}
use pushboy.Scheduler.{process_scheduled_jobs}
use pushboy.Scheduler.Handover.{due, mark_failed, claimed, process_scheduled_jobs_lem}
use pushboy.Tests.Samples.{a_world, a_job, a_task, an_la_task}

abbrev traffic : List (PipelineEvent ℕ)
traffic = submit 4 ∷ submit 5 ∷ send_case 1 ∷ send_case 0 ∷ receive ∷ send_case 0 ∷ close ∷ []

abbrev a_pipeline : MemoryPipeline ℕ
a_pipeline = record { capacity = 1; channel = []; done = false; waiting = [] }

pipeline_fifo_example :
    outputs traffic a_pipeline ++ (pipeline_run traffic a_pipeline).channel
    ≡ sent traffic a_pipeline
pipeline_fifo_example = pipeline_fifo traffic a_pipeline

-- The second item went in first.
sent-traffic : sent traffic a_pipeline ≡ 5 ∷ 4 ∷ []
unfolding pipeline_run pipeline_step
sent-traffic = refl

abbrev shut_pipeline : MemoryPipeline ℕ
shut_pipeline = record { capacity = 2; channel = 4 ∷ 5 ∷ []; done = true; waiting = [] }

shut_drains_example :
    ((es : List (PipelineEvent ℕ)) → sent es shut_pipeline ≡ [])
    × (outputs (receive_done ∷ receive_done ∷ []) shut_pipeline ≡ 4 ∷ 5 ∷ [])
    × ((pipeline_step receive_done
          (pipeline_run (receive_done ∷ receive_done ∷ []) shut_pipeline)).0
        ≡ no_item closed)
shut_drains_example = shut_drains shut_pipeline (record { is_done = refl; none_waiting = refl })

retries_unlimited_example : retries 5 2 (new_delivery a_pipeline 4) ≡ submits 5 4 a_pipeline
retries_unlimited_example = retries_unlimited 5 2 a_pipeline 4

-- A worker whose store keeps what it is given.
abbrev keep : List ℕ → List ℕ → Result (Unit {0}) × List ℕ
keep xs s = (ok tt, s ++ xs)

abbrev a_worker : OutcomeWorker (List ℕ) ℕ
a_worker = record { apply = keep; queue_size = 2; queue_flush_time = 10 }

abbrev a_day : List (OutcomeEvent ℕ)
a_day =
    delivery 1 ∷ delivery 2 ∷ delivery 3 ∷ ticker ∷ delivery 4 ∷ channel_closed ∷ delivery 5 ∷ []

outcome_run_once_example :
    let r = outcome_run (recording a_worker) a_day (begin ([], [])) in
    (r.state.1 ++ r.batch ≡ deliveries a_day)
    × (forget a_worker r ≡ outcome_run a_worker a_day (begin []))
outcome_run_once_example = outcome_run_once a_worker a_day []

outcome_run_complete_example :
    (length (outcome_run a_worker a_day (begin [])).batch < 2)
    × ((outcome_run a_worker a_day (begin [])).stopped ≡ true
        → ((outcome_run a_worker a_day (begin [])).batch ≡ [])
          × ((outcome_run (recording a_worker) a_day (begin ([], []))).state.1 ≡ deliveries a_day))
outcome_run_complete_example = outcome_run_complete a_worker a_day [] (omega arith) (λ xs s. refl)

-- A provider that refuses every push, and has no live activities.
abbrev a_provider : Platform → Option Dispatcher
a_provider p = some (record { send = λ t n. err (message "410"); send_live_activity = none })

dispatch_push_task_lem_example :
    let r =
      dispatch_push_task
        (λ e. "gone")
        a_provider
        "r1"
        7
        a_task
        (record { taken = []; answers = some closed ∷ [] }) in
    let receipt = push_receipt (λ e. "gone") a_provider "r1" 7 a_task in
    (r.1.taken ≡ record { task = a_task; receipt = receipt } ∷ [])
    × (receipt.job_id ≡ "j1")
    × (receipt.token_id ≡ "t1")
    × (receipt.status ≡ success ↔ r.0 ≡ ok tt)
unfolding is_error
dispatch_push_task_lem_example =
    dispatch_push_task_lem (λ e. "gone") a_provider "r1" 7 a_task [] (some closed ∷ [])

dispatch_la_task_lem_example :
    let r =
      dispatch_la_task
        (λ e. "gone")
        a_provider
        "r1"
        7
        an_la_task
        (record { taken = []; answers = some canceled ∷ [] }) in
    let receipt = la_receipt (λ e. "gone") a_provider "r1" 7 an_la_task in
    (r.1.taken ≡ [])
    × (receipt.job_id ≡ "d1")
    × (receipt.token_id ≡ "t1")
    × (receipt.status ≡ success ↔ r.0 ≡ ok tt)
unfolding is_error
dispatch_la_task_lem_example =
    dispatch_la_task_lem (λ e. "gone") a_provider "r1" 7 an_la_task [] (some canceled ∷ [])

-- The job that is due is refused by the queue.
process_scheduled_jobs_lem_example :
    let r = process_scheduled_jobs (due a_world [] (some closed ∷ [])) in
    (r.0 ≡ ok tt)
    × (r.1.jobs.taken ≡ [])
    × (r.1.world.db ≡ mark_failed (a_job "j2" queued (some 5) ∷ []) (claimed 12 a_world.db))
    × All (λ (j : PublishJob). is_due 12 j ≡ false) r.1.world.db.jobs
process_scheduled_jobs_lem_example =
    process_scheduled_jobs_lem a_world [] (some closed ∷ []) (refl, (refl, tt))

-- Two tasks are left when the pipeline is closed.
abbrev shut_tasks : MemoryPipeline SendTask
shut_tasks = record { capacity = 2; channel = a_task ∷ a_task ∷ []; done = true; waiting = [] }

abbrev draw_for : SendTask → String × ℕ
draw_for task = ("r1", 7)

sender_drains_example :
    ((es : List (PipelineEvent SendTask))
      → let sent_tasks = outputs (until_stop es shut_tasks) shut_tasks in
        (sender_start
            (push_sender (λ e. "gone") a_provider draw_for)
            (receive_results es shut_tasks)
            (record { taken = []; answers = [] })
          ≡ record {
            taken = map (outcome_of (λ e. "gone") a_provider draw_for) sent_tasks;
            answers = [];
          })
        × (sent_tasks ++ (pipeline_run (until_stop es shut_tasks) shut_tasks).channel
            ≡ shut_tasks.channel)
        × (all_lasting es ≡ true
            → has_stopped es shut_tasks ≡ true
            → sent_tasks ≡ shut_tasks.channel))
    × (all_lasting (calls shut_tasks.channel) ≡ true)
    × (has_stopped (calls shut_tasks.channel) shut_tasks ≡ true)
sender_drains_example =
    sender_drains (λ e. "gone") a_provider draw_for shut_tasks []
      (record { is_done = refl; none_waiting = refl })
