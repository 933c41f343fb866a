-- ===== src/Tests/Push.antt =====
-- The push lane: fan-out, outcomes and the life of a job.
use pushboy.Prelude.{
  ℕ, ◌≤◌, String, ◌≡◌, ◌≢◌, refl, List, [], ◌∷◌, map, ok, err, Error, canceled, arith, some, none,
  lookup, count_if, if◌then◌else◌, false, ◌==◌, eq_iff, ◌>>=◌, insert,
}
use pushboy.Model.Push.{queued, in_progress, completed}
use pushboy.Model.Task.{failed}
use pushboy.Storage.World.{transaction}
use pushboy.Storage.PushJobs.{apply_push_outcome_batch, on_job, status_row}
use pushboy.Storage.PushJobs.Batch.{apply_push_outcome_batch_lem, tally}
use pushboy.Storage.PushJobs.Lifecycle.{
  JobEvent, report, run_events, schedule, schedule_completes, counted, IsSettled,
  run_events-IsSettled, run_events_counts,
}
use pushboy.Storage.Outcome.{
  summarize_push_receipts, summarize_push_receipts_lem, mentions, succeeded, failed_in,
}
use pushboy.Storage.Paging.{order_by}
use pushboy.Storage.Paging.Walk.{IsKeyed}
use pushboy.Storage.Tokens.{key}
use pushboy.Workers.Fanout.{task_for, targets, fanout_push_token}
use pushboy.Workers.Fanout.Emission.{lane, HasTarget}
use pushboy.Workers.Fanout.Dispatched.{fanout_push_token_lem, IsDispatched}
use pushboy.Workers.Fanout.Interrupted.{fanout_push_token_stranded}
use pushboy.Tests.ByOrder.{by_order}
use pushboy.Tests.Samples.{a_world, an_item, a_token, a_job, some_receipts, a_receipt}

differ : (a b : String) → (a == b) ≡ false → a ≢ b
differ a b h = λ e. cc (h, (eq_iff a b).1 e)

item_HasTarget : HasTarget an_item
item_HasTarget = λ e. refl

item_IsKeyed : IsKeyed key by_order (targets by_order an_item a_world.db)
item_IsKeyed = (differ _ _ refl, (differ _ _ refl, tt), (differ _ _ refl, tt, tt))

-- Two live tokens, one by one.
fanout_push_token_lem_example :
    let r = fanout_push_token by_order 5 1 an_item (lane a_world [] 9) in
    (r.0 ≡ ok tt)
    × (r.1.emitted
        ≡ task_for an_item (a_token "t1" false) ∷ task_for an_item (a_token "t2" false) ∷ [])
    × IsDispatched by_order an_item 2 a_world.db r.1.world.db
unfolding order_by
fanout_push_token_lem_example =
    fanout_push_token_lem by_order 5 1 an_item a_world [] 9 (omega arith) (refl, (refl, tt))
      item_HasTarget item_IsKeyed (omega arith) (omega arith)

-- The context ends after one task.
fanout_push_token_stranded_example :
    let r = fanout_push_token by_order 5 1 an_item (lane a_world [] 1) in
    (r.0 ≡ err canceled)
    × (r.1.room ≡ 0)
    × ((t : ℕ) × (r.1.world.db ≡ on_job "j1" (status_row in_progress t) a_world.db))
fanout_push_token_stranded_example =
    fanout_push_token_stranded by_order 5 1 an_item a_world [] 1 (omega arith) (refl, (refl, tt))
      item_HasTarget item_IsKeyed (omega arith) (omega arith)

apply_push_outcome_batch_lem_example :
    let r = apply_push_outcome_batch some_receipts a_world in
    (r.0 ≡ ok tt → r.1.db.jobs ≡ map (tally 12 some_receipts) a_world.db.jobs)
    × ((e : Error) → r.0 ≡ err e → r.1.db ≡ a_world.db)
apply_push_outcome_batch_lem_example = apply_push_outcome_batch_lem some_receipts a_world

-- It does succeed there: two successes and a failure are counted.
batch_succeeds : (apply_push_outcome_batch some_receipts a_world).0 ≡ ok tt
unfolding apply_push_outcome_batch transaction ◌>>=◌ summarize_push_receipts insert
batch_succeeds = refl

abbrev a_history : List (ℕ × JobEvent)
a_history = schedule ((1, report 1 0) ∷ []) (2, 3) ((4, report 0 1) ∷ []) 5 []

schedule_completes_example :
    let k = run_events a_history (a_job "j1" queued none) in
    (2 ≤ counted k → k.status ≡ completed) × (k.status ≡ completed → 2 ≤ counted k)
schedule_completes_example =
    schedule_completes ((1, report 1 0) ∷ []) ((4, report 0 1) ∷ []) [] 2 3 5
      (a_job "j1" queued none) ((λ x. x), tt) tt

run_events-IsSettled_example : IsSettled (run_events a_history (a_job "j1" queued none))
run_events-IsSettled_example = run_events-IsSettled a_history (a_job "j1" queued none) (λ e. cc)

run_events_counts_example :
    let k = run_events a_history (a_job "j1" queued none) in
    (k.success_count ≡ 1) × (k.failure_count ≡ 1)
run_events_counts_example = run_events_counts a_history (a_job "j1" queued none)

summarize_push_receipts_lem_example :
    ((j : String)
      → lookup j (summarize_push_receipts some_receipts).0 ≡ (
          if mentions j some_receipts
          then some (record {
            success = count_if (succeeded j) some_receipts;
            failure = count_if (failed_in j) some_receipts;
          })
          else none))
    × ((summarize_push_receipts some_receipts).1 ≡ a_receipt "r2" failed ∷ [])
summarize_push_receipts_lem_example = summarize_push_receipts_lem some_receipts
