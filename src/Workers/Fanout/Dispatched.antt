-- ===== src/Workers/Fanout/Dispatched.antt =====
-- A whole fan-out in a world that loses no statement.
use pushboy.Prelude.{
  ℕ, ◌+◌, ◌≤◌, ◌<◌, ◌≡◌, refl, ap, ◌∙◌, List, ◌++◌, map, arith, length, ok, attempt, ◌>>=◌,
}
use pushboy.Model.Push.{in_progress}
use pushboy.Model.Task.{SendTask, JobItem}
use pushboy.Storage.Tables.{Db, Token}
use pushboy.Storage.World.{World, IsReliable, advance, advance-IsReliable}
use pushboy.Storage.PushJobs.{on_job, status_row, finalize_row, complete_row}
use pushboy.Storage.PushJobs.Reliable.{
  update_job_status_reliable, finalize_job_dispatch_reliable, complete_job_if_done_reliable,
}
use pushboy.Storage.Paging.{Collation, order_by}
use pushboy.Storage.Paging.Walk.{IsKeyed}
use pushboy.Storage.Paging.Batches.{left, left_start, length-order_by}
use pushboy.Storage.Tokens.{key}
use pushboy.Workers.Fanout.{stored, task_for, targets, fanout_push_token}
use pushboy.Workers.Fanout.Emission.{lane, HasTarget, fanout_loop_lem}

module _ (c : Collation) where
  -- The row of the job once it is dispatched and checked, and all else as it was.
  abbrev pub IsDispatched : JobItem → ℕ → Db → Db → Type 0
  IsDispatched job total before after =
      (t : ℕ) × (u : ℕ) × (v : ℕ) × (after
        ≡ on_job job.id (complete_row v) (
            on_job job.id (finalize_row total u) (on_job job.id (status_row in_progress t) before)))

  abbrev settle_db : World → Db → World
  settle_db w d = record w { db = d }

  -- Where no statement is lost and the context lasts, a fan-out of a job whose targets have distinct
  -- ids succeeds for any batch size above 0: it emits, in the order of the ids, one task for each
  -- live token of the user or of the topic's subscribers, and the job gets their number as its
  -- total; its row goes through IN_PROGRESS, the finalization and the check.
  pub fanout_push_token_lem :
      (fuel size : ℕ) (job : JobItem) (w : World) (em : List SendTask) (n : ℕ)
      → 0 < size
      → IsReliable w
      → HasTarget job
      → IsKeyed key c (targets c job w.db)
      → length (targets c job w.db) < fuel
      → length (targets c job w.db) ≤ n
      → let ts = order_by key c (targets c job w.db) in
        let r = fanout_push_token c fuel size job (lane w em n) in
        (r.0 ≡ ok tt)
        × (r.1.emitted ≡ em ++ map (task_for job) ts)
        × IsDispatched job (length ts) w.db r.1.world.db
  unfolding fanout_push_token stored ◌>>=◌ attempt
  fanout_push_token_lem fuel size job w em n s r t k f m =
      let ts = order_by key c (targets c job w.db) in
      let start = left_start key c (targets c job w.db) k in
      let count = ap length start ∙ length-order_by key c (targets c job w.db) in
      let w1 : World =
        settle_db (advance w) (on_job job.id (status_row in_progress (advance w).clock) w.db) in
      let run =
        fanout_loop_lem c fuel size job "" 0 w1 em n s (advance-IsReliable w r) t k
          (omega (arith, count, f)) (omega (arith, count, m)) in
      let total = 0 + length (left key c "" (targets c job w.db)) in
      let same : total ≡ length ts = omega (arith, ap length start) in
      let w2 : World =
        settle_db (advance run.0)
          (on_job job.id (finalize_row total (advance run.0).clock) run.0.db) in
      rw
        (
          update_job_status_reliable job.id in_progress w r,
          run.3,
          finalize_job_dispatch_reliable job.id total run.0 run.2,
          complete_job_if_done_reliable job.id w2 (advance-IsReliable run.0 run.2),
        )
        (
          refl,
          ap (λ (xs : List Token). em ++ map (task_for job) xs) start,
          (
            (advance w).clock,
            (advance run.0).clock,
            (advance w2).clock,
            ap
                  (λ (d : Db).
                    on_job job.id (complete_row (advance w2).clock)
                      (on_job job.id (finalize_row total (advance run.0).clock) d))
                  run.1
                ∙ ap
                    (λ (k : ℕ).
                      on_job job.id (complete_row (advance w2).clock)
                        (on_job job.id (finalize_row k (advance run.0).clock) w1.db))
                    same,
          ),
        )
