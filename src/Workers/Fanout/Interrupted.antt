-- ===== src/Workers/Fanout/Interrupted.antt =====
-- A fan-out whose context ends before its last task is taken.
use pushboy.Prelude.{
  ℕ, zero, suc, ◌+◌, ◌-◌, ◌≤◌, ◌<◌, String, ◌≡◌, refl, ap, ◌∙◌, List, [], ◌∷◌, ◌++◌, map, arith,
  length, take, length-take, length-drop, err, canceled, attempt, ◌>>=◌, inl, inr, leb, Bool-cases,
}
use pushboy.Model.Push.{in_progress}
use pushboy.Model.Task.{SendTask, JobItem}
use pushboy.Storage.Tables.{Token}
use pushboy.Storage.World.{World, IsReliable, advance, advance-IsReliable}
use pushboy.Storage.PushJobs.{on_job, status_row}
use pushboy.Storage.PushJobs.Reliable.{update_job_status_reliable}
use pushboy.Storage.Paging.{Collation}
use pushboy.Storage.Paging.Walk.{IsKeyed}
use pushboy.Storage.Paging.Batches.{left, left_start, length-order_by, batch_cases}
use pushboy.Storage.Tokens.{key}
use pushboy.Workers.Fanout.{
  Lane, stored, emit_all, task_for, targets, fanout_loop, fanout_push_token,
}
use pushboy.Workers.Fanout.Emission.{lane, HasTarget, fetch_batch_reliable, emit_all-room}

emit_all-short :
    (job : JobItem) (ts : List Token) (w : World) (em : List SendTask) (n : ℕ)
    → n < length ts
    → (fill : List SendTask) × (emit_all job ts (lane w em n) ≡ (err canceled, lane w fill 0))
unfolding emit_all ◌>>=◌
emit_all-short job [] w em n h = absurd (omega arith)
emit_all-short job (t ∷ ts) w em zero h = (em, refl)
emit_all-short job (t ∷ ts) w em (suc n) h =
    emit_all-short job ts w (em ++ task_for job t ∷ []) n (omega arith)

module _ (c : Collation) where
  abbrev IsStopped : World → Lane → Type 0
  IsStopped w l = (l.world.db ≡ w.db) × (l.room ≡ 0)

  fanout_loop-short :
      (fuel size : ℕ) (job : JobItem) (cursor : String) (total : ℕ) (w : World) (em : List SendTask)
      (n : ℕ)
      → 0 < size
      → IsReliable w
      → HasTarget job
      → IsKeyed key c (targets c job w.db)
      → length (left key c cursor (targets c job w.db)) < fuel
      → n < length (left key c cursor (targets c job w.db))
      → (l : Lane) × IsStopped w l
        × (fanout_loop c fuel size job cursor total (lane w em n) ≡ (err canceled, l))
  unfolding fanout_loop ◌>>=◌
  fanout_loop-short zero size job cursor total w em n s r t k f m = absurd (omega arith)
  fanout_loop-short (suc fuel) zero job cursor total w em n s r t k f m = absurd (omega arith)
  fanout_loop-short (suc fuel) (suc size) job cursor total w em n s r t k f m =
      let rest = left key c cursor (targets c job w.db) in
      elim (batch_cases key c size cursor (targets c job w.db) k) [
        | inl (z, (e, d, h)) ↦
            let short : length (take (suc size) rest) ≡ suc size =
              omega (arith, length-take (suc size) rest) in
            elim (Bool-cases (leb (suc size) n)) [
              | inl y ↦
                  let fits : length (take (suc size) rest) ≤ n = ground (arith, short) in
                  let ih =
                    fanout_loop-short fuel (suc size) job (key z)
                      (total + length (take (suc size) rest)) (advance w)
                      (em ++ map (task_for job) (take (suc size) rest))
                      (n - length (take (suc size) rest)) s (advance-IsReliable w r) t k
                      (rw d (omega (arith, length-drop (suc size) rest, h, f)))
                      (rw d (omega (arith, length-drop (suc size) rest, short, m, fits))) in
                  (
                    ih.0,
                    ih.1,
                    rw
                        (
                          fetch_batch_reliable c job cursor (suc size) w em n _ r t e,
                          emit_all-room job (take (suc size) rest) (advance w) em n fits,
                        )
                        ih.2,
                  )
              | inr y ↦
                  let stop =
                    emit_all-short job (take (suc size) rest) (advance w) em n
                      (ground (arith, short)) in
                  (
                    lane (advance w) stop.0 0,
                    (refl, refl),
                    rw (fetch_batch_reliable c job cursor (suc size) w em n _ r t e, stop.1) refl,
                  )
            ]
        | inr e ↦
            let stop = emit_all-short job rest (advance w) em n m in
            (
              lane (advance w) stop.0 0,
              (refl, refl),
              rw (fetch_batch_reliable c job cursor (suc size) w em n _ r t e, stop.1) refl,
            )
      ]

  -- A fan-out of a job with distinct ids whose context ends before its last task is taken, in a world
  -- that loses no statement, returns the context's error and leaves the job IN_PROGRESS: nothing
  -- else is written, so the tasks that went out have no total to reach.
  pub fanout_push_token_stranded :
      (fuel size : ℕ) (job : JobItem) (w : World) (em : List SendTask) (n : ℕ)
      → 0 < size
      → IsReliable w
      → HasTarget job
      → IsKeyed key c (targets c job w.db)
      → length (targets c job w.db) < fuel
      → n < length (targets c job w.db)
      → let r = fanout_push_token c fuel size job (lane w em n) in
        (r.0 ≡ err canceled)
        × (r.1.room ≡ 0)
        × ((t : ℕ) × (r.1.world.db ≡ on_job job.id (status_row in_progress t) w.db))
  unfolding fanout_push_token stored ◌>>=◌ attempt
  fanout_push_token_stranded fuel size job w em n s r t k f m =
      let start = left_start key c (targets c job w.db) k in
      let count = ap length start ∙ length-order_by key c (targets c job w.db) in
      let run =
        fanout_loop-short fuel size job "" 0
          (record (advance w) {
            db = on_job job.id (status_row in_progress (advance w).clock) w.db;
          })
          em n s (advance-IsReliable w r) t k (omega (arith, count, f)) (omega (arith, count, m)) in
      rw (update_job_status_reliable job.id in_progress w r, run.2)
        (refl, run.1.1, ((advance w).clock, run.1.0))
