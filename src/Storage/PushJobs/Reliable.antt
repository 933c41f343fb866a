-- ===== src/Storage/PushJobs/Reliable.antt =====
-- The updates of a job in a world that loses no statement.
use pushboy.Prelude.{ℕ, String, ◌≡◌, refl, on_error}
use pushboy.Model.Push.{NotificationJobStatus}
use pushboy.Storage.World.{World, IsReliable, advance, statement, statement_at_reliable, settle}
use pushboy.Storage.PushJobs.{
  update_job_status, finalize_job_dispatch, complete_job_if_done, job_statement, status_row,
  finalize_row, complete_row,
}

pub update_job_status_reliable :
    (id : String) (st : NotificationJobStatus) (w : World)
    → IsReliable w
    → update_job_status id st w
      ≡ settle (advance w) (job_statement id (status_row st) (advance w).clock w.db)
unfolding update_job_status statement
update_job_status_reliable id st w r =
    statement_at_reliable (λ w. w.clock) (job_statement id (status_row st)) w r

pub finalize_job_dispatch_reliable :
    (id : String) (total : ℕ) (w : World)
    → IsReliable w
    → finalize_job_dispatch id total w
      ≡ settle (advance w) (job_statement id (finalize_row total) (advance w).clock w.db)
unfolding finalize_job_dispatch statement on_error
finalize_job_dispatch_reliable id total w r = rw (statement_at_reliable _ _ w r) refl

pub complete_job_if_done_reliable :
    (id : String) (w : World)
    → IsReliable w
    → complete_job_if_done id w
      ≡ settle (advance w) (job_statement id complete_row (advance w).clock w.db)
unfolding complete_job_if_done statement on_error
complete_job_if_done_reliable id w r = rw (statement_at_reliable _ _ w r) refl
