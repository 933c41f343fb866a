-- ===== src/Storage/LaDispatches.antt =====
-- internal/storage/live_activity_postgres.go: the statements on live_activity_dispatches. A function
-- whose name ends in `_row` is the change of an UPDATE, to a row that its WHERE takes.
pub mod Lifecycle
pub mod Stale
pub mod Statements
use pushboy.Prelude.{
  ℕ, ◌+◌, String, Bool, true, false, ◌&&◌, ◌||◌, not, Option, none, some, List, [], ◌∷◌, ◌++◌, ◌==◌,
  eqb, leb, ltb, if◌then◌else◌, exists, count_if, update_where, find_first, Error, duplicate,
  rejected, message, not_found, at_not_found, is_error, wrap, opaque_cause, Result, ok, err, Exec,
  pure, raise, gets, guard, on_error, attempt, ◌>>=◌, ◌>>◌, is_some,
}
use pushboy.Model.LiveActivity.{
  LiveActivityAction, LiveActivityJobStatus, LiveActivityDispatchStatus, enqueue_pending, queued,
  in_progress, dispatched, completed, failed, superseded,
}
use pushboy.Storage.Tables.{Db, LiveActivityJob, LiveActivityDispatch}
use pushboy.Storage.World.{World, Sql, statement, statement_at, no_change, transaction}
use pushboy.Storage.PushJobs.{required_time}
use pushboy.Storage.LaJobs.{
  update_jobs, is_open, ended, closed_time, close_la_job_if_active, fail_la_job_if_active,
}

abbrev pub has_id : String → LiveActivityDispatch → Bool
has_id id x = x.id == id

abbrev pub is_end : LiveActivityAction → Bool
is_end LiveActivityAction.finish = true
is_end _ = false

abbrev pub is_update : LiveActivityAction → Bool
is_update LiveActivityAction.update = true
is_update _ = false

abbrev pub is_dispatched : LiveActivityDispatchStatus → Bool
is_dispatched dispatched = true
is_dispatched _ = false

abbrev pub is_pending : LiveActivityDispatchStatus → Bool
is_pending enqueue_pending = true
is_pending _ = false

-- `IN ('QUEUED', 'IN_PROGRESS')`
abbrev pub is_waiting : LiveActivityDispatchStatus → Bool
is_waiting queued = true
is_waiting in_progress = true
is_waiting _ = false

-- `IN ('QUEUED', 'IN_PROGRESS', 'DISPATCHED', 'COMPLETED')`
abbrev pub is_under_way : LiveActivityDispatchStatus → Bool
is_under_way queued = true
is_under_way in_progress = true
is_under_way dispatched = true
is_under_way completed = true
is_under_way _ = false

-- `IN ('COMPLETED', 'FAILED')`
abbrev pub is_final : LiveActivityDispatchStatus → Bool
is_final completed = true
is_final failed = true
is_final _ = false

-- An UPDATE, and how many rows it changed.
abbrev pub update_dispatches :
    (Db → LiveActivityDispatch → Bool) → (ℕ → LiveActivityDispatch → LiveActivityDispatch) → Sql ℕ
update_dispatches p f now d = (
  ok (count_if (p d) d.la_dispatches),
  record d { la_dispatches = update_where (p d) (f now) d.la_dispatches },
)

abbrev pub has_la_job : String → Db → Bool
has_la_job id d = exists (λ (j : LiveActivityJob). j.id == id) d.la_jobs

abbrev pub insert_dispatch : LiveActivityDispatch → Sql (Unit {0})
insert_dispatch x now d =
    if not (is_some x.payload)
    then (err (rejected "payload"), d)
    else if exists (has_id x.id) d.la_dispatches
    then (err (duplicate "live_activity_dispatches_pkey"), d)
    else if has_la_job x.live_activity_job_id d
    then (ok tt, record d { la_dispatches = d.la_dispatches ++ x ∷ [] })
    else (err (rejected "live_activity_dispatches_live_activity_job_id_fkey"), d)

unfoldable pub create_la_dispatch : LiveActivityDispatch → Exec World LiveActivityDispatch
unfolding required_time
create_la_dispatch x = do
  clock ← gets (λ (w : World). w.clock)
  let x' = record x { created_at = required_time clock x.created_at } in
      on_error (wrap "error creating LA dispatch") (statement (insert_dispatch x')) >> pure x'

unfoldable pub dispatch_status_row :
    LiveActivityDispatchStatus → ℕ → LiveActivityDispatch → LiveActivityDispatch
dispatch_status_row st now x =
    if is_final st
    then record x { status = st; completed_at = some now }
    else record x { status = st }

unfoldable pub update_la_dispatch_status :
    String → LiveActivityDispatchStatus → Exec World (Unit {0})
unfolding dispatch_status_row
update_la_dispatch_status id st = do
  rows ←
      on_error (wrap "error updating LA dispatch status")
        (statement (update_dispatches (λ _. has_id id) (dispatch_status_row st)))
  guard (not (eqb rows 0)) not_found

unfoldable pub mark_la_dispatch_enqueued : String → Exec World (Unit {0})
mark_la_dispatch_enqueued id = do
  on_error (wrap "error marking LA dispatch enqueued") (
      statement (
        update_dispatches (λ _ x. has_id id x && is_pending x.status)
          (λ _ x. record x { status = queued })))
  pure tt

abbrev pub is_ready : LiveActivityDispatch → Bool
is_ready x = is_dispatched x.status && leb x.total_count (x.success_count + x.failure_count)

abbrev pub complete_row : ℕ → LiveActivityDispatch → LiveActivityDispatch
complete_row now x = record x { status = completed; completed_at = some now }

-- `UPDATE … RETURNING`: the first row that is changed.
abbrev complete_returning :
    (LiveActivityDispatch → Bool)
    → (ℕ → LiveActivityDispatch → LiveActivityDispatch)
    → Sql (Option LiveActivityDispatch)
complete_returning p f now d = (
  ok (find_first p d.la_dispatches),
  record d { la_dispatches = update_where p (f now) d.la_dispatches },
)

unfoldable pub close_la_job_after_end_dispatch_tx : ℕ → String → Exec World (Unit {0})
close_la_job_after_end_dispatch_tx now job_id = do
  on_error (wrap "error closing LA job after end dispatch") (
      statement_at (λ _. now)
        (update_jobs (λ _ j. j.id == job_id && is_open j)
          (λ t. ended LiveActivityJobStatus.closed t t)))
  pure tt

abbrev pub close_after : ℕ → Option LiveActivityDispatch → Exec World (Unit {0})
close_after now none = pure tt
close_after now (some x) =
    if is_end x.action
    then close_la_job_after_end_dispatch_tx now x.live_activity_job_id
    else pure tt

unfoldable pub complete_la_dispatch_if_ready_tx : ℕ → String → Exec World (Unit {0})
unfolding close_la_job_after_end_dispatch_tx
complete_la_dispatch_if_ready_tx now id = do
  done ←
      on_error (wrap "error completing LA dispatch")
        (statement_at (λ _. now) (complete_returning (λ x. has_id id x && is_ready x) complete_row))
  close_after now done

unfoldable pub dispatched_row : ℕ → LiveActivityDispatch → LiveActivityDispatch
dispatched_row total x = record x { total_count = total; status = dispatched }

-- The action's own error is passed over where no job is open.
abbrev unless_missing : String → Result (Unit {0}) → Exec World (Unit {0})
unless_missing text (ok _) = pure tt
unless_missing text (err e) = if is_error at_not_found e then pure tt else raise (wrap text e)

abbrev end_empty : Option LiveActivityDispatch → Exec World (Unit {0})
end_empty none =
    raise (wrap "error completing empty LA dispatch" (message "sql: no rows in result set"))
end_empty (some x) = by_action x.action x.live_activity_job_id
  where
    by_action : LiveActivityAction → String → Exec World (Unit {0})
    by_action LiveActivityAction.start id =
        attempt (fail_la_job_if_active id) (unless_missing "error failing empty LA start job")
    by_action LiveActivityAction.update id = pure tt
    by_action LiveActivityAction.finish id = do
      clock ← gets (λ (w : World). w.clock)
      attempt (close_la_job_if_active id clock) (unless_missing "error closing empty LA end job")

abbrev empty_row : ℕ → LiveActivityDispatch → LiveActivityDispatch
empty_row now x = record x { total_count = 0; status = completed; completed_at = some now }

unfoldable pub complete_empty_la_dispatch : String → Exec World (Unit {0})
complete_empty_la_dispatch id = do
  done ←
      on_error (wrap "error completing empty LA dispatch")
        (statement (complete_returning (has_id id) empty_row))
  end_empty done

unfoldable pub complete_la_dispatch_enqueue : String → ℕ → Exec World (Unit {0})
unfolding complete_empty_la_dispatch complete_la_dispatch_if_ready_tx dispatched_row
complete_la_dispatch_enqueue id total =
    if eqb total 0
    then complete_empty_la_dispatch id
    else transaction (wrap "error starting LA dispatch enqueue completion transaction")
        (wrap "error committing LA dispatch enqueue completion")
        λ now. do
          on_error (wrap "error completing LA dispatch enqueue") (
              statement_at (λ _. now)
                (update_dispatches (λ _. has_id id) (λ _. dispatched_row total)))
          complete_la_dispatch_if_ready_tx now id

unfoldable pub fail_enqueue_row : ℕ → ℕ → LiveActivityDispatch → LiveActivityDispatch
fail_enqueue_row total now x = record x {
  total_count = total;
  status = failed;
  completed_at = some now;
}

unfoldable pub fail_la_dispatch_enqueue : String → ℕ → Exec World (Unit {0})
unfolding fail_enqueue_row
fail_la_dispatch_enqueue id total = do
  on_error (wrap "error failing LA dispatch enqueue") (
      statement (
        update_dispatches (λ _ x. has_id id x && (is_pending x.status || is_waiting x.status))
          (fail_enqueue_row total)))
  pure tt

-- `EXISTS (SELECT 1 FROM live_activity_dispatches newer WHERE …)`
abbrev pub has_newer : Db → LiveActivityDispatch → Bool
has_newer d x =
    exists
      (λ (y : LiveActivityDispatch).
        y.live_activity_job_id == x.live_activity_job_id
        && is_update y.action
        && ltb x.created_at y.created_at
        && is_under_way y.status)
      d.la_dispatches

abbrev pub is_stale : String → Db → LiveActivityDispatch → Bool
is_stale id d x = has_id id x && is_update x.action && is_waiting x.status && has_newer d x

unfoldable pub supersede_row : ℕ → ℕ → LiveActivityDispatch → LiveActivityDispatch
supersede_row emitted now x = record x {
  status = superseded;
  completed_at = some now;
  total_count = emitted;
}

unfoldable pub supersede_la_dispatch_if_stale : String → ℕ → Exec World Bool
unfolding supersede_row
supersede_la_dispatch_if_stale id emitted = do
  rows ←
      on_error (opaque_cause "error superseding LA dispatch")
        (statement (update_dispatches (is_stale id) (supersede_row emitted)))
  pure (not (eqb rows 0))
