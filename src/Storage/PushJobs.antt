-- ===== src/Storage/PushJobs.antt =====
-- internal/storage/postgres.go: the statements on publish_jobs and delivery_receipts. A function
-- whose name ends in `_row` is the SET of an UPDATE with the part of its WHERE that reads the row
-- itself; the statement applies it to the rows with the id.
pub mod Batch
pub mod Lifecycle
pub mod Reliable
use pushboy.Prelude.{
  ℕ, ◌+◌, String, Bool, true, false, ◌&&◌, Option, none, some, List, [], ◌∷◌, ◌++◌, map, ◌==◌, eqb,
  leb, if◌then◌else◌, exists, select, update_where, find_first, Result, ok, err, duplicate,
  rejected, not_found, wrap, Exec, pure, raise, gets, on_error, guard, ◌>>=◌, ◌>>◌,
}
use pushboy.Model.Push.{NotificationJobStatus, queued, scheduled, dispatched, completed}
use pushboy.Model.Task.{DeliveryReceipt}
use pushboy.Storage.Tables.{Db, User, Topic, PublishJob}
use pushboy.Storage.World.{World, Sql, statement, statement_at, transaction, no_change}
use pushboy.Storage.Outcome.{PushOutcomeDelta, Deltas, summarize_push_receipts}

-- time.go: `requiredTime`, at the time `now` of the process.
unfoldable pub required_time : ℕ → ℕ → ℕ
required_time now t = if eqb t 0 then now else t

abbrev pub is_completed : NotificationJobStatus → Bool
is_completed completed = true
is_completed _ = false

abbrev pub is_dispatched : NotificationJobStatus → Bool
is_dispatched dispatched = true
is_dispatched _ = false

abbrev pub is_scheduled : NotificationJobStatus → Bool
is_scheduled scheduled = true
is_scheduled _ = false

abbrev pub has_id : String → PublishJob → Bool
has_id id j = j.id == id

abbrev pub on_job : String → (PublishJob → PublishJob) → Db → Db
on_job id f d = record d { jobs = update_where (has_id id) f d.jobs }

-- An UPDATE of one job, by its id.
abbrev pub job_statement : String → (ℕ → PublishJob → PublishJob) → Sql (Unit {0})
job_statement id f now d = (ok tt, on_job id (f now) d)

unfoldable pub status_row : NotificationJobStatus → ℕ → PublishJob → PublishJob
status_row st now j =
    if is_completed st
    then record j { status = st; completed_at = some now }
    else record j { status = st }

unfoldable pub update_job_status : String → NotificationJobStatus → Exec World (Unit {0})
unfolding status_row
update_job_status id st = statement (job_statement id (status_row st))

unfoldable pub finalize_row : ℕ → ℕ → PublishJob → PublishJob
finalize_row total now j =
    if eqb total 0
    then record j { total_count = total; status = completed; completed_at = some now }
    else record j { total_count = total; status = dispatched }

unfoldable pub finalize_job_dispatch : String → ℕ → Exec World (Unit {0})
unfolding finalize_row
finalize_job_dispatch id total =
    on_error
      (wrap
        (if eqb total 0 then "error finalizing empty dispatch" else "error finalizing dispatch"))
      (statement (job_statement id (finalize_row total)))

unfoldable pub complete_row : ℕ → PublishJob → PublishJob
complete_row now j =
    if is_dispatched j.status && leb j.total_count (j.success_count + j.failure_count)
    then record j { status = completed; completed_at = some now }
    else j

unfoldable pub complete_job_if_done : String → Exec World (Unit {0})
unfolding complete_row
complete_job_if_done id =
    on_error (wrap "error completing job") (statement (job_statement id complete_row))

unfoldable pub count_row : PushOutcomeDelta → ℕ → PublishJob → PublishJob
count_row delta now j = record j {
  success_count = j.success_count + delta.success;
  failure_count = j.failure_count + delta.failure;
}

unfoldable pub increment_job_counters : String → ℕ → ℕ → Exec World (Unit {0})
unfolding count_row
increment_job_counters id success failure =
    statement (job_statement id (count_row (record { success = success; failure = failure })))

-- The keys of delivery_receipts: the id is new, and the job is there.
abbrev pub has_receipt : String → List DeliveryReceipt → Bool
has_receipt id rs = exists (λ (r : DeliveryReceipt). r.id == id) rs

unfoldable pub insert_receipts : List DeliveryReceipt → Db → Result (Unit {0}) × Db
insert_receipts [] d = (ok tt, d)
insert_receipts (r ∷ rs) d =
    let rest = insert_receipts rs (record d { receipts = d.receipts ++ r ∷ [] }) in
    if has_receipt r.id d.receipts
    then (err (duplicate "delivery_receipts_pkey"), d)
    else if exists (has_id r.job_id) d.jobs
    then rest
    else (err (rejected "delivery_receipts_job_id_fkey"), d)

-- A row that COPY buffers, with the time that is filled in.
abbrev pub dated : ℕ → DeliveryReceipt → DeliveryReceipt
dated now r = record r { dispatched_at = required_time now r.dispatched_at }

-- The loop over `stmt.ExecContext`, which gives the rows to insert.
unfoldable pub buffer_receipts : List DeliveryReceipt → Exec World (List DeliveryReceipt)
unfolding required_time
buffer_receipts [] = pure []
buffer_receipts (r ∷ rs) = do
  now ← gets (λ (w : World). w.clock)
  on_error (wrap "error buffering receipt") (statement no_change)
  rest ← buffer_receipts rs
  pure (dated now r ∷ rest)

unfoldable pub copy_receipts : ℕ → List DeliveryReceipt → Exec World (Unit {0})
unfolding buffer_receipts insert_receipts
copy_receipts now rs = do
  on_error (wrap "error preparing bulk receipt insert") (statement no_change)
  rows ← buffer_receipts rs
  on_error (wrap "error flushing bulk receipt insert")
      (statement_at (λ _. now) (λ _ d. insert_receipts rows d))
  on_error (wrap "error closing bulk receipt insert") (statement no_change)

unfoldable pub bulk_insert_receipts_tx : ℕ → List DeliveryReceipt → Exec World (Unit {0})
unfolding copy_receipts
bulk_insert_receipts_tx now [] = pure tt
bulk_insert_receipts_tx now (r ∷ rs) = copy_receipts now (r ∷ rs)

-- The loop over `deltas`, in the order of the jobs' first receipts.
unfoldable pub apply_deltas : ℕ → Deltas → Exec World (Unit {0})
unfolding count_row complete_row
apply_deltas now [] = pure tt
apply_deltas now ((id, delta) ∷ ds) = do
  on_error (wrap "error updating counters for job")
      (statement_at (λ _. now) (job_statement id (count_row delta)))
  on_error (wrap "error completing job") (statement_at (λ _. now) (job_statement id complete_row))
  apply_deltas now ds

abbrev pub outcome_body : Deltas × List DeliveryReceipt → ℕ → Exec World (Unit {0})
outcome_body (deltas, failures) now = do
  on_error (wrap "error bulk recording failure receipts") (bulk_insert_receipts_tx now failures)
  apply_deltas now deltas

unfoldable pub apply_push_outcome_batch : List DeliveryReceipt → Exec World (Unit {0})
unfolding bulk_insert_receipts_tx apply_deltas
apply_push_outcome_batch [] = pure tt
apply_push_outcome_batch (r ∷ rs) =
    transaction (wrap "error starting outcome transaction")
      (wrap "error committing outcome transaction")
      (outcome_body (summarize_push_receipts (r ∷ rs)))

-- INSERT INTO delivery_receipts of one row.
unfoldable pub record_delivery_receipt : DeliveryReceipt → Exec World (Unit {0})
unfolding insert_receipts required_time
record_delivery_receipt r = do
  now ← gets (λ (w : World). w.clock)
  statement (λ _ d. insert_receipts (dated now r ∷ []) d)

-- The keys of publish_jobs.
abbrev pub has_topic : String → Db → Bool
has_topic id d = exists (λ (t : Topic). t.id == id) d.topics

abbrev pub has_user : String → Db → Bool
has_user id d = exists (λ (u : User). u.id == id) d.users

unfoldable pub insert_job : Bool → String → PublishJob → Db → Result (Unit {0}) × Db
insert_job owned constraint j d =
    if exists (has_id j.id) d.jobs
    then (err (duplicate "publish_jobs_pkey"), d)
    else if owned
    then (ok tt, record d { jobs = d.jobs ++ j ∷ [] })
    else (err (rejected constraint), d)

abbrev pub dated_job : ℕ → PublishJob → PublishJob
dated_job now j = record j { created_at = required_time now j.created_at }

-- The row has no user; the payload is stored as its JSON, and read back equal.
unfoldable pub create_publish_job : PublishJob → Exec World PublishJob
unfolding insert_job required_time
create_publish_job j = do
  now ← gets (λ (w : World). w.clock)
  on_error (wrap "error creating publish job") (
      statement (λ _ d.
        insert_job (has_topic j.topic_id d) "publish_jobs_topic_id_fkey"
          (record (dated_job now j) { user_id = ""; completed_at = none }) d))
  pure (dated_job now j)

unfoldable pub create_user_publish_job : PublishJob → Exec World PublishJob
unfolding insert_job required_time
create_user_publish_job j = do
  known ←
      on_error (wrap "error checking user existence")
        (statement (λ _ d. (ok (has_user j.user_id d), d)))
  guard known not_found
  now ← gets (λ (w : World). w.clock)
  on_error (wrap "error creating user publish job") (
      statement (λ _ d.
        insert_job (has_user j.user_id d) "publish_jobs_user_id_fkey"
          (record (dated_job now j) { topic_id = ""; completed_at = none }) d))
  pure (dated_job now j)

abbrev pub found_job : Option PublishJob → Exec World PublishJob
found_job none = raise not_found
found_job (some j) = pure j

unfoldable pub get_job_status : String → Exec World PublishJob
get_job_status id = do
  found ←
      on_error (wrap "error getting job status")
        (statement (λ _ d. (ok (find_first (has_id id) d.jobs), d)))
  found_job found

abbrev pub due_at : ℕ → Option ℕ → Bool
due_at now none = false
due_at now (some t) = leb t now

abbrev pub is_due : ℕ → PublishJob → Bool
is_due now j = is_scheduled j.status && due_at now j.scheduled_at

abbrev pub claim : PublishJob → PublishJob
claim j = record j { status = queued }

-- The UPDATE returns the rows that it changed, as they are after it.
unfoldable pub get_scheduled_jobs : Exec World (List PublishJob)
get_scheduled_jobs = on_error (wrap "error fetching pending jobs") (
    statement (λ now d. (
      ok (map claim (select (is_due now) d.jobs)),
      record d { jobs = update_where (is_due now) claim d.jobs },
    )))
