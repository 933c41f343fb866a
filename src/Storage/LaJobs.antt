-- ===== src/Storage/LaJobs.antt =====
-- internal/storage/live_activity_postgres.go: the statements on live_activity_jobs. `updated_at` and
-- `created_at` of 0 stand for the zero time.
pub mod Known
pub mod Start
use pushboy.Prelude.{
  ℕ, String, Bool, true, false, ◌&&◌, ◌||◌, not, Option, none, some, List, [], ◌∷◌, ◌++◌, ◌==◌, ltb,
  eqb, if◌then◌else◌, exists, select, count_if, update_where, find_first, Error, duplicate,
  rejected, not_found, driver, wrap, Result, ok, err, Exec, pure, raise, gets, guard, on_error,
  attempt, ◌>>=◌, ◌>>◌, is_some, or_default,
}
use pushboy.Model.LiveActivity.{LiveActivityJobStatus, active, closed, failed}
use pushboy.Storage.Tables.{Db, LiveActivityJob, LiveActivityDispatch}
use pushboy.Storage.World.{World, Sql, statement, statement_at, no_change, transaction}
use pushboy.Storage.PushJobs.{required_time, has_user, has_topic}

abbrev is_active : LiveActivityJobStatus → Bool
is_active active = true
is_active _ = false

-- `status = 'ACTIVE' AND closed_at IS NULL`
abbrev pub is_open : LiveActivityJob → Bool
is_open j = is_active j.status && not (is_some j.closed_at)

abbrev pub is_unexpired : ℕ → Option ℕ → Bool
is_unexpired now none = true
is_unexpired now (some t) = ltb now t

abbrev pub has_id : String → LiveActivityJob → Bool
has_id id j = j.id == id

abbrev pub has_activity : String → LiveActivityJob → Bool
has_activity id j = j.activity_id == id

-- A column that may be NULL, compared with a parameter.
abbrev pub column_is : String → String → Bool
column_is column value = column == value && not (column == "")

-- The jobs of the scope of a job: its type, and its user, or its topic where it has no user.
abbrev pub in_scope : LiveActivityJob → LiveActivityJob → Bool
in_scope job j =
    j.activity_type == job.activity_type
    && (if not (job.user_id == "")
        then column_is j.user_id job.user_id && j.topic_id == ""
        else column_is j.topic_id job.topic_id && j.user_id == "")

-- An UPDATE, and how many rows it changed.
abbrev pub update_jobs :
    (ℕ → LiveActivityJob → Bool) → (ℕ → LiveActivityJob → LiveActivityJob) → Sql ℕ
update_jobs p f now d =
    (ok (count_if (p now) d.la_jobs), record d { la_jobs = update_where (p now) (f now) d.la_jobs })

-- An UPDATE that writes a NOT NULL column: NULL is rejected where there is a row to write it to.
abbrev pub update_not_null :
    String
    → Option String
    → (ℕ → LiveActivityJob → Bool)
    → (ℕ → LiveActivityJob → LiveActivityJob)
    → Sql ℕ
update_not_null column value p f now d =
    if exists (p now) d.la_jobs && not (is_some value)
    then (err (rejected column), d)
    else update_jobs p f now d

-- An UPDATE that must change a row.
abbrev pub require_row : String → Sql ℕ → Exec World (Unit {0})
require_row text q = do
  rows ← on_error (wrap text) (statement q)
  guard (not (eqb rows 0)) not_found

abbrev pub closed_time : Option ℕ → ℕ → Option ℕ
closed_time none now = some now
closed_time (some t) now = some t

abbrev pub ended : LiveActivityJobStatus → ℕ → ℕ → LiveActivityJob → LiveActivityJob
ended st updated_at now j = record j {
  status = st;
  closed_at = closed_time j.closed_at now;
  updated_at = updated_at;
}

unfoldable pub close_la_job_if_active : String → ℕ → Exec World (Unit {0})
unfolding required_time
close_la_job_if_active id updated_at = do
  clock ← gets (λ (w : World). w.clock)
  require_row "error closing LA job" (
      update_jobs (λ _ j. has_id id j && is_open j) (ended closed (required_time clock updated_at)))

unfoldable pub fail_la_job_if_active : String → Exec World (Unit {0})
fail_la_job_if_active id =
    require_row "error failing LA job"
      (update_jobs (λ _ j. has_id id j && is_open j) (λ now. ended failed now now))

unfoldable pub update_la_job_payload_if_active :
    String → Option String → Option String → ℕ → Exec World (Unit {0})
unfolding required_time
update_la_job_payload_if_active id payload options updated_at = do
  clock ← gets (λ (w : World). w.clock)
  require_row "error updating LA job payload" (
      update_not_null "latest_payload" payload
        (λ now j. has_id id j && is_open j && is_unexpired now j.expires_at)
        (λ now j. record j {
          latest_payload = payload;
          options = options;
          updated_at = required_time clock updated_at;
        }))

-- DELETE … WHERE
unfoldable pub rollback_la_start_job : String → Exec World (Unit {0})
rollback_la_start_job id = on_error (wrap "error rolling back LA start job") (
    statement (λ _ d. (
      ok tt,
      if exists (λ (x : LiveActivityDispatch). x.live_activity_job_id == id) d.la_dispatches
          then d
          else record d {
            la_jobs = select (λ (j : LiveActivityJob). not (has_id id j && is_open j)) d.la_jobs;
          },
    )))

-- A row as `scanLAJob` reads it: `COALESCE(options, '{}')`.
abbrev pub scanned : LiveActivityJob → LiveActivityJob
scanned j = record j { options = some (or_default j.options "{}") }

abbrev pub found_la_job : Option LiveActivityJob → Exec World LiveActivityJob
found_la_job none = raise not_found
found_la_job (some j) = pure (scanned j)

abbrev pub read_job :
    String → (ℕ → List LiveActivityJob → Option LiveActivityJob) → Exec World LiveActivityJob
read_job text f = do
  found ← on_error (wrap text) (statement (λ now d. (ok (f now d.la_jobs), d)))
  found_la_job found

unfoldable pub get_la_job : String → Exec World LiveActivityJob
get_la_job id = read_job "error getting LA job" (λ _. find_first (has_id id))

unfoldable pub get_la_job_by_activity_id : String → Exec World LiveActivityJob
get_la_job_by_activity_id id =
    read_job "error getting LA job by activity id" (λ _. find_first (has_activity id))

-- `ORDER BY updated_at DESC LIMIT 1`; of rows with one time, the first.
abbrev pub newer : LiveActivityJob → Option LiveActivityJob → Option LiveActivityJob
newer j none = some j
newer j (some k) = if ltb j.updated_at k.updated_at then some k else some j

abbrev pub latest : List LiveActivityJob → Option LiveActivityJob
latest [] = none
latest (j ∷ js) = newer j (latest js)

abbrev pub current : (LiveActivityJob → Bool) → ℕ → List LiveActivityJob → Option LiveActivityJob
current p now js =
    latest (select (λ (j : LiveActivityJob). p j && is_open j && is_unexpired now j.expires_at) js)

unfoldable pub find_la_job_by_user_scope : String → String → Exec World LiveActivityJob
find_la_job_by_user_scope activity_type user_id = read_job "error finding LA job by user scope" (
    current
      (λ j. j.activity_type == activity_type && column_is j.user_id user_id && j.topic_id == ""))

unfoldable pub find_la_job_by_topic_scope : String → String → Exec World LiveActivityJob
find_la_job_by_topic_scope activity_type topic_id = read_job "error finding LA job by topic scope" (
    current
      (λ j. j.activity_type == activity_type && column_is j.topic_id topic_id && j.user_id == ""))

-- The constraints of live_activity_jobs, in the order in which the server looks at them.
abbrev pub clashes : LiveActivityJob → List LiveActivityJob → Bool
clashes job js = is_open job && exists (λ (j : LiveActivityJob). in_scope job j && is_open j) js

abbrev pub has_owner : LiveActivityJob → Db → Bool
has_owner job d =
    if not (job.user_id == "") then has_user job.user_id d else has_topic job.topic_id d

abbrev pub has_one_owner : LiveActivityJob → Bool
has_one_owner job = if job.user_id == "" then not (job.topic_id == "") else job.topic_id == ""

abbrev pub scope_index : LiveActivityJob → String
scope_index job =
    if job.user_id == ""
    then "idx_live_activity_jobs_active_topic"
    else "idx_live_activity_jobs_active_user"

unfoldable pub insert_la_job : LiveActivityJob → Sql (Unit {0})
insert_la_job job now d =
    if not (is_some job.latest_payload)
    then (err (rejected "latest_payload"), d)
    else if not (has_one_owner job)
    then (err (rejected "live_activity_jobs_check"), d)
    else if exists (has_id job.id) d.la_jobs
    then (err (duplicate "live_activity_jobs_pkey"), d)
    else if exists (has_activity job.activity_id) d.la_jobs
    then (err (duplicate "live_activity_jobs_activity_id_key"), d)
    else if clashes job d.la_jobs
    then (err (duplicate (scope_index job)), d)
    else if has_owner job d
    then (ok tt, record d { la_jobs = d.la_jobs ++ job ∷ [] })
    else (err (rejected "live_activity_jobs_owner_fkey"), d)

-- The jobs of the scope that are open are closed.
unfoldable pub close_scope : LiveActivityJob → Sql (Unit {0})
close_scope job now d = (
  ok tt,
  record d {
    la_jobs =
        update_where (λ (j : LiveActivityJob). in_scope job j && is_open j)
          (λ j. record j { status = closed; closed_at = some now; updated_at = now }) d.la_jobs;
  },
)

-- The part of the transaction after the look-up; an error of the INSERT is passed on as it is.
abbrev pub start_new :
    ℕ → LiveActivityJob → Option LiveActivityJob → Exec World (LiveActivityJob × Bool)
start_new now job (some existing) = pure (scanned existing, false)
start_new now job none = do
  on_error (wrap "error closing existing LA jobs for scope")
      (statement_at (λ _. now) (close_scope job))
  statement_at (λ _. now) (insert_la_job job)
  pure (job, true)

-- The two locks hold other starts of the activity and of the scope off.
abbrev pub start_body : LiveActivityJob → ℕ → Exec World (LiveActivityJob × Bool)
start_body job now = do
  on_error (wrap "error locking LA activity id") (statement no_change)
  on_error
      (wrap (
        if not (job.user_id == "")
        then "error locking LA user scope"
        else "error locking LA topic scope"))
      (statement no_change)
  existing ← on_error (wrap "error loading LA job by activity id") (
      statement_at (λ _. now)
        (λ _ d. (ok (find_first (has_activity job.activity_id) d.la_jobs), d)))
  start_new now job existing

abbrev pub start_transaction : LiveActivityJob → Exec World (LiveActivityJob × Bool)
start_transaction job =
    transaction (wrap "error starting LA start transaction")
      (wrap "error committing LA start transaction") (start_body job)

abbrev not_created : LiveActivityJob → LiveActivityJob × Bool
not_created j = (j, false)

-- `laConstraint` of the error of the INSERT, after which the transaction is rolled back.
abbrev pub by_constraint :
    LiveActivityJob → Result (LiveActivityJob × Bool) → Exec World (LiveActivityJob × Bool)
by_constraint job (ok r) = pure r
by_constraint job (err (duplicate name)) =
    if name == "idx_live_activity_jobs_activity_id"
    then get_la_job_by_activity_id job.activity_id >>= (λ j. pure (not_created j))
    else if name == "idx_live_activity_jobs_active_user"
    then find_la_job_by_user_scope job.activity_type job.user_id >>= (λ j. pure (not_created j))
    else if name == "idx_live_activity_jobs_active_topic"
    then find_la_job_by_topic_scope job.activity_type job.topic_id >>= (λ j. pure (not_created j))
    else raise (wrap "error creating LA start job" (duplicate name))
by_constraint job (err (rejected name)) = raise (wrap "error creating LA start job" (rejected name))
by_constraint job (err driver) = raise (wrap "error creating LA start job" driver)
by_constraint job (err e) = raise e

abbrev pub dated_start : ℕ → LiveActivityJob → LiveActivityJob
dated_start clock job = record job {
  created_at = required_time clock job.created_at;
  updated_at = required_time clock job.updated_at;
}

unfoldable pub create_or_get_la_start_job : LiveActivityJob → Exec World (LiveActivityJob × Bool)
unfolding required_time insert_la_job close_scope get_la_job_by_activity_id
    find_la_job_by_user_scope find_la_job_by_topic_scope
create_or_get_la_start_job job = do
  clock ← gets (λ (w : World). w.clock)
  attempt
      (transaction (wrap "error starting LA start transaction")
        (wrap "error committing LA start transaction") (start_body (dated_start clock job)))
      (by_constraint (dated_start clock job))
