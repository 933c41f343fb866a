-- ===== src/Storage/LaJobs/Start.antt =====
-- The start of a live activity, in a world that loses no statement.
use pushboy.Prelude.{
  ℕ, ◌≡◌, Bool, true, false, ◌&&◌, none, some, List, [], ◌∷◌, ◌++◌, exists, update_where,
  find_first, is_some, err, wrap, rejected, Result, ok,
}
use pushboy.Model.LiveActivity.{closed}
use pushboy.Storage.Tables.{Db, LiveActivityJob}
use pushboy.Storage.World.{World}
use pushboy.Storage.LaJobs.{is_open, has_id, has_activity, in_scope, has_owner, has_one_owner}

abbrev shut : ℕ → LiveActivityJob → LiveActivityJob
shut now j = record j { status = closed; closed_at = some now; updated_at = now }

-- The jobs of a scope that are open, closed.
abbrev pub closed_scope : LiveActivityJob → ℕ → List LiveActivityJob → List LiveActivityJob
closed_scope job now =
    update_where (λ (j : LiveActivityJob). in_scope job j && is_open j) (shut now)

-- The tables once the scope is closed and the job is in.
abbrev pub started : LiveActivityJob → ℕ → Db → Db
started job now d = record d { la_jobs = closed_scope job now d.la_jobs ++ job ∷ [] }

abbrev scope_closed : LiveActivityJob → ℕ → Db → Db
scope_closed job now d = record d { la_jobs = closed_scope job now d.la_jobs }

-- What a job must have to be new: a payload, one owner that is there, and an id and an activity of
-- its own.
pub record IsNew (job : LiveActivityJob) (d : Db) : Type 0 where
  pub payload : is_some job.latest_payload ≡ true
  pub one_owner : has_one_owner job ≡ true
  pub owner : has_owner job d ≡ true
  pub id : exists (has_id job.id) d.la_jobs ≡ false
  pub activity : find_first (has_activity job.activity_id) d.la_jobs ≡ none

abbrev outcome : LiveActivityJob → Bool → Result (LiveActivityJob × Bool)
outcome j created = ok (j, created)

abbrev pub refused_start : Result (LiveActivityJob × Bool)
refused_start = err (wrap "error creating LA start job" (rejected "latest_payload"))
