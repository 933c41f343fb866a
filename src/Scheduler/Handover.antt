-- ===== src/Scheduler/Handover.antt =====
-- What becomes of the jobs that are due, in a world that loses no statement.
use mathlib.Core.List.{append-nil, append_assoc}
use pushboy.Prelude.{
  ℕ, String, ◌≡◌, refl, sym, ◌∙◌, true, false, Option, none, some, List, [], ◌∷◌, ◌++◌, map, select,
  update_where, arith, Error, ok, attempt, ◌>>=◌, All, Bool-cases, inl, inr, ◌⊎◌, subst, on_error,
  if◌then◌else◌,
}
use pushboy.Model.Push.{failed}
use pushboy.Model.Task.{JobItem}
use pushboy.Storage.Tables.{Db, PublishJob}
use pushboy.Storage.World.{
  World, IsReliable, advance, advance-IsReliable, statement, statement_at_reliable,
}
use pushboy.Storage.PushJobs.{get_scheduled_jobs, on_job, status_row, is_due, claim, has_id}
use pushboy.Storage.PushJobs.Reliable.{update_job_status_reliable}
use pushboy.Scheduler.{Due, stored, item_of, submit_jobs, process_scheduled_jobs}

-- The jobs that the queue takes, and those that it refuses, by its answers in turn.
abbrev pub accepted : List PublishJob → List (Option Error) → List PublishJob
accepted [] answers = []
accepted (j ∷ js) [] = j ∷ accepted js []
accepted (j ∷ js) (none ∷ answers) = j ∷ accepted js answers
accepted (j ∷ js) (some e ∷ answers) = accepted js answers

abbrev pub refused : List PublishJob → List (Option Error) → List PublishJob
refused [] answers = []
refused (j ∷ js) [] = refused js []
refused (j ∷ js) (none ∷ answers) = refused js answers
refused (j ∷ js) (some e ∷ answers) = j ∷ refused js answers

abbrev pub mark_failed : List PublishJob → Db → Db
mark_failed [] d = d
mark_failed (j ∷ js) d = mark_failed js (on_job j.id (λ k. record k { status = failed }) d)

abbrev pub claimed : ℕ → Db → Db
claimed now d = record d { jobs = update_where (is_due now) claim d.jobs }

abbrev pub due : World → List JobItem → List (Option Error) → Due
due w taken answers = record { world = w; jobs = record { taken = taken; answers = answers } }

submit_jobs_reliable :
    (js : List PublishJob) (w : World) (taken : List JobItem) (answers : List (Option Error))
    → IsReliable w
    → let r = submit_jobs js (due w taken answers) in
      (r.0 ≡ ok tt)
      × (r.1.jobs.taken ≡ taken ++ map item_of (accepted js answers))
      × (r.1.world.db ≡ mark_failed (refused js answers) w.db)
unfolding submit_jobs attempt ◌>>=◌ status_row
submit_jobs_reliable [] w taken answers r = (refl, sym (append-nil taken), refl)
submit_jobs_reliable (j ∷ js) w taken [] r =
    let ih = submit_jobs_reliable js w (taken ++ item_of j ∷ []) [] r in
    (ih.0, ih.1 ∙ append_assoc taken (item_of j ∷ []) _, ih.2)
submit_jobs_reliable (j ∷ js) w taken (none ∷ answers) r =
    let ih = submit_jobs_reliable js w (taken ++ item_of j ∷ []) answers r in
    (ih.0, ih.1 ∙ append_assoc taken (item_of j ∷ []) _, ih.2)
submit_jobs_reliable (j ∷ js) w taken (some e ∷ answers) r =
    rw (update_job_status_reliable j.id failed w r)
      (submit_jobs_reliable js _ taken answers (advance-IsReliable w r))

update_where-not_due :
    (now : ℕ) (js : List PublishJob)
    → All (λ (j : PublishJob). is_due now j ≡ false) (update_where (is_due now) claim js)
update_where-not_due now [] = tt
update_where-not_due now (j ∷ js) =
    (not_due (Bool-cases (is_due now j)), update_where-not_due now js)
  where
    not_due :
        (is_due now j ≡ true) ⊎ (is_due now j ≡ false)
        → is_due now (if is_due now j then claim j else j) ≡ false
    not_due (inl e) = rw e refl
    not_due (inr e) = rw (e, e) refl

mark-not_due :
    (now : ℕ) (id : String) (js : List PublishJob)
    → All (λ (j : PublishJob). is_due now j ≡ false) js
    → All
        (λ (j : PublishJob). is_due now j ≡ false)
        (update_where (has_id id) (λ k. record k { status = failed }) js)
mark-not_due now id [] h = tt
mark-not_due now id (j ∷ js) h = (ground (arith, h.0), mark-not_due now id js h.1)

mark_failed-not_due :
    (now : ℕ) (fs : List PublishJob) (d : Db)
    → All (λ (j : PublishJob). is_due now j ≡ false) d.jobs
    → All (λ (j : PublishJob). is_due now j ≡ false) (mark_failed fs d).jobs
mark_failed-not_due now [] d h = h
mark_failed-not_due now (f ∷ fs) d h = mark_failed-not_due now fs _ (mark-not_due now f.id d.jobs h)

get_scheduled_jobs_reliable :
    (w : World)
    → IsReliable w
    → get_scheduled_jobs w ≡ (
      ok (map claim (select (is_due (advance w).clock) w.db.jobs)),
      record (advance w) { db = claimed (advance w).clock w.db },
    )
unfolding get_scheduled_jobs on_error statement
get_scheduled_jobs_reliable w r = rw (statement_at_reliable _ _ w r) refl

-- Where no statement is lost, every job that is due goes to the queue, in the order of the table,
-- or is marked FAILED, by the queue's answer; it is claimed, so that it is not due again, and
-- nothing else changes.
pub process_scheduled_jobs_lem :
    (w : World) (taken : List JobItem) (answers : List (Option Error))
    → IsReliable w
    → let r = process_scheduled_jobs (due w taken answers) in
      let now = (advance w).clock in
      let js = map claim (select (is_due now) w.db.jobs) in
      (r.0 ≡ ok tt)
      × (r.1.jobs.taken ≡ taken ++ map item_of (accepted js answers))
      × (r.1.world.db ≡ mark_failed (refused js answers) (claimed now w.db))
      × All (λ (j : PublishJob). is_due now j ≡ false) r.1.world.db.jobs
unfolding process_scheduled_jobs stored attempt
process_scheduled_jobs_lem w taken answers r =
    let now = (advance w).clock in
    let run =
      submit_jobs_reliable (map claim (select (is_due now) w.db.jobs))
        (record (advance w) { db = claimed now w.db }) taken answers (advance-IsReliable w r) in
    rw (get_scheduled_jobs_reliable w r) (
      run.0,
      run.1,
      run.2,
      subst (λ (d : Db). All (λ (j : PublishJob). is_due now j ≡ false) d.jobs) (sym run.2)
          (mark_failed-not_due now (refused (map claim (select (is_due now) w.db.jobs)) answers)
            (claimed now w.db) (update_where-not_due now w.db.jobs)),
    )
