-- ===== src/Server/Handlers/LiveActivity/Known.antt =====
-- The job of a live activity request's dispatch is in the table of jobs.
use pushboy.Prelude.{
  ℕ, String, ◌≡◌, refl, Bool, true, false, not, Option, none, some, arith, Error, Result, ok, err,
  Exec, pure, raise, attempt, attempted, continue, ◌>>=◌, ◌==◌, if◌then◌else◌, Gives, Gives-bind,
  Gives-if, Gives-raise, Gives-attempt, Gives-after, Gives-on_error, pure_gives, Preserves,
  Preserves-bind, Preserves-if, Preserves-on_error, Preserves-pure, Preserves-raise, Preserves-gets,
}
use pushboy.Model.LiveActivity.{LiveActivityAction}
use pushboy.Storage.Tables.{Db, LiveActivityJob, LiveActivityDispatch}
use pushboy.Storage.World.{World, statement-Preserves}
use pushboy.Storage.LaJobs.Known.{
  HasJob, AnyJob, Made, create_or_get_la_start_job-Gives, get_la_job_by_activity_id-Gives,
  find_user-Gives, find_topic-Gives, update_payload-HasJob,
}
use pushboy.Storage.LaDispatches.{insert_dispatch, create_la_dispatch, mark_la_dispatch_enqueued}
use pushboy.Service.LiveActivity.Requests.{
  LaDispatchRequest, LaDispatchResult, LaInputs, resolve_la_job_by_scope, find_la_job,
  create_la_dispatch_row, create_la_dispatch_request, create_la_start, create_la_update,
  create_la_end, start_job, new_dispatch, dispatched_as, dispatch_start, by_action, is_closed,
  started_or_rolled_back,
}

-- What a call gives from a state of which `P` holds.
record From {S A : Type 0} (P : S → Type 0) (Q : A → S → Type 0) (call : Exec S A) : Type 0 where
  holds : (before : S) (value : A) → P before → (call before).0 ≡ ok value → Q value (call before).1

module _ {S A B : Type 0} {P : S → Type 0} {Q : B → S → Type 0} where
  next_from :
      (next : A → Exec S B) (r : Result A × S) (value : B)
      → P r.1
      → ((a : A) → From P Q (next a))
      → (continue next r).0 ≡ ok value
      → Q value (continue next r).1
  next_from next (ok a, s) value k all h = (all a).holds s value k h
  next_from next (err e, s) value k all h = cc

  From-bind :
      (call : Exec S A) (next : A → Exec S B)
      → Preserves P call
      → ((a : A) → From P Q (next a))
      → From P Q (call >>= next)
  unfolding ◌>>=◌
  From-bind call next keeps all = record {
    holds = λ before value k h. next_from next (call before) value (keeps.holds before k) all h;
  }

  attempted_from :
      (next : Result A → Exec S B) (r : Result A × S) (value : B)
      → P r.1
      → ((a : A) → From P Q (next (ok a)))
      → ((e : Error) → Gives Q (next (err e)))
      → (attempted next r).0 ≡ ok value
      → Q value (attempted next r).1
  attempted_from next (ok a, s) value k all fails h = (all a).holds s value k h
  attempted_from next (err e, s) value k all fails h = (fails e).holds s value h

  From-attempt :
      (call : Exec S A) (next : Result A → Exec S B)
      → Preserves P call
      → ((a : A) → From P Q (next (ok a)))
      → ((e : Error) → Gives Q (next (err e)))
      → From P Q (attempt call next)
  unfolding attempt
  From-attempt call next keeps all fails = record {
    holds = λ before value k h.
        attempted_from next (call before) value (keeps.holds before k) all fails h;
  }

module _ {S A : Type 0} (P : S → Type 0) (Q : A → S → Type 0) where
  From-pure : (a : A) → ((s : S) → P s → Q a s) → From P Q (pure a)
  From-pure a all = record {
    holds = λ before value k h. pure_gives Q a before value (all before k) h;
  }

  From-if :
      (test : Bool) (one other : Exec S A)
      → From P Q one
      → From P Q other
      → From P Q (if test then one else other)
  From-if true one other p q = p
  From-if false one other p q = q

-- Where there is a dispatch, its job is in the table.
abbrev pub KnownFor : Option LiveActivityDispatch → LiveActivityJob → World → Type 0
KnownFor o job w = (x : LiveActivityDispatch) → o ≡ some x → HasJob job w

abbrev pub Known : LaDispatchResult → World → Type 0
Known r w = KnownFor r.dispatch r.job w

insert-HasJob :
    (job : LiveActivityJob) (x : LiveActivityDispatch) (t : ℕ) (d : Db)
    → AnyJob job d.la_jobs
    → AnyJob job (insert_dispatch x t d).1.la_jobs
insert-HasJob job x t d h = ground arith

row-HasJob :
    (job : LiveActivityJob) (x : LiveActivityDispatch)
    → Preserves (HasJob job) (create_la_dispatch x)
unfolding create_la_dispatch
row-HasJob job x = Preserves-bind _ _ (Preserves-gets _) λ clock.
    Preserves-bind _ _
      (Preserves-on_error _ _
        (statement-Preserves (λ (d : Db). AnyJob job d.la_jobs) _ (insert-HasJob job _)))
      (λ u. Preserves-pure _)

pub mark-HasJob :
    (job : LiveActivityJob) (id : String) (w : World)
    → HasJob job w
    → HasJob job (mark_la_dispatch_enqueued id w).1
unfolding mark_la_dispatch_enqueued
mark-HasJob job id w h =
    (Preserves-bind _ _
        (Preserves-on_error _ _
          (statement-Preserves (λ (d : Db). AnyJob job d.la_jobs) _ (λ t d k. k)))
        (λ _. Preserves-pure _)).holds
      w h

resolve-Gives : (a u t : String) → Gives HasJob (resolve_la_job_by_scope a u t)
unfolding resolve_la_job_by_scope
resolve-Gives a u t = Gives-bind _ _ λ _. Gives-bind _ _ λ _.
    Gives-bind _ _ λ _. Gives-if (not (u == "")) _ _ (find_user-Gives a u) (find_topic-Gives a t)

find_la_job-Gives : (req : LaDispatchRequest) → Gives HasJob (find_la_job req)
unfolding find_la_job
find_la_job-Gives req =
    Gives-if (not (req.activity_id == "")) _ _ (get_la_job_by_activity_id-Gives req.activity_id)
      (resolve-Gives req.activity_type req.user_id req.topic_id)

module _ (inputs : LaInputs) (req : LaDispatchRequest) (now : ℕ) where
  dispatched-From :
      (status : String) (job : LiveActivityJob)
      → From (HasJob job) Known (
          dispatched_as status job
            (create_la_dispatch_row inputs.dispatch_id job req.action req.payload req.options now))
  unfolding create_la_dispatch_row
  dispatched-From status job =
      From-bind _ _
        (row-HasJob job
          (new_dispatch inputs.dispatch_id job req.action req.payload req.options now))
        λ x. From-pure _ _ _ (λ s k y e. k)

  passes :
      (job : LiveActivityJob) (b : Bool) (e : Error)
      → Preserves (HasJob job) (if b then pure {S = World} (tt {0}) else raise e)
  passes job b e = Preserves-if _ _ _ (Preserves-pure _) (Preserves-raise _)

  end-Known : Gives Known (create_la_end inputs req now)
  unfolding create_la_end
  end-Known = Gives-bind _ _ λ _.
      Gives-after HasJob _ _ (Gives-on_error _ _ (find_la_job-Gives req)) λ job s value k h.
        (From-bind _ _ (passes job _ _) λ _.
            From-if _ _ (is_closed job.status) _ _ (From-pure _ _ _ (λ s k y e. k))
              (dispatched-From "ended" job)).holds
          s value k h

  update-Known : Gives Known (create_la_update inputs req now)
  unfolding create_la_update
  update-Known = Gives-bind _ _ λ _.
      Gives-after HasJob _ _ (Gives-on_error _ _ (find_la_job-Gives req)) λ job s value k h.
        (From-bind _ _ (passes job _ _) λ _.
            From-bind _ _
              (Preserves-on_error _ _
                (update_payload-HasJob job job.id req.payload req.options now))
              λ _. dispatched-From "updated" (record job {
                latest_payload = req.payload;
                options = req.options;
                updated_at = now;
              })).holds
          s value k h

  start-Known :
      (job : LiveActivityJob) (created : Bool) (s : World) (value : LaDispatchResult)
      → Made (job, created) s
      → (dispatch_start inputs req now (job, created) s).0 ≡ ok value
      → Known value (dispatch_start inputs req now (job, created) s).1
  unfolding create_la_dispatch_row
  start-Known job false s value k h =
      pure_gives Known (record { job = job; dispatch = none; status = "already_started" }) s value
        (λ x e. absurd (ground (arith, e))) h
  start-Known job true s value k h =
      (From-attempt _ (started_or_rolled_back job)
          (row-HasJob job
            (new_dispatch inputs.dispatch_id job req.action req.payload req.options now))
          (λ x. From-pure _ _ _ (λ s k y e. k)) rolled).holds
        s value (k refl) h
    where
      rolled : (e : Error) → Gives Known (started_or_rolled_back job (err e))
      rolled e =
          Gives-attempt (λ _ _. Unit {0}) _ _ (record { holds = λ before value h. tt })
            (λ a s value _. (Gives-raise {Q = Known} e).holds s value) (λ f. Gives-raise _)

  begin-Known : Gives Known (create_la_start inputs req now)
  unfolding create_la_start
  begin-Known = Gives-bind _ _ λ _. Gives-bind _ _ λ _. Gives-bind _ _ λ _. Gives-bind _ _ λ _.
      Gives-bind _ _ λ _. Gives-bind _ _ λ _. Gives-bind _ _ λ _. Gives-bind _ _ λ expiry.
        Gives-after Made _ _ (create_or_get_la_start_job-Gives (start_job inputs req now expiry))
          (λ r s value k h. start-Known r.0 r.1 s value k h)

-- Whatever statements fail.
pub create_la_dispatch_request-Known :
    (inputs : LaInputs) (req : LaDispatchRequest)
    → Gives Known (create_la_dispatch_request inputs req)
unfolding create_la_dispatch_request
create_la_dispatch_request-Known inputs req =
    Gives-bind _ _ λ _. Gives-bind _ _ λ _. Gives-bind _ _ λ now. by_action-Known now req.action
  where
    by_action-Known : (now : ℕ) (a : LiveActivityAction) → Gives Known (by_action inputs req now a)
    by_action-Known now LiveActivityAction.start = begin-Known inputs req now
    by_action-Known now LiveActivityAction.update = update-Known inputs req now
    by_action-Known now LiveActivityAction.finish = end-Known inputs req now
