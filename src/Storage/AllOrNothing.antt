-- ===== src/Storage/AllOrNothing.antt =====
-- The operations of internal/storage that take several statements and run them in a transaction.
use pushboy.Prelude.{
  ℕ, String, ◌≡◌, refl, Bool, false, List, [], ◌∷◌, Option, none, some, eqb, Error, duplicate,
  rejected, driver, already_exists, not_found, closed, canceled, deadline, panic, message, wrap,
  opaque_cause, join, Result, ok, err, attempt, ◌>>=◌, pure, Preserves, Preserves-bind,
  Preserves-on_error, Preserves-if, Preserves-pure, Preserves-raise,
}
use pushboy.Model.Task.{DeliveryReceipt, LaSendOutcome}
use pushboy.Storage.Tables.{Db, LiveActivityJob, LiveActivityToken}
use pushboy.Storage.World.{World, statement-Preserves, transaction_atomic}
use pushboy.Storage.PushJobs.{apply_push_outcome_batch}
use pushboy.Storage.PushJobs.Batch.{apply_push_outcome_batch_lem}
use pushboy.Storage.LaJobs.{
  by_constraint, create_or_get_la_start_job, dated_start, start_transaction, start_body,
  get_la_job_by_activity_id, find_la_job_by_user_scope, find_la_job_by_topic_scope, found_la_job,
  scanned,
}
use pushboy.Storage.LaDispatches.{complete_la_dispatch_enqueue}
use pushboy.Storage.LaOutcomes.{apply_la_outcome_batch}
use pushboy.Storage.LaTokens.Upkeep.{upsert_live_activity_token}

module _ (d : Db) where
  abbrev Unchanged : World → Type 0
  Unchanged w = w.db ≡ d

  found-Unchanged : (o : Option LiveActivityJob) → Preserves Unchanged (found_la_job o)
  found-Unchanged none = Preserves-raise _
  found-Unchanged (some j) = Preserves-pure (scanned j)

  get-Unchanged : (id : String) → Preserves Unchanged (get_la_job_by_activity_id id)
  unfolding get_la_job_by_activity_id
  get-Unchanged id =
      Preserves-bind _ _ (Preserves-on_error _ _ (statement-Preserves (λ x. x ≡ d) _ (λ t x h. h)))
        found-Unchanged

  find_user-Unchanged : (t u : String) → Preserves Unchanged (find_la_job_by_user_scope t u)
  unfolding find_la_job_by_user_scope
  find_user-Unchanged t u =
      Preserves-bind _ _ (Preserves-on_error _ _ (statement-Preserves (λ x. x ≡ d) _ (λ t x h. h)))
        found-Unchanged

  find_topic-Unchanged : (t u : String) → Preserves Unchanged (find_la_job_by_topic_scope t u)
  unfolding find_la_job_by_topic_scope
  find_topic-Unchanged t u =
      Preserves-bind _ _ (Preserves-on_error _ _ (statement-Preserves (λ x. x ≡ d) _ (λ t x h. h)))
        found-Unchanged

  by_constraint-Unchanged :
      (job : LiveActivityJob) (e : Error) → Preserves Unchanged (by_constraint job (err e))
  by_constraint-Unchanged job (duplicate name) =
      Preserves-if _ _ _ (Preserves-bind _ _ (get-Unchanged _) (λ j. Preserves-pure _)) (
        Preserves-if _ _ _ (Preserves-bind _ _ (find_user-Unchanged _ _) (λ j. Preserves-pure _)) (
          Preserves-if _ _ _ (Preserves-bind _ _ (find_topic-Unchanged _ _) (λ j. Preserves-pure _))
            (Preserves-raise _)))
  by_constraint-Unchanged job (rejected name) = Preserves-raise _
  by_constraint-Unchanged job driver = Preserves-raise _
  by_constraint-Unchanged job already_exists = Preserves-raise _
  by_constraint-Unchanged job not_found = Preserves-raise _
  by_constraint-Unchanged job closed = Preserves-raise _
  by_constraint-Unchanged job canceled = Preserves-raise _
  by_constraint-Unchanged job deadline = Preserves-raise _
  by_constraint-Unchanged job panic = Preserves-raise _
  by_constraint-Unchanged job (message text) = Preserves-raise _
  by_constraint-Unchanged job (wrap text e) = Preserves-raise _
  by_constraint-Unchanged job (opaque_cause text e) = Preserves-raise _
  by_constraint-Unchanged job (join a b) = Preserves-raise _

-- What follows the transaction changes nothing: where it ends in an error, so did the transaction.
after_transaction :
    (job : LiveActivityJob) (d : Db) (r : Result (LiveActivityJob × Bool) × World) (e : Error)
    → ((x : Error) → r.0 ≡ err x → r.1.db ≡ d)
    → (by_constraint job r.0 r.1).0 ≡ err e
    → (by_constraint job r.0 r.1).1.db ≡ d
after_transaction job d (ok a, w) e same h = absurd (ok_is_no_error h)
  where
    ok_is_no_error : (pure {S = World} a w).0 ≡ err e → ⊥
    ok_is_no_error h = unfold pure in cc
after_transaction job d (err x, w) e same h =
    (by_constraint-Unchanged d job x).holds w (same x refl)

la_batch :
    (os : List LaSendOutcome) (w : World) (e : Error)
    → (apply_la_outcome_batch os w).0 ≡ err e
    → (apply_la_outcome_batch os w).1.db ≡ w.db
unfolding apply_la_outcome_batch pure
la_batch [] w e h = refl
la_batch (o ∷ os) w e h = transaction_atomic _ _ _ w e h

start :
    (job : LiveActivityJob) (w : World) (e : Error)
    → (create_or_get_la_start_job job w).0 ≡ err e
    → (create_or_get_la_start_job job w).1.db ≡ w.db
unfolding create_or_get_la_start_job ◌>>=◌ attempt
start job w e h =
    let j = dated_start w.clock job in
    after_transaction j w.db (start_transaction j w) e
      (λ x k.
        transaction_atomic (wrap "error starting LA start transaction")
          (wrap "error committing LA start transaction") (start_body j) w x k)
      h

upsert :
    (x : LiveActivityToken) (w : World) (e : Error)
    → (upsert_live_activity_token x w).0 ≡ err e
    → (upsert_live_activity_token x w).1.db ≡ w.db
unfolding upsert_live_activity_token ◌>>=◌
upsert x w e h = transaction_atomic _ _ _ w e h

enqueue :
    (id : String) (total : ℕ) (w : World) (e : Error)
    → eqb total 0 ≡ false
    → (complete_la_dispatch_enqueue id total w).0 ≡ err e
    → (complete_la_dispatch_enqueue id total w).1.db ≡ w.db
unfolding complete_la_dispatch_enqueue
enqueue id total w e n h = rw n (transaction_atomic _ _ _ w e (rw n at h))

-- An operation that takes several statements and returns an error has changed no table, whichever
-- statement failed: recording a batch of outcomes in either lane, starting a live activity,
-- registering a token of one, and completing the enqueueing of a dispatch that has tokens.
pub errors_change_nothing :
    (w : World) (e : Error)
    → ((rs : List DeliveryReceipt)
        → (apply_push_outcome_batch rs w).0 ≡ err e
        → (apply_push_outcome_batch rs w).1.db ≡ w.db)
      × ((os : List LaSendOutcome)
          → (apply_la_outcome_batch os w).0 ≡ err e
          → (apply_la_outcome_batch os w).1.db ≡ w.db)
      × ((job : LiveActivityJob)
          → (create_or_get_la_start_job job w).0 ≡ err e
          → (create_or_get_la_start_job job w).1.db ≡ w.db)
      × ((x : LiveActivityToken)
          → (upsert_live_activity_token x w).0 ≡ err e
          → (upsert_live_activity_token x w).1.db ≡ w.db)
      × ((id : String) (total : ℕ)
          → eqb total 0 ≡ false
          → (complete_la_dispatch_enqueue id total w).0 ≡ err e
          → (complete_la_dispatch_enqueue id total w).1.db ≡ w.db)
errors_change_nothing w e = (
  λ rs. (apply_push_outcome_batch_lem rs w).1 e,
  λ os. la_batch os w e,
  λ job. start job w e,
  λ x. upsert x w e,
  λ id total. enqueue id total w e,
)
