-- ===== src/Server/Handlers/Send/Refused.antt =====
-- What becomes of a notification to a user that the pipeline refuses, where no statement is lost.
use pushboy.Prelude.{
  ℕ, String, ◌≡◌, refl, Bool, true, false, Option, none, some, List, [], ◌∷◌, ◌++◌, exists,
  update_where, if◌then◌else◌, arith, ok, err, Error, ◌>>=◌, attempt, on_error, ◌==◌, eq_refl, ap,
}
use pushboy.Model.Push.{NotificationPayload, failed, queued}
use pushboy.Model.Task.{JobItem}
use pushboy.Storage.Tables.{Db, PublishJob}
use pushboy.Storage.World.{World, IsReliable, advance, advance-IsReliable, statement_reliable}
use pushboy.Storage.PushJobs.{
  insert_job, create_user_publish_job, has_id, has_user, status_row, required_time, on_job,
}
use pushboy.Storage.PushJobs.Reliable.{update_job_status_reliable}
use pushboy.Pipeline.Outbox.{submit}
use pushboy.Service.Notifications.{send_to_user, parse_scheduled_at}
use pushboy.Server.Queue.{Site, stored, to_queue}
use pushboy.Server.Responses.{read, http_error}
use pushboy.Server.Handlers.Send.{
  item_for, handle_send_to_user, enqueue_immediate_job, is_unavailable, says_nothing,
}

-- An update of the row that was added last, which alone has its id.
update_where-snoc :
    {A : Type 0} (p : A → Bool) (f : A → A) (xs : List A) (x : A)
    → exists p xs ≡ false
    → p x ≡ true
    → update_where p f (xs ++ x ∷ []) ≡ xs ++ f x ∷ []
update_where-snoc p f [] x h k = ground arith
update_where-snoc p f (y ∷ ys) x h k = ground (arith, update_where-snoc p f ys x)

-- The job as it is added, and as it is once it is given up.
abbrev pub new_row : String → String → NotificationPayload → ℕ → PublishJob
new_row drawn owner payload t = record {
  id = drawn;
  topic_id = "";
  user_id = owner;
  payload = some payload;
  status = queued;
  total_count = 0;
  success_count = 0;
  failure_count = 0;
  created_at = t;
  completed_at = none;
  scheduled_at = none;
}

abbrev pub with_row : PublishJob → Db → Db
with_row row d = record d { jobs = d.jobs ++ row ∷ [] }

enqueue_refused :
    (id : String) (item : JobItem) (s : Site JobItem) (e : Error) (later : List (Option Error))
    → IsReliable s.world
    → s.queue.answers ≡ some e ∷ later
    → enqueue_immediate_job id item s ≡ (
      err e,
      record {
        world = record (advance s.world) {
          db = on_job id (status_row failed (advance s.world).clock) s.world.db;
        };
        queue = record s.queue { answers = later };
      },
    )
unfolding enqueue_immediate_job ◌>>=◌ attempt submit stored to_queue
enqueue_refused id item s e later r q = rw (q, update_job_status_reliable id failed s.world r) refl

-- What a user must have for a job of a new id.
pub record IsOpen (drawn owner : String) (d : Db) : Type 0 where
  pub known : has_user owner d ≡ true
  pub fresh : exists (has_id drawn) d.jobs ≡ false

send_to_user_reliable :
    (parse_time : String → Option ℕ) (drawn owner : String) (payload : NotificationPayload)
    (w : World)
    → IsReliable w
    → IsOpen drawn owner w.db
    → (t : ℕ) × (send_to_user parse_time drawn owner payload "" w ≡ (
      ok (new_row drawn owner payload t),
      record (advance (advance w)) { db = with_row (new_row drawn owner payload t) w.db },
    ))
unfolding send_to_user parse_scheduled_at create_user_publish_job insert_job ◌>>=◌ on_error
send_to_user_reliable parse_time drawn owner payload w r o = (
  required_time (advance w).clock w.clock,
  rw
      (
        statement_reliable _ w r,
        o.known,
        statement_reliable _ (advance w) (advance-IsReliable w r),
        o.fresh,
        o.known,
      )
      refl,
)

failed_row :
    (drawn owner : String) (payload : NotificationPayload) (t now : ℕ) (d : Db)
    → exists (has_id drawn) d.jobs ≡ false
    → on_job drawn (status_row failed now) (with_row (new_row drawn owner payload t) d)
      ≡ with_row (record (new_row drawn owner payload t) { status = failed }) d
unfolding status_row
failed_row drawn owner payload t now d h =
    ap (λ (js : List PublishJob). record d { jobs = js })
      (update_where-snoc (has_id drawn) (status_row failed now) d.jobs
        (new_row drawn owner payload t) h (eq_refl drawn))

-- A notification to a user for at once that the pipeline refuses, in a world that loses no statement:
-- the answer is 503 if the pipeline is closed or the time is over and 500 if not, and the one job that
-- is added has the status FAILED; nothing else changes, and no item was taken.
pub refused_is_failed :
    (parse_time : String → Option ℕ) (drawn owner : String) (payload : NotificationPayload)
    (s : Site JobItem) (e : Error) (later : List (Option Error))
    → IsReliable s.world
    → IsOpen drawn owner s.world.db
    → (owner == "") ≡ false
    → says_nothing payload ≡ false
    → s.queue.answers ≡ some e ∷ later
    → let out =
        handle_send_to_user parse_time drawn owner
          (read (record { payload = payload; scheduled_at = "" }))
          s in
      (t : ℕ) × (out.0
        ≡ ok (
            if is_unavailable e
            then http_error "Job queue unavailable" 503
            else http_error "Error queueing notification" 500))
      × (out.1.world.db
          ≡ with_row (record (new_row drawn owner payload t) { status = failed }) s.world.db)
      × (out.1.queue ≡ record s.queue { answers = later })
unfolding handle_send_to_user ◌>>=◌ attempt stored
refused_is_failed parse_time drawn owner payload s e later r o n p q =
    let (t, sent) = send_to_user_reliable parse_time drawn owner payload s.world r o in
    let row = new_row drawn owner payload t in
    let w2 : World = record (advance (advance s.world)) { db = with_row row s.world.db } in
    let r2 = advance-IsReliable (advance s.world) (advance-IsReliable s.world r) in
    let refused =
      enqueue_refused drawn (item_for owner "" 3 payload row) (record s { world = w2 }) e later r2
        q in
    rw (n, p, sent, refused)
      (t, refl, failed_row drawn owner payload t (advance w2).clock s.world.db o.fresh, refl)
