-- ===== src/Server/Handlers/Send/Accepted.antt =====
-- What an answer of 202 promises.
use pushboy.Prelude.{
  ℕ, String, ◌≡◌, refl, Bool, true, false, Option, none, some, [], ◌∷◌, ◌++◌, is_some,
  if◌then◌else◌, arith, Result, ok, err, Exec, ◌>>=◌, attempt, Error, continue, subst, ◌==◌, pure,
}
use pushboy.Model.Push.{NotificationPayload, queued, scheduled}
use pushboy.Model.Task.{JobItem}
use pushboy.Storage.Tables.{Db, PublishJob, Topic}
use pushboy.Storage.World.{World, statement, advance}
use pushboy.Storage.PushJobs.{create_user_publish_job, create_publish_job, required_time}
use pushboy.Service.Notifications.{
  send_to_user, new_job, create_publish_job as create_topic_job, parse_scheduled_at,
  notification_job_status_for_schedule,
}
use pushboy.Storage.Tokens.{from_result}
use pushboy.Storage.Topics.{get_topic_by_id}
use pushboy.Server.Queue.{Site, stored}
use pushboy.Server.Responses.{Response, read, http_error}
use pushboy.Server.Handlers.Send.{
  SendNotificationRequest, item_for, handle_send_to_user, handle_publish_to_topic, hand_over,
  enqueue_immediate_job, not_stored, says_nothing,
}

-- A new job, as a request asks for it; it is for later exactly if it has a time.
pub record IsAsked (drawn user topic : String) (content : NotificationPayload) (row : PublishJob)
    : Type 0 where
  pub id : row.id ≡ drawn
  pub user_id : row.user_id ≡ user
  pub topic_id : row.topic_id ≡ topic
  pub payload : row.payload ≡ some content
  pub status : row.status ≡ (if is_some row.scheduled_at then scheduled else queued)
  pub counts : (row.total_count ≡ 0) × (row.success_count ≡ 0) × (row.failure_count ≡ 0)

-- One job was added, and is in the queue unless it is for later.
abbrev pub Accepted :
    String → String → ℕ → SendNotificationRequest → String → Site JobItem → Site JobItem → Type 0
Accepted user_id topic_id retries req drawn s s' =
    (row : PublishJob) × IsAsked drawn user_id topic_id req.payload row
    × (s'.world.db ≡ record s.world.db { jobs = s.world.db.jobs ++ row ∷ [] })
    × (s'.queue.taken ≡ (
        if is_some row.scheduled_at
        then s.queue.taken
        else s.queue.taken ++ item_for user_id topic_id retries req.payload row ∷ []))

-- The same of the row and the job that the store gives back.
abbrev Added : String → String → String → NotificationPayload → Db → PublishJob → Db → Type 0
Added drawn user_id topic_id payload d job d' =
    (row : PublishJob) × IsAsked drawn user_id topic_id payload row
    × (d' ≡ record d { jobs = d.jobs ++ row ∷ [] })
    × (job.id ≡ row.id)
    × (job.scheduled_at ≡ row.scheduled_at)

status_lem :
    (at : Option ℕ)
    → notification_job_status_for_schedule at ≡ (if is_some at then scheduled else queued)
unfolding notification_job_status_for_schedule
status_lem none = refl
status_lem (some t) = refl

abbrev created : ℕ → Option ℕ → String → String → String → NotificationPayload → PublishJob
created at_time at drawn user_id topic_id payload = record {
  id = drawn;
  topic_id = topic_id;
  user_id = user_id;
  payload = some payload;
  status = notification_job_status_for_schedule at;
  total_count = 0;
  success_count = 0;
  failure_count = 0;
  created_at = at_time;
  completed_at = none;
  scheduled_at = at;
}

created-IsAsked :
    (t : ℕ) (at : Option ℕ) (drawn user_id topic_id : String) (payload : NotificationPayload)
    → IsAsked drawn user_id topic_id payload (created t at drawn user_id topic_id payload)
created-IsAsked t at drawn user_id topic_id payload = record {
  id = refl;
  user_id = refl;
  topic_id = refl;
  payload = refl;
  status = status_lem at;
  counts = (refl, refl, refl);
}

module _ (drawn owner : String) (payload : NotificationPayload) (now : ℕ) (w : World) where
  user_job-Added :
      (r : Result (Option ℕ)) {job : PublishJob}
      → let out =
          (from_result r >>= λ at. create_user_publish_job (new_job drawn owner "" payload now at))
            w in
        out.0 ≡ ok job → Added drawn owner "" payload w.db job out.1.db
  unfolding create_user_publish_job statement ◌>>=◌
  user_job-Added (err e) h = cc
  user_job-Added (ok at) h = (
    created (required_time (advance w).clock now) at drawn owner "" payload,
    created-IsAsked _ at drawn owner "" payload,
    ground arith,
    ground arith,
    ground arith,
  )

  topic_job-Added :
      (r : Result (Option ℕ)) {job : PublishJob}
      → let out =
          (from_result r >>= λ at. create_publish_job (new_job drawn "" owner payload now at)) w in
        out.0 ≡ ok job → Added drawn "" owner payload w.db job out.1.db
  unfolding create_publish_job statement ◌>>=◌
  topic_job-Added (err e) h = cc
  topic_job-Added (ok at) h = (
    created (required_time w.clock now) at drawn "" owner payload,
    created-IsAsked _ at drawn "" owner payload,
    ground arith,
    ground arith,
    ground arith,
  )

module _ (parse_time : String → Option ℕ) (drawn : String) where
  send_to_user-ok :
      (user_id : String) (payload : NotificationPayload) (at : String) (w : World)
      {job : PublishJob}
      → let out = send_to_user parse_time drawn user_id payload at w in
        out.0 ≡ ok job → Added drawn user_id "" payload w.db job out.1.db
  unfolding send_to_user ◌>>=◌
  send_to_user-ok user_id payload at w h =
      user_job-Added drawn user_id payload w.clock w (parse_scheduled_at parse_time w.clock at) h

  -- The look-up of the topic changes nothing.
  get_topic_by_id-same : (topic_id : String) (w : World) → (get_topic_by_id topic_id w).1.db ≡ w.db
  unfolding get_topic_by_id statement ◌>>=◌
  get_topic_by_id-same topic_id w = ground arith

  abbrev after_topic : String → NotificationPayload → String → World → Result PublishJob × World
  after_topic topic_id payload at v =
      (from_result (parse_scheduled_at parse_time v.clock at) >>= λ t.
      create_publish_job (new_job drawn "" topic_id payload v.clock t))
        v

  after_topic-ok :
      (topic_id : String) (payload : NotificationPayload) (at : String) (d : Db)
      (r : Result Topic × World) {job : PublishJob}
      → r.1.db ≡ d
      → let out = continue (λ _. after_topic topic_id payload at) r in
        out.0 ≡ ok job → Added drawn "" topic_id payload d job out.1.db
  after_topic-ok topic_id payload at d (err e, v) same h = cc
  after_topic-ok topic_id payload at d (ok t, v) {job} same h =
      subst
        (λ (d' : Db).
          Added drawn "" topic_id payload d' job (after_topic topic_id payload at v).1.db)
        same
        (topic_job-Added drawn topic_id payload v.clock v (parse_scheduled_at parse_time v.clock at)
          h)

  create_topic_job-ok :
      (topic_id : String) (payload : NotificationPayload) (at : String) (w : World)
      {job : PublishJob}
      → let out = create_topic_job parse_time drawn topic_id payload at w in
        out.0 ≡ ok job → Added drawn "" topic_id payload w.db job out.1.db
  unfolding create_topic_job ◌>>=◌
  create_topic_job-ok topic_id payload at w h =
      after_topic-ok topic_id payload at w.db (get_topic_by_id topic_id w)
        (get_topic_by_id-same topic_id w) h

-- What `hand_over` does with a job that was added.
hand_over-Accepted :
    (drawn user_id topic_id : String) (retries : ℕ) (req : SendNotificationRequest)
    (bad : Error → Response) (text : String) (job : PublishJob) (s t : Site JobItem)
    {resp : Response}
    → s.queue ≡ t.queue
    → Added drawn user_id topic_id req.payload s.world.db job t.world.db
    → let out = hand_over (item_for user_id topic_id retries req.payload) bad text (ok job) t in
      out.0 ≡ ok resp → resp.status ≡ 202 → Accepted user_id topic_id retries req drawn s out.1
unfolding enqueue_immediate_job ◌>>=◌ attempt
hand_over-Accepted drawn user_id topic_id retries req bad text job s t q (row, asked, d, i, a) h k =
    (row, asked, ground arith, ground arith)

abbrev Kept :
    Result PublishJob
    → Site JobItem
    → Site JobItem
    → String
    → String
    → String
    → NotificationPayload
    → Type 0
Kept (err e) s t drawn user_id topic_id payload = Unit
Kept (ok job) s t drawn user_id topic_id payload =
    Added drawn user_id topic_id payload s.world.db job t.world.db

handed_over :
    (drawn user_id topic_id : String) (retries : ℕ) (req : SendNotificationRequest)
    (missing text queue_text : String) (r : Result PublishJob) (s t : Site JobItem)
    {resp : Response}
    → s.queue ≡ t.queue
    → Kept r s t drawn user_id topic_id req.payload
    → let out =
        hand_over
          (item_for user_id topic_id retries req.payload)
          (not_stored missing text)
          queue_text
          r
          t in
      out.0 ≡ ok resp → resp.status ≡ 202 → Accepted user_id topic_id retries req drawn s out.1
unfolding ◌>>=◌
handed_over drawn user_id topic_id retries req missing text queue_text (err e) s t q k h a =
    ground arith
handed_over drawn user_id topic_id retries req missing text queue_text (ok job) s t q k h a =
    hand_over-Accepted drawn user_id topic_id retries req (not_stored missing text) queue_text job s
      t q k h a

-- A request that is refused is not answered 202.
unless :
    {S : Type 0} (P : S → Type 0) (b : Bool) (text : String) (call : Exec S Response) (s : S)
    {resp : Response}
    → ((call s).0 ≡ ok resp → resp.status ≡ 202 → P (call s).1)
    → ((if b then pure (http_error text 400) else call) s).0 ≡ ok resp
    → resp.status ≡ 202
    → P ((if b then pure (http_error text 400) else call) s).1
unfolding pure
unless P true text call s k h a = absurd (ground arith)
unless P false text call s k h a = k h a

module _ (parse_time : String → Option ℕ) (drawn owner : String) (req : SendNotificationRequest)
    (s : Site JobItem) where
  Kept-user :
      (r : Result PublishJob)
      → (send_to_user parse_time drawn owner req.payload req.scheduled_at s.world).0 ≡ r
      → Kept r s
          (record s {
            world = (send_to_user parse_time drawn owner req.payload req.scheduled_at s.world).1;
          })
          drawn
          owner
          ""
          req.payload
  Kept-user (err e) h = tt
  Kept-user (ok job) h =
      send_to_user-ok parse_time drawn owner req.payload req.scheduled_at s.world h

  Kept-topic :
      (r : Result PublishJob)
      → (create_topic_job parse_time drawn owner req.payload req.scheduled_at s.world).0 ≡ r
      → Kept r s
          (record s {
            world =
                (create_topic_job parse_time drawn owner req.payload req.scheduled_at s.world).1;
          })
          drawn
          ""
          owner
          req.payload
  Kept-topic (err e) h = tt
  Kept-topic (ok job) h =
      create_topic_job-ok parse_time drawn owner req.payload req.scheduled_at s.world h

  user-Accepted :
      {resp : Response}
      → let out = handle_send_to_user parse_time drawn owner (read req) s in
        out.0 ≡ ok resp → resp.status ≡ 202 → Accepted owner "" 3 req drawn s out.1
  unfolding handle_send_to_user ◌>>=◌ attempt stored
  user-Accepted = unless (Accepted owner "" 3 req drawn s) (owner == "") _ _ s (
      unless (Accepted owner "" 3 req drawn s) (says_nothing req.payload) _ _ s (
        handed_over drawn owner "" 3 req "User not found" "Error sending notification"
          "Error queueing notification" _ s _ refl (Kept-user _ refl)))

  topic-Accepted :
      {resp : Response}
      → let out = handle_publish_to_topic parse_time drawn owner (read req) s in
        out.0 ≡ ok resp → resp.status ≡ 202 → Accepted "" owner 0 req drawn s out.1
  unfolding handle_publish_to_topic ◌>>=◌ attempt stored
  topic-Accepted = unless (Accepted "" owner 0 req drawn s) (owner == "") _ _ s (
      unless (Accepted "" owner 0 req drawn s) (says_nothing req.payload) _ _ s (
        handed_over drawn "" owner 0 req "Topic not found" "Error creating publish job"
          "Error queueing publish job" _ s _ refl (Kept-topic _ refl)))

-- The two handlers, and what each puts into an item.
pub data Recipient : Type 0 where
  user topic : Recipient

abbrev pub handle :
    Recipient
    → (String → Option ℕ)
    → String
    → String
    → SendNotificationRequest
    → Exec (Site JobItem) Response
handle user parse_time drawn owner req = handle_send_to_user parse_time drawn owner (read req)
handle topic parse_time drawn owner req = handle_publish_to_topic parse_time drawn owner (read req)

abbrev pub AcceptedFor :
    Recipient → String → SendNotificationRequest → String → Site JobItem → Site JobItem → Type 0
AcceptedFor user owner req drawn s s' = Accepted owner "" 3 req drawn s s'
AcceptedFor topic owner req drawn s s' = Accepted "" owner 0 req drawn s s'

-- A notification that is answered 202, to a user or to a topic, has been stored: the jobs are those
-- before and one more, with the drawn id, the owner and the payload of the request, no counts, and
-- the status SCHEDULED if it has a time and QUEUED if not; and it is in the queue exactly if it has no
-- time. No other table has changed, whatever statements fail and whatever the queue answers.
pub accepted_is_stored :
    (who : Recipient) (parse_time : String → Option ℕ) (drawn owner : String)
    (req : SendNotificationRequest) (s : Site JobItem) (resp : Response)
    → (handle who parse_time drawn owner req s).0 ≡ ok resp
    → resp.status ≡ 202
    → AcceptedFor who owner req drawn s (handle who parse_time drawn owner req s).1
accepted_is_stored user parse_time drawn owner req s resp =
    user-Accepted parse_time drawn owner req s
accepted_is_stored topic parse_time drawn owner req s resp =
    topic-Accepted parse_time drawn owner req s
