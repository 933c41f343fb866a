-- ===== src/Server/Handlers/Send.antt =====
-- internal/server/server.go: notifications to a user and to a topic, and their way into the pipeline.
pub mod Accepted
pub mod Refused
use pushboy.Prelude.{
  ℕ, String, Bool, true, false, ◌&&◌, ◌||◌, not, Option, none, some, List, ◌==◌, if◌then◌else◌,
  Error, deadline, at_closed, at_not_found, is_error, is_some, Result, ok, err, Exec, pure, raise,
  attempt, ◌>>=◌, ◌>>◌,
}
use pushboy.Model.Push.{NotificationPayload, failed}
use pushboy.Model.Task.{JobItem, push}
use pushboy.Storage.Tables.{PublishJob}
use pushboy.Storage.World.{World}
use pushboy.Storage.PushJobs.{update_job_status}
use pushboy.Pipeline.Outbox.{Outbox, submit}
use pushboy.Service.Notifications.{send_to_user, create_publish_job}
use pushboy.Server.Queue.{Site, stored, to_queue}
use pushboy.Server.Responses.{Body, Response, respond, http_error, Decoded, malformed, empty, read}
use pushboy.Server.Handlers.Users.{missing_or}
use pushboy.Server.Handlers.Topics.{mentions}

pub record SendNotificationRequest : Type 0 where
  pub payload : NotificationPayload
  pub scheduled_at : String

abbrev pub at_deadline : Error → Bool
at_deadline deadline = true
at_deadline _ = false

-- The job is marked FAILED where the pipeline refuses it; if that fails it is logged.
abbrev pub refused : String → Result (Unit {0}) → Exec (Site JobItem) (Unit {0})
refused job_id (ok _) = pure tt
refused job_id (err e) =
    attempt (stored (update_job_status job_id failed)) (λ _. pure tt) >> raise e

unfoldable pub enqueue_immediate_job : String → JobItem → Exec (Site JobItem) (Unit {0})
unfolding stored to_queue submit update_job_status
enqueue_immediate_job job_id item = attempt (to_queue (submit item)) (refused job_id)

abbrev pub is_unavailable : Error → Bool
is_unavailable e = is_error at_deadline e || is_error at_closed e

abbrev pub enqueue_response : String → String → Result (Unit {0}) → Response
enqueue_response text job_id (ok _) = respond (Body.queued job_id) 202
enqueue_response text job_id (err e) =
    if is_unavailable e then http_error "Job queue unavailable" 503 else http_error text 500

-- Neither a title nor a body, and not silent.
abbrev pub says_nothing : NotificationPayload → Bool
says_nothing p = p.title == "" && p.body == "" && not p.silent

abbrev pub item_for : String → String → ℕ → NotificationPayload → PublishJob → JobItem
item_for user_id topic_id max_retry payload job = record {
  id = job.id;
  job_type = push;
  payload = some payload;
  max_retry = max_retry;
  topic_id = topic_id;
  user_id = user_id;
  total_count = 0;
}

abbrev pub not_stored : String → String → Error → Response
not_stored missing text e =
    missing_or e (http_error missing 404)
      (if mentions "scheduledAt" e then respond (Body.caused e) 400 else http_error text 500)

-- What is done with the job that was created: it is queued, unless it is for later.
abbrev pub hand_over :
    (PublishJob → JobItem)
    → (Error → Response)
    → String
    → Result PublishJob
    → Exec (Site JobItem) Response
hand_over item bad text (err e) = pure (bad e)
hand_over item bad text (ok job) =
    if is_some job.scheduled_at
    then pure (respond (Body.queued job.id) 202)
    else attempt (enqueue_immediate_job job.id (item job))
        (λ r. pure (enqueue_response text job.id r))

module _ (parse_time : String → Option ℕ) where
  unfoldable pub handle_send_to_user :
      String → String → Decoded SendNotificationRequest → Exec (Site JobItem) Response
  unfolding send_to_user enqueue_immediate_job mentions
  handle_send_to_user drawn user_id malformed =
      pure (http_error (if user_id == "" then "userID is required" else "Bad request") 400)
  handle_send_to_user drawn user_id empty =
      pure (http_error (if user_id == "" then "userID is required" else "Bad request") 400)
  handle_send_to_user drawn user_id (read req) =
      if user_id == ""
      then pure (http_error "userID is required" 400)
      else if says_nothing req.payload
      then pure (http_error "title or body is required (unless silent notification)" 400)
      else attempt (stored (send_to_user parse_time drawn user_id req.payload req.scheduled_at)) (
          hand_over (item_for user_id "" 3 req.payload)
            (not_stored "User not found" "Error sending notification")
            "Error queueing notification")

  unfoldable pub handle_publish_to_topic :
      String → String → Decoded SendNotificationRequest → Exec (Site JobItem) Response
  unfolding create_publish_job enqueue_immediate_job mentions
  handle_publish_to_topic drawn topic_id malformed =
      pure (http_error (if topic_id == "" then "topicID is required" else "Bad request") 400)
  handle_publish_to_topic drawn topic_id empty =
      pure (http_error (if topic_id == "" then "topicID is required" else "Bad request") 400)
  handle_publish_to_topic drawn topic_id (read req) =
      if topic_id == ""
      then pure (http_error "topicID is required" 400)
      else if says_nothing req.payload
      then pure (http_error "title or body is required (unless silent notification)" 400)
      else attempt
          (stored (create_publish_job parse_time drawn topic_id req.payload req.scheduled_at))
          (hand_over (item_for "" topic_id 0 req.payload)
            (not_stored "Topic not found" "Error creating publish job")
            "Error queueing publish job")
