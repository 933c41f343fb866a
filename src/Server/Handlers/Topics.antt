-- ===== src/Server/Handlers/Topics.antt =====
-- internal/server/server.go: topics, their subscribers and their notifications.
use pushboy.Prelude.{
  ℕ, String, Bool, false, Option, none, ◌==◌, if◌then◌else◌, contains, Error, message, wrap,
  duplicate, rejected, opaque_cause, join, at_already_exists, is_error, Result, ok, err, Exec, pure,
  attempt, ◌||◌, ◌>>=◌,
}
use Prim.Native.String
use pushboy.Storage.World.{World}
use pushboy.Storage.Paging.{Collation}
use pushboy.Storage.Tokens.{from_result}
use pushboy.Storage.Directory
use pushboy.Storage.Topics
use pushboy.Storage.PushJobs
use pushboy.Storage.Listings.{PageQuery, subscriber_key}
use pushboy.Service.Users
use pushboy.Service.Notifications
use pushboy.Server.Pagination.{
  Codec, page_query_from_request, notification_list_query_from_request, make_mapped_list_response,
  notification_job_cursor_time,
}
use pushboy.Server.Responses.{
  Body, Response, respond, http_error, Decoded, malformed, empty, read, replied,
  to_topic_subscriber_response, to_publish_job_response,
}
use pushboy.Server.Handlers.Users.{deleted}

-- `strings.Contains(err.Error(), …)`; the texts of the driver and of the sentinel errors are taken
-- not to hold the words that the handlers look for.
unfoldable pub mentions : String → Error → Bool
mentions word (message s) = contains s word
mentions word (duplicate s) = contains s word
mentions word (rejected s) = contains s word
mentions word (wrap s e) = contains s word || mentions word e
mentions word (opaque_cause s e) = contains s word || mentions word e
mentions word (join a b) = mentions word a || mentions word b
mentions word _ = false

pub record CreateTopicRequest : Type 0 where
  pub id : String
  pub name : String

abbrev not_created : Error → Response
not_created e =
    if is_error at_already_exists e
    then http_error "Topic already exists" 409
    else if mentions "topic id" e
    then respond (Body.caused e) 400
    else http_error "Error creating topic" 500

unfoldable pub handle_create_topic : Decoded CreateTopicRequest → Exec World Response
unfolding Users.create_topic mentions
handle_create_topic malformed = pure (http_error "Bad request" 400)
handle_create_topic empty = pure (http_error "Bad request" 400)
handle_create_topic (read req) =
    replied (Users.create_topic req.id req.name) (λ t. respond (Body.topic t) 201) not_created

unfoldable pub handle_list_topics : Exec World Response
unfolding Topics.list_topics
handle_list_topics =
    replied Topics.list_topics (λ ts. respond (Body.topics ts) 200)
      (λ e. http_error "Error listing topics" 500)

unfoldable pub handle_get_topic_by_id : String → Exec World Response
unfolding Topics.get_topic_by_id
handle_get_topic_by_id topic_id =
    if topic_id == ""
    then pure (http_error "topicID is required" 400)
    else replied (Topics.get_topic_by_id topic_id) (λ t. respond (Body.topic t) 200)
        (deleted "Topic not found" "Error getting topic")

unfoldable pub handle_delete_topic : String → Exec World Response
unfolding Topics.delete_topic
handle_delete_topic topic_id =
    if topic_id == ""
    then pure (http_error "topicID is required" 400)
    else replied (Topics.delete_topic topic_id) (λ _. respond Body.nothing 204)
        (deleted "Topic not found" "Error deleting topic")

unfoldable pub handle_get_topic_subscriber_count : String → Exec World Response
unfolding Directory.get_topic_subscriber_count
handle_get_topic_subscriber_count topic_id =
    if topic_id == ""
    then pure (http_error "topicID is required" 400)
    else replied (Directory.get_topic_subscriber_count topic_id) (λ n. respond (Body.count n) 200)
        (λ e. http_error "Error getting subscriber count" 500)

module _ (codec : Codec) where
  unfoldable pub handle_get_job_status : String → Exec World Response
  unfolding PushJobs.get_job_status to_publish_job_response
  handle_get_job_status job_id =
      if job_id == ""
      then pure (http_error "jobID is required" 400)
      else replied (PushJobs.get_job_status job_id)
          (λ j. respond (Body.job (to_publish_job_response codec j)) 200)
          (deleted "Job not found" "Error getting job status")

  module _ (c : Collation) (atoi : String → Option ℕ) where
    abbrev subscribers_page : String → String → Result (PageQuery × ℕ) → Exec World Response
    subscribers_page topic_id route (err e) = pure (http_error "Bad request" 400)
    subscribers_page topic_id route (ok (q, limit)) =
        attempt (Users.list_topic_subscribers c topic_id q) λ r. elim r [
          | err e ↦ pure (deleted "Topic not found" "Error listing topic subscribers" e)
          | ok ss ↦ do
            page ← from_result (
                make_mapped_list_response codec subscriber_key (to_topic_subscriber_response codec)
                  ss limit route none)
            pure (respond (Body.subscribers page) 200)
        ]

    unfoldable pub handle_list_topic_subscribers : String → String → String → Exec World Response
    unfolding page_query_from_request Users.list_topic_subscribers make_mapped_list_response
        to_topic_subscriber_response
    handle_list_topic_subscribers topic_id limit cursor =
        let route = String.◌++◌ "/v1/topics/" (String.◌++◌ topic_id "/subscribers") in
        if topic_id == ""
        then pure (http_error "topicID is required" 400)
        else subscribers_page topic_id route (page_query_from_request codec atoi limit cursor route)

    abbrev topic_jobs_page : String → String → Result (PageQuery × ℕ) → Exec World Response
    topic_jobs_page topic_id route (err e) = pure (http_error "Bad request" 400)
    topic_jobs_page topic_id route (ok (q, limit)) =
        attempt (Notifications.list_topic_notifications c topic_id q) λ r. elim r [
          | err e ↦ pure (deleted "Topic not found" "Error listing topic notifications" e)
          | ok js ↦ do
            page ← from_result (
                make_mapped_list_response codec (λ j. (notification_job_cursor_time j, j.id))
                  (to_publish_job_response codec) js limit route q.status)
            pure (respond (Body.jobs page) 200)
        ]

    unfoldable pub handle_list_topic_notifications :
        String → String → String → String → Exec World Response
    unfolding notification_list_query_from_request Notifications.list_topic_notifications
        make_mapped_list_response to_publish_job_response notification_job_cursor_time
    handle_list_topic_notifications topic_id status limit cursor =
        let route = String.◌++◌ "/v1/topics/" (String.◌++◌ topic_id "/notifications") in
        if topic_id == ""
        then pure (http_error "topicID is required" 400)
        else topic_jobs_page topic_id route
            (notification_list_query_from_request codec atoi status limit cursor route)
