-- ===== src/Service/Notifications.antt =====
-- internal/service/service.go: notifications to a user or to a topic, now or at a later time.
-- `parse_time` is `time.Parse` with the layout RFC3339.
use pushboy.Prelude.{
  ℕ, String, Option, none, some, List, ◌==◌, ltb, if◌then◌else◌, message, Result, ok, err, Exec,
  gets, ◌>>=◌, ◌>>◌,
}
use pushboy.Model.Push.{NotificationPayload, NotificationJobStatus, queued, scheduled}
use pushboy.Storage.Tables.{PublishJob}
use pushboy.Storage.World.{World}
use pushboy.Storage.Paging.{Collation}
use pushboy.Storage.Tokens.{from_result}
use pushboy.Storage.Directory.{get_user}
use pushboy.Storage.Topics.{get_topic_by_id}
use pushboy.Storage.PushJobs
use pushboy.Storage.Listings
use pushboy.Storage.Listings.{PageQuery}

abbrev not_past : ℕ → Option ℕ → Result (Option ℕ)
not_past now none =
    err (message "invalid scheduledAt format, must be RFC3339 (e.g., 2025-01-15T10:00:00Z)")
not_past now (some t) =
    if ltb t now then err (message "scheduledAt must be in the future") else ok (some t)

unfoldable pub parse_scheduled_at : (String → Option ℕ) → ℕ → String → Result (Option ℕ)
parse_scheduled_at parse_time now raw = if raw == "" then ok none else not_past now (parse_time raw)

unfoldable pub notification_job_status_for_schedule : Option ℕ → NotificationJobStatus
notification_job_status_for_schedule none = queued
notification_job_status_for_schedule (some t) = scheduled

abbrev pub new_job : String → String → String → NotificationPayload → ℕ → Option ℕ → PublishJob
new_job drawn user_id topic_id payload now at = record {
  id = drawn;
  topic_id = topic_id;
  user_id = user_id;
  payload = some payload;
  status = notification_job_status_for_schedule at;
  total_count = 0;
  success_count = 0;
  failure_count = 0;
  created_at = now;
  completed_at = none;
  scheduled_at = at;
}

module _ (parse_time : String → Option ℕ) where
  unfoldable pub send_to_user :
      String → String → NotificationPayload → String → Exec World PublishJob
  unfolding parse_scheduled_at notification_job_status_for_schedule PushJobs.create_user_publish_job
  send_to_user drawn user_id payload scheduled_at = do
    now ← gets (λ (w : World). w.clock)
    at ← from_result (parse_scheduled_at parse_time now scheduled_at)
    PushJobs.create_user_publish_job (new_job drawn user_id "" payload now at)

  unfoldable pub create_publish_job :
      String → String → NotificationPayload → String → Exec World PublishJob
  unfolding parse_scheduled_at notification_job_status_for_schedule get_topic_by_id
      PushJobs.create_publish_job
  create_publish_job drawn topic_id payload scheduled_at = do
    get_topic_by_id topic_id
    now ← gets (λ (w : World). w.clock)
    at ← from_result (parse_scheduled_at parse_time now scheduled_at)
    PushJobs.create_publish_job (new_job drawn "" topic_id payload now at)

module _ (c : Collation) where
  unfoldable pub list_topic_notifications : String → PageQuery → Exec World (List PublishJob)
  unfolding get_topic_by_id Listings.list_topic_notifications
  list_topic_notifications topic_id q = do
    get_topic_by_id topic_id
    Listings.list_topic_notifications c topic_id q

  unfoldable pub list_user_notifications : String → PageQuery → Exec World (List PublishJob)
  unfolding get_user Listings.list_user_notifications
  list_user_notifications user_id q = do
    get_user user_id
    Listings.list_user_notifications c user_id q
