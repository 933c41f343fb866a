-- ===== src/Model/Push.antt =====
-- internal/model/push.go: platforms, job statuses and the notification payload.
use pushboy.Prelude.{
  ℕ, String, ◌≡◌, refl, Bool, Option, List, arith, ◌==◌, eq_iff, if◌then◌else◌, Result, ok, err,
  message,
}

pub data Platform : Type 0 where
  apns fcm : Platform

pub data NotificationJobStatus : Type 0 where
  queued scheduled in_progress dispatched completed failed : NotificationJobStatus

pub record NotificationPayload : Type 0 where
  pub title : String
  pub body : String
  pub image_url : String
  pub sound : String
  pub badge : Option ℕ
  pub custom : List (String × String)
  pub silent : Bool
  pub collapse_id : String
  pub priority : String
  pub ttl : ℕ
  pub thread_id : String
  pub category : String

unfoldable pub platform_text : Platform → String
platform_text apns = "apns"
platform_text fcm = "fcm"

unfoldable pub parse_platform : String → Result Platform
parse_platform s =
    if s == "apns" then ok apns else if s == "fcm" then ok fcm else err (message "invalid platform")

unfoldable pub status_text : NotificationJobStatus → String
status_text queued = "QUEUED"
status_text scheduled = "SCHEDULED"
status_text in_progress = "IN_PROGRESS"
status_text dispatched = "DISPATCHED"
status_text completed = "COMPLETED"
status_text failed = "FAILED"

unfoldable pub parse_notification_job_status : String → Result NotificationJobStatus
parse_notification_job_status s =
    if s == "QUEUED"
    then ok queued
    else if s == "SCHEDULED"
    then ok scheduled
    else if s == "IN_PROGRESS"
    then ok in_progress
    else if s == "DISPATCHED"
    then ok dispatched
    else if s == "COMPLETED"
    then ok completed
    else if s == "FAILED"
    then ok failed
    else err (message "invalid notification job status")

-- The parser of statuses accepts exactly the six constants, each as itself.
pub parse_notification_job_status_iff :
    (s : String) (st : NotificationJobStatus)
    → (parse_notification_job_status s ≡ ok st → s ≡ status_text st)
      × (s ≡ status_text st → parse_notification_job_status s ≡ ok st)
unfolding parse_notification_job_status status_text
parse_notification_job_status_iff s st = (
  λ h. ground (
    arith,
    eq_iff s "QUEUED",
    eq_iff s "SCHEDULED",
    eq_iff s "IN_PROGRESS",
    eq_iff s "DISPATCHED",
    eq_iff s "COMPLETED",
    eq_iff s "FAILED",
  ),
  λ e. rw e (back st),
)
  where
    back : (t : NotificationJobStatus) → parse_notification_job_status (status_text t) ≡ ok t
    back queued = refl
    back scheduled = refl
    back in_progress = refl
    back dispatched = refl
    back completed = refl
    back failed = refl
