-- ===== src/Storage/Tables.antt =====
-- The rows of the tables of db/migrations/postgres, under the field names of the structs of
-- internal/storage/storage.go. A column that may be NULL is an `Option`, but a NULL `user_id` or
-- `topic_id` is the empty text, as `COALESCE(…, '')` reads it.
use pushboy.Prelude.{ℕ, String, Bool, Option, List, []}
use pushboy.Model.Push.{Platform, NotificationPayload, NotificationJobStatus}
use pushboy.Model.LiveActivity.{
  LiveActivityTokenType, LiveActivityAction, LiveActivityJobStatus, LiveActivityDispatchStatus,
}
use pushboy.Model.Task.{DeliveryReceipt}

pub record User : Type 0 where
  pub id : String
  pub created_at : ℕ

pub record Token : Type 0 where
  pub id : String
  pub user_id : String
  pub platform : Platform
  pub token : String
  pub created_at : ℕ
  pub is_deleted : Bool

pub record Topic : Type 0 where
  pub id : String
  pub name : String

pub record UserTopicSubscription : Type 0 where
  pub id : String
  pub user_id : String
  pub topic_id : String
  pub created_at : ℕ

pub record PublishJob : Type 0 where
  pub id : String
  pub topic_id : String
  pub user_id : String
  pub payload : Option NotificationPayload
  pub status : NotificationJobStatus
  pub total_count : ℕ
  pub success_count : ℕ
  pub failure_count : ℕ
  pub created_at : ℕ
  pub completed_at : Option ℕ
  pub scheduled_at : Option ℕ

pub record LiveActivityToken : Type 0 where
  pub id : String
  pub user_id : String
  pub platform : Platform
  pub token_type : LiveActivityTokenType
  pub token : String
  pub activity_id : String
  pub created_at : ℕ
  pub last_seen_at : ℕ
  pub expires_at : Option ℕ
  pub invalidated_at : Option ℕ

-- A row of live_activity_token_activities.
pub record TokenActivity : Type 0 where
  pub activity_id : String
  pub token_id : String
  pub created_at : ℕ
  pub last_seen_at : ℕ

pub record LiveActivityJob : Type 0 where
  pub id : String
  pub activity_id : String
  pub activity_type : String
  pub user_id : String
  pub topic_id : String
  pub status : LiveActivityJobStatus
  pub latest_payload : Option String
  pub options : Option String
  pub created_at : ℕ
  pub updated_at : ℕ
  pub expires_at : Option ℕ
  pub closed_at : Option ℕ

pub record LiveActivityDispatch : Type 0 where
  pub id : String
  pub live_activity_job_id : String
  pub action : LiveActivityAction
  pub payload : Option String
  pub options : Option String
  pub status : LiveActivityDispatchStatus
  pub total_count : ℕ
  pub success_count : ℕ
  pub failure_count : ℕ
  pub created_at : ℕ
  pub completed_at : Option ℕ

pub record Db : Type 0 where
  pub users : List User
  pub tokens : List Token
  pub topics : List Topic
  pub subscriptions : List UserTopicSubscription
  pub jobs : List PublishJob
  pub receipts : List DeliveryReceipt
  pub la_tokens : List LiveActivityToken
  pub la_activities : List TokenActivity
  pub la_subscriptions : List UserTopicSubscription
  pub la_jobs : List LiveActivityJob
  pub la_dispatches : List LiveActivityDispatch

abbrev pub empty_db : Db
empty_db = record {
  users = [];
  tokens = [];
  topics = [];
  subscriptions = [];
  jobs = [];
  receipts = [];
  la_tokens = [];
  la_activities = [];
  la_subscriptions = [];
  la_jobs = [];
  la_dispatches = [];
}
