-- ===== src/Model/Task.antt =====
-- internal/model/task.go and task_la.go: what the masters hand to the senders, and the senders to
-- the outcome workers. A `time.Time` is a number of nanoseconds, 0 the zero time; a raw JSON
-- message is its text.
use pushboy.Prelude.{ℕ, String, Option}
use pushboy.Model.Push.{Platform, NotificationPayload}
use pushboy.Model.LiveActivity.{LiveActivityAction}

pub data DeliveryStatus : Type 0 where
  failed success : DeliveryStatus

pub data JobType : Type 0 where
  push la : JobType

pub record SendTarget : Type 0 where
  pub token_id : String
  pub token : String
  pub platform : Platform

pub record JobItem : Type 0 where
  pub id : String
  pub job_type : JobType
  pub payload : Option NotificationPayload
  pub max_retry : ℕ
  pub topic_id : String
  pub user_id : String
  pub total_count : ℕ

pub record SendTask : Type 0 where
  pub target : SendTarget
  pub job : JobItem

pub record DeliveryReceipt : Type 0 where
  pub id : String
  pub job_id : String
  pub token_id : String
  pub status : DeliveryStatus
  pub status_reason : String
  pub dispatched_at : ℕ

pub record SendOutcome : Type 0 where
  pub task : SendTask
  pub receipt : DeliveryReceipt

pub record LaJobItem : Type 0 where
  pub id : String
  pub action : LiveActivityAction
  pub job_id : String
  pub dispatch_id : String
  pub activity_id : String
  pub activity : String
  pub payload : String
  pub options : String
  pub topic_id : String
  pub user_id : String
  pub total_count : ℕ
  pub created_at : ℕ

pub record LaSendTask : Type 0 where
  pub target : SendTarget
  pub la_job : LaJobItem

pub record LaSendOutcome : Type 0 where
  pub task : LaSendTask
  pub receipt : DeliveryReceipt
