-- ===== src/Workers/Dispatch.antt =====
-- internal/workers/dispatch.go: a sender's call of a provider, and the outcome that it submits.
pub mod Recorded
use pushboy.Prelude.{
  ℕ, String, Bool, Option, none, some, List, [], ◌∷◌, ◌++◌, Error, message, wrap, opaque_cause,
  is_error, at_canceled, Result, ok, err, Exec, raise, pure, attempt, ◌>>◌, ◌>>=◌, if◌then◌else◌,
}
use pushboy.Pipeline.Outbox.{Outbox, submit}
use pushboy.Model.Push.{Platform, NotificationPayload, platform_text}
use pushboy.Model.LiveActivity.{LiveActivityAction}
use pushboy.Model.Task.{
  DeliveryStatus, failed, success, DeliveryReceipt, SendTask, SendOutcome, LaSendTask,
  LaSendOutcome,
}

pub record LiveActivityRequest : Type 0 where
  pub action : LiveActivityAction
  pub activity_id : String
  pub activity_type : String
  pub payload : String
  pub options : String
  pub created_at : ℕ

-- `dispatch.Dispatcher`, with `LiveActivityDispatcher` where the value implements it too: what the
-- provider answers.
pub record Dispatcher : Type 0 where
  pub send : String → Option NotificationPayload → Result (Unit {0})
  pub send_live_activity : Option (String → LiveActivityRequest → Result (Unit {0}))

module _ {O : Type 0} where
  abbrev resubmit : O → Result (Unit {0}) → Exec (Outbox O) (Unit {0})
  resubmit o (ok _) = pure tt
  resubmit o (err e) = if is_error at_canceled e then pure tt else attempt (submit o) (λ _. pure tt)

  unfoldable pub push_to_dlq : O → Exec (Outbox O) (Unit {0})
  unfolding submit is_error
  push_to_dlq o = attempt (submit o) (resubmit o)

abbrev pub returned : {S : Type 0} → (Error → Error) → Result (Unit {0}) → Exec S (Unit {0})
returned f (ok _) = pure tt
returned f (err e) = raise (f e)

-- `render` is `err.Error()`; the id and the time of the receipt are drawn outside.
module _ (render : Error → String) (id : String) (now : ℕ) where
  abbrev pub receipt : String → String → Result (Unit {0}) → DeliveryReceipt
  receipt job_id token_id (ok _) = record {
    id = id;
    job_id = job_id;
    token_id = token_id;
    status = success;
    status_reason = "";
    dispatched_at = now;
  }
  receipt job_id token_id (err e) = record {
    id = id;
    job_id = job_id;
    token_id = token_id;
    status = failed;
    status_reason = render e;
    dispatched_at = now;
  }

module _ (render : Error → String) (dispatchers : Platform → Option Dispatcher) (id : String)
    (now : ℕ) where
  abbrev unknown : Platform → Error
  unknown p = wrap "Unknown dispatcher platform" (message (platform_text p))

  abbrev no_live_activity : Platform → Error
  no_live_activity p =
      wrap "No live activity dispatcher configured for platform" (message (platform_text p))

  -- What comes of the look-up and the call.
  abbrev pub sent_push : SendTask → Option Dispatcher → Result (Unit {0})
  sent_push task none = err (unknown task.target.platform)
  sent_push task (some d) = d.send task.target.token task.job.payload

  abbrev pub push_receipt : SendTask → DeliveryReceipt
  push_receipt task =
      receipt render id now task.job.id task.target.token_id
        (sent_push task (dispatchers task.target.platform))

  abbrev pub push_error : Option Dispatcher → Error → Error
  push_error none = opaque_cause "notification tokenId"
  push_error (some d) = wrap "sending notification to tokenId"

  unfoldable pub dispatch_push_task : SendTask → Exec (Outbox SendOutcome) (Unit {0})
  unfolding push_to_dlq platform_text
  dispatch_push_task task =
      push_to_dlq (record { task = task; receipt = push_receipt task })
      >> returned (push_error (dispatchers task.target.platform))
          (sent_push task (dispatchers task.target.platform))

  abbrev pub la_request : LaSendTask → LiveActivityRequest
  la_request task = record {
    action = task.la_job.action;
    activity_id = task.la_job.activity_id;
    activity_type = task.la_job.activity;
    payload = task.la_job.payload;
    options = task.la_job.options;
    created_at = task.la_job.created_at;
  }

  abbrev sent_by :
      LaSendTask → Option (String → LiveActivityRequest → Result (Unit {0})) → Result (Unit {0})
  sent_by task none = err (no_live_activity task.target.platform)
  sent_by task (some send) = send task.target.token (la_request task)

  abbrev pub sent_la : LaSendTask → Option Dispatcher → Result (Unit {0})
  sent_la task none = err (unknown task.target.platform)
  sent_la task (some d) = sent_by task d.send_live_activity

  abbrev pub la_receipt : LaSendTask → DeliveryReceipt
  la_receipt task =
      receipt render id now task.la_job.dispatch_id task.target.token_id
        (sent_la task (dispatchers task.target.platform))

  abbrev la_error_by : Option (String → LiveActivityRequest → Result (Unit {0})) → Error → Error
  la_error_by none = opaque_cause "live activity tokenId"
  la_error_by (some send) = wrap "sending live activity to tokenId"

  abbrev pub la_error : Option Dispatcher → Error → Error
  la_error none = opaque_cause "live activity tokenId"
  la_error (some d) = la_error_by d.send_live_activity

  unfoldable pub dispatch_la_task : LaSendTask → Exec (Outbox LaSendOutcome) (Unit {0})
  unfolding push_to_dlq platform_text
  dispatch_la_task task =
      push_to_dlq (record { task = task; receipt = la_receipt task })
      >> returned (la_error (dispatchers task.target.platform))
          (sent_la task (dispatchers task.target.platform))
