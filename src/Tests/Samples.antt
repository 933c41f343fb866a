-- ===== src/Tests/Samples.antt =====
-- A small database: a user with two devices, a topic, and jobs for both.
use pushboy.Prelude.{ℕ, String, Bool, true, false, Option, none, some, List, [], ◌∷◌}
use pushboy.Model.Push.{apns, fcm, NotificationJobStatus, queued, scheduled}
use pushboy.Model.Task.{
  DeliveryReceipt, DeliveryStatus, success, failed, JobItem, push, SendTask, LaSendTask,
}
use pushboy.Model.LiveActivity.{LiveActivityAction}
use pushboy.Storage.Tables.{Db, empty_db, Token, PublishJob}
use pushboy.Storage.World.{World}

abbrev pub a_token : String → Bool → Token
a_token id gone = record {
  id = id;
  user_id = "ann";
  platform = apns;
  token = "hex";
  created_at = 1;
  is_deleted = gone;
}

abbrev pub a_job : String → NotificationJobStatus → Option ℕ → PublishJob
a_job id st due = record {
  id = id;
  topic_id = "";
  user_id = "ann";
  payload = none;
  status = st;
  total_count = 0;
  success_count = 0;
  failure_count = 0;
  created_at = 1;
  completed_at = none;
  scheduled_at = due;
}

abbrev pub a_db : Db
a_db = record empty_db {
  users = record { id = "ann"; created_at = 1 } ∷ [];
  tokens = a_token "t2" false ∷ a_token "t0" true ∷ a_token "t1" false ∷ [];
  jobs = a_job "j1" queued none ∷ a_job "j2" scheduled (some 5) ∷ [];
}

-- A world in which statements succeed.
abbrev pub a_world : World
a_world = record {
  db = a_db;
  clock = 10;
  script = record { fails = false; elapsed = 2 } ∷ record { fails = false; elapsed = 3 } ∷ [];
}

-- One in which the second statement fails.
abbrev pub poor_world : World
poor_world = record {
  db = a_db;
  clock = 10;
  script = record { fails = false; elapsed = 2 } ∷ record { fails = true; elapsed = 3 } ∷ [];
}

abbrev pub an_item : JobItem
an_item = record {
  id = "j1";
  job_type = push;
  payload = none;
  max_retry = 3;
  topic_id = "";
  user_id = "ann";
  total_count = 0;
}

abbrev pub a_receipt : String → DeliveryStatus → DeliveryReceipt
a_receipt id st = record {
  id = id;
  job_id = "j1";
  token_id = "t1";
  status = st;
  status_reason = "";
  dispatched_at = 7;
}

abbrev pub some_receipts : List DeliveryReceipt
some_receipts = a_receipt "r1" success ∷ a_receipt "r2" failed ∷ a_receipt "r3" success ∷ []

abbrev pub a_task : SendTask
a_task = record {
  target = record { token_id = "t1"; token = "hex"; platform = apns };
  job = an_item;
}

abbrev pub an_la_task : LaSendTask
an_la_task = record {
  target = record { token_id = "t1"; token = "hex"; platform = fcm };
  la_job = record {
    id = "";
    action = LiveActivityAction.start;
    job_id = "l1";
    dispatch_id = "d1";
    activity_id = "a1";
    activity = "ride";
    payload = "{}";
    options = "{}";
    topic_id = "";
    user_id = "ann";
    total_count = 0;
    created_at = 4;
  };
}
