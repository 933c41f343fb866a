-- ===== src/Tests/Send.antt =====
-- Requests that send: a notification for now, one for later, one that the queue refuses, and a live
-- activity that is started.
use pushboy.Prelude.{
  ℕ, ◌≡◌, refl, String, false, Option, none, some, List, [], ◌∷◌, if◌then◌else◌, ◌==◌, Error,
  attempt, is_error, closed, ok,
}
use pushboy.Model.Push.{NotificationPayload, failed}
use pushboy.Model.LiveActivity.Options.{no_options}
use pushboy.Model.Task.{JobItem, LaJobItem}
use pushboy.Storage.World.{statement}
use pushboy.Service.LiveActivity.Requests.{LaInputs}
use pushboy.Server.Queue.{Site}
use pushboy.Server.Responses.{Body, respond, http_error, read}
use pushboy.Server.Handlers.Send.{SendNotificationRequest, handle_send_to_user}
use pushboy.Server.Handlers.Send.Accepted.{user, handle, AcceptedFor, accepted_is_stored}
use pushboy.Server.Handlers.Send.Refused.{new_row, with_row, refused_is_failed}
use pushboy.Server.Handlers.LiveActivity.{CreateLaJobRequest}
use pushboy.Tests.Samples.{a_db, a_world}

abbrev read_time : String → Option ℕ
read_time s = if s == "soon" then some 50 else none

abbrev a_payload : NotificationPayload
a_payload = record {
  title = "Hello";
  body = "";
  image_url = "";
  sound = "";
  badge = none;
  custom = [];
  silent = false;
  collapse_id = "";
  priority = "";
  ttl = 0;
  thread_id = "";
  category = "";
}

abbrev a_request : SendNotificationRequest
a_request = record { payload = a_payload; scheduled_at = "" }

abbrev a_site : List (Option Error) → Site JobItem
a_site answers = record { world = a_world; queue = record { taken = []; answers = answers } }

queued_at_once :
    (handle user read_time "j9" "ann" a_request (a_site [])).0 ≡ ok (respond (Body.queued "j9") 202)
unfolding handle_send_to_user attempt statement
queued_at_once = refl

accepted_is_stored_example :
    AcceptedFor user "ann" a_request "j9"
      (a_site [])
      (handle user read_time "j9" "ann" a_request (a_site [])).1
accepted_is_stored_example =
    accepted_is_stored user read_time "j9" "ann" a_request (a_site [])
      (respond (Body.queued "j9") 202) queued_at_once refl

refused_is_failed_example :
    let out =
      handle_send_to_user read_time "j9" "ann" (read a_request) (a_site (some closed ∷ [])) in
    (t : ℕ) × (out.0 ≡ ok (http_error "Job queue unavailable" 503))
    × (out.1.world.db ≡ with_row (record (new_row "j9" "ann" a_payload t) { status = failed }) a_db)
    × (out.1.queue ≡ record { taken = []; answers = [] })
unfolding is_error
refused_is_failed_example =
    refused_is_failed read_time "j9" "ann" a_payload (a_site (some closed ∷ [])) closed []
      (refl, (refl, tt)) (record { known = refl; fresh = refl }) refl refl refl

-- A notification for later is stored and is not put into the queue.
for_later :
    (handle_send_to_user read_time "j9" "ann"
      (read (record { payload = a_payload; scheduled_at = "soon" }))
      (a_site [])).1.queue
    ≡ record { taken = []; answers = [] }
unfolding handle_send_to_user attempt statement
for_later = refl

abbrev some_inputs : LaInputs
some_inputs = record {
  parse_time = read_time;
  unmarshal = λ _. some no_options;
  job_id = "la1";
  dispatch_id = "d1";
}

abbrev a_start : CreateLaJobRequest
a_start = record {
  action = "start";
  activity_id = "game";
  activity_type = "score";
  user_id = "ann";
  topic_id = "";
  payload = some "{}";
  options = none;
  expires_at = "";
}

abbrev a_la_site : Site LaJobItem
a_la_site = record { world = a_world; queue = record { taken = []; answers = [] } }
