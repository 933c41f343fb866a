-- ===== src/Server/Handlers/LiveActivity.antt =====
-- internal/server/live_activity.go
pub mod Accepted
pub mod Stored
pub mod Known
use pushboy.Prelude.{
  ℕ, String, Bool, true, false, ◌&&◌, ◌||◌, not, Option, none, some, List, ◌==◌, if◌then◌else◌,
  Error, at_not_found, is_error, Result, ok, err, Exec, pure, raise, attempt, ◌>>=◌, ◌>>◌,
}
use pushboy.Model.Push.{Platform, parse_platform}
use pushboy.Model.LiveActivity
use pushboy.Model.LiveActivity.{
  LiveActivityTokenType, LiveActivityAction, parse_live_activity_token_type,
  parse_live_activity_action,
}
use pushboy.Model.Task.{LaJobItem}
use pushboy.Storage.Tables.{
  User, LiveActivityToken, LiveActivityJob, LiveActivityDispatch, UserTopicSubscription,
}
use pushboy.Storage.World.{World}
use pushboy.Storage.LaDispatches.{update_la_dispatch_status, mark_la_dispatch_enqueued}
use pushboy.Pipeline.Outbox.{Outbox, submit}
use pushboy.Service.LiveActivity.{
  LaRegistration, register_la_token, delete_la_token, register_user_to_la_topic,
  fail_la_job_if_active,
}
use pushboy.Service.LiveActivity.Requests.{
  LaDispatchRequest, LaDispatchResult, LaInputs, create_la_dispatch_request, is_start,
}
use pushboy.Server.Pagination.{Codec}
use pushboy.Server.Queue.{Site, stored, to_queue}
use pushboy.Server.Responses.{
  Body, Response, respond, http_error, Decoded, malformed, empty, read, replied, to_user_response,
  to_la_token_response, to_subscription_response,
}
use pushboy.Server.Handlers.Users.{missing_or}
use pushboy.Server.Handlers.Send.{is_unavailable}

pub record RegisterLaTokenRequest : Type 0 where
  pub user_id : String
  pub topic_id : String
  pub activity_id : String
  pub platform : String
  pub token_type : String
  pub token : String
  pub expires_at : String

pub record DeleteLaTokenRequest : Type 0 where
  pub user_id : String
  pub token : String

pub record CreateLaJobRequest : Type 0 where
  pub action : String
  pub activity_id : String
  pub activity_type : String
  pub user_id : String
  pub topic_id : String
  pub payload : Option String
  pub options : Option String
  pub expires_at : String

abbrev after_refusal :
    LiveActivityJob → LiveActivityDispatch → Error → Exec (Site LaJobItem) (Unit {0})
after_refusal job x e =
    attempt (stored (update_la_dispatch_status x.id LiveActivity.LiveActivityDispatchStatus.failed))
      λ _.
        attempt (if is_start x.action then stored (fail_la_job_if_active job.id) else pure tt)
          (λ _. raise e)

abbrev after_submit :
    LiveActivityJob → LiveActivityDispatch → Result (Unit {0}) → Exec (Site LaJobItem) (Unit {0})
after_submit job x (ok _) = attempt (stored (mark_la_dispatch_enqueued x.id)) (λ _. pure tt)
after_submit job x (err e) = after_refusal job x e

unfoldable pub enqueue_immediate_la_dispatch :
    LiveActivityJob → LiveActivityDispatch → LaJobItem → Exec (Site LaJobItem) (Unit {0})
unfolding stored to_queue submit update_la_dispatch_status fail_la_job_if_active
    mark_la_dispatch_enqueued
enqueue_immediate_la_dispatch job x item = attempt (to_queue (submit item)) (after_submit job x)

-- An error that is not `NotFound` is told to the client as a bad request.
abbrev told_or_missing : String → Error → Response
told_or_missing text e = missing_or e (http_error text 404) (respond (Body.caused e) 400)

module _ (codec : Codec) where
  abbrev la_registered : LiveActivityToken × User → Response
  la_registered (x, u) =
      respond (Body.la_registered (to_user_response codec u) (to_la_token_response codec x)) 201

  abbrev registration : RegisterLaTokenRequest → Platform → LiveActivityTokenType → LaRegistration
  registration req platform kind = record {
    user_id = req.user_id;
    platform = platform;
    token_type = kind;
    token = req.token;
    topic_id = req.topic_id;
    expires_at = req.expires_at;
    activity_id = req.activity_id;
  }

  module _ (parse_time : String → Option ℕ) (broadcast drawn_sub drawn_token : String) where
    abbrev with_kind :
        RegisterLaTokenRequest → Platform → Result LiveActivityTokenType → Exec World Response
    with_kind req platform (err e) =
        pure (http_error "Invalid tokenType (must be 'start' or 'update')" 400)
    with_kind req platform (ok kind) =
        replied
          (register_la_token parse_time broadcast drawn_sub drawn_token
            (registration req platform kind))
          la_registered (told_or_missing "Topic not found")

    abbrev with_platform : RegisterLaTokenRequest → Result Platform → Exec World Response
    with_platform req (err e) = pure (http_error "Invalid platform (must be 'apns' or 'fcm')" 400)
    with_platform req (ok platform) =
        with_kind req platform (parse_live_activity_token_type req.token_type)

    unfoldable pub handle_register_la_token : Decoded RegisterLaTokenRequest → Exec World Response
    unfolding parse_platform parse_live_activity_token_type register_la_token to_user_response
        to_la_token_response
    handle_register_la_token malformed = pure (http_error "Bad request" 400)
    handle_register_la_token empty = pure (http_error "Bad request" 400)
    handle_register_la_token (read req) = with_platform req (parse_platform req.platform)

  unfoldable pub handle_register_user_to_la_topic : String → String → String → Exec World Response
  unfolding register_user_to_la_topic to_subscription_response
  handle_register_user_to_la_topic drawn user_id topic_id =
      if user_id == "" || topic_id == ""
      then pure (http_error "userID and topicID are required" 400)
      else replied (register_user_to_la_topic drawn user_id topic_id)
          (λ s. respond (Body.subscription (to_subscription_response codec s)) 201)
          (told_or_missing "User or topic not found")

unfoldable pub handle_delete_la_token : Decoded DeleteLaTokenRequest → Exec World Response
unfolding delete_la_token
handle_delete_la_token malformed = pure (http_error "Bad request" 400)
handle_delete_la_token empty = pure (http_error "Bad request" 400)
handle_delete_la_token (read req) =
    replied (delete_la_token req.user_id req.token) (λ _. respond Body.nothing 204)
      (told_or_missing "Live activity token not found")

abbrev text_of : Option String → String
text_of none = ""
text_of (some s) = s

abbrev pub la_item : LiveActivityJob → LiveActivityDispatch → LaJobItem
la_item job x = record {
  id = x.id;
  action = x.action;
  job_id = job.id;
  dispatch_id = x.id;
  activity_id = job.activity_id;
  activity = job.activity_type;
  payload = text_of x.payload;
  options = text_of x.options;
  topic_id = job.topic_id;
  user_id = job.user_id;
  total_count = 0;
  created_at = x.created_at;
}

abbrev dispatch_id_of : Option LiveActivityDispatch → Option String
dispatch_id_of none = none
dispatch_id_of (some x) = some x.id

abbrev pub la_answer : LaDispatchResult → Response
la_answer r =
    respond (Body.la_job r.job.activity_id r.status (dispatch_id_of r.dispatch))
      (if r.status == "already_started" || r.status == "closed" then 200 else 202)

abbrev pub la_enqueued : LaDispatchResult → Result (Unit {0}) → Response
la_enqueued r (ok _) = la_answer r
la_enqueued r (err e) =
    if is_unavailable e
    then http_error "Job queue unavailable" 503
    else http_error "Error queueing live activity dispatch" 500

abbrev pub hand_over_dispatch :
    LaDispatchResult → Option LiveActivityDispatch → Exec (Site LaJobItem) Response
hand_over_dispatch r none = pure (la_answer r)
hand_over_dispatch r (some x) =
    attempt (enqueue_immediate_la_dispatch r.job x (la_item r.job x)) (λ e. pure (la_enqueued r e))

abbrev pub on_result : Result LaDispatchResult → Exec (Site LaJobItem) Response
on_result (err e) = pure (told_or_missing "Live activity job not found" e)
on_result (ok r) = hand_over_dispatch r r.dispatch

abbrev pub request_of : CreateLaJobRequest → LiveActivityAction → LaDispatchRequest
request_of req action = record {
  action = action;
  activity_id = req.activity_id;
  activity_type = req.activity_type;
  user_id = req.user_id;
  topic_id = req.topic_id;
  payload = req.payload;
  options = req.options;
  expires_at = req.expires_at;
}

abbrev pub with_action :
    LaInputs → CreateLaJobRequest → Result LiveActivityAction → Exec (Site LaJobItem) Response
with_action inputs req (err e) =
    pure (http_error "Invalid action (must be 'start', 'update', or 'end')" 400)
with_action inputs req (ok action) =
    attempt (stored (create_la_dispatch_request inputs (request_of req action))) on_result

unfoldable pub handle_create_la_job :
    LaInputs → Decoded CreateLaJobRequest → Exec (Site LaJobItem) Response
unfolding parse_live_activity_action create_la_dispatch_request enqueue_immediate_la_dispatch
handle_create_la_job inputs malformed = pure (http_error "Bad request" 400)
handle_create_la_job inputs empty = pure (http_error "Bad request" 400)
handle_create_la_job inputs (read req) =
    with_action inputs req (parse_live_activity_action req.action)
