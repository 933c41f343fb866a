-- ===== src/Tests/Providers.antt =====
-- The clients of the providers: answers, retries, and a token that is gone.
use pushboy.Prelude.{
  ℕ, zero, suc, ◌≤◌, String, ◌≡◌, refl, false, Option, none, some, [], ◌∷◌, length, ok, Result,
  is_ok, Error, message, lookup,
}
use pushboy.Model.Push.{Platform, fcm, NotificationPayload}
use pushboy.Model.LiveActivity.{LiveActivityTokenType}
use pushboy.Model.LiveActivity.Options.{no_options}
use pushboy.Workers.Dispatch.{Dispatcher, la_receipt}
use pushboy.Providers.Http.{HttpResponse, failed, answered, Attempt}
use pushboy.Providers.Http.Tries.{is_reached, with_fields}
use pushboy.Providers.Apns.{ApnsClient, custom_text, send_with_retry, apns_request}
use pushboy.Providers.Apns.Attempts as ApnsAttempts
use pushboy.Providers.Apns.Attempts.{send_with_retry_lem}
use pushboy.Providers.Fcm.{FcmClient, FcmError, send_message}
use pushboy.Providers.Fcm.Attempts as FcmAttempts
use pushboy.Providers.Fcm.Attempts.{send_message_lem}
use pushboy.Providers.Fcm.LiveActivity.{FcmJson, fcm_la_message}
use pushboy.Providers.Fcm.Gone.{fcm_dispatcher, gone-IsInvalidated}
use pushboy.Storage.World.{World}
use pushboy.Storage.LaOutcomes.{apply_la_outcome_batch}
use pushboy.Storage.LaOutcomes.Invalidated.{IsInvalidated}
use pushboy.Tests.Samples.{an_la_task, a_world}

abbrev status : ℕ → HttpResponse
status n = record { status_code = n; status = "status"; retry_after = ""; body = "body" }

-- A lost connection, then 429, then 200.
abbrev third_time : ℕ → Attempt
third_time zero = with_fields none (failed "http2: GOAWAY") none
third_time (suc zero) = with_fields none (answered (status 429)) none
third_time (suc (suc n)) = with_fields none (answered (status 200)) none

abbrev an_apns_client : ApnsClient
an_apns_client = record {
  bundle_id = "app";
  endpoint = "https://api.push.apple.com";
  pool_size = 1;
  max_concurrent = 900;
  max_retries = 2;
}

send_with_retry_lem_example :
    let s = send_with_retry (λ _. none) (λ _. none) third_time an_apns_client in
    (is_ok s.result ≡ is_reached ApnsAttempts.may_retry third_time 2 0)
    × (s.requests ≤ 3)
    × (length s.waits ≤ 2)
send_with_retry_lem_example = send_with_retry_lem (λ _. none) (λ _. none) third_time an_apns_client

waits_test :
    (send_with_retry (λ _. none) (λ _. none) third_time an_apns_client).waits ≡ 100 ∷ 200 ∷ []
unfolding send_with_retry
waits_test = refl

abbrev an_fcm_client : FcmClient
an_fcm_client = record { project_id = "p"; pool_size = 1; max_concurrent = 90; max_retries = 1 }

send_message_lem_example :
    let s = send_message (λ _. none) third_time an_fcm_client in
    (is_ok s.result ≡ is_reached FcmAttempts.may_retry third_time 1 0)
    × (s.requests ≤ 2)
    × (length s.waits ≤ 1)
send_message_lem_example = send_message_lem (λ _. none) third_time an_fcm_client

-- Data with the key `aps` takes the place of the dictionary.
abbrev a_payload : NotificationPayload
a_payload = record {
  title = "Hi";
  body = "";
  image_url = "";
  sound = "";
  badge = none;
  custom = ("aps", "mine") ∷ [];
  silent = false;
  collapse_id = "";
  priority = "";
  ttl = 0;
  thread_id = "";
  category = "";
}

aps_test : lookup "aps" (apns_request a_payload) ≡ some (custom_text "mine")
unfolding apns_request lookup
aps_test = refl

abbrev some_json : FcmJson
some_json = record {
  compact = λ s. some s;
  fields = λ _. none;
  text_of = λ s. some s;
  unmarshal = λ _. some no_options;
}

abbrev an_error : FcmError
an_error = record {
  code = "404";
  message = "gone";
  status = "NOT_FOUND";
  error_codes = "unregistered" ∷ [];
}

abbrev says_gone : ℕ → Attempt
says_gone n = with_fields none (answered (status 404)) none

abbrev text_of_error : Error → String
text_of_error (message s) = s
text_of_error _ = ""

abbrev number_text : ℕ → String
number_text n = "60"

abbrev no_push : String → Option NotificationPayload → Result (Unit {0})
no_push token p = ok tt

abbrev the_dispatcher : Dispatcher
the_dispatcher =
    fcm_dispatcher some_json number_text (λ _. some an_error) says_gone an_fcm_client no_push

abbrev dispatchers_of : Platform → Option Dispatcher
dispatchers_of p = some the_dispatcher

-- The token of the task is in the table.
abbrev a_token_world : World
a_token_world = record a_world {
  db = record a_world.db {
    la_tokens =
        record {
          id = "t1";
          user_id = "u1";
          platform = fcm;
          token_type = LiveActivityTokenType.update;
          token = "token";
          activity_id = "a1";
          created_at = 1;
          last_seen_at = 1;
          expires_at = none;
          invalidated_at = none;
        }
        ∷ [];
  };
}

gone-IsInvalidated_example :
    let applied =
      apply_la_outcome_batch
        (record {
          task = an_la_task;
          receipt = la_receipt text_of_error dispatchers_of "r1" 7 an_la_task;
        }
          ∷ [])
        a_token_world in
    (applied.0 ≡ ok tt) × IsInvalidated "t1" applied.1.db
unfolding fcm_la_message
gone-IsInvalidated_example =
    gone-IsInvalidated some_json number_text (λ _. some an_error) says_gone an_fcm_client no_push
      text_of_error dispatchers_of "r1" 7 an_la_task _ (status 404) none a_token_world (λ _. refl)
      refl refl refl (refl, refl, an_error, refl, refl) (refl, (refl, tt))
