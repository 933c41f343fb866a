-- ===== src/Providers/Fcm.antt =====
-- internal/fcm/fcm.go: the client of Google's service.
pub mod Attempts
pub mod Gone
pub mod LiveActivity
use Prim.Native.Char.{code}
use Prim.Native.String
use Prim.Native.String.{[], ◌∷◌}
use pushboy.Prelude.{
  ℕ, zero, suc, ◌+◌, ◌*◌, String, Bool, true, false, ◌&&◌, ◌||◌, not, Option, none, some, List,
  ◌++◌, ◌==◌, eqb, ltb, leb, length, if◌then◌else◌, contains, exists, Error, message, wrap, Result,
  ok, err,
}
use pushboy.Model.Push.{NotificationPayload}
use pushboy.Providers.Http.{
  HttpResponse, Reply, failed, answered, Attempt, Sending, refused, finished, again,
}

pub record Notification : Type 0 where
  pub title : String
  pub body : String
  pub image : String

pub record AndroidNotification : Type 0 where
  pub sound : String
  pub tag : String
  pub click_action : String

pub record AndroidConfig : Type 0 where
  pub collapse_key : String
  pub priority : String
  pub ttl : String
  pub notification : Option AndroidNotification

-- `custom` is the field Data.
pub record FcmMessage : Type 0 where
  pub token : String
  pub notification : Option Notification
  pub custom : List (String × String)
  pub android : Option AndroidConfig

-- `Client`, without its HTTP clients.
pub record FcmClient : Type 0 where
  pub project_id : String
  pub pool_size : ℕ
  pub max_concurrent : ℕ
  pub max_retries : ℕ

-- Given what the credentials and the `project_id` of the service account are read as.
unfoldable pub new_fcm_client :
    Result (Unit {0}) → Result (Option String) → ℕ → ℕ → ℕ → Result FcmClient
new_fcm_client (err e) project pool_size max_concurrent max_retries = err e
new_fcm_client (ok _) (err e) pool_size max_concurrent max_retries = err e
new_fcm_client (ok _) (ok none) pool_size max_concurrent max_retries =
    err (message "project_id not found in service account JSON")
new_fcm_client (ok _) (ok (some id)) pool_size max_concurrent max_retries =
    let pool = if ltb pool_size 1 then 1 else pool_size in
    ok (record {
      project_id = id;
      pool_size = pool;
      max_concurrent = if ltb max_concurrent 1 then pool * 90 else max_concurrent;
      max_retries = max_retries;
    })

abbrev android_notification : NotificationPayload → Option AndroidNotification
android_notification p =
    if p.silent || p.sound == "" && p.thread_id == "" && p.category == ""
    then none
    else some (record { sound = p.sound; tag = p.thread_id; click_action = p.category })

-- `Send`, up to the call of `sendMessage`. The priority is always set, so there is always a
-- configuration.
unfoldable pub fcm_message : (ℕ → String) → String → NotificationPayload → FcmMessage
fcm_message itoa token p = record {
  token = token;
  notification =
      if p.silent
      then none
      else some (record { title = p.title; body = p.body; image = p.image_url });
  custom = p.custom;
  android = some (record {
    collapse_key = p.collapse_id;
    priority = if p.silent then "NORMAL" else if p.priority == "normal" then "NORMAL" else "HIGH";
    ttl = if ltb 0 p.ttl then String.◌++◌ (itoa p.ttl) "s" else "";
    notification = android_notification p;
  });
}

unfoldable pub is_retryable_transport_error : String → Bool
is_retryable_transport_error cause =
    contains cause "GOAWAY"
    || contains cause "connection reset"
    || contains cause "connection refused"
    || contains cause "broken pipe"
    || contains cause "EOF"
    || contains cause "timeout"

-- `strings.EqualFold` with an ASCII text: letters, and the two others that fold to one.
abbrev fold : ℕ → ℕ
fold c =
    if leb b'A' c && leb c b'Z'
    then c + 32
    else if eqb c 0x17F
    then b's'
    else if eqb c 0x212A
    then b'k'
    else c

abbrev pub equal_fold : String → String → Bool
equal_fold [] [] = true
equal_fold [] (d ∷ t) = false
equal_fold (c ∷ s) [] = false
equal_fold (c ∷ s) (d ∷ t) = eqb (fold (code c)) (fold (code d)) && equal_fold s t

-- The body of an error, as encoding/json reads it; the code is the text of the number.
pub record FcmError : Type 0 where
  pub code : String
  pub message : String
  pub status : String
  pub error_codes : List String

abbrev failed_with_status : String → Error
failed_with_status status = wrap "failed to send notification" (Error.message status)

abbrev fcm_error : String → Option FcmError → Error
fcm_error fallback none = failed_with_status fallback
fcm_error fallback (some e) =
    if exists (λ c. equal_fold c "UNREGISTERED") e.error_codes
    then Error.message "FCM error: registration-token-not-registered"
    else if e.message == ""
    then failed_with_status fallback
    else Error.message (
        String.◌++◌ "FCM error: " (
          String.◌++◌ e.message (
            String.◌++◌ " (status: "
              (String.◌++◌ e.status (String.◌++◌ ", code: " (String.◌++◌ e.code ")"))))))

unfoldable pub parse_fcm_error : (String → Option FcmError) → String → String → Error
parse_fcm_error decode body fallback = fcm_error fallback (decode body)

abbrev pub is_busy : ℕ → Bool
is_busy status = eqb status 429 || eqb status 503 || eqb status 500

-- The loop of `sendMessage`; the marshalling of a message does not fail.
module _ (decode : String → Option FcmError) (tries : ℕ → Attempt) where
  abbrev pub on_reply : ℕ → Option (ℕ → Sending) → Option Error → Reply → Sending
  on_reply backoff none ended (failed cause) = finished (err (Error.message cause))
  on_reply backoff (some next) ended (failed cause) =
      if is_retryable_transport_error cause
      then again backoff ended (next (backoff * 2))
      else finished (err (Error.message cause))
  on_reply backoff none ended (answered r) =
      if eqb r.status_code 200
      then finished (ok tt)
      else finished (err (parse_fcm_error decode r.body r.status))
  on_reply backoff (some next) ended (answered r) =
      if eqb r.status_code 200
      then finished (ok tt)
      else if is_busy r.status_code
      then again backoff ended (next (backoff * 2))
      else finished (err (parse_fcm_error decode r.body r.status))

  abbrev pub on_attempt : ℕ → Option (ℕ → Sending) → Attempt → Sending
  on_attempt backoff more a = elim a.slot [
    | some e ↦ refused e
    | none ↦ on_reply backoff more a.ended a.reply
  ]

  -- With so many retries left.
  unfoldable pub message_loop : ℕ → ℕ → ℕ → Sending
  unfolding is_retryable_transport_error parse_fcm_error
  message_loop zero attempt backoff = on_attempt backoff none (tries attempt)
  message_loop (suc left) attempt backoff =
      on_attempt backoff (some (λ wait. message_loop left (suc attempt) wait)) (tries attempt)

  unfoldable pub send_message : FcmClient → Sending
  unfolding message_loop
  send_message c = message_loop c.max_retries 0 500
