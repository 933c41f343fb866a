-- ===== src/Providers/Apns.antt =====
-- internal/apns/apns.go: the client of Apple's service.
pub mod Attempts
pub mod LiveActivity
use Prim.Native.String
use pushboy.Prelude.{
  ℕ, zero, suc, ◌+◌, ◌*◌, String, Bool, true, false, ◌&&◌, ◌||◌, not, Option, none, some, List, [],
  ◌∷◌, ◌++◌, ◌==◌, eqb, ltb, leb, if◌then◌else◌, contains, insert, Error, message, wrap, Result, ok,
  err,
}
use pushboy.Model.Push.{NotificationPayload}
use pushboy.Providers.Http.{
  HttpResponse, Reply, failed, answered, Attempt, Sending, refused, finished, again,
}

pub record Alert : Type 0 where
  pub title : String
  pub body : String

pub record ApsPayload : Type 0 where
  pub alert : Option Alert
  pub sound : String
  pub badge : Option ℕ
  pub content_available : ℕ
  pub mutable_content : ℕ
  pub thread_id : String
  pub category : String

-- `Client`, without its HTTP clients and its token.
pub record ApnsClient : Type 0 where
  pub bundle_id : String
  pub endpoint : String
  pub pool_size : ℕ
  pub max_concurrent : ℕ
  pub max_retries : ℕ

-- Sizes are not negative here: a negative one is 0.
unfoldable pub new_apns_client : String → Bool → String → ℕ → ℕ → ℕ → ApnsClient
new_apns_client bundle_id use_sandbox endpoint_override pool_size max_concurrent max_retries =
    let pool = if ltb pool_size 1 then 1 else pool_size in
    record {
      bundle_id = bundle_id;
      endpoint =
          if not (endpoint_override == "")
          then endpoint_override
          else if use_sandbox
          then "https://api.sandbox.push.apple.com"
          else "https://api.push.apple.com";
      pool_size = pool;
      max_concurrent = if ltb max_concurrent 1 then pool * 900 else max_concurrent;
      max_retries = max_retries;
    }

-- `cachedJWT` and `jwtExpiry`, in seconds.
pub record JwtCache : Type 0 where
  pub cached : String
  pub expiry : ℕ

abbrev renewed : ℕ → Result String → JwtCache → Result String × JwtCache
renewed now (err e) cache = (err e, cache)
renewed now (ok jwt) cache = (ok jwt, record { cached = jwt; expiry = now + 3600 })

-- One call at a time holds the lock, so the second look at the cache sees what the first saw.
unfoldable pub get_jwt : (ℕ → Result String) → ℕ → JwtCache → Result String × JwtCache
get_jwt generate now cache =
    if not (cache.cached == "") && ltb (now + 300) cache.expiry
    then (ok cache.cached, cache)
    else renewed now (generate now) cache

-- The value of a key of the request: the `aps` dictionary or a text of the caller's data.
pub data ApnsValue : Type 0 where
  aps : ApsPayload → ApnsValue
  custom_text : String → ApnsValue

abbrev pub put_all : List (String × String) → List (String × ApnsValue) → List (String × ApnsValue)
put_all [] m = m
put_all ((k, v) ∷ rest) m = put_all rest (insert k (custom_text v) m)

abbrev pub aps_of : NotificationPayload → ApsPayload
aps_of p = record {
  alert = if p.silent then none else some (record { title = p.title; body = p.body });
  sound = if p.silent then "" else p.sound;
  badge = if p.silent then none else p.badge;
  content_available = if p.silent then 1 else 0;
  mutable_content = if p.image_url == "" then 0 else 1;
  thread_id = p.thread_id;
  category = p.category;
}

-- The request before it is marshalled.
unfoldable pub apns_request : NotificationPayload → List (String × ApnsValue)
unfolding insert
apns_request p =
    let with_data = put_all p.custom (("aps", aps (aps_of p)) ∷ []) in
    if p.image_url == "" then with_data else insert "image_url" (custom_text p.image_url) with_data

-- The headers, with the texts of numbers by `itoa`; `sendWithRetry` does not send one that is empty.
unfoldable pub apns_headers :
    (ℕ → String) → ℕ → ApnsClient → NotificationPayload → List (String × String)
apns_headers itoa now c p =
    ("apns-topic", c.bundle_id)
      ∷ ("apns-push-type", if p.silent then "background" else "alert")
      ∷ ("apns-priority", if p.silent then "5" else if p.priority == "normal" then "5" else "10")
      ∷ (if p.collapse_id == "" then [] else ("apns-collapse-id", p.collapse_id) ∷ [])
    ++ (if ltb 0 p.ttl
        then ("apns-expiration", itoa (now + p.ttl)) ∷ []
        else if p.silent
        then ("apns-expiration", itoa (now + 3600)) ∷ []
        else [])

unfoldable pub is_retryable_error : String → Bool
is_retryable_error text =
    contains text "GOAWAY"
    || contains text "connection reset"
    || contains text "connection refused"
    || contains text "EOF"
    || contains text "timeout"

abbrev pub initial_backoff : ℕ
initial_backoff = 100

abbrev pub max_backoff : ℕ
max_backoff = 2000

abbrev pub doubled : ℕ → ℕ
doubled backoff = if ltb max_backoff (backoff * 2) then max_backoff else backoff * 2

-- `atoi` reads a negative number as 0: both are no wait. `reason_of` reads the reason of a body.
module _ (atoi : String → Option ℕ) (reason_of : String → Option String) (tries : ℕ → Attempt) where
  abbrev seconds_or : ℕ → Option ℕ → ℕ
  seconds_or backoff none = backoff
  seconds_or backoff (some n) = n * 1000

  abbrev pub retry_after_or : ℕ → String → ℕ
  retry_after_or backoff raw = if raw == "" then backoff else seconds_or backoff (atoi raw)

  abbrev no_reason : String → Error
  no_reason status = wrap "failed to send notification" (message status)

  abbrev reason_error : String → Option String → Error
  reason_error status none = no_reason status
  reason_error status (some reason) =
      if reason == ""
      then no_reason status
      else message (
          String.◌++◌ "APNs error: "
            (String.◌++◌ status (String.◌++◌ " (reason: " (String.◌++◌ reason ")"))))

  -- The loop after this attempt, if one is left.
  abbrev rate_limited : ℕ → Option (ℕ → Sending) → Option Error → HttpResponse → Sending
  rate_limited backoff none ended r = finished (err (wrap "rate limited" (message r.status)))
  rate_limited backoff (some next) ended r =
      let wait = retry_after_or backoff r.retry_after in again wait ended (next (doubled wait))

  abbrev pub on_reply : ℕ → Option (ℕ → Sending) → Option Error → Reply → Sending
  on_reply backoff none ended (failed text) = finished (err (message text))
  on_reply backoff (some next) ended (failed text) =
      if is_retryable_error text
      then again backoff ended (next (doubled backoff))
      else finished (err (message text))
  on_reply backoff more ended (answered r) =
      if eqb r.status_code 200
      then finished (ok tt)
      else if eqb r.status_code 429
      then rate_limited backoff more ended r
      else finished (err (reason_error r.status (reason_of r.body)))

  abbrev pub on_attempt : ℕ → Option (ℕ → Sending) → Attempt → Sending
  on_attempt backoff more a = elim a.slot [
    | some e ↦ refused e
    | none ↦ on_reply backoff more a.ended a.reply
  ]

  -- With so many retries left.
  unfoldable pub retry_loop : ℕ → ℕ → ℕ → Sending
  unfolding is_retryable_error
  retry_loop zero attempt backoff = on_attempt backoff none (tries attempt)
  retry_loop (suc left) attempt backoff =
      on_attempt backoff (some (λ wait. retry_loop left (suc attempt) wait)) (tries attempt)

  unfoldable pub send_with_retry : ApnsClient → Sending
  unfolding retry_loop
  send_with_retry c = retry_loop c.max_retries 0 initial_backoff

  abbrev with_jwt : ApnsClient → Result String × JwtCache → Sending × JwtCache
  with_jwt c (err e, cache) = (refused (wrap "failed to get JWT" e), cache)
  with_jwt c (ok jwt, cache) = (send_with_retry c, cache)

  -- `Send`: the token, and then the attempts, with the request and the headers above.
  unfoldable pub send_apns : (ℕ → Result String) → ℕ → ApnsClient → JwtCache → Sending × JwtCache
  unfolding get_jwt send_with_retry
  send_apns generate now c cache = with_jwt c (get_jwt generate now cache)
