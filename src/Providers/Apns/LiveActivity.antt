-- ===== src/Providers/Apns/LiveActivity.antt =====
-- internal/apns/apns_la.go: live activities. What encoding/json and time do is a parameter.
use Prim.Native.String
use pushboy.Prelude.{
  ℕ, ◌+◌, String, Bool, Option, none, some, List, [], ◌∷◌, ◌==◌, eqb, ltb, has_suffix,
  if◌then◌else◌, trim_space, message, wrap, Result, ok, err,
}
use pushboy.Model.LiveActivity.{LiveActivityAction, action_text}
use pushboy.Model.LiveActivity.Options.{
  LiveActivityAlert, WireOptions, ParsedLiveActivityOptions, parse_live_activity_options, is_blank,
}
use pushboy.Workers.Dispatch.{LiveActivityRequest}
use pushboy.Providers.Http.{Attempt, Sending, refused}
use pushboy.Providers.Apns.{ApnsClient, JwtCache, get_jwt, send_with_retry}

-- A value that stands for a time, as `parseLATime` tells them apart; a number is that of its seconds.
pub data LaTime : Type 0 where
  nothing other : LaTime
  seconds : ℕ → LaTime
  written : String → LaTime

-- `json.Unmarshal` into the options, and whether it reads a text at all; the type of a value of the
-- options, from its text; `strconv.ParseInt`, and `time.Parse` with the seconds of the time.
pub record ApnsJson : Type 0 where
  pub unmarshal : String → Option WireOptions
  pub is_valid : String → Bool
  pub time_of : String → LaTime
  pub parse_int : String → Option ℕ
  pub parse_time : String → Option ℕ

pub record LaAps : Type 0 where
  pub timestamp : ℕ
  pub event : String
  pub content_state : Option String
  pub attributes : Option (String × String)
  pub alert : Option LiveActivityAlert
  pub relevance_score : Option String
  pub stale_date : Option ℕ
  pub dismissal_date : Option ℕ

abbrev and_then : {A B : Type 0} → Result A → (A → Result B) → Result B
and_then (err e) next = err e
and_then (ok a) next = next a

abbrev wrapped : {A : Type 0} → String → Result A → Result A
wrapped cause (err e) = err (wrap cause e)
wrapped cause (ok a) = ok a

abbrev or_now : Option ℕ → ℕ → ℕ
or_now none t = t
or_now (some s) t = s

abbrev or_empty : Option String → String
or_empty none = ""
or_empty (some s) = s

unfoldable pub la_topic : String → String
la_topic bundle_id =
    if bundle_id == ""
    then ""
    else if has_suffix bundle_id ".push-type.liveactivity"
    then bundle_id
    else String.◌++◌ bundle_id ".push-type.liveactivity"

module _ (json : ApnsJson) where
  abbrev parsed_time : Option ℕ → Option ℕ → Result (Option ℕ)
  parsed_time (some unix) parsed = ok (some unix)
  parsed_time none (some t) = ok (some t)
  parsed_time none none = err (message "must be unix seconds or RFC3339")

  abbrev time_of_text : String → Result (Option ℕ)
  time_of_text s = if s == "" then ok none else parsed_time (json.parse_int s) (json.parse_time s)

  unfoldable pub parse_la_time : LaTime → Result (Option ℕ)
  unfolding trim_space
  parse_la_time nothing = ok none
  parse_la_time (seconds n) = ok (some n)
  parse_la_time (written s) = time_of_text (trim_space s)
  parse_la_time other = err (message "must be unix seconds or RFC3339")

  abbrev optional_time : Option String → LaTime
  optional_time none = nothing
  optional_time (some s) = json.time_of s

  -- The text of the value, or none.
  unfoldable pub decode_optional_json : String → Result (Option String)
  unfolding trim_space
  decode_optional_json raw =
      let trimmed = trim_space raw in
      if is_blank trimmed
      then ok none
      else if json.is_valid trimmed
      then ok (some trimmed)
      else err (message "json")

  abbrev given_attributes : String → Option String → Result (Option (String × String))
  given_attributes type none = err (message "apns live activity start requires options.attributes")
  given_attributes type (some a) = ok (some (type, a))

  -- The attributes, which only a start has.
  abbrev start_attributes :
      LiveActivityAction → ParsedLiveActivityOptions → Result (Option (String × String))
  start_attributes LiveActivityAction.start options = elim options.alert [
    | none ↦ err (message "apns live activity start requires options.alert")
    | some a ↦
        if options.attributes_type == ""
        then err (message "apns live activity start requires options.attributesType")
        else and_then
            (wrapped "invalid la options.attributes"
              (decode_optional_json (or_empty options.attributes)))
            (given_attributes options.attributes_type)
  ]
  start_attributes _ options = ok none

  abbrev expiration_of : (ℕ → String) → ℕ → ℕ → Option ℕ → String
  expiration_of itoa now ttl (some t) = itoa t
  expiration_of itoa now ttl none = if ltb 0 ttl then itoa (now + ttl) else "0"

  abbrev la_headers :
      (ℕ → String)
      → ℕ
      → String
      → LiveActivityRequest
      → ParsedLiveActivityOptions
      → Option ℕ
      → List (String × String)
  la_headers itoa now bundle_id request options expiration =
      let collapse =
        if options.collapse_id == "" then request.activity_id else options.collapse_id in
      ("apns-topic", la_topic bundle_id)
      ∷ ("apns-push-type", "liveactivity")
      ∷ ("apns-priority", if options.priority == "normal" then "5" else "10")
      ∷ ("apns-expiration", expiration_of itoa now options.ttl expiration)
      ∷ (if collapse == "" then [] else ("apns-collapse-id", collapse) ∷ [])

  -- A time of the request that is 0 is the zero time.
  unfoldable pub build_la_message :
      (ℕ → String)
      → ℕ
      → ApnsClient
      → LiveActivityRequest
      → ParsedLiveActivityOptions
      → Result (LaAps × List (String × String))
  unfolding parse_la_time decode_optional_json action_text la_topic
  build_la_message itoa now c request options =
      if c.bundle_id == ""
      then err (message "apns bundle id is not configured")
      else and_then
          (wrapped "invalid la options.timestamp" (parse_la_time (optional_time options.timestamp)))
          λ timestamp.
            and_then (wrapped "invalid la payload" (decode_optional_json request.payload))
              λ content. and_then (start_attributes request.action options) λ attributes.
                and_then
                  (wrapped "invalid la options.staleDate"
                    (parse_la_time (optional_time options.stale_date)))
                  λ stale.
                    and_then
                      (wrapped "invalid la options.dismissalDate"
                        (parse_la_time (optional_time options.dismissal_date)))
                      λ dismissal.
                        and_then
                          (wrapped "invalid la options.expiration"
                            (parse_la_time (optional_time options.expiration)))
                          λ expiration. ok (
                            record {
                              timestamp =
                                  or_now timestamp
                                    (if eqb request.created_at 0 then now else request.created_at);
                              event = action_text request.action;
                              content_state = content;
                              attributes = attributes;
                              alert = options.alert;
                              relevance_score = options.relevance_score;
                              stale_date = stale;
                              dismissal_date = dismissal;
                            },
                            la_headers itoa now c.bundle_id request options expiration,
                          )

  abbrev sent_or : Result (LaAps × List (String × String)) → Sending → Sending
  sent_or (err e) sending = refused e
  sent_or (ok m) sending = sending

  abbrev with_options :
      (ℕ → String)
      → ℕ
      → ApnsClient
      → LiveActivityRequest
      → Sending
      → Result ParsedLiveActivityOptions
      → Sending
  with_options itoa now c request sending (err e) = refused e
  with_options itoa now c request sending (ok options) =
      sent_or (build_la_message itoa now c request options) sending

  abbrev with_jwt :
      (ℕ → String)
      → ℕ
      → ApnsClient
      → LiveActivityRequest
      → Sending
      → Result String × JwtCache
      → Sending × JwtCache
  with_jwt itoa now c request sending (err e, cache) = (refused (wrap "failed to get JWT" e), cache)
  with_jwt itoa now c request sending (ok jwt, cache) = (
    with_options itoa now c request sending
        (parse_live_activity_options json.unmarshal request.options),
    cache,
  )

  -- `SendLiveActivity`; the request is there.
  unfoldable pub send_apns_live_activity :
      (ℕ → String)
      → (ℕ → Result String)
      → ℕ
      → (String → Option ℕ)
      → (String → Option String)
      → (ℕ → Attempt)
      → ApnsClient
      → String
      → LiveActivityRequest
      → JwtCache
      → Sending × JwtCache
  unfolding get_jwt parse_live_activity_options build_la_message send_with_retry
  send_apns_live_activity itoa generate now atoi reason_of tries c token request cache =
      if token == ""
      then (refused (message "apns live activity token is required"), cache)
      else with_jwt itoa now c request (send_with_retry atoi reason_of tries c)
          (get_jwt generate now cache)
