-- ===== src/Providers/Fcm/LiveActivity.antt =====
-- internal/fcm/fcm_la.go: live activities. What encoding/json does is a parameter.
use Prim.Native.String
use text.Mathlib.Text.{starts_with}
use pushboy.Prelude.{
  ℕ, String, Bool, true, false, ◌||◌, Option, none, some, List, [], ◌∷◌, ◌++◌, ◌==◌, eqb,
  if◌then◌else◌, lookup, is_some, trim_space, message, wrap, Result, ok, err,
}
use pushboy.Model.LiveActivity.{LiveActivityAction, action_text}
use pushboy.Workers.Dispatch.{LiveActivityRequest}
use pushboy.Model.LiveActivity.Options.{
  WireOptions, ParsedLiveActivityOptions, parse_live_activity_options, is_blank,
}
use pushboy.Providers.Http.{Attempt, Sending, refused}
use pushboy.Providers.Fcm.{FcmClient, FcmMessage, FcmError, AndroidConfig, send_message}

-- `json.Compact`, and `json.Unmarshal` into the fields of an object, each with its raw text, into a
-- string, and into the options.
pub record FcmJson : Type 0 where
  pub compact : String → Option String
  pub fields : String → Option (List (String × String))
  pub text_of : String → Option String
  pub unmarshal : String → Option WireOptions

abbrev pub default_fcm_la_ttl_seconds : ℕ
default_fcm_la_ttl_seconds = 3600

abbrev or_error : String → Option String → Result String
or_error cause none = err (wrap cause (message "json"))
or_error cause (some s) = ok s

module _ (json : FcmJson) where
  unfoldable pub compact_la_payload : String → Result String
  unfolding trim_space
  compact_la_payload raw =
      let trimmed = trim_space raw in
      or_error "invalid live activity payload"
        (json.compact (if trimmed == "" then "{}" else trimmed))

  unfoldable pub fcm_data_string : String → Result String
  unfolding trim_space
  fcm_data_string raw =
      let trimmed = trim_space raw in
      if is_blank trimmed
      then ok ""
      else if starts_with trimmed "\""
      then or_error "invalid live activity payload field" (json.text_of raw)
      else if starts_with trimmed "{" || starts_with trimmed "["
      then or_error "invalid live activity payload field" (json.compact raw)
      else ok trimmed

  abbrev with_value :
      String
      → (List (String × String) → Result (List (String × String)))
      → List (String × String)
      → Result String
      → Result (List (String × String))
  with_value key next entries (err e) = err e
  with_value key next entries (ok value) =
      next (if value == "" then entries else entries ++ (key, value) ∷ [])

  -- A field does not replace an entry that is there.
  abbrev pub add_fields :
      List (String × String) → List (String × String) → Result (List (String × String))
  add_fields [] entries = ok entries
  add_fields ((key, raw) ∷ rest) entries =
      let next = λ (d : List (String × String)). add_fields rest d in
      if is_some (lookup key entries)
      then next entries
      else with_value key next entries (fcm_data_string raw)

  abbrev all_fields :
      Option (List (String × String)) → List (String × String) → Result (List (String × String))
  all_fields none entries = ok entries
  all_fields (some fs) entries = add_fields fs entries

  abbrev starts : LiveActivityAction → Bool
  starts LiveActivityAction.start = true
  starts _ = false

  -- An update or an end replaces the message of its activity.
  abbrev la_android : (ℕ → String) → LiveActivityRequest → ParsedLiveActivityOptions → AndroidConfig
  la_android itoa request options = record {
    collapse_key =
        if options.collapse_id == ""
        then if starts request.action then "" else request.activity_id
        else options.collapse_id;
    priority = if options.priority == "normal" then "NORMAL" else "HIGH";
    ttl =
        String.◌++◌ (itoa (if eqb options.ttl 0 then default_fcm_la_ttl_seconds else options.ttl))
          "s";
    notification = none;
  }

  abbrev la_entries : LiveActivityRequest → String → List (String × String)
  la_entries request payload =
      ("type", "live_activity")
      ∷ ("action", action_text request.action)
      ∷ ("activity_id", request.activity_id)
      ∷ ("activity_type", request.activity_type)
      ∷ ("payload", payload)
      ∷ []

  abbrev la_message :
      (ℕ → String)
      → String
      → LiveActivityRequest
      → ParsedLiveActivityOptions
      → Result (List (String × String))
      → Result FcmMessage
  la_message itoa token request options (err e) = err e
  la_message itoa token request options (ok entries) = ok (record {
    token = token;
    notification = none;
    custom = entries;
    android = some (la_android itoa request options);
  })

  abbrev with_options :
      (ℕ → String)
      → String
      → LiveActivityRequest
      → String
      → Result ParsedLiveActivityOptions
      → Result FcmMessage
  with_options itoa token request payload (err e) = err e
  with_options itoa token request payload (ok options) =
      la_message itoa token request options
        (all_fields (json.fields payload) (la_entries request payload))

  abbrev with_payload :
      (ℕ → String) → String → LiveActivityRequest → Result String → Result FcmMessage
  with_payload itoa token request (err e) = err e
  with_payload itoa token request (ok payload) =
      with_options itoa token request payload
        (parse_live_activity_options json.unmarshal request.options)

  -- `SendLiveActivity`, up to the call of `sendMessage`; the request is there, and its action is one of
  -- the three. A negative `ttl` is not modelled.
  unfoldable pub fcm_la_message : (ℕ → String) → String → LiveActivityRequest → Result FcmMessage
  unfolding compact_la_payload fcm_data_string parse_live_activity_options action_text
  fcm_la_message itoa token request =
      if token == ""
      then err (message "fcm live activity token is required")
      else if request.activity_id == ""
      then err (message "live activity activityId is required")
      else if request.activity_type == ""
      then err (message "live activity activityType is required")
      else with_payload itoa token request (compact_la_payload request.payload)

  abbrev sent : Result FcmMessage → Sending → Sending
  sent (err e) sending = refused e
  sent (ok m) sending = sending

  unfoldable pub send_fcm_live_activity :
      (ℕ → String)
      → (String → Option FcmError)
      → (ℕ → Attempt)
      → FcmClient
      → String
      → LiveActivityRequest
      → Sending
  unfolding fcm_la_message send_message
  send_fcm_live_activity itoa decode tries c token request =
      sent (fcm_la_message itoa token request) (send_message decode tries c)
