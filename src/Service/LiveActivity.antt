-- ===== src/Service/LiveActivity.antt =====
-- internal/service/live_activity.go: tokens of live activities, and the dispatches that start, update
-- and end one. `raw` JSON is its text, none where it is nil.
pub mod Requests
use pushboy.Prelude.{
  ℕ, ◌+◌, String, Bool, true, false, ◌&&◌, ◌||◌, not, Option, none, some, ◌==◌, leb, ltb,
  if◌then◌else◌, trim_space, is_some, Error, wrap, message, not_found, at_not_found, is_error,
  Result, ok, err, Exec, pure, raise, gets, guard, on_error, attempt, ◌>>=◌, ◌>>◌,
}
use pushboy.Model.Push.{Platform, apns, fcm}
use pushboy.Model.LiveActivity.{LiveActivityTokenType}
use pushboy.Storage.Tables.{User, LiveActivityToken, UserTopicSubscription}
use pushboy.Storage.World.{World}
use pushboy.Storage.Tokens.{from_result}
use pushboy.Storage.Directory.{get_user}
use pushboy.Storage.Topics.{get_topic_by_id}
use pushboy.Storage.LaJobs
use pushboy.Storage.LaTokens.Upkeep.{
  upsert_live_activity_token, invalidate_live_activity_token, subscribe_user_to_la_topic,
}
use pushboy.Service.Users.{ensure_user}

-- `8 * time.Hour`
abbrev pub default_la_job_lifetime : ℕ
default_la_job_lifetime = 28800000000000

abbrev in_future : ℕ → Option ℕ → Result (Option ℕ)
in_future now none = err (message "invalid expiresAt format, must be RFC3339")
in_future now (some t) =
    if ltb now t then ok (some t) else err (message "expiresAt must be in the future")

unfoldable pub parse_la_expiry : (String → Option ℕ) → String → ℕ → Result (Option ℕ)
parse_la_expiry parse_time raw now = if raw == "" then ok none else in_future now (parse_time raw)

unfoldable pub la_expired : Option ℕ → ℕ → Bool
la_expired none now = false
la_expired (some t) now = leb t now

-- The type and the expiry that a token is stored with.
abbrev later_than : Option ℕ → ℕ → Bool
later_than none t = true
later_than (some e) t = ltb t e

unfoldable pub token_terms :
    Platform → LiveActivityTokenType → ℕ → Option ℕ → LiveActivityTokenType × Option ℕ
token_terms fcm kind now expiry = (LiveActivityTokenType.update, expiry)
token_terms apns LiveActivityTokenType.start now expiry = (LiveActivityTokenType.start, expiry)
token_terms apns LiveActivityTokenType.update now expiry = (
  LiveActivityTokenType.update,
  if later_than expiry (now + default_la_job_lifetime)
      then some (now + default_la_job_lifetime)
      else expiry,
)

abbrev new_subscription : String → String → String → ℕ → UserTopicSubscription
new_subscription drawn user_id topic_id now = record {
  id = drawn;
  user_id = user_id;
  topic_id = topic_id;
  created_at = now;
}

-- A registration, as the handler has read it.
pub record LaRegistration : Type 0 where
  pub user_id : String
  pub platform : Platform
  pub token_type : LiveActivityTokenType
  pub token : String
  pub topic_id : String
  pub expires_at : String
  pub activity_id : String

abbrev follow_topic : String → LaRegistration → ℕ → Exec World (Unit {0})
follow_topic drawn r now =
    if r.topic_id == ""
    then pure tt
    else on_error (wrap "topic not found") (get_topic_by_id r.topic_id)
      >> on_error (wrap "failed to subscribe user to LA topic")
          (subscribe_user_to_la_topic (new_subscription drawn r.user_id r.topic_id now))
      >> pure tt

abbrev new_la_token :
    String → LaRegistration → ℕ → LiveActivityTokenType × Option ℕ → LiveActivityToken
new_la_token drawn r now (kind, expiry) = record {
  id = drawn;
  user_id = r.user_id;
  platform = r.platform;
  token_type = kind;
  token = r.token;
  activity_id = trim_space r.activity_id;
  created_at = now;
  last_seen_at = now;
  expires_at = expiry;
  invalidated_at = none;
}

-- The user that `ensureUser` may create has an id, as the first guard says.
unfoldable pub register_la_token :
    (String → Option ℕ)
    → String
    → String
    → String
    → LaRegistration
    → Exec World (LiveActivityToken × User)
unfolding parse_la_expiry token_terms ensure_user get_topic_by_id subscribe_user_to_la_topic
    upsert_live_activity_token trim_space
register_la_token parse_time broadcast drawn_sub drawn_token r = do
  guard (not (r.user_id == "")) (message "userId is required")
  guard (not (r.token == "")) (message "token is required")
  now ← gets (λ (w : World). w.clock)
  expiry ← from_result (parse_la_expiry parse_time r.expires_at now)
  user ← on_error (wrap "failed to ensure user") (ensure_user broadcast "" r.user_id)
  follow_topic drawn_sub r now
  stored ←
      upsert_live_activity_token
        (new_la_token drawn_token r now (token_terms r.platform r.token_type now expiry))
  pure (stored, user)

unfoldable pub delete_la_token : String → String → Exec World (Unit {0})
unfolding invalidate_live_activity_token
delete_la_token user_id token = do
  guard (not (user_id == "")) (message "userId is required")
  guard (not (token == "")) (message "token is required")
  invalidate_live_activity_token user_id token

unfoldable pub register_user_to_la_topic :
    String → String → String → Exec World UserTopicSubscription
unfolding get_user get_topic_by_id subscribe_user_to_la_topic
register_user_to_la_topic drawn user_id topic_id = do
  guard (not (user_id == "" || topic_id == "")) (message "userId and topicId are required")
  on_error (wrap "user not found") (get_user user_id)
  on_error (wrap "topic not found") (get_topic_by_id topic_id)
  now ← gets (λ (w : World). w.clock)
  subscribe_user_to_la_topic (new_subscription drawn user_id topic_id now)

-- A job that is not there, or not open, is no failure.
abbrev unless_not_found : Result (Unit {0}) → Exec World (Unit {0})
unless_not_found (ok _) = pure tt
unless_not_found (err e) = if is_error at_not_found e then pure tt else raise e

unfoldable pub fail_la_job_if_active : String → Exec World (Unit {0})
unfolding LaJobs.fail_la_job_if_active
fail_la_job_if_active job_id = attempt (LaJobs.fail_la_job_if_active job_id) unless_not_found
