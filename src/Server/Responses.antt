-- ===== src/Server/Responses.antt =====
-- internal/server/dto.go, and what a handler writes: a status and a body.
use pushboy.Prelude.{
  ℕ, String, Option, none, some, List, map, Error, Result, ok, err, Exec, pure, attempt,
}
use pushboy.Model.Push.{Platform, NotificationPayload, NotificationJobStatus}
use pushboy.Model.LiveActivity.{LiveActivityTokenType}
use pushboy.Storage.Tables.{
  User, Token, Topic, UserTopicSubscription, PublishJob, LiveActivityToken,
}
use pushboy.Storage.Listings.{TopicSubscriber}
use pushboy.Server.Pagination.{Codec, ListResponse, format_api_time}

pub record UserResponse : Type 0 where
  pub id : String
  pub created_at : String

pub record TokenResponse : Type 0 where
  pub id : String
  pub user_id : String
  pub platform : Platform
  pub token : String
  pub created_at : String

pub record SubscriptionResponse : Type 0 where
  pub id : String
  pub user_id : String
  pub topic_id : String
  pub created_at : String

pub record TopicSubscriberResponse : Type 0 where
  pub id : String
  pub created_at : String
  pub subscribed_at : String

pub record PublishJobResponse : Type 0 where
  pub id : String
  pub topic_id : String
  pub user_id : String
  pub payload : Option NotificationPayload
  pub status : NotificationJobStatus
  pub total_count : ℕ
  pub success_count : ℕ
  pub failure_count : ℕ
  pub created_at : String
  pub completed_at : String
  pub scheduled_at : String

pub record LaTokenResponse : Type 0 where
  pub id : String
  pub user_id : String
  pub platform : Platform
  pub token_type : LiveActivityTokenType
  pub token : String
  pub created_at : String
  pub last_seen_at : String
  pub expires_at : String
  pub invalidated_at : String

module _ (codec : Codec) where
  unfoldable pub format_api_optional_time : Option ℕ → String
  unfolding format_api_time
  format_api_optional_time none = ""
  format_api_optional_time (some t) = format_api_time codec t

  unfoldable pub to_user_response : User → UserResponse
  unfolding format_api_time
  to_user_response u = record { id = u.id; created_at = format_api_time codec u.created_at }

  unfoldable pub to_token_response : Token → TokenResponse
  unfolding format_api_time
  to_token_response t = record {
    id = t.id;
    user_id = t.user_id;
    platform = t.platform;
    token = t.token;
    created_at = format_api_time codec t.created_at;
  }

  unfoldable pub to_token_responses : List Token → List TokenResponse
  unfolding to_token_response
  to_token_responses ts = map to_token_response ts

  unfoldable pub to_subscription_response : UserTopicSubscription → SubscriptionResponse
  unfolding format_api_time
  to_subscription_response s = record {
    id = s.id;
    user_id = s.user_id;
    topic_id = s.topic_id;
    created_at = format_api_time codec s.created_at;
  }

  unfoldable pub to_subscription_responses : List UserTopicSubscription → List SubscriptionResponse
  unfolding to_subscription_response
  to_subscription_responses ss = map to_subscription_response ss

  unfoldable pub to_topic_subscriber_response : TopicSubscriber → TopicSubscriberResponse
  unfolding format_api_time
  to_topic_subscriber_response s = record {
    id = s.id;
    created_at = format_api_time codec s.created_at;
    subscribed_at = format_api_time codec s.subscribed_at;
  }

  unfoldable pub to_publish_job_response : PublishJob → PublishJobResponse
  unfolding format_api_time format_api_optional_time
  to_publish_job_response j = record {
    id = j.id;
    topic_id = j.topic_id;
    user_id = j.user_id;
    payload = j.payload;
    status = j.status;
    total_count = j.total_count;
    success_count = j.success_count;
    failure_count = j.failure_count;
    created_at = format_api_time codec j.created_at;
    completed_at = format_api_optional_time j.completed_at;
    scheduled_at = format_api_optional_time j.scheduled_at;
  }

  unfoldable pub to_la_token_response : LiveActivityToken → LaTokenResponse
  unfolding format_api_time format_api_optional_time
  to_la_token_response x = record {
    id = x.id;
    user_id = x.user_id;
    platform = x.platform;
    token_type = x.token_type;
    token = x.token;
    created_at = format_api_time codec x.created_at;
    last_seen_at = format_api_time codec x.last_seen_at;
    expires_at = format_api_optional_time x.expires_at;
    invalidated_at = format_api_optional_time x.invalidated_at;
  }

-- The values that the handlers encode as JSON; `problem` is the text of `http.Error`, and `caused` a
-- text that is that of an error.
pub data Body : Type 0 where
  nothing : Body
  pong : Body
  problem : String → Body
  caused : Error → Body
  user : UserResponse → Body
  users : ListResponse UserResponse → Body
  registered : UserResponse → TokenResponse → Body
  tokens : List TokenResponse → Body
  subscription : SubscriptionResponse → Body
  subscriptions : List SubscriptionResponse → Body
  topic : Topic → Body
  topics : List Topic → Body
  count : ℕ → Body
  subscribers : ListResponse TopicSubscriberResponse → Body
  queued : String → Body
  job : PublishJobResponse → Body
  jobs : ListResponse PublishJobResponse → Body
  la_registered : UserResponse → LaTokenResponse → Body
  la_job : String → String → Option String → Body

pub record Response : Type 0 where
  pub status : ℕ
  pub body : Body

abbrev pub respond : Body → ℕ → Response
respond body status = record { status = status; body = body }

abbrev pub http_error : String → ℕ → Response
http_error text status = record { status = status; body = problem text }

-- What `json.NewDecoder(…).Decode` makes of a request's body; `empty` is the error EOF.
pub data Decoded (A : Type 0) : Type 0 where
  malformed empty : Decoded A
  read : A → Decoded A

module _ {A : Type 0} where
  abbrev pub reply : (A → Response) → (Error → Response) → Result A → Response
  reply good bad (ok a) = good a
  reply good bad (err e) = bad e

module _ {S A : Type 0} where
  -- A call of the service, its error turned into a response.
  abbrev pub replied : Exec S A → (A → Response) → (Error → Response) → Exec S Response
  replied call good bad = attempt call (λ r. pure (reply good bad r))
