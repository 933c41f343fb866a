-- ===== src/Server/Handlers/Users.antt =====
-- internal/server/server.go: users, their tokens and their subscriptions.
pub mod Walk
use pushboy.Prelude.{
  ℕ, String, Option, none, ◌==◌, if◌then◌else◌, Error, at_not_found, at_already_exists, is_error,
  Result, ok, err, Exec, pure, attempt, ◌>>=◌,
}
use Prim.Native.String
use pushboy.Model.Push.{Platform, parse_platform}
use pushboy.Storage.Tables.{User, Token}
use pushboy.Storage.World.{World}
use pushboy.Storage.Paging.{Collation}
use pushboy.Storage.Tokens.{from_result}
use pushboy.Storage.Directory
use pushboy.Storage.Topics
use pushboy.Storage.Listings.{PageQuery, user_key, list_users}
use pushboy.Service.Users
use pushboy.Service.Notifications
use pushboy.Server.Pagination.{
  Codec, page_query_from_request, notification_list_query_from_request, make_mapped_list_response,
  notification_job_cursor_time,
}
use pushboy.Server.Responses.{
  Body, Response, respond, http_error, Decoded, malformed, empty, read, replied, to_user_response,
  to_token_response, to_token_responses, to_subscription_response, to_subscription_responses,
  to_publish_job_response,
}

pub record RegisterTokenRequest : Type 0 where
  pub id : String
  pub platform : String
  pub token : String

abbrev pub missing_or : Error → Response → Response → Response
missing_or e missing failed = if is_error at_not_found e then missing else failed

-- The body may be empty.
abbrev pub optional_id : Decoded String → Option String
optional_id malformed = none
optional_id empty = Option.some ""
optional_id (read id) = Option.some id

module _ (codec : Codec) where
  abbrev created_user : String → String → Option String → Exec World Response
  created_user broadcast drawn none = pure (http_error "Bad request" 400)
  created_user broadcast drawn (Option.some id) =
      replied (Users.create_user broadcast drawn id)
        (λ u. respond (Body.user (to_user_response codec u)) 201)
        λ e.
          if is_error at_already_exists e
          then http_error "User already exists" 409
          else http_error "Error creating user" 500

  unfoldable pub handle_create_user : String → String → Decoded String → Exec World Response
  unfolding Users.create_user to_user_response
  handle_create_user broadcast drawn body = created_user broadcast drawn (optional_id body)

  unfoldable pub handle_get_user : String → Exec World Response
  unfolding Directory.get_user to_user_response
  handle_get_user user_id =
      if user_id == ""
      then pure (http_error "userID is required" 400)
      else replied (Directory.get_user user_id)
          (λ u. respond (Body.user (to_user_response codec u)) 200)
          (λ e.
            missing_or e (http_error "User not found" 404) (http_error "Error getting user" 500))

  abbrev registered : Token × User → Response
  registered (t, u) =
      respond (Body.registered (to_user_response codec u) (to_token_response codec t)) 201

  abbrev register_on :
      String → String → String → RegisterTokenRequest → Result Platform → Exec World Response
  register_on broadcast drawn drawn_token req (err e) =
      pure (http_error "Invalid platform (must be 'apns' or 'fcm')" 400)
  register_on broadcast drawn drawn_token req (ok platform) =
      replied (Users.register_token broadcast drawn drawn_token req.id platform req.token)
        registered
        λ e.
          if is_error at_already_exists e
          then http_error "Token already registered" 409
          else http_error "Error registering token" 500

  unfoldable pub handle_register_token :
      String → String → String → Decoded RegisterTokenRequest → Exec World Response
  unfolding parse_platform Users.register_token to_user_response to_token_response
  handle_register_token broadcast drawn drawn_token malformed = pure (http_error "Bad request" 400)
  handle_register_token broadcast drawn drawn_token empty = pure (http_error "Bad request" 400)
  handle_register_token broadcast drawn drawn_token (read req) =
      if req.token == ""
      then pure (http_error "token is required" 400)
      else register_on broadcast drawn drawn_token req (parse_platform req.platform)

  unfoldable pub handle_get_user_tokens : String → Exec World Response
  unfolding Directory.get_tokens_by_user_id to_token_responses
  handle_get_user_tokens user_id =
      if user_id == ""
      then pure (http_error "userID is required" 400)
      else replied (Directory.get_tokens_by_user_id user_id)
          (λ ts. respond (Body.tokens (to_token_responses codec ts)) 200)
          (λ e. http_error "Error getting tokens" 500)

  abbrev subscribed_or : Error → Response
  subscribed_or e =
      if is_error at_already_exists e
      then http_error "Already subscribed to topic" 409
      else missing_or e (http_error "User or topic not found" 404)
          (http_error "Error subscribing to topic" 500)

  unfoldable pub handle_subscribe_to_topic : String → String → Exec World Response
  unfolding Users.subscribe_to_topic to_subscription_response
  handle_subscribe_to_topic user_id topic_id =
      if user_id == ""
      then pure (http_error "userID is required" 400)
      else if topic_id == ""
      then pure (http_error "topicID is required" 400)
      else replied (Users.subscribe_to_topic user_id topic_id)
          (λ s. respond (Body.subscription (to_subscription_response codec s)) 201) subscribed_or

  unfoldable pub handle_get_user_subscriptions : String → Exec World Response
  unfolding Topics.get_user_subscriptions to_subscription_responses
  handle_get_user_subscriptions user_id =
      if user_id == ""
      then pure (http_error "userID is required" 400)
      else replied (Topics.get_user_subscriptions user_id)
          (λ ss. respond (Body.subscriptions (to_subscription_responses codec ss)) 200)
          (λ e. http_error "Error getting subscriptions" 500)

  module _ (c : Collation) (atoi : String → Option ℕ) where
    abbrev pub users_page : Result (PageQuery × ℕ) → Exec World Response
    users_page (err e) = pure (http_error "Bad request" 400)
    users_page (ok (q, limit)) = attempt (list_users c q) λ r. elim r [
      | err e ↦ pure (http_error "Error listing users" 500)
      | ok us ↦ do
        page ← from_result (
            make_mapped_list_response codec user_key (to_user_response codec) us limit "/v1/users"
              none)
        pure (respond (Body.users page) 200)
    ]

    unfoldable pub handle_list_users : String → String → Exec World Response
    unfolding page_query_from_request list_users make_mapped_list_response to_user_response
    handle_list_users limit cursor =
        users_page (page_query_from_request codec atoi limit cursor "/v1/users")

    abbrev user_jobs_page : String → String → Result (PageQuery × ℕ) → Exec World Response
    user_jobs_page user_id route (err e) = pure (http_error "Bad request" 400)
    user_jobs_page user_id route (ok (q, limit)) =
        attempt (Notifications.list_user_notifications c user_id q) λ r. elim r [
          | err e ↦ pure (
              missing_or e (http_error "User not found" 404)
                (http_error "Error listing user notifications" 500))
          | ok js ↦ do
            page ← from_result (
                make_mapped_list_response codec (λ j. (notification_job_cursor_time j, j.id))
                  (to_publish_job_response codec) js limit route q.status)
            pure (respond (Body.jobs page) 200)
        ]

    unfoldable pub handle_list_user_notifications :
        String → String → String → String → Exec World Response
    unfolding notification_list_query_from_request Notifications.list_user_notifications
        make_mapped_list_response to_publish_job_response notification_job_cursor_time
    handle_list_user_notifications user_id status limit cursor =
        let route = String.◌++◌ "/v1/users/" (String.◌++◌ user_id "/notifications") in
        if user_id == ""
        then pure (http_error "userID is required" 400)
        else user_jobs_page user_id route
            (notification_list_query_from_request codec atoi status limit cursor route)

abbrev pub deleted : String → String → Error → Response
deleted missing failed e = missing_or e (http_error missing 404) (http_error failed 500)

unfoldable pub handle_delete_user : String → Exec World Response
unfolding Directory.delete_user
handle_delete_user user_id =
    if user_id == ""
    then pure (http_error "userID is required" 400)
    else replied (Directory.delete_user user_id) (λ _. respond Body.nothing 204)
        (deleted "User not found" "Error deleting user")

unfoldable pub handle_delete_token : String → Exec World Response
unfolding Directory.delete_token
handle_delete_token token_id =
    if token_id == ""
    then pure (http_error "tokenID is required" 400)
    else replied (Directory.delete_token token_id) (λ _. respond Body.nothing 204)
        (deleted "Token not found" "Error deleting token")

unfoldable pub handle_unsubscribe_from_topic : String → String → Exec World Response
unfolding Directory.unsubscribe_user_from_topic
handle_unsubscribe_from_topic user_id topic_id =
    if user_id == ""
    then pure (http_error "userID is required" 400)
    else if topic_id == ""
    then pure (http_error "topicID is required" 400)
    else replied (Directory.unsubscribe_user_from_topic user_id topic_id)
        (λ _. respond Body.nothing 204)
        (deleted "Subscription not found" "Error unsubscribing from topic")
