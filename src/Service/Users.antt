-- ===== src/Service/Users.antt =====
-- internal/service/service.go: users, tokens, topics and subscriptions. An id that `uuid.New` draws
-- is an argument. Calls that only pass a call of the store on are that call.
use pushboy.Prelude.{
  String, Bool, true, false, ◌||◌, not, List, ◌==◌, if◌then◌else◌, contains, trim_space, wrap,
  message, at_not_found, is_error, Result, ok, err, Exec, pure, raise, guard, on_error, attempt,
  ◌>>=◌, ◌>>◌,
}
use pushboy.Model.Push.{Platform}
use pushboy.Storage.Tables.{User, Token, Topic, UserTopicSubscription}
use pushboy.Storage.World.{World}
use pushboy.Storage.Paging.{Collation}
use pushboy.Storage.Directory
use pushboy.Storage.Directory.{get_user, create_token, subscribe_user_to_topic}
use pushboy.Storage.Topics
use pushboy.Storage.Topics.{get_topic_by_id}
use pushboy.Storage.Listings
use pushboy.Storage.Listings.{PageQuery, TopicSubscriber}

-- `broadcast` is the id of the topic that every user follows, or empty. What goes wrong is logged.
unfoldable pub subscribe_to_broadcast : String → String → Exec World (Unit {0})
unfolding subscribe_user_to_topic
subscribe_to_broadcast broadcast user_id =
    if broadcast == ""
    then pure tt
    else attempt (subscribe_user_to_topic user_id broadcast) (λ _. pure tt)

abbrev pub id_or : String → String → String
id_or id drawn = if id == "" then drawn else id

unfoldable pub create_user : String → String → String → Exec World User
unfolding subscribe_to_broadcast Directory.create_user
create_user broadcast drawn id = do
  user ← Directory.create_user (id_or id drawn)
  subscribe_to_broadcast broadcast (id_or id drawn)
  pure user

abbrev created_if_missing : String → String → String → Result User → Exec World User
created_if_missing broadcast drawn id (ok user) = pure user
created_if_missing broadcast drawn id (err e) =
    if is_error at_not_found e then create_user broadcast drawn id else raise e

unfoldable pub ensure_user : String → String → String → Exec World User
unfolding create_user get_user
ensure_user broadcast drawn id = attempt (get_user id) (created_if_missing broadcast drawn id)

-- The user, and whether it is new.
abbrev pub got_or_created : String → Result User → Exec World (User × Bool)
got_or_created id (ok user) = pure (user, false)
got_or_created id (err e) =
    if is_error at_not_found e
    then (on_error (wrap "failed to create user") (Directory.create_user id) >>= λ u.
        pure (u, true))
    else raise (wrap "failed to get user" e)

-- A platform that is neither is no `Platform`.
unfoldable pub register_token :
    String → String → String → String → Platform → String → Exec World (Token × User)
unfolding subscribe_to_broadcast get_user create_token Directory.create_user
register_token broadcast drawn drawn_token user_id platform value = do
  found ← attempt (get_user (id_or user_id drawn)) (got_or_created (id_or user_id drawn))
  if found.1 then subscribe_to_broadcast broadcast (id_or user_id drawn) else pure tt
  token ← create_token (record {
    id = drawn_token;
    user_id = id_or user_id drawn;
    platform = platform;
    token = value;
    created_at = 0;
    is_deleted = false;
  })
  pure (token, found.0)

unfoldable pub create_topic : String → String → Exec World Topic
unfolding trim_space Topics.create_topic
create_topic id name = do
  guard (not (trim_space id == "" || trim_space name == ""))
      (message "topic id and name are required")
  guard (not (contains (trim_space id) " ")) (message "topic id cannot contain spaces")
  Topics.create_topic (record { id = trim_space id; name = trim_space name })

unfoldable pub subscribe_to_topic : String → String → Exec World UserTopicSubscription
unfolding get_user get_topic_by_id subscribe_user_to_topic
subscribe_to_topic user_id topic_id = do
  on_error (wrap "user not found") (get_user user_id)
  on_error (wrap "topic not found") (get_topic_by_id topic_id)
  subscribe_user_to_topic user_id topic_id

module _ (c : Collation) where
  unfoldable pub list_topic_subscribers : String → PageQuery → Exec World (List TopicSubscriber)
  unfolding get_topic_by_id Listings.list_topic_subscribers
  list_topic_subscribers topic_id q = do
    get_topic_by_id topic_id
    Listings.list_topic_subscribers c topic_id q
