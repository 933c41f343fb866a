-- ===== src/Storage/Topics.antt =====
-- internal/storage/postgres.go: topics, and the reads of the subscriptions.
pub mod Allowed
pub mod Following
pub mod Keys
pub mod References
use pushboy.Prelude.{
  ℕ, String, Bool, true, false, ◌&&◌, ◌||◌, not, Option, none, some, List, [], ◌∷◌, ◌++◌, ◌==◌,
  if◌then◌else◌, exists, select, count_if, find_first, Error, message, duplicate, not_found, wrap,
  Result, ok, err, Exec, pure, raise, guard, on_error, ◌>>=◌, ◌>>◌, trim_space,
}
use pushboy.Storage.Tables.{Db, Topic, User, UserTopicSubscription}
use pushboy.Storage.World.{World, Sql, statement}
use pushboy.Storage.PushJobs.{has_topic}
use pushboy.Storage.Directory.{Owner, keep_jobs, is_not, insert_error, require_row}

unfoldable pub create_topic_text : Topic → Sql (Unit {0})
create_topic_text t now d =
    if has_topic t.id d
    then (err (duplicate "topics_pkey"), d)
    else if exists (λ (x : Topic). x.name == t.name) d.topics
    then (err (duplicate "topics_name_key"), d)
    else (ok tt, record d { topics = d.topics ++ t ∷ [] })

-- The topic is trimmed in place, so it is given back to the caller.
unfoldable pub create_topic : Topic → Exec World Topic
unfolding create_topic_text trim_space
create_topic t = do
  let u : Topic = record { id = trim_space t.id; name = trim_space t.name } in
      guard (not (u.id == "" || u.name == "")) (message "topic id and name are required")
      >> on_error (insert_error "error creating topic") (statement (create_topic_text u))
      >> pure u

unfoldable pub list_topics : Exec World (List Topic)
list_topics = on_error (wrap "error listing topics") (statement (λ _ d. (ok d.topics, d)))

abbrev found_topic : Option Topic → Exec World Topic
found_topic none = raise not_found
found_topic (some t) = pure t

unfoldable pub get_topic_by_id : String → Exec World Topic
get_topic_by_id id = do
  found ←
      on_error (wrap "error getting topic")
        (statement (λ _ d. (ok (find_first (λ (t : Topic). t.id == id) d.topics), d)))
  found_topic found

-- A token of a live activity has no topic.
abbrev topic_owner : Owner
topic_owner = record {
  of_job = λ j. j.topic_id;
  of_la_job = λ j. j.topic_id;
  of_la_token = λ _. "";
  of_subscription = λ s. s.topic_id;
}

-- A NULL topic is the empty text, which is the id of no topic.
unfoldable pub delete_topic_text : String → Sql ℕ
delete_topic_text id now d =
    if has_topic id d
    then (
      ok (count_if (λ (t : Topic). t.id == id) d.topics),
      record (keep_jobs topic_owner id d) {
        topics = select (λ (t : Topic). is_not id t.id) d.topics;
        subscriptions =
            select (λ (s : UserTopicSubscription). is_not id s.topic_id) d.subscriptions;
      },
    )
    else (ok 0, d)

unfoldable pub delete_topic : String → Exec World (Unit {0})
unfolding delete_topic_text
delete_topic id = require_row "error deleting topic" (delete_topic_text id)

unfoldable pub get_user_subscriptions : String → Exec World (List UserTopicSubscription)
get_user_subscriptions id = on_error (wrap "error getting user subscriptions") (
    statement
      (λ _ d. (ok (select (λ (s : UserTopicSubscription). s.user_id == id) d.subscriptions), d)))

-- The join of the subscriptions to a topic with the users.
abbrev pub subscribers : String → List User → List UserTopicSubscription → List User
subscribers topic_id us [] = []
subscribers topic_id us (s ∷ rest) =
    let more = subscribers topic_id us rest in
    if s.topic_id == topic_id then select (λ (u : User). u.id == s.user_id) us ++ more else more

unfoldable pub get_topic_subscribers : String → Exec World (List User)
get_topic_subscribers topic_id =
    on_error (wrap "error getting topic subscribers")
      (statement (λ _ d. (ok (subscribers topic_id d.users d.subscriptions), d)))
