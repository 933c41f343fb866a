-- ===== src/Storage/Directory.antt =====
-- internal/storage/postgres.go: users, their tokens and their subscriptions, with the keys of the tables.
-- A `_text` is what a statement does to the tables.

use Prim.Native.String
use pushboy.Prelude.{
  ℕ, String, Bool, true, false, ◌&&◌, not, Option, none, some, List, [], ◌∷◌, ◌++◌, ◌==◌, eqb,
  length, if◌then◌else◌, exists, select, count_if, update_where, find_first, Error, already_exists,
  not_found, duplicate, rejected, wrap, ok, err, Exec, pure, raise, gets, guard, on_error, ◌>>=◌,
  ◌>>◌,
}
use pushboy.Storage.Tables.{
  Db, User, Token, UserTopicSubscription, PublishJob, LiveActivityToken, LiveActivityJob,
  LiveActivityDispatch, TokenActivity,
}
use pushboy.Storage.World.{World, Sql, statement}
use pushboy.Storage.PushJobs.{has_user, has_topic}

-- `strings.Contains(err.Error(), "duplicate key")`, and any other error wrapped.
abbrev pub insert_error : String → Error → Error
insert_error text (duplicate name) = already_exists
insert_error text e = wrap text e

abbrev pub require_row : String → Sql ℕ → Exec World (Unit {0})
require_row text q = do
  rows ← on_error (wrap text) (statement q)
  guard (not (eqb rows 0)) not_found

unfoldable pub create_user_text : User → Sql (Unit {0})
create_user_text u now d =
    if has_user u.id d
    then (err (duplicate "users_pkey"), d)
    else (ok tt, record d { users = d.users ++ u ∷ [] })

unfoldable pub create_user : String → Exec World User
unfolding create_user_text
create_user id = do
  now ← gets (λ (w : World). w.clock)
  let u : User = record { id = id; created_at = now } in
      on_error (insert_error "error creating user") (statement (create_user_text u)) >> pure u

abbrev found_user : Option User → Exec World User
found_user none = raise not_found
found_user (some u) = pure u

unfoldable pub get_user : String → Exec World User
get_user id = do
  found ←
      on_error (wrap "error getting user")
        (statement (λ _ d. (ok (find_first (λ (u : User). u.id == id) d.users), d)))
  found_user found

-- ON DELETE CASCADE: the rows whose owner stays, and what belongs to them.
abbrev pub is_not : String → String → Bool
is_not id other = not (other == id)

-- The columns that name the owner, of a job, a live activity job, a token and a subscription.
pub record Owner : Type 0 where
  pub of_job : PublishJob → String
  pub of_la_job : LiveActivityJob → String
  pub of_la_token : LiveActivityToken → String
  pub of_subscription : UserTopicSubscription → String

abbrev pub keep_jobs : Owner → String → Db → Db
keep_jobs o id d =
    let jobs = select (λ (j : PublishJob). is_not id (o.of_job j)) d.jobs in
    let la_jobs = select (λ (j : LiveActivityJob). is_not id (o.of_la_job j)) d.la_jobs in
    let la_tokens = select (λ (x : LiveActivityToken). is_not id (o.of_la_token x)) d.la_tokens in
    record d {
      jobs = jobs;
      receipts = select (λ r. exists (λ (j : PublishJob). j.id == r.job_id) jobs) d.receipts;
      la_jobs = la_jobs;
      la_dispatches =
          select
            (λ (x : LiveActivityDispatch).
              exists (λ (j : LiveActivityJob). j.id == x.live_activity_job_id) la_jobs)
            d.la_dispatches;
      la_tokens = la_tokens;
      la_activities =
          select
            (λ (a : TokenActivity).
              exists (λ (x : LiveActivityToken). x.id == a.token_id) la_tokens)
            d.la_activities;
      la_subscriptions =
          select (λ (s : UserTopicSubscription). is_not id (o.of_subscription s))
            d.la_subscriptions;
    }

abbrev user_owner : Owner
user_owner = record {
  of_job = λ j. j.user_id;
  of_la_job = λ j. j.user_id;
  of_la_token = λ x. x.user_id;
  of_subscription = λ s. s.user_id;
}

-- A NULL user is the empty text, so only the rows of a user that is there go.
unfoldable pub delete_user_text : String → Sql ℕ
delete_user_text id now d =
    if has_user id d
    then (
      ok (count_if (λ (u : User). u.id == id) d.users),
      record (keep_jobs user_owner id d) {
        users = select (λ (u : User). is_not id u.id) d.users;
        tokens = select (λ (t : Token). is_not id t.user_id) d.tokens;
        subscriptions = select (λ (s : UserTopicSubscription). is_not id s.user_id) d.subscriptions;
      },
    )
    else (ok 0, d)

unfoldable pub delete_user : String → Exec World (Unit {0})
unfolding delete_user_text
delete_user id = require_row "error deleting user" (delete_user_text id)

unfoldable pub create_token_text : Token → Sql (Unit {0})
create_token_text t now d =
    if exists (λ (x : Token). x.id == t.id) d.tokens
    then (err (duplicate "tokens_pkey"), d)
    else if exists (λ (x : Token). x.token == t.token) d.tokens
    then (err (duplicate "tokens_token_key"), d)
    else if has_user t.user_id d
    then (ok tt, record d { tokens = d.tokens ++ t ∷ [] })
    else (err (rejected "tokens_user_id_fkey"), d)

unfoldable pub create_token : Token → Exec World Token
unfolding create_token_text
create_token t = do
  now ← gets (λ (w : World). w.clock)
  let u = record t { created_at = now; is_deleted = false } in
      on_error (insert_error "error creating token") (statement (create_token_text u)) >> pure u

unfoldable pub get_tokens_by_user_id : String → Exec World (List Token)
get_tokens_by_user_id id = on_error (wrap "error getting tokens") (
    statement
      (λ _ d. (ok (select (λ (t : Token). t.user_id == id && not t.is_deleted) d.tokens), d)))

unfoldable pub delete_token_text : String → Sql ℕ
delete_token_text id now d = (
  ok (count_if (λ (t : Token). t.id == id) d.tokens),
  record d { tokens = select (λ (t : Token). not (t.id == id)) d.tokens },
)

unfoldable pub delete_token : String → Exec World (Unit {0})
unfolding delete_token_text
delete_token id = require_row "error deleting token" (delete_token_text id)

unfoldable pub soft_delete_text : (Token → Bool) → Sql ℕ
soft_delete_text p now d = (
  ok (count_if (λ (t : Token). p t && not t.is_deleted) d.tokens),
  record d {
    tokens =
        update_where (λ (t : Token). p t && not t.is_deleted) (λ t. record t { is_deleted = true })
          d.tokens;
  },
)

unfoldable pub soft_delete_token : String → Exec World (Unit {0})
unfolding soft_delete_text
soft_delete_token id = require_row "error soft deleting token" (soft_delete_text (λ t. t.id == id))

unfoldable pub bulk_soft_delete_token : List String → Exec World (Unit {0})
unfolding soft_delete_text
bulk_soft_delete_token ids =
    if eqb (length ids) 0
    then pure tt
    else require_row "error bulk soft deleting tokens"
        (soft_delete_text (λ t. exists (λ (i : String). i == t.id) ids))

abbrev pub same_pair : String → String → UserTopicSubscription → Bool
same_pair user_id topic_id s = s.user_id == user_id && s.topic_id == topic_id

unfoldable pub subscribe_text : UserTopicSubscription → Sql (Unit {0})
subscribe_text s now d =
    if exists (λ (x : UserTopicSubscription). x.id == s.id) d.subscriptions
    then (err (duplicate "user_topic_subscriptions_pkey"), d)
    else if exists (same_pair s.user_id s.topic_id) d.subscriptions
    then (err (duplicate "user_topic_subscriptions_user_id_topic_id_key"), d)
    else if has_user s.user_id d && has_topic s.topic_id d
    then (ok tt, record d { subscriptions = d.subscriptions ++ s ∷ [] })
    else (err (rejected "user_topic_subscriptions_fkey"), d)

-- `fmt.Sprintf("sub:%s:%s", sub.UserID, sub.TopicID)`
unfoldable pub subscription_id : String → String → String
subscription_id user_id topic_id =
    String.◌++◌ "sub:" (String.◌++◌ user_id (String.◌++◌ ":" topic_id))

-- The caller's id and time are overwritten.
unfoldable pub subscribe_user_to_topic : String → String → Exec World UserTopicSubscription
unfolding subscribe_text subscription_id
subscribe_user_to_topic user_id topic_id = do
  now ← gets (λ (w : World). w.clock)
  let t : UserTopicSubscription = record {
    id = subscription_id user_id topic_id;
    user_id = user_id;
    topic_id = topic_id;
    created_at = now;
  } in
      on_error (insert_error "error subscribing user to topic") (statement (subscribe_text t))
      >> pure t

unfoldable pub unsubscribe_text : String → String → Sql ℕ
unsubscribe_text user_id topic_id now d = (
  ok (count_if (same_pair user_id topic_id) d.subscriptions),
  record d {
    subscriptions =
        select (λ (s : UserTopicSubscription). not (same_pair user_id topic_id s)) d.subscriptions;
  },
)

unfoldable pub unsubscribe_user_from_topic : String → String → Exec World (Unit {0})
unfolding unsubscribe_text
unsubscribe_user_from_topic user_id topic_id =
    require_row "error unsubscribing user from topic" (unsubscribe_text user_id topic_id)

unfoldable pub get_topic_subscriber_count : String → Exec World ℕ
get_topic_subscriber_count topic_id = on_error (wrap "error counting topic subscribers") (
    statement (λ _ d.
      (ok (count_if (λ (s : UserTopicSubscription). s.topic_id == topic_id) d.subscriptions), d)))
