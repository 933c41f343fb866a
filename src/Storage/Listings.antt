-- ===== src/Storage/Listings.antt =====
-- internal/storage/postgres.go: the lists that are read a page at a time, the newest row first.
pub mod Newest
use pushboy.Prelude.{
  ℕ, String, Bool, true, ◌&&◌, ◌||◌, Option, none, some, List, [], ◌∷◌, ◌++◌, map, ◌==◌, eqb, ltb,
  leb, if◌then◌else◌, select, take, wrap, ok, Exec, on_error,
}
use pushboy.Model.Push.{NotificationJobStatus, status_text}
use pushboy.Storage.Tables.{Db, User, PublishJob, UserTopicSubscription}
use pushboy.Storage.World.{World, statement}
use pushboy.Storage.Paging.{Collation}
use pushboy.Storage.LaJobs.{column_is}

-- A sort value of 0 is the zero time: there is no cursor.
pub record PageCursor : Type 0 where
  pub sort_value : ℕ
  pub id : String

-- `storage.PageQuery` and `storage.NotificationListQuery`; the first has no status.
pub record PageQuery : Type 0 where
  pub limit : ℕ
  pub cursor : PageCursor
  pub status : Option NotificationJobStatus

pub record TopicSubscriber : Type 0 where
  pub id : String
  pub created_at : ℕ
  pub subscribed_at : ℕ

-- `(a, b) < (c, d)` of rows.
unfoldable pub is_before : Collation → ℕ × String → ℕ × String → Bool
is_before c (t, i) (u, j) = ltb t u || eqb t u && c.lt i j

module _ {A : Type 0} (key : A → ℕ × String) (c : Collation) where
  -- ORDER BY … DESC, … DESC
  unfoldable pub insert_newest : A → List A → List A
  unfolding is_before
  insert_newest x [] = x ∷ []
  insert_newest x (y ∷ ys) =
      let rest = insert_newest x ys in if is_before c (key x) (key y) then y ∷ rest else x ∷ y ∷ ys

  unfoldable pub newest_first : List A → List A
  unfolding insert_newest
  newest_first [] = []
  newest_first (x ∷ xs) = insert_newest x (newest_first xs)

  abbrev pub cursor_key : PageCursor → ℕ × String
  cursor_key cursor = (cursor.sort_value, cursor.id)

  abbrev pub behind : PageCursor → List A → List A
  behind cursor rows =
      if eqb cursor.sort_value 0
      then rows
      else select (λ r. is_before c (key r) (cursor_key cursor)) rows

  unfoldable pub list_page : PageQuery → List A → List A
  unfolding newest_first is_before
  list_page q rows = take q.limit (newest_first (behind q.cursor rows))

abbrev pub user_key : User → ℕ × String
user_key u = (u.created_at, u.id)

abbrev pub subscriber_key : TopicSubscriber → ℕ × String
subscriber_key s = (s.subscribed_at, s.id)

-- `COALESCE(scheduled_at, created_at)`
abbrev pub effective_at : PublishJob → ℕ
effective_at j = elim j.scheduled_at [ none ↦ j.created_at | some t ↦ t ]

abbrev pub job_key : PublishJob → ℕ × String
job_key j = (effective_at j, j.id)

abbrev pub has_status : Option NotificationJobStatus → PublishJob → Bool
has_status none j = true
has_status (some st) j = status_text j.status == status_text st

-- The join of the subscriptions to a topic with the users; the list is by the subscription's time.
abbrev pub topic_subscribers :
    String → List User → List UserTopicSubscription → List TopicSubscriber
topic_subscribers topic_id us [] = []
topic_subscribers topic_id us (s ∷ rest) =
    let more = topic_subscribers topic_id us rest in
    if s.topic_id == topic_id
    then map
        (λ (u : User). record {
          id = u.id;
          created_at = u.created_at;
          subscribed_at = s.created_at;
        })
        (select (λ (u : User). u.id == s.user_id) us)
      ++ more
    else more

-- The jobs of the topics that a user follows, from the time of the subscription on.
abbrev pub followed : String → List PublishJob → List UserTopicSubscription → List PublishJob
followed user_id js [] = []
followed user_id js (s ∷ rest) =
    let more = followed user_id js rest in
    if s.user_id == user_id
    then select
        (λ (j : PublishJob). column_is j.topic_id s.topic_id && leb s.created_at (effective_at j))
        js
      ++ more
    else more

unfoldable pub eligible_jobs : String → Db → List PublishJob
eligible_jobs user_id d =
    select (λ (j : PublishJob). column_is j.user_id user_id) d.jobs
    ++ followed user_id d.jobs d.subscriptions

module _ (c : Collation) where
  unfoldable pub list_users : PageQuery → Exec World (List User)
  unfolding list_page
  list_users q =
      on_error (wrap "error listing users")
        (statement (λ _ d. (ok (list_page user_key c q d.users), d)))

  unfoldable pub list_topic_subscribers : String → PageQuery → Exec World (List TopicSubscriber)
  unfolding list_page
  list_topic_subscribers topic_id q = on_error (wrap "error listing topic subscribers") (
      statement (λ _ d. (
        ok (list_page subscriber_key c q (topic_subscribers topic_id d.users d.subscriptions)),
        d,
      )))

  unfoldable pub list_topic_notifications : String → PageQuery → Exec World (List PublishJob)
  unfolding list_page status_text
  list_topic_notifications topic_id q = on_error (wrap "error listing topic notifications") (
      statement (λ _ d. (
        ok (
            list_page job_key c q (
              select (λ (j : PublishJob). column_is j.topic_id topic_id && has_status q.status j)
                d.jobs)),
        d,
      )))

  unfoldable pub list_user_notifications : String → PageQuery → Exec World (List PublishJob)
  unfolding list_page status_text eligible_jobs
  list_user_notifications user_id q = on_error (wrap "error listing user notifications") (
      statement (λ _ d.
        (ok (list_page job_key c q (select (has_status q.status) (eligible_jobs user_id d))), d)))

-- The rows come in the order of the table, as the query names none.
unfoldable pub fetch_pending_jobs : ℕ → Exec World (List PublishJob)
unfolding status_text
fetch_pending_jobs limit = on_error (wrap "error fetching pending jobs") (
    statement (λ _ d.
      (ok (take limit (select (λ (j : PublishJob). status_text j.status == "PENDING") d.jobs)), d)))
