-- ===== src/Storage/LaTokens.antt =====
-- internal/storage/live_activity_postgres.go: the batches of tokens that a dispatch is for.
pub mod Upkeep
use pushboy.Prelude.{
  ℕ, String, Bool, true, false, ◌&&◌, ◌||◌, not, Option, none, some, List, [], ◌∷◌, ◌++◌, ◌==◌, eqb,
  leb, if◌then◌else◌, exists, select, count_if, take, map, update_where, find_first, rejected,
  duplicate, not_found, wrap, Result, ok, err, Exec, pure, raise, gets, guard, on_error, ◌>>=◌,
  ◌>>◌, is_some,
}
use pushboy.Model.Push.{Platform, apns, fcm}
use pushboy.Model.LiveActivity.{
  LiveActivityTokenType, LiveActivityAction, LiveActivityDispatchStatus,
}
use pushboy.Storage.Tables.{
  Db, LiveActivityToken, LiveActivityJob, LiveActivityDispatch, TokenActivity,
  UserTopicSubscription,
}
use pushboy.Storage.World.{World, Sql, statement, statement_at, transaction}
use pushboy.Storage.Paging.{Collation, TokenBatch, to_batch, page}
use pushboy.Storage.Tokens.{from_result}
use pushboy.Storage.PushJobs.{required_time, has_user, has_topic}
use pushboy.Storage.LaJobs.{is_unexpired}
use pushboy.Storage.LaDispatches.{has_id, is_pending, is_waiting, is_dispatched}
use pushboy.Storage.LaOutcomes.{associate_live_activity_token_tx}

abbrev is_start : LiveActivityAction → Bool
is_start LiveActivityAction.start = true
is_start _ = false

abbrev pub is_start_type : LiveActivityTokenType → Bool
is_start_type LiveActivityTokenType.start = true
is_start_type LiveActivityTokenType.update = false

abbrev pub is_update_type : LiveActivityTokenType → Bool
is_update_type t = not (is_start_type t)

abbrev pub is_apns : Platform → Bool
is_apns apns = true
is_apns fcm = false

-- `liveActivityDispatchFanoutScope`
pub record FanoutScope : Type 0 where
  pub action : LiveActivityAction
  pub activity_id : String
  pub user_id : String
  pub topic_id : String
  pub start_dispatch_pending : Bool

abbrev pub requires_activity_association : FanoutScope → Bool
requires_activity_association s = not (is_start s.action) && not s.start_dispatch_pending

-- `IN ('ENQUEUE_PENDING', 'QUEUED', 'IN_PROGRESS', 'DISPATCHED')`
abbrev is_unsettled : LiveActivityDispatchStatus → Bool
is_unsettled st = is_pending st || is_waiting st || is_dispatched st

abbrev has_pending_start : String → List LiveActivityDispatch → Bool
has_pending_start job_id xs =
    exists
      (λ (x : LiveActivityDispatch).
        x.live_activity_job_id == job_id && is_start x.action && is_unsettled x.status)
      xs

abbrev scope_with : Db → LiveActivityDispatch → Option LiveActivityJob → Option FanoutScope
scope_with d x none = none
scope_with d x (some j) = some (record {
  action = x.action;
  activity_id = j.activity_id;
  user_id = j.user_id;
  topic_id = j.topic_id;
  start_dispatch_pending = has_pending_start j.id d.la_dispatches;
})

abbrev scope_of : Db → Option LiveActivityDispatch → Option FanoutScope
scope_of d none = none
scope_of d (some x) =
    scope_with d x (find_first (λ (j : LiveActivityJob). j.id == x.live_activity_job_id) d.la_jobs)

abbrev found_scope : Option FanoutScope → Exec World FanoutScope
found_scope none = raise not_found
found_scope (some s) = pure s

unfoldable pub get_la_dispatch_fanout_scope : String → Exec World FanoutScope
get_la_dispatch_fanout_scope id = do
  found ←
      on_error (wrap "error loading LA dispatch fanout scope")
        (statement (λ _ d. (ok (scope_of d (find_first (has_id id) d.la_dispatches)), d)))
  found_scope found

abbrev pub key : LiveActivityToken → String
key x = x.id

-- Neither invalidated nor expired.
abbrev pub is_usable : ℕ → LiveActivityToken → Bool
is_usable now x = not (is_some x.invalidated_at) && is_unexpired now x.expires_at

-- `(platform = 'apns' AND token_type = $3) OR (platform = 'fcm' AND token_type = 'update')`
abbrev has_type : Bool → LiveActivityToken → Bool
has_type starts x =
    if is_apns x.platform
    then (if starts then is_start_type x.token_type else is_update_type x.token_type)
    else is_update_type x.token_type

-- The rows of the join with the associations of an activity.
abbrev pub associated :
    String → List LiveActivityToken → List TokenActivity → List LiveActivityToken
associated activity_id xs [] = []
associated activity_id xs (a ∷ rest) =
    let more = associated activity_id xs rest in
    if a.activity_id == activity_id
    then select (λ (x : LiveActivityToken). x.id == a.token_id) xs ++ more
    else more

-- The rows of the join with the subscriptions to a topic.
abbrev pub subscribed :
    String → List LiveActivityToken → List UserTopicSubscription → List LiveActivityToken
subscribed topic_id xs [] = []
subscribed topic_id xs (s ∷ rest) =
    let more = subscribed topic_id xs rest in
    if s.topic_id == topic_id
    then select (λ (x : LiveActivityToken). x.user_id == s.user_id) xs ++ more
    else more

-- laTokenBatchByActivityAndUserQuery and its three neighbours.
abbrev pub scope_tokens : FanoutScope → ℕ → Db → List LiveActivityToken
scope_tokens s now d =
    if requires_activity_association s
    then (if not (s.user_id == "")
        then select
            (λ (x : LiveActivityToken).
              x.user_id == s.user_id && is_usable now x && is_update_type x.token_type)
            (associated s.activity_id d.la_tokens d.la_activities)
        else select (λ (x : LiveActivityToken). is_usable now x && is_update_type x.token_type)
            (subscribed s.topic_id (associated s.activity_id d.la_tokens d.la_activities)
              d.la_subscriptions))
    else if not (s.user_id == "")
    then select
        (λ (x : LiveActivityToken).
          x.user_id == s.user_id && is_usable now x && has_type (is_start s.action) x)
        d.la_tokens
    else select (λ (x : LiveActivityToken). is_usable now x && has_type (is_start s.action) x)
        (subscribed s.topic_id d.la_tokens d.la_subscriptions)

module _ (c : Collation) where
  unfoldable pub get_la_token_batch_for_dispatch :
      String → String → ℕ → Exec World (TokenBatch LiveActivityToken)
  unfolding get_la_dispatch_fanout_scope
  get_la_token_batch_for_dispatch id cursor size = do
    scope ← get_la_dispatch_fanout_scope id
    read ←
        on_error (wrap "error getting LA token batch")
          (statement (λ now d. (ok (page key c cursor size (scope_tokens scope now d)), d)))
    from_result (to_batch key size read)
