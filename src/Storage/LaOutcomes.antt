-- ===== src/Storage/LaOutcomes.antt =====
-- internal/storage/live_activity_postgres.go: `ApplyLAOutcomeBatch`, which counts a batch of outcomes,
-- invalidates the tokens that a provider refused and notes which tokens show an activity.
pub mod Invalidated
pub mod Reliable
use pushboy.Prelude.{
  ℕ, ◌+◌, String, Bool, true, false, ◌&&◌, ◌||◌, not, some, List, [], ◌∷◌, ◌++◌, ◌==◌, eqb, length,
  if◌then◌else◌, exists, update_where, rejected, message, wrap, ok, err, Exec, pure, gets, guard,
  on_error, ◌>>=◌, ◌>>◌, is_some, contains,
}
use pushboy.Model.Push.{Platform, fcm}
use pushboy.Model.LiveActivity.{LiveActivityAction}
use pushboy.Model.Task.{DeliveryReceipt, LaSendOutcome}
use pushboy.Storage.Tables.{LiveActivityToken, LiveActivityDispatch, TokenActivity}
use pushboy.Storage.World.{World, Sql, statement_at, transaction}
use pushboy.Storage.Outcome.{PushOutcomeDelta, Deltas, count_receipt, is_failed, is_success}
use pushboy.Storage.LaDispatches.{has_id, update_dispatches, complete_la_dispatch_if_ready_tx}

unfoldable pub is_la_invalid_token : String → Bool
is_la_invalid_token reason =
    contains reason "BadDeviceToken"
    || contains reason "ExpiredToken"
    || contains reason "Unregistered"
    || contains reason "registration-token-not-registered"

abbrev add_id : String → List String → List String
add_id id ids = if exists (λ (i : String). i == id) ids then ids else ids ++ id ∷ []

abbrev note_invalid : DeliveryReceipt → List String → List String
note_invalid r ids =
    if is_failed r.status && is_la_invalid_token r.status_reason then add_id r.token_id ids else ids

-- `laOutcomeDelta` has the fields of `pushOutcomeDelta`.
unfoldable pub summarize_la_loop : List LaSendOutcome → Deltas → List String → Deltas × List String
unfolding count_receipt is_la_invalid_token
summarize_la_loop [] deltas ids = (deltas, ids)
summarize_la_loop (o ∷ os) deltas ids =
    summarize_la_loop os (count_receipt o.receipt deltas) (note_invalid o.receipt ids)

unfoldable pub summarize_la_outcomes : List LaSendOutcome → Deltas × List String
unfolding summarize_la_loop
summarize_la_outcomes os = summarize_la_loop os [] []

unfoldable pub invalidate_la_tokens_tx : ℕ → List String → Exec World (Unit {0})
invalidate_la_tokens_tx now ids =
    if eqb (length ids) 0
    then pure tt
    else on_error (wrap "error invalidating LA tokens") (
        statement_at (λ _. now)
          (λ t d. (
            ok tt,
            record d {
              la_tokens =
                  update_where
                    (λ (x : LiveActivityToken).
                      exists (λ (i : String). i == x.id) ids && not (is_some x.invalidated_at))
                    (λ x. record x { invalidated_at = some t }) d.la_tokens;
            },
          )))

abbrev same_activity : String → String → TokenActivity → Bool
same_activity activity_id token_id a = a.activity_id == activity_id && a.token_id == token_id

-- INSERT … ON CONFLICT (activity_id, token_id) DO UPDATE
abbrev pub upsert_activity : String → String → ℕ → Sql (Unit {0})
upsert_activity activity_id token_id seen now d =
    if exists (same_activity activity_id token_id) d.la_activities
    then (
      ok tt,
      record d {
        la_activities =
            update_where (same_activity activity_id token_id)
              (λ a. record a { last_seen_at = seen }) d.la_activities;
      },
    )
    else if exists (λ (x : LiveActivityToken). x.id == token_id) d.la_tokens
    then (
      ok tt,
      record d {
        la_activities =
            d.la_activities
            ++ record {
              activity_id = activity_id;
              token_id = token_id;
              created_at = seen;
              last_seen_at = seen;
            }
              ∷ [];
      },
    )
    else (err (rejected "live_activity_token_activities_token_id_fkey"), d)

unfoldable pub associate_live_activity_token_tx : ℕ → String → String → ℕ → Exec World (Unit {0})
associate_live_activity_token_tx now activity_id token_id seen = do
  guard (not (activity_id == "")) (message "activityID is required for LA token association")
  guard (not (token_id == "")) (message "tokenID is required for LA token association")
  on_error (wrap "error associating LA token with activity")
      (statement_at (λ _. now) (upsert_activity activity_id token_id seen))

abbrev is_start : LiveActivityAction → Bool
is_start LiveActivityAction.start = true
is_start _ = false

abbrev is_fcm : Platform → Bool
is_fcm fcm = true
is_fcm _ = false

-- A start that reached a device of Firebase, with the names of both.
abbrev pub shows_activity : LaSendOutcome → Bool
shows_activity o =
    is_success o.receipt.status
    && is_start o.task.la_job.action
    && not (o.task.la_job.activity_id == "")
    && is_fcm o.task.target.platform
    && not (o.receipt.token_id == "")

unfoldable pub associate_all : ℕ → ℕ → List LaSendOutcome → Exec World (Unit {0})
unfolding associate_live_activity_token_tx
associate_all now seen [] = pure tt
associate_all now seen (o ∷ os) =
    let rest = associate_all now seen os in
    if shows_activity o
    then associate_live_activity_token_tx now o.task.la_job.activity_id o.receipt.token_id seen
      >> rest
    else rest

unfoldable pub la_count_row : PushOutcomeDelta → ℕ → LiveActivityDispatch → LiveActivityDispatch
la_count_row delta now x = record x {
  success_count = x.success_count + delta.success;
  failure_count = x.failure_count + delta.failure;
}

unfoldable pub apply_la_outcome_deltas_tx : ℕ → Deltas → Exec World (Unit {0})
unfolding la_count_row complete_la_dispatch_if_ready_tx
apply_la_outcome_deltas_tx now [] = pure tt
apply_la_outcome_deltas_tx now ((id, delta) ∷ ds) = do
  on_error (wrap "error updating LA dispatch counters")
      (statement_at (λ _. now) (update_dispatches (λ _. has_id id) (la_count_row delta)))
  complete_la_dispatch_if_ready_tx now id
  apply_la_outcome_deltas_tx now ds

abbrev pub la_outcome_body : List LaSendOutcome → Deltas × List String → ℕ → Exec World (Unit {0})
la_outcome_body os (deltas, ids) now = do
  invalidate_la_tokens_tx now ids
  seen ← gets (λ (w : World). w.clock)
  associate_all now seen os
  apply_la_outcome_deltas_tx now deltas

unfoldable pub apply_la_outcome_batch : List LaSendOutcome → Exec World (Unit {0})
unfolding invalidate_la_tokens_tx associate_all apply_la_outcome_deltas_tx summarize_la_outcomes
apply_la_outcome_batch [] = pure tt
apply_la_outcome_batch (o ∷ os) =
    transaction (wrap "error starting LA outcome transaction")
      (wrap "error committing LA outcome transaction")
      (la_outcome_body (o ∷ os) (summarize_la_outcomes (o ∷ os)))
