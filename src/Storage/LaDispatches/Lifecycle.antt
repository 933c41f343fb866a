-- ===== src/Storage/LaDispatches/Lifecycle.antt =====
-- The counters and the completion of one dispatch, between the master that completes its enqueueing and
-- the outcome workers, whose reports fall before and after.
use pushboy.Prelude.{◌⊎◌, ℕ, ◌+◌, ◌≤◌, ◌<◌, ◌≡◌, List, [], ◌∷◌, arith, if◌then◌else◌}
use pushboy.Model.LiveActivity.{dispatched, completed}
use pushboy.Storage.Tables.{LiveActivityDispatch}
use pushboy.Storage.Outcome.{PushOutcomeDelta}
use pushboy.Storage.LaDispatches.{is_ready, complete_row, dispatched_row}
use pushboy.Storage.LaOutcomes.{la_count_row}

-- `completeLADispatchIfReadyTx` on the dispatch itself.
abbrev pub complete_if_ready : ℕ → LiveActivityDispatch → LiveActivityDispatch
complete_if_ready now x = if is_ready x then complete_row now x else x

-- A report of the outcome worker, with its time.
unfoldable pub reported : List (ℕ × PushOutcomeDelta) → LiveActivityDispatch → LiveActivityDispatch
unfolding la_count_row
reported [] x = x
reported ((now, delta) ∷ rs) x = reported rs (complete_if_ready now (la_count_row delta now x))

-- `CompleteLADispatchEnqueue` with a total above 0.
unfoldable pub enqueued : ℕ → ℕ → LiveActivityDispatch → LiveActivityDispatch
unfolding dispatched_row
enqueued total now x = complete_if_ready now (dispatched_row total x)

abbrev pub counted : LiveActivityDispatch → ℕ
counted x = x.success_count + x.failure_count

-- Complete with all its outcomes, or dispatched and short of some.
pub record IsSettled (total : ℕ) (x : LiveActivityDispatch) : Type 0 where
  pub sum : x.total_count ≡ total
  pub phase :
      ((x.status ≡ dispatched) × (counted x < total))
      ⊎ ((x.status ≡ completed) × (total ≤ counted x))

enqueued-IsSettled :
    (total now : ℕ) (x : LiveActivityDispatch) → IsSettled total (enqueued total now x)
unfolding enqueued
enqueued-IsSettled total now x = ground arith

report-IsSettled :
    (total now : ℕ) (delta : PushOutcomeDelta) (x : LiveActivityDispatch)
    → IsSettled total x
    → IsSettled total (complete_if_ready now (la_count_row delta now x))
unfolding la_count_row
report-IsSettled total now delta x h = ground arith

reported-IsSettled :
    (total : ℕ) (rs : List (ℕ × PushOutcomeDelta)) (x : LiveActivityDispatch)
    → IsSettled total x
    → IsSettled total (reported rs x)
unfolding reported
reported-IsSettled total [] x h = h
reported-IsSettled total ((now, delta) ∷ rs) x h =
    reported-IsSettled total rs _ (report-IsSettled total now delta x h)

abbrev pub deltas_success : List (ℕ × PushOutcomeDelta) → ℕ
deltas_success [] = 0
deltas_success ((now, delta) ∷ rs) = delta.success + deltas_success rs

abbrev pub deltas_failure : List (ℕ × PushOutcomeDelta) → ℕ
deltas_failure [] = 0
deltas_failure ((now, delta) ∷ rs) = delta.failure + deltas_failure rs

report_counts :
    (now : ℕ) (delta : PushOutcomeDelta) (x : LiveActivityDispatch)
    → let y = complete_if_ready now (la_count_row delta now x) in
      (y.success_count ≡ x.success_count + delta.success)
      × (y.failure_count ≡ x.failure_count + delta.failure)
unfolding la_count_row
report_counts now delta x = ground arith

reported_counts :
    (rs : List (ℕ × PushOutcomeDelta)) (x : LiveActivityDispatch)
    → ((reported rs x).success_count ≡ x.success_count + deltas_success rs)
      × ((reported rs x).failure_count ≡ x.failure_count + deltas_failure rs)
unfolding reported
reported_counts [] x = (omega arith, omega arith)
reported_counts ((now, delta) ∷ rs) x =
    let one = report_counts now delta x in
    let rest = reported_counts rs (complete_if_ready now (la_count_row delta now x)) in
    (omega (arith, one.0, rest.0), omega (arith, one.1, rest.1))

enqueued_counts :
    (total now : ℕ) (x : LiveActivityDispatch)
    → ((enqueued total now x).success_count ≡ x.success_count)
      × ((enqueued total now x).failure_count ≡ x.failure_count)
unfolding enqueued
enqueued_counts total now x = ground arith

-- A dispatch is at the end complete, with at least as many outcomes counted as its total, or
-- dispatched and short of its total, whether the reports come before or after its enqueueing is
-- completed; and its counters are the sums of all the reports.
pub enqueued_settles :
    (before after : List (ℕ × PushOutcomeDelta)) (total now : ℕ) (x : LiveActivityDispatch)
    → let k = reported after (enqueued total now (reported before x)) in
      IsSettled total k
      × (k.success_count ≡ x.success_count + deltas_success before + deltas_success after)
      × (k.failure_count ≡ x.failure_count + deltas_failure before + deltas_failure after)
enqueued_settles before after total now x =
    let b = reported_counts before x in
    let e = enqueued_counts total now (reported before x) in
    let a = reported_counts after (enqueued total now (reported before x)) in
    (
      reported-IsSettled total after _ (enqueued-IsSettled total now (reported before x)),
      omega (arith, a.0, b.0, e.0),
      omega (arith, a.1, b.1, e.1),
    )
