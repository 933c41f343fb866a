-- ===== src/Tests/La.antt =====
-- The live activity lane.
use pushboy.Prelude.{
  ◌≢◌, err, deadline, arith, ℕ, ◌+◌, String, ◌≡◌, refl, Bool, true, none, some, [], ◌∷◌, ok, Error,
  inl, inr,
}
use pushboy.Model.Push.{apns}
use pushboy.Model.LiveActivity.{
  LiveActivityTokenType, LiveActivityAction, LiveActivityJobStatus, LiveActivityDispatchStatus,
  queued, in_progress,
}
use pushboy.Model.Task.{LaJobItem}
use pushboy.Storage.Tables.{LiveActivityJob, LiveActivityDispatch, LiveActivityToken}
use pushboy.Storage.World.{World}
use pushboy.Storage.Outcome.{PushOutcomeDelta}
use pushboy.Storage.LaJobs.Start.{IsNew}
use pushboy.Storage.LaDispatches.{supersede_la_dispatch_if_stale}
use pushboy.Storage.LaDispatches.Stale.{
  Holds, IsOvertaken, AllMarked, supersede_la_dispatch_if_stale_lem,
}
use pushboy.Storage.LaDispatches.Lifecycle.{reported, enqueued, IsSettled, enqueued_settles}
use pushboy.Workers.FanoutLa.{
  fanout_la_tokens, push_la_tokens_to_pipeline, la_task_for, refused_outcome,
}
use pushboy.Workers.FanoutLa.Refused.{la_lane, push_la_tokens_to_pipeline_lem}
use pushboy.Workers.FanoutLa.Ends.{fanout_la_tokens_ends}
use pushboy.Workers.FanoutLa.Superseded.{fanout_la_tokens_superseded}
use pushboy.Tests.ByOrder.{by_order}
use pushboy.Tests.Samples.{a_world, a_db, an_la_task}

abbrev a_start : String → String → LiveActivityJob
a_start id activity_id = record {
  id = id;
  activity_id = activity_id;
  activity_type = "ride";
  user_id = "ann";
  topic_id = "";
  status = LiveActivityJobStatus.active;
  latest_payload = some "{}";
  options = none;
  created_at = 0;
  updated_at = 0;
  expires_at = none;
  closed_at = none;
}

abbrev a_dispatch : String → ℕ → LiveActivityDispatchStatus → LiveActivityDispatch
a_dispatch id created st = record {
  id = id;
  live_activity_job_id = "l1";
  action = LiveActivityAction.update;
  payload = some "{}";
  options = none;
  status = st;
  total_count = 0;
  success_count = 0;
  failure_count = 0;
  created_at = created;
  completed_at = none;
}

-- Two updates of one activity are under way.
abbrev la_world : World
la_world = record a_world {
  db = record a_db {
    la_jobs = a_start "l1" "a1" ∷ [];
    la_dispatches = a_dispatch "d1" 3 queued ∷ a_dispatch "d2" 4 in_progress ∷ [];
  };
}

-- The start is new there.
second_IsNew : IsNew (a_start "l2" "a2") la_world.db
second_IsNew = record { payload = refl; one_owner = refl; owner = refl; id = refl; activity = refl }

-- The second update has overtaken the first.
abbrev first_overtaken : IsOvertaken la_world.db (a_dispatch "d1" 3 queued)
first_overtaken = (
  refl,
  inl refl,
  a_dispatch "d2" 4 in_progress,
  inr (inl refl),
  (refl, refl, omega arith, inl (inr refl)),
)

supersede_la_dispatch_if_stale_lem_example :
    let r = supersede_la_dispatch_if_stale "d1" 1 la_world in
    (b : Bool) × (r.0 ≡ ok b)
    × (b ≡ true
        → (x : LiveActivityDispatch) × Holds x la_world.db.la_dispatches
          × (x.id ≡ "d1")
          × IsOvertaken la_world.db x)
    × ((x : LiveActivityDispatch)
        → Holds x la_world.db.la_dispatches
        → x.id ≡ "d1"
        → IsOvertaken la_world.db x
        → b ≡ true)
    × AllMarked "d1" 1 12 la_world.db la_world.db.la_dispatches r.1.db.la_dispatches
    × (r.1.db ≡ record la_world.db { la_dispatches = r.1.db.la_dispatches })
supersede_la_dispatch_if_stale_lem_example =
    supersede_la_dispatch_if_stale_lem "d1" 1 la_world (refl, (refl, tt))

abbrev a_delta : ℕ → ℕ → PushOutcomeDelta
a_delta s f = record { success = s; failure = f }

enqueued_settles_example :
    let k =
      reported
        ((5, a_delta 1 1) ∷ [])
        (enqueued 3 4 (reported ((2, a_delta 1 0) ∷ []) (a_dispatch "d1" 3 in_progress))) in
    IsSettled 3 k × (k.success_count ≡ 2) × (k.failure_count ≡ 1)
enqueued_settles_example =
    enqueued_settles ((2, a_delta 1 0) ∷ []) ((5, a_delta 1 1) ∷ []) 3 4
      (a_dispatch "d1" 3 in_progress)

abbrev an_la_token : String → LiveActivityToken
an_la_token id = record {
  id = id;
  user_id = "ann";
  platform = apns;
  token_type = LiveActivityTokenType.update;
  token = "hex";
  activity_id = "";
  created_at = 1;
  last_seen_at = 1;
  expires_at = none;
  invalidated_at = none;
}

push_la_tokens_to_pipeline_lem_example :
    let r =
      push_la_tokens_to_pipeline an_la_task.la_job
        (an_la_token "x" ∷ an_la_token "y" ∷ [])
        (la_lane la_world [] (some Error.closed ∷ [])) in
    (r.0 ≡ ok (refused_outcome 10 (la_task_for an_la_task.la_job (an_la_token "x")) ∷ []))
    × (r.1.tasks.taken ≡ la_task_for an_la_task.la_job (an_la_token "y") ∷ [])
    × (r.1.world ≡ la_world)
    × (1 + 1 ≡ 2)
push_la_tokens_to_pipeline_lem_example =
    push_la_tokens_to_pipeline_lem an_la_task.la_job (an_la_token "x" ∷ an_la_token "y" ∷ [])
      la_world [] (some Error.closed ∷ [])

abbrev an_update : LaJobItem
an_update = record an_la_task.la_job { action = LiveActivityAction.update }

fanout_la_tokens_superseded_example :
    let r = fanout_la_tokens by_order 3 2 an_update (la_lane la_world [] []) in
    (r.0 ≡ ok tt)
    × (r.1.tasks ≡ (la_lane la_world [] []).tasks)
    × AllMarked "d1" 0 12 la_world.db la_world.db.la_dispatches r.1.world.db.la_dispatches
    × (r.1.world.db ≡ record la_world.db { la_dispatches = r.1.world.db.la_dispatches })
fanout_la_tokens_superseded_example =
    fanout_la_tokens_superseded by_order 3 2 an_update la_world [] [] (a_dispatch "d1" 3 queued)
      (refl, (refl, tt)) refl (inl refl) refl first_overtaken

-- More rounds than the table has tokens.
fanout_la_tokens_ends_example :
    (fanout_la_tokens by_order 9 1 an_update (la_lane la_world [] [])).0 ≢ err deadline
fanout_la_tokens_ends_example =
    fanout_la_tokens_ends by_order 9 1 an_update (la_lane la_world [] []) (omega arith)
