-- ===== src/Workers/FanoutLa/Superseded.antt =====
-- A dispatch that is stale when its master takes it up.
use pushboy.Prelude.{ℕ, ◌≡◌, refl, true, Option, List, Error, ok, attempt}
use pushboy.Model.Task.{LaSendTask, LaJobItem}
use pushboy.Storage.Tables.{LiveActivityDispatch}
use pushboy.Storage.World.{World, IsReliable, advance}
use pushboy.Storage.Paging.{Collation}
use pushboy.Storage.LaDispatches.{is_update}
use pushboy.Storage.LaDispatches.Stale.{
  Holds, IsOvertaken, AllMarked, supersede_runs, stale_exists, update-AllMarked,
}
use pushboy.Workers.FanoutLa.{stored, fanout_la_tokens}
use pushboy.Workers.FanoutLa.Refused.{la_lane}

module _ (c : Collation) where
  -- Where no statement is lost, a master that takes up an update which a later update of the activity
  -- has overtaken, one that is under way, submits nothing and returns no error; it marks the overtaken
  -- rows of the dispatch's id as superseded, with a total of 0, and no other row of any table is
  -- changed: not the job's, and not the dispatch's to in progress.
  pub fanout_la_tokens_superseded :
      (fuel size : ℕ) (job : LaJobItem) (w : World) (taken : List LaSendTask)
      (answers : List (Option Error)) (x : LiveActivityDispatch)
      → IsReliable w
      → is_update job.action ≡ true
      → Holds x w.db.la_dispatches
      → x.id ≡ job.dispatch_id
      → IsOvertaken w.db x
      → let r = fanout_la_tokens c fuel size job (la_lane w taken answers) in
        (r.0 ≡ ok tt)
        × (r.1.tasks ≡ (la_lane w taken answers).tasks)
        × AllMarked job.dispatch_id 0
            (advance w).clock
            w.db
            w.db.la_dispatches
            r.1.world.db.la_dispatches
        × (r.1.world.db ≡ record w.db { la_dispatches = r.1.world.db.la_dispatches })
  unfolding fanout_la_tokens stored attempt
  fanout_la_tokens_superseded fuel size job w taken answers x r u m i o =
      rw (u, supersede_runs job.dispatch_id 0 w r, stale_exists job.dispatch_id w.db x m i o)
        (
          refl,
          refl,
          update-AllMarked job.dispatch_id 0 (advance w).clock w.db w.db.la_dispatches,
          refl,
        )
