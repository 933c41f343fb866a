-- ===== src/Tests/Lost.antt =====
-- A database that loses the statement after the first BEGIN.
use pushboy.Prelude.{ℕ, String, ◌≡◌, refl, false, List, Error, wrap, driver, err, eqb, ◌>>=◌}
use pushboy.Model.Task.{DeliveryReceipt, LaSendOutcome}
use pushboy.Storage.Tables.{LiveActivityJob, LiveActivityToken}
use pushboy.Storage.World.{transaction}
use pushboy.Storage.Outcome.{summarize_push_receipts}
use pushboy.Storage.PushJobs.{apply_push_outcome_batch}
use pushboy.Storage.LaJobs.{create_or_get_la_start_job}
use pushboy.Storage.LaDispatches.{complete_la_dispatch_enqueue}
use pushboy.Storage.LaOutcomes.{apply_la_outcome_batch}
use pushboy.Storage.LaTokens.Upkeep.{upsert_live_activity_token}
use pushboy.Storage.AllOrNothing.{errors_change_nothing}
use pushboy.Tests.Samples.{poor_world, some_receipts}

abbrev lost : Error
lost =
    wrap "error bulk recording failure receipts" (wrap "error preparing bulk receipt insert" driver)

batch_lost : (apply_push_outcome_batch some_receipts poor_world).0 ≡ err lost
unfolding apply_push_outcome_batch transaction ◌>>=◌ summarize_push_receipts
batch_lost = refl

errors_change_nothing_example :
    ((rs : List DeliveryReceipt)
      → (apply_push_outcome_batch rs poor_world).0 ≡ err lost
      → (apply_push_outcome_batch rs poor_world).1.db ≡ poor_world.db)
    × ((os : List LaSendOutcome)
        → (apply_la_outcome_batch os poor_world).0 ≡ err lost
        → (apply_la_outcome_batch os poor_world).1.db ≡ poor_world.db)
    × ((job : LiveActivityJob)
        → (create_or_get_la_start_job job poor_world).0 ≡ err lost
        → (create_or_get_la_start_job job poor_world).1.db ≡ poor_world.db)
    × ((x : LiveActivityToken)
        → (upsert_live_activity_token x poor_world).0 ≡ err lost
        → (upsert_live_activity_token x poor_world).1.db ≡ poor_world.db)
    × ((id : String) (total : ℕ)
        → eqb total 0 ≡ false
        → (complete_la_dispatch_enqueue id total poor_world).0 ≡ err lost
        → (complete_la_dispatch_enqueue id total poor_world).1.db ≡ poor_world.db)
errors_change_nothing_example = errors_change_nothing poor_world lost
