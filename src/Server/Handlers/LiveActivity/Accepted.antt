-- ===== src/Server/Handlers/LiveActivity/Accepted.antt =====
-- What an answer of 202 to a live activity request promises.
use pushboy.Prelude.{String, ◌≡◌, Bool, true, false, ◌||◌, Option, none, some, [], ◌∷◌, ◌++◌, ◌==◌}
use pushboy.Model.Task.{LaJobItem}
use pushboy.Storage.Tables.{LiveActivityJob, LiveActivityDispatch}
use pushboy.Storage.World.{World}
use pushboy.Service.LiveActivity.Requests.{
  LaDispatchRequest, LaDispatchResult, LaInputs, new_dispatch,
}
use pushboy.Server.Queue.{Site}
use pushboy.Server.Handlers.LiveActivity.Stored.{Created}
use pushboy.Storage.LaJobs.Known.{HasJob}
use pushboy.Server.Handlers.LiveActivity.{la_item}

-- What a request comes to: a dispatch in the table, or a status that says that there is none to send.
abbrev is_idle : String → Bool
is_idle status = status == "already_started" || status == "closed"

abbrev pub asked : String → LaDispatchRequest → LiveActivityJob → LiveActivityDispatch
asked id req job = new_dispatch id job req.action req.payload req.options 0

abbrev Sent :
    String
    → LaDispatchRequest
    → LiveActivityJob
    → String
    → Option LiveActivityDispatch
    → World
    → Type 0
Sent id req job status none w = is_idle status ≡ true
Sent id req job status (some x) w = Created (asked id req job) x w × (is_idle status ≡ false)

abbrev Answered : LaInputs → LaDispatchRequest → LaDispatchResult → World → Type 0
Answered inputs req r w = Sent inputs.dispatch_id req r.job r.status r.dispatch w

-- The dispatch is the request's, for that job, at some time; it and the job are in the tables; and the
-- pipeline has taken one item, that of the dispatch.
abbrev pub Queued : String → LaDispatchRequest → Site LaJobItem → Site LaJobItem → Type 0
Queued id req s s' =
    (job : LiveActivityJob) × (x : LiveActivityDispatch) × Created (asked id req job) x s'.world
    × HasJob job s'.world
    × (s'.queue.taken ≡ s.queue.taken ++ la_item job x ∷ [])
