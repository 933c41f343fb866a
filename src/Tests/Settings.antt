-- ===== src/Tests/Settings.antt =====
-- A process with a batch size of 0 for its outcomes.
use pushboy.Prelude.{String, ◌==◌, Bool, true, false, Option, none, some, if◌then◌else◌, ◌≡◌, refl}
use pushboy.Config.{ℤ, pos, negsuc, load}
use pushboy.Config.Ranges.{IsAtLeast, load_ranges}

abbrev an_env : String → Option String
an_env key =
    if key == "OUTCOME_BATCH_SIZE"
    then some "0"
    else if key == "LA_QUEUE_SIZE"
    then some "7"
    else if key == "TASK_QUEUE_SIZE"
    then some "-1"
    else none

abbrev read_int : String → Option ℤ
read_int text =
    if text == "0"
    then some (pos 0)
    else if text == "7"
    then some (pos 7)
    else if text == "-1"
    then some (negsuc 0)
    else none

abbrev read_bool : String → Option Bool
read_bool text = if text == "true" then some true else if text == "false" then some false else none

load_ranges_example :
    let c = load an_env read_int read_bool in
    IsAtLeast 1 c.outcome_batch_size
    × IsAtLeast 1 c.outcome_flush_seconds
    × IsAtLeast 1 c.shutdown_timeout_secs
    × IsAtLeast 1 c.apns_client_pool
    × IsAtLeast 1 c.la_apns_client_pool
    × IsAtLeast 1 c.fcm_client_pool
    × IsAtLeast 1 c.la_fcm_client_pool
    × IsAtLeast 0 c.task_queue_size
    × IsAtLeast 0 c.dlq_queue_size
    × IsAtLeast 0 c.la_job_queue_size
    × IsAtLeast 0 c.la_task_queue_size
    × IsAtLeast 0 c.la_dlq_queue_size
    × IsAtLeast 0 c.apns_max_concurrent
    × IsAtLeast 0 c.la_apns_max_concurrent
    × IsAtLeast 0 c.fcm_max_concurrent
    × IsAtLeast 0 c.la_fcm_max_concurrent
    × IsAtLeast 0 c.max_retry_notification
load_ranges_example = load_ranges an_env read_int read_bool

-- The default of the job queue of the live activity lane is the legacy size.
la_queue_size : (load an_env read_int read_bool).la_job_queue_size ≡ pos 7
unfolding load
la_queue_size = refl
