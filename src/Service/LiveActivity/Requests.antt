-- ===== src/Service/LiveActivity/Requests.antt =====
-- internal/service/live_activity.go: `CreateLADispatch`, from a request to a job and a dispatch.
use pushboy.Prelude.{
  ℕ, ◌+◌, String, Bool, true, false, ◌&&◌, ◌||◌, not, Option, none, some, ◌==◌, if◌then◌else◌,
  trim_space, is_some, Error, wrap, message, not_found, at_not_found, is_error, Result, ok, err,
  Exec, pure, raise, gets, guard, on_error, attempt, ◌>>=◌, ◌>>◌,
}
use pushboy.Model.LiveActivity.{
  LiveActivityAction, LiveActivityJobStatus, active, closed, failed, enqueue_pending,
}
use pushboy.Model.LiveActivity.Options.{WireOptions, is_blank, parse_live_activity_options}
use pushboy.Storage.Tables.{LiveActivityJob, LiveActivityDispatch}
use pushboy.Storage.World.{World}
use pushboy.Storage.Tokens.{from_result}
use pushboy.Storage.Directory.{get_user}
use pushboy.Storage.Topics.{get_topic_by_id}
use pushboy.Storage.LaJobs.{
  create_or_get_la_start_job, rollback_la_start_job, get_la_job_by_activity_id,
  find_la_job_by_user_scope, find_la_job_by_topic_scope, update_la_job_payload_if_active,
}
use pushboy.Storage.LaDispatches.{create_la_dispatch}
use pushboy.Service.LiveActivity.{parse_la_expiry, la_expired, default_la_job_lifetime}

pub record LaDispatchRequest : Type 0 where
  pub action : LiveActivityAction
  pub activity_id : String
  pub activity_type : String
  pub user_id : String
  pub topic_id : String
  pub payload : Option String
  pub options : Option String
  pub expires_at : String

pub record LaDispatchResult : Type 0 where
  pub job : LiveActivityJob
  pub dispatch : Option LiveActivityDispatch
  pub status : String

-- What the library code reads, and the ids that are drawn for the job and the dispatch.
pub record LaInputs : Type 0 where
  pub parse_time : String → Option ℕ
  pub unmarshal : String → Option WireOptions
  pub job_id : String
  pub dispatch_id : String

abbrev text_of : Option String → String
text_of none = ""
text_of (some s) = s

-- `strings.TrimSpace(string(raw))` is empty or `null`.
unfoldable pub is_missing : Option String → Bool
unfolding trim_space
is_missing raw = is_blank (trim_space (text_of raw))

unfoldable pub resolve_la_job_by_scope : String → String → String → Exec World LiveActivityJob
unfolding find_la_job_by_user_scope find_la_job_by_topic_scope
resolve_la_job_by_scope activity_type user_id topic_id = do
  guard (not (not (user_id == "") && not (topic_id == "")))
      (message "provide either userId or topicId, not both")
  guard (not (user_id == "" && topic_id == "")) (message "either userId or topicId is required")
  guard (not (activity_type == "")) (message "activityType is required")
  if not (user_id == "")
      then find_la_job_by_user_scope activity_type user_id
      else find_la_job_by_topic_scope activity_type topic_id

unfoldable pub find_la_job : LaDispatchRequest → Exec World LiveActivityJob
unfolding get_la_job_by_activity_id resolve_la_job_by_scope
find_la_job req =
    if not (req.activity_id == "")
    then get_la_job_by_activity_id req.activity_id
    else resolve_la_job_by_scope req.activity_type req.user_id req.topic_id

-- The payload of a dispatch: the request's, or the job's latest, or an empty object.
unfoldable pub dispatch_payload : Option String → Option String → Option String
unfolding is_missing
dispatch_payload payload latest =
    if not (is_missing payload)
    then payload
    else if not (is_missing latest)
    then latest
    else some "{}"

abbrev pub new_dispatch :
    String
    → LiveActivityJob
    → LiveActivityAction
    → Option String
    → Option String
    → ℕ
    → LiveActivityDispatch
new_dispatch drawn job action payload options now = record {
  id = drawn;
  live_activity_job_id = job.id;
  action = action;
  payload = dispatch_payload payload job.latest_payload;
  options = options;
  status = enqueue_pending;
  total_count = 0;
  success_count = 0;
  failure_count = 0;
  created_at = now;
  completed_at = none;
}

unfoldable pub create_la_dispatch_row :
    String
    → LiveActivityJob
    → LiveActivityAction
    → Option String
    → Option String
    → ℕ
    → Exec World LiveActivityDispatch
unfolding create_la_dispatch dispatch_payload
create_la_dispatch_row drawn job action payload options now =
    create_la_dispatch (new_dispatch drawn job action payload options now)

abbrev pub dispatched_as :
    String → LiveActivityJob → Exec World LiveActivityDispatch → Exec World LaDispatchResult
dispatched_as status job call = do
  x ← call
  pure (record { job = job; dispatch = some x; status = status })

abbrev expiry_or : Option ℕ → ℕ → ℕ
expiry_or none t = t
expiry_or (some e) t = e

abbrev pub start_job : LaInputs → LaDispatchRequest → ℕ → Option ℕ → LiveActivityJob
start_job inputs req now expiry = record {
  id = inputs.job_id;
  activity_id = req.activity_id;
  activity_type = req.activity_type;
  user_id = req.user_id;
  topic_id = req.topic_id;
  status = active;
  latest_payload = req.payload;
  options = req.options;
  created_at = now;
  updated_at = now;
  expires_at = some (expiry_or expiry (now + default_la_job_lifetime));
  closed_at = none;
}

-- The error of the roll back is only told in the text.
abbrev rollback_failed : Error → Result (Unit {0}) → Exec World LaDispatchResult
rollback_failed cause (ok _) = raise cause
rollback_failed cause (err e) = raise (wrap "failed to create LA dispatch" cause)

abbrev pub started_or_rolled_back :
    LiveActivityJob → Result LiveActivityDispatch → Exec World LaDispatchResult
started_or_rolled_back job (ok x) =
    pure (record { job = job; dispatch = some x; status = "started" })
started_or_rolled_back job (err e) = attempt (rollback_la_start_job job.id) (rollback_failed e)

abbrev pub dispatch_start :
    LaInputs → LaDispatchRequest → ℕ → LiveActivityJob × Bool → Exec World LaDispatchResult
dispatch_start inputs req now (job, created) =
    if not created
    then pure (record { job = job; dispatch = none; status = "already_started" })
    else attempt
        (create_la_dispatch_row inputs.dispatch_id job req.action req.payload req.options now)
        (started_or_rolled_back job)

abbrev known_user : String → Exec World (Unit {0})
known_user id =
    if id == "" then pure tt else on_error (wrap "user not found") (get_user id) >> pure tt

abbrev known_topic : String → Exec World (Unit {0})
known_topic id =
    if id == "" then pure tt else on_error (wrap "topic not found") (get_topic_by_id id) >> pure tt

unfoldable pub create_la_start : LaInputs → LaDispatchRequest → ℕ → Exec World LaDispatchResult
unfolding create_la_dispatch_row rollback_la_start_job create_or_get_la_start_job get_user
    get_topic_by_id parse_la_expiry parse_live_activity_options
create_la_start inputs req now = do
  guard (not (req.activity_id == "")) (message "activityId is required")
  guard (not (req.activity_type == "")) (message "activityType is required")
  guard (not (req.user_id == "" && req.topic_id == ""))
      (message "either userId or topicId is required")
  guard (req.user_id == "" || req.topic_id == "")
      (message "provide either userId or topicId, not both")
  known_user req.user_id
  known_topic req.topic_id
  from_result (parse_live_activity_options inputs.unmarshal (text_of req.options))
  expiry ← from_result (parse_la_expiry inputs.parse_time req.expires_at now)
  started ← create_or_get_la_start_job (start_job inputs req now expiry)
  dispatch_start inputs req now started

abbrev scope_given : LaDispatchRequest → Exec World (Unit {0})
scope_given req =
    if req.activity_id == ""
    then guard (not (req.activity_type == "")) (message "activityType is required")
      >> guard (not (req.user_id == "" && req.topic_id == ""))
          (message "either userId or topicId is required")
      >> guard (req.user_id == "" || req.topic_id == "")
          (message "provide either userId or topicId, not both")
    else pure tt

-- `errors.Is(err, NotFound)` makes the error itself `NotFound`.
abbrev bare_not_found : Error → Error
bare_not_found e = if is_error at_not_found e then not_found else e

abbrev pub is_active : LiveActivityJobStatus → Bool
is_active active = true
is_active _ = false

abbrev pub is_closed : LiveActivityJobStatus → Bool
is_closed closed = true
is_closed _ = false

abbrev pub is_failed : LiveActivityJobStatus → Bool
is_failed failed = true
is_failed _ = false

unfoldable pub create_la_update : LaInputs → LaDispatchRequest → ℕ → Exec World LaDispatchResult
unfolding create_la_dispatch_row find_la_job la_expired update_la_job_payload_if_active
create_la_update inputs req now = do
  scope_given req
  job ← on_error bare_not_found (find_la_job req)
  guard (is_active job.status && not (is_some job.closed_at) && not (la_expired job.expires_at now))
      not_found
  on_error bare_not_found (update_la_job_payload_if_active job.id req.payload req.options now)
  let job' = record job { latest_payload = req.payload; options = req.options; updated_at = now } in
      dispatched_as "updated" job'
        (create_la_dispatch_row inputs.dispatch_id job' req.action req.payload req.options now)

unfoldable pub create_la_end : LaInputs → LaDispatchRequest → ℕ → Exec World LaDispatchResult
unfolding create_la_dispatch_row find_la_job la_expired
create_la_end inputs req now = do
  scope_given req
  job ← on_error bare_not_found (find_la_job req)
  guard (not (la_expired job.expires_at now) && not (is_failed job.status)) not_found
  if is_closed job.status
      then pure (record { job = job; dispatch = none; status = "closed" })
      else dispatched_as "ended" job
          (create_la_dispatch_row inputs.dispatch_id job req.action req.payload req.options now)

abbrev pub by_action :
    LaInputs → LaDispatchRequest → ℕ → LiveActivityAction → Exec World LaDispatchResult
by_action inputs req now LiveActivityAction.start = create_la_start inputs req now
by_action inputs req now LiveActivityAction.update = create_la_update inputs req now
by_action inputs req now LiveActivityAction.finish = create_la_end inputs req now

abbrev pub is_start : LiveActivityAction → Bool
is_start LiveActivityAction.start = true
is_start _ = false

abbrev pub is_end : LiveActivityAction → Bool
is_end LiveActivityAction.finish = true
is_end _ = false

-- An action that is none of the three is no `LiveActivityAction`.
unfoldable pub create_la_dispatch_request :
    LaInputs → LaDispatchRequest → Exec World LaDispatchResult
unfolding create_la_start create_la_update create_la_end is_missing
create_la_dispatch_request inputs req = do
  guard (req.activity_id == "" || (req.user_id == "" && req.topic_id == "") || is_start req.action)
      (message "provide either activityId or userId/topicId, not both")
  guard (is_end req.action || not (is_missing req.payload)) (message "payload is required")
  now ← gets (λ (w : World). w.clock)
  by_action inputs req now req.action
