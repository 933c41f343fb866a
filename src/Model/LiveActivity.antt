-- ===== src/Model/LiveActivity.antt =====
-- internal/model/live_activity.go: token types, actions and job statuses, and their parsers. The
-- statuses of a dispatch are the texts that internal/storage writes into its column.
pub mod Options
use pushboy.Prelude.{
  String, ◌≡◌, refl, arith, ◌==◌, eq_iff, if◌then◌else◌, Result, ok, err, message,
}

pub data LiveActivityTokenType : Type 0 where
  start update : LiveActivityTokenType

-- The constructor `finish` is the action "end".
pub data LiveActivityAction : Type 0 where
  start update finish : LiveActivityAction

pub data LiveActivityJobStatus : Type 0 where
  active closed failed : LiveActivityJobStatus

pub data LiveActivityDispatchStatus : Type 0 where
  enqueue_pending queued in_progress dispatched completed failed superseded :
      LiveActivityDispatchStatus

unfoldable pub token_type_text : LiveActivityTokenType → String
token_type_text LiveActivityTokenType.start = "start"
token_type_text LiveActivityTokenType.update = "update"

unfoldable pub action_text : LiveActivityAction → String
action_text LiveActivityAction.start = "start"
action_text LiveActivityAction.update = "update"
action_text LiveActivityAction.finish = "end"

unfoldable pub parse_live_activity_token_type : String → Result LiveActivityTokenType
parse_live_activity_token_type s =
    if s == "start"
    then ok LiveActivityTokenType.start
    else if s == "update"
    then ok LiveActivityTokenType.update
    else err (message "invalid live activity token type")

unfoldable pub parse_live_activity_action : String → Result LiveActivityAction
parse_live_activity_action s =
    if s == "start"
    then ok LiveActivityAction.start
    else if s == "update"
    then ok LiveActivityAction.update
    else if s == "end"
    then ok LiveActivityAction.finish
    else err (message "invalid live activity action")

-- Every action is accepted under its own text, and nothing else is accepted.
pub parse_live_activity_action_iff :
    (s : String) (a : LiveActivityAction)
    → (parse_live_activity_action s ≡ ok a → s ≡ action_text a)
      × (s ≡ action_text a → parse_live_activity_action s ≡ ok a)
unfolding parse_live_activity_action action_text
parse_live_activity_action_iff s a =
    (λ h. ground (arith, eq_iff s "start", eq_iff s "update", eq_iff s "end"), λ e. rw e (back a))
  where
    back : (t : LiveActivityAction) → parse_live_activity_action (action_text t) ≡ ok t
    back LiveActivityAction.start = refl
    back LiveActivityAction.update = refl
    back LiveActivityAction.finish = refl
