-- ===== src/Startup.antt =====
-- cmd/pushboy/main.go: the topic that every user is subscribed to is made if it is not there.
use pushboy.Prelude.{
  String, ◌==◌, if◌then◌else◌, trim_space, message, opaque_cause, at_not_found, at_already_exists,
  is_error, Result, ok, err, Exec, pure, raise, attempt,
}
use pushboy.Storage.Tables.{Topic}
use pushboy.Storage.World.{World}
use pushboy.Storage.Topics.{create_topic, get_topic_by_id}

-- `log.Fatalf` ends the process.
abbrev created : String → Result Topic → Exec World String
created id (ok t) = pure id
created id (err e) =
    if is_error at_already_exists e
    then raise (message "broadcast topic exists with a conflicting id")
    else raise (opaque_cause "Failed to create broadcast topic" e)

abbrev found_or_created : Topic → Result Topic → Exec World String
found_or_created topic (ok t) = pure topic.id
found_or_created topic (err e) =
    if is_error at_not_found e
    then attempt (create_topic topic) (created topic.id)
    else raise (opaque_cause "Failed to check broadcast topic" e)

-- The id of the broadcast topic, or the empty text; `to_lower` is `strings.ToLower`.
unfoldable pub ensure_broadcast_topic : (String → String) → String → Exec World String
unfolding create_topic get_topic_by_id is_error trim_space
ensure_broadcast_topic to_lower configured =
    let name = trim_space configured in
    if name == ""
    then pure ""
    else attempt (get_topic_by_id (to_lower name))
        (found_or_created (record { id = to_lower name; name = name }))
