-- ===== src/Tests/Http.antt =====
-- The list routes and the parsers of the API's words.
use pushboy.Prelude.{
  ℕ, suc, ◌≤◌, ◌<◌, String, ◌≡◌, refl, ◌↔◌, true, Option, none, some, [], ◌∷◌, ok, arith, ◌==◌,
  if◌then◌else◌,
}
use pushboy.Model.Push.{
  queued, status_text, parse_notification_job_status, parse_notification_job_status_iff,
}
use pushboy.Model.LiveActivity.{
  LiveActivityAction, action_text, parse_live_activity_action, parse_live_activity_action_iff,
}
use pushboy.Storage.Paging.{get_elem?}
use pushboy.Server.Pagination.{
  ListResponse, parse_limit, parse_cursor, encode_cursor, make_mapped_list_response,
}
use pushboy.Tests.Plain.{plain}
use pushboy.Server.Pagination.Cursor.{parse_cursor-encode_cursor}
use pushboy.Server.Pagination.Pages.{parse_limit_bounds, make_mapped_list_response_lem}

parse_notification_job_status_iff_example :
    (parse_notification_job_status "QUEUED" ≡ ok queued → "QUEUED" ≡ status_text queued)
    × ("QUEUED" ≡ status_text queued → parse_notification_job_status "QUEUED" ≡ ok queued)
parse_notification_job_status_iff_example = parse_notification_job_status_iff "QUEUED" queued

parse_live_activity_action_iff_example :
    (parse_live_activity_action "end" ≡ ok LiveActivityAction.finish
      → "end" ≡ action_text LiveActivityAction.finish)
    × ("end" ≡ action_text LiveActivityAction.finish
        → parse_live_activity_action "end" ≡ ok LiveActivityAction.finish)
parse_live_activity_action_iff_example =
    parse_live_activity_action_iff "end" LiveActivityAction.finish

abbrev read_number : String → Option ℕ
read_number s = if s == "7" then some 7 else none

parse_limit_bounds_example : (0 < 7) × (7 ≤ 200)
parse_limit_bounds_example = parse_limit_bounds read_number "7" 7 seven
  where
    seven : parse_limit read_number "7" ≡ ok 7
    seven = unfold parse_limit in refl

parse_cursor-encode_cursor_example :
    parse_cursor plain (encode_cursor plain "topics" none 9 "t9") "topics" none
    ≡ ok (record { sort_value = 9; id = "t9" })
parse_cursor-encode_cursor_example = parse_cursor-encode_cursor plain "topics" none 9 "t9" refl refl

abbrev number_key : ℕ → ℕ × String
number_key n = (n, "n")

-- Two of three rows, and a cursor at the second.
make_mapped_list_response_lem_example :
    (page : ListResponse ℕ) × (make_mapped_list_response plain number_key suc
        (4 ∷ 5 ∷ 6 ∷ [])
        2
        "topics"
        none
      ≡ ok page)
    × (page.items ≡ 5 ∷ 6 ∷ [])
    × (page.has_more ≡ true ↔ 2 < 3)
    × (page.has_more ≡ true
        → (last : ℕ) × (rest : ℕ) × (suc rest ≡ 2)
          × (get_elem? (4 ∷ 5 ∷ 6 ∷ []) rest ≡ some last)
          × (page.next_cursor
              ≡ encode_cursor plain "topics" none (number_key last).0 (number_key last).1))
make_mapped_list_response_lem_example =
    make_mapped_list_response_lem plain number_key suc (4 ∷ 5 ∷ 6 ∷ []) 2 "topics" none
      (omega arith)
