-- ===== src/Server/Pagination.antt =====
-- internal/server/pagination.go: the limits, cursors and pages of the list routes.
pub mod Cursor
pub mod Pages
pub mod Walk
use pushboy.Prelude.{
  ℕ, zero, suc, ◌+◌, String, ◌≡◌, Bool, true, false, ◌&&◌, ◌||◌, not, Option, none, some, List, [],
  ◌∷◌, map, ◌==◌, eqb, ltb, leb, length, take, Error, message, Result, ok, err, panic,
  if◌then◌else◌,
}
use pushboy.Model.Push.{NotificationJobStatus, parse_notification_job_status, status_text}
use pushboy.Storage.Tables.{PublishJob}
use pushboy.Storage.Paging.{last_of_batch}
use pushboy.Storage.Listings.{PageCursor, PageQuery}

abbrev pub default_page_limit : ℕ
default_page_limit = 50

abbrev pub max_page_limit : ℕ
max_page_limit = 200

abbrev pub cursor_version : ℕ
cursor_version = 1

abbrev pub limit_of : Option ℕ → Result ℕ
limit_of none = err (message "invalid syntax")
limit_of (some n) =
    if eqb n 0 || ltb max_page_limit n then err (message "limit out of range") else ok n

-- `atoi` is `strconv.Atoi`, with a negative number read as 0: both are out of range.
unfoldable pub parse_limit : (String → Option ℕ) → String → Result ℕ
parse_limit atoi raw = if raw == "" then ok default_page_limit else limit_of (atoi raw)

-- The empty status is none.
abbrev some_status : Result NotificationJobStatus → Result (Option NotificationJobStatus)
some_status (ok s) = ok (some s)
some_status (err e) = err e

unfoldable pub parse_notification_status : String → Result (Option NotificationJobStatus)
unfolding parse_notification_job_status
parse_notification_status raw =
    if raw == "" then ok none else some_status (parse_notification_job_status raw)

-- `pageCursor`: what a cursor says before it is encoded.
pub record CursorText : Type 0 where
  pub version : ℕ
  pub route : String
  pub status : String
  pub sort_value : String
  pub id : String

pub record ListResponse (A : Type 0) : Type 0 where
  pub items : List A
  pub next_cursor : String
  pub has_more : Bool

-- encoding/base64, encoding/json and time, as the cursors use them: what is written is read back,
-- and no cursor is written as the empty text.
pub record Codec : Type 0 where
  pub encode : CursorText → String
  pub decode : String → Option CursorText
  pub format_time : ℕ → String
  pub parse_time : String → Option ℕ
  pub decode-encode : (t : CursorText) → decode (encode t) ≡ some t
  pub parse-format : (n : ℕ) → parse_time (format_time n) ≡ some n
  pub encode-nonempty : (t : CursorText) → (encode t == "") ≡ false
  pub format-nonempty : (n : ℕ) → (format_time n == "") ≡ false

abbrev pub optional_text : Option NotificationJobStatus → String
optional_text none = ""
optional_text (some s) = status_text s

module _ (codec : Codec) where
  abbrev at_time : String → Option ℕ → Result PageCursor
  at_time id none = err (message "parsing time")
  at_time id (some t) = ok (record { sort_value = t; id = id })

  abbrev checked : String → Option NotificationJobStatus → Option CursorText → Result PageCursor
  checked route status none = err (message "invalid encoding")
  checked route status (some c) =
      if not (eqb c.version cursor_version)
        || not (c.route == route)
        || not (c.status == optional_text status)
        || c.sort_value == ""
        || c.id == ""
      then err (message "invalid cursor")
      else at_time c.id (codec.parse_time c.sort_value)

  unfoldable pub parse_cursor : String → String → Option NotificationJobStatus → Result PageCursor
  unfolding status_text
  parse_cursor raw route status =
      if raw == ""
      then ok (record { sort_value = 0; id = "" })
      else checked route status (codec.decode raw)

  -- dto.go
  unfoldable pub format_api_time : ℕ → String
  format_api_time t = if eqb t 0 then "" else codec.format_time t

  unfoldable pub encode_cursor : String → Option NotificationJobStatus → ℕ → String → String
  unfolding status_text format_api_time
  encode_cursor route status sort_value id =
      if eqb sort_value 0 || id == ""
      then ""
      else codec.encode (record {
        version = cursor_version;
        route = route;
        status = optional_text status;
        sort_value = format_api_time sort_value;
        id = id;
      })

  module _ {A B : Type 0} (key : A → ℕ × String) (f : A → B) where
    abbrev with_next :
        String → Option NotificationJobStatus → List A → Option A → Result (ListResponse B)
    with_next route status visible none = err panic
    with_next route status visible (some last) = ok (record {
      items = map f visible;
      next_cursor = encode_cursor route status (key last).0 (key last).1;
      has_more = true;
    })

    unfoldable pub make_mapped_list_response :
        List A → ℕ → String → Option NotificationJobStatus → Result (ListResponse B)
    unfolding encode_cursor
    make_mapped_list_response items limit route status =
        if leb (length items) limit
        then ok (record { items = map f items; next_cursor = ""; has_more = false })
        else with_next route status (take limit items) (last_of_batch limit items)

abbrev time_or : Option ℕ → ℕ → ℕ
time_or none t = t
time_or (some s) t = s

unfoldable pub notification_job_cursor_time : PublishJob → ℕ
notification_job_cursor_time j = time_or j.scheduled_at j.created_at

-- `pageQueryFromRequest` and `notificationListQueryFromRequest`, over the query's texts.
module _ (codec : Codec) (atoi : String → Option ℕ) where
  abbrev with_cursor : ℕ → Option NotificationJobStatus → Result PageCursor → Result (PageQuery × ℕ)
  with_cursor limit status (err e) = err e
  with_cursor limit status (ok c) =
      ok (record { limit = limit + 1; cursor = c; status = status }, limit)

  abbrev with_limit :
      String → String → Option NotificationJobStatus → Result ℕ → Result (PageQuery × ℕ)
  with_limit cursor route status (err e) = err e
  with_limit cursor route status (ok n) =
      with_cursor n status (parse_cursor codec cursor route status)

  unfoldable pub page_query_from_request : String → String → String → Result (PageQuery × ℕ)
  unfolding parse_cursor parse_limit
  page_query_from_request limit cursor route = with_limit cursor route none (parse_limit atoi limit)

  abbrev with_status :
      String → String → String → Result (Option NotificationJobStatus) → Result (PageQuery × ℕ)
  with_status limit cursor route (err e) = err e
  with_status limit cursor route (ok s) = with_limit cursor route s (parse_limit atoi limit)

  unfoldable pub notification_list_query_from_request :
      String → String → String → String → Result (PageQuery × ℕ)
  unfolding parse_cursor parse_limit parse_notification_status
  notification_list_query_from_request status limit cursor route =
      with_status limit cursor route (parse_notification_status status)
