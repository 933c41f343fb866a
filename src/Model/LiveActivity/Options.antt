-- ===== src/Model/LiveActivity/Options.antt =====
-- internal/model/live_activity.go: the options of a live activity, over what encoding/json reads. A
-- value of any type that is only passed on is its text.
use Prim.Native.Char.{code}
use Prim.Native.String.{String, [], ◌∷◌}
use pushboy.Prelude.{
  ℕ, ◌+◌, Bool, true, false, ◌&&◌, ◌||◌, Option, none, some, List, ◌==◌, eqb, leb, if◌then◌else◌,
  trim_space, Error, wrap, message, Result, ok, err,
}

pub record LiveActivityAlert : Type 0 where
  pub title : String
  pub body : String
  pub sound : String

-- A JSON value, as the priority may be one; `fraction` is a number that is not a natural one.
pub data JsonValue : Type 0 where
  null fraction other : JsonValue
  number : ℕ → JsonValue
  text : String → JsonValue

-- The struct `wire`.
pub record WireOptions : Type 0 where
  pub alert : Option LiveActivityAlert
  pub attributes_type : String
  pub attributes : Option String
  pub timestamp : Option String
  pub stale_date : Option String
  pub dismissal_date : Option String
  pub expiration : Option String
  pub priority : JsonValue
  pub ttl : ℕ
  pub collapse_id : String
  pub relevance_score : Option String

pub record ParsedLiveActivityOptions : Type 0 where
  pub alert : Option LiveActivityAlert
  pub attributes_type : String
  pub attributes : Option String
  pub timestamp : Option String
  pub stale_date : Option String
  pub dismissal_date : Option String
  pub expiration : Option String
  pub priority : String
  pub ttl : ℕ
  pub collapse_id : String
  pub relevance_score : Option String

-- `unicode.ToLower`, where its value is an ASCII letter: capitals, and the two other letters that
-- have one.
abbrev lower : ℕ → ℕ
lower c =
    if leb b'A' c && leb c b'Z'
    then c + 32
    else if eqb c 0x130
    then b'i'
    else if eqb c 0x212A
    then b'k'
    else c

abbrev codes : String → List ℕ
codes [] = List.[]
codes (c ∷ s) = List.◌∷◌ (code c) (codes s)

abbrev lower_all : List ℕ → List ℕ
lower_all List.[] = List.[]
lower_all (List.◌∷◌ c cs) = List.◌∷◌ (lower c) (lower_all cs)

abbrev same_codes : List ℕ → List ℕ → Bool
same_codes List.[] List.[] = true
same_codes (List.◌∷◌ a as') (List.◌∷◌ b bs) = eqb a b && same_codes as' bs
same_codes _ _ = false

-- `strings.ToLower(s)`, compared with a text without capitals.
unfoldable pub lower_is : String → String → Bool
lower_is s t = same_codes (lower_all (codes s)) (codes t)

abbrev bad_priority : Error
bad_priority = message "live activity options.priority must be 5, 10, 'high', or 'normal'"

abbrev priority_of_text : String → Result String
priority_of_text s =
    if s == ""
    then ok ""
    else if lower_is s "normal" || lower_is s "5"
    then ok "normal"
    else if lower_is s "high" || lower_is s "10"
    then ok "high"
    else err bad_priority

unfoldable pub parse_live_activity_priority : JsonValue → Result String
unfolding lower_is trim_space
parse_live_activity_priority null = ok ""
parse_live_activity_priority (number n) =
    if eqb n 5 then ok "normal" else if eqb n 10 then ok "high" else err bad_priority
parse_live_activity_priority (text s) = priority_of_text (trim_space s)
parse_live_activity_priority fraction = err bad_priority
parse_live_activity_priority other = err bad_priority

abbrev pub no_options : WireOptions
no_options = record {
  alert = none;
  attributes_type = "";
  attributes = none;
  timestamp = none;
  stale_date = none;
  dismissal_date = none;
  expiration = none;
  priority = null;
  ttl = 0;
  collapse_id = "";
  relevance_score = none;
}

abbrev with_priority : WireOptions → Result String → Result ParsedLiveActivityOptions
with_priority w (err e) = err e
with_priority w (ok p) = ok (record {
  alert = w.alert;
  attributes_type = w.attributes_type;
  attributes = w.attributes;
  timestamp = w.timestamp;
  stale_date = w.stale_date;
  dismissal_date = w.dismissal_date;
  expiration = w.expiration;
  priority = p;
  ttl = w.ttl;
  collapse_id = trim_space w.collapse_id;
  relevance_score = w.relevance_score;
})

abbrev wired : Option WireOptions → Result ParsedLiveActivityOptions
wired none = err (wrap "invalid live activity options" (message "json"))
wired (some w) = with_priority w (parse_live_activity_priority w.priority)

-- Empty or `null`, once it is trimmed.
abbrev pub is_blank : String → Bool
is_blank s = s == "" || s == "null"

-- `unmarshal` is `json.Unmarshal` into `wire`.
unfoldable pub parse_live_activity_options :
    (String → Option WireOptions) → String → Result ParsedLiveActivityOptions
unfolding parse_live_activity_priority trim_space
parse_live_activity_options unmarshal raw =
    wired (if is_blank (trim_space raw) then some no_options else unmarshal (trim_space raw))
