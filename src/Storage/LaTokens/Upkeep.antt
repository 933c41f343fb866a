-- ===== src/Storage/LaTokens/Upkeep.antt =====
-- internal/storage/live_activity_postgres.go: live activity tokens are registered, refreshed and
-- invalidated, and users subscribe to topics.
use pushboy.Prelude.{
  trim_space, ℕ, String, Bool, true, false, ◌&&◌, not, Option, none, some, List, [], ◌∷◌, ◌++◌,
  ◌==◌, eqb, leb, if◌then◌else◌, exists, select, count_if, take, map, update_where, find_first,
  rejected, duplicate, not_found, wrap, Result, ok, err, Exec, pure, gets, guard, on_error, ◌>>=◌,
  ◌>>◌, is_some,
}
use pushboy.Storage.Tables.{Db, LiveActivityToken, UserTopicSubscription}
use pushboy.Storage.World.{World, Sql, statement, statement_at, transaction}
use pushboy.Storage.PushJobs.{required_time, has_user, has_topic}
use pushboy.Storage.LaJobs.{is_unexpired}
use pushboy.Storage.LaOutcomes.{associate_live_activity_token_tx}
use pushboy.Storage.LaTokens.{key, is_start_type, is_update_type, is_apns}

-- The key of an upsert.
abbrev same_token : LiveActivityToken → LiveActivityToken → Bool
same_token x y =
    (if is_apns x.platform then is_apns y.platform else not (is_apns y.platform))
    && (if is_start_type x.token_type
        then is_start_type y.token_type
        else is_update_type y.token_type)
    && y.token == x.token

abbrev refreshed : LiveActivityToken → LiveActivityToken → LiveActivityToken
refreshed x y = record y {
  user_id = x.user_id;
  last_seen_at = x.last_seen_at;
  expires_at = x.expires_at;
  invalidated_at = none;
}

abbrev upsert_with :
    LiveActivityToken → Db → Option LiveActivityToken → Result LiveActivityToken × Db
upsert_with x d (some y) =
    if has_user x.user_id d
    then (
      ok (refreshed x y),
      record d { la_tokens = update_where (same_token x) (refreshed x) d.la_tokens },
    )
    else (err (rejected "live_activity_tokens_user_id_fkey"), d)
upsert_with x d none =
    if exists (λ (y : LiveActivityToken). y.id == x.id) d.la_tokens
    then (err (duplicate "live_activity_tokens_pkey"), d)
    else if has_user x.user_id d
    then (ok x, record d { la_tokens = d.la_tokens ++ x ∷ [] })
    else (err (rejected "live_activity_tokens_user_id_fkey"), d)

abbrev named : ℕ → LiveActivityToken → LiveActivityToken
named now x = record x {
  id = if x.id == "" then x.token else x.id;
  created_at = required_time now x.created_at;
  last_seen_at = now;
  activity_id = "";
  invalidated_at = none;
}

abbrev with_activity : ℕ → ℕ → String → LiveActivityToken → Exec World LiveActivityToken
with_activity now seen activity_id x =
    if activity_id == ""
    then pure x
    else associate_live_activity_token_tx now activity_id x.id seen
      >> pure (record x { activity_id = activity_id })

unfoldable pub upsert_live_activity_token : LiveActivityToken → Exec World LiveActivityToken
unfolding required_time associate_live_activity_token_tx trim_space
upsert_live_activity_token x = do
  clock ← gets (λ (w : World). w.clock)
  transaction (wrap "error starting LA token upsert transaction")
      (wrap "error committing LA token upsert transaction")
      λ now. do
        stored ← on_error (wrap "error upserting LA token") (
            statement_at (λ _. now)
              (λ _ d. upsert_with (named clock x) d (find_first (same_token x) d.la_tokens)))
        with_activity now clock (trim_space x.activity_id) stored

abbrev update_tokens : (ℕ → LiveActivityToken → Bool) → Sql ℕ
update_tokens p now d = (
  ok (count_if (p now) d.la_tokens),
  record d {
    la_tokens = update_where (p now) (λ x. record x { invalidated_at = some now }) d.la_tokens;
  },
)

unfoldable pub invalidate_live_activity_token : String → String → Exec World (Unit {0})
invalidate_live_activity_token user_id token = do
  rows ← on_error (wrap "error invalidating LA token") (
      statement (
        update_tokens
          (λ _ x. x.user_id == user_id && x.token == token && not (is_some x.invalidated_at))))
  guard (not (eqb rows 0)) not_found

-- An update token of Apple that has expired and was not invalidated.
abbrev pub is_expired : ℕ → LiveActivityToken → Bool
is_expired now x =
    is_apns x.platform
    && is_update_type x.token_type
    && not (is_some x.invalidated_at)
    && not (is_unexpired now x.expires_at)

-- `ORDER BY expires_at LIMIT`: the ids of the earliest.
abbrev earlier : Option ℕ → Option ℕ → Bool
earlier (some a) (some b) = leb a b
earlier (some a) none = true
earlier none _ = false

abbrev by_expiry : LiveActivityToken → List LiveActivityToken → List LiveActivityToken
by_expiry x [] = x ∷ []
by_expiry x (y ∷ ys) =
    let rest = by_expiry x ys in if earlier x.expires_at y.expires_at then x ∷ y ∷ ys else y ∷ rest

abbrev sorted_by_expiry : List LiveActivityToken → List LiveActivityToken
sorted_by_expiry [] = []
sorted_by_expiry (x ∷ xs) = by_expiry x (sorted_by_expiry xs)

abbrev pub candidates : ℕ → ℕ → Db → List String
candidates limit now d =
    map key (take limit (sorted_by_expiry (select (is_expired now) d.la_tokens)))

unfoldable pub invalidate_expired_la_update_tokens : ℕ → Exec World ℕ
invalidate_expired_la_update_tokens limit =
    on_error (wrap "error invalidating expired LA update tokens") (
      statement (λ now d.
        update_tokens (λ _ x. exists (λ (i : String). i == x.id) (candidates limit now d)) now d))

abbrev same_subscription : UserTopicSubscription → UserTopicSubscription → Bool
same_subscription s t = t.user_id == s.user_id && t.topic_id == s.topic_id

abbrev subscribe_with :
    UserTopicSubscription → Db → Option UserTopicSubscription → Result UserTopicSubscription × Db
subscribe_with s d (some t) = (
  ok (record t { created_at = s.created_at }),
  record d {
    la_subscriptions =
        update_where (same_subscription s) (λ u. record u { created_at = s.created_at })
          d.la_subscriptions;
  },
)
subscribe_with s d none =
    if exists (λ (t : UserTopicSubscription). t.id == s.id) d.la_subscriptions
    then (err (duplicate "live_activity_user_topic_subscriptions_pkey"), d)
    else if has_user s.user_id d && has_topic s.topic_id d
    then (ok s, record d { la_subscriptions = d.la_subscriptions ++ s ∷ [] })
    else (err (rejected "live_activity_user_topic_subscriptions_fkey"), d)

unfoldable pub subscribe_user_to_la_topic : UserTopicSubscription → Exec World UserTopicSubscription
unfolding required_time
subscribe_user_to_la_topic s = do
  clock ← gets (λ (w : World). w.clock)
  let s' = record s { created_at = required_time clock s.created_at } in
      on_error (wrap "error subscribing user to LA topic") (
        statement
          (λ _ d. subscribe_with s' d (find_first (same_subscription s') d.la_subscriptions)))
