-- ===== src/Config/Ranges.antt =====
-- What the settings can be, whatever the environment holds.
use pushboy.Prelude.{
  ℕ, String, ◌≡◌, refl, Bool, false, Option, none, some, Bool-cases, Option-cases, inl, inr,
}
use pushboy.Config.{
  ℤ, pos, is_below, at_least, get_int_env, get_positive_int_env, get_non_negative_int_env,
  get_optional_non_negative_int_env, la_queue_default, load, value_or, non_negative,
}

-- A value that is not negative, and not below a bound.
abbrev pub IsAtLeast : ℕ → ℤ → Type 0
IsAtLeast n v = is_below n v ≡ false

at_least-IsAtLeast :
    (n : ℕ) (default v : ℤ) → IsAtLeast n default → IsAtLeast n (at_least n default v)
at_least-IsAtLeast n default v h = elim (Bool-cases (is_below n v)) [
  | inl e ↦ rw e h
  | inr e ↦ rw e e
]

module _ (lookup_env : String → Option String) (atoi : String → Option ℤ)
    (parse_bool : String → Option Bool) where
  positive :
      (key : String) (default : ℤ)
      → IsAtLeast 1 default
      → IsAtLeast 1 (get_positive_int_env lookup_env atoi parse_bool key default)
  unfolding get_positive_int_env
  positive key default h =
      at_least-IsAtLeast 1 default (get_int_env lookup_env atoi parse_bool key default) h

  not_negative :
      (key : String) (default : ℤ)
      → IsAtLeast 0 default
      → IsAtLeast 0 (get_non_negative_int_env lookup_env atoi parse_bool key default)
  unfolding get_non_negative_int_env
  not_negative key default h =
      at_least-IsAtLeast 0 default (get_int_env lookup_env atoi parse_bool key default) h

  optional_not_negative :
      (o : Option ℤ) (default : ℤ)
      → IsAtLeast 0 default
      → IsAtLeast 0 (value_or default (non_negative o))
  optional_not_negative none default h = h
  optional_not_negative (some v) default h = elim (Bool-cases (is_below 0 v)) [
    | inl e ↦ rw e h
    | inr e ↦ rw e e
  ]

  queue_default :
      (default : ℤ)
      → IsAtLeast 0 default
      → IsAtLeast 0 (la_queue_default lookup_env atoi parse_bool default)
  unfolding get_optional_non_negative_int_env
  queue_default default h = elim (Option-cases (lookup_env "LA_QUEUE_SIZE")) [
    | inl e ↦ rw e h
    | inr (text, e) ↦ rw e (optional_not_negative (atoi text) default h)
  ]

  -- Whatever the environment holds, the batch size and the flush time of the outcome workers, the time
  -- of the shutdown and the pools of clients are at least 1, and the sizes of the queues but the push
  -- lane's job queue, the numbers of requests under way and the number of retries are not negative.
  pub load_ranges :
      let c = load lookup_env atoi parse_bool in
      IsAtLeast 1 c.outcome_batch_size
      × IsAtLeast 1 c.outcome_flush_seconds
      × IsAtLeast 1 c.shutdown_timeout_secs
      × IsAtLeast 1 c.apns_client_pool
      × IsAtLeast 1 c.la_apns_client_pool
      × IsAtLeast 1 c.fcm_client_pool
      × IsAtLeast 1 c.la_fcm_client_pool
      × IsAtLeast 0 c.task_queue_size
      × IsAtLeast 0 c.dlq_queue_size
      × IsAtLeast 0 c.la_job_queue_size
      × IsAtLeast 0 c.la_task_queue_size
      × IsAtLeast 0 c.la_dlq_queue_size
      × IsAtLeast 0 c.apns_max_concurrent
      × IsAtLeast 0 c.la_apns_max_concurrent
      × IsAtLeast 0 c.fcm_max_concurrent
      × IsAtLeast 0 c.la_fcm_max_concurrent
      × IsAtLeast 0 c.max_retry_notification
  unfolding load
  load_ranges =
      let apns = positive "APNS_CLIENT_POOL" (pos 8) refl in
      let apns_max = not_negative "APNS_MAX_CONCURRENT" (pos 0) refl in
      let fcm = positive "FCM_CLIENT_POOL" (pos 4) refl in
      let fcm_max = not_negative "FCM_MAX_CONCURRENT" (pos 360) refl in
      (
        positive "OUTCOME_BATCH_SIZE" (pos 1000) refl,
        positive "OUTCOME_FLUSH_SECONDS" (pos 10) refl,
        positive "SHUTDOWN_TIMEOUT_SECONDS" (pos 120) refl,
        apns,
        positive "LA_APNS_CLIENT_POOL"
            (get_positive_int_env lookup_env atoi parse_bool "APNS_CLIENT_POOL" (pos 8)) apns,
        fcm,
        positive "LA_FCM_CLIENT_POOL"
            (get_positive_int_env lookup_env atoi parse_bool "FCM_CLIENT_POOL" (pos 4)) fcm,
        not_negative "TASK_QUEUE_SIZE" (pos 10000) refl,
        not_negative "DLQ_QUEUE_SIZE" (pos 50000) refl,
        not_negative "LA_JOB_QUEUE_SIZE" (la_queue_default lookup_env atoi parse_bool (pos 1000))
            (queue_default (pos 1000) refl),
        not_negative "LA_TASK_QUEUE_SIZE" (la_queue_default lookup_env atoi parse_bool (pos 5000))
            (queue_default (pos 5000) refl),
        not_negative "LA_DLQ_QUEUE_SIZE" (la_queue_default lookup_env atoi parse_bool (pos 50000))
            (queue_default (pos 50000) refl),
        apns_max,
        not_negative "LA_APNS_MAX_CONCURRENT"
            (get_non_negative_int_env lookup_env atoi parse_bool "APNS_MAX_CONCURRENT" (pos 0))
            apns_max,
        fcm_max,
        not_negative "LA_FCM_MAX_CONCURRENT"
            (get_non_negative_int_env lookup_env atoi parse_bool "FCM_MAX_CONCURRENT" (pos 360))
            fcm_max,
        not_negative "MAX_RETRY_NOTIFICATION" (pos 3) refl,
      )
