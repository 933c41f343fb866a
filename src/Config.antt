-- ===== src/Config.antt =====
-- internal/config/config.go: the settings, read from the environment with defaults.
pub mod Ranges
use pushboy.Prelude.{ℕ, String, Bool, true, false, Option, none, some, ltb, eqb, if◌then◌else◌}

-- What `strconv.Atoi` reads: `negsuc n` is -(n + 1).
pub data ℤ : Type 0 where
  pos negsuc : ℕ → ℤ

-- `value < n`, for an `n` that is not negative.
abbrev pub is_below : ℕ → ℤ → Bool
is_below n (pos m) = ltb m n
is_below n (negsuc m) = true

-- The settings of `Load`.
pub record Config : Type 0 where
  pub server_port : String
  pub worker_count : ℤ
  pub sender_count : ℤ
  pub job_queue_size : ℤ
  pub task_queue_size : ℤ
  pub dlq_queue_size : ℤ
  pub batch_size : ℤ
  pub outcome_batch_size : ℤ
  pub outcome_flush_seconds : ℤ
  pub shutdown_timeout_secs : ℤ
  pub la_worker_count : ℤ
  pub la_sender_count : ℤ
  pub la_job_queue_size : ℤ
  pub la_task_queue_size : ℤ
  pub la_dlq_queue_size : ℤ
  pub max_retry_notification : ℤ
  pub database_url : String
  pub apns_key_id : String
  pub apns_team_id : String
  pub apns_bundle_id : String
  pub apns_key_path : String
  pub apns_use_sandbox : Bool
  pub apns_endpoint : String
  pub apns_client_pool : ℤ
  pub apns_max_concurrent : ℤ
  pub la_apns_client_pool : ℤ
  pub la_apns_max_concurrent : ℤ
  pub fcm_project_id : String
  pub fcm_service_account : String
  pub fcm_key_path : String
  pub fcm_client_pool : ℤ
  pub fcm_max_concurrent : ℤ
  pub la_fcm_client_pool : ℤ
  pub la_fcm_max_concurrent : ℤ
  pub broadcast_topic_name : String

abbrev pub value_or : {A : Type 0} → A → Option A → A
value_or default none = default
value_or default (some v) = v

abbrev pub non_negative : Option ℤ → Option ℤ
non_negative none = none
non_negative (some v) = if is_below 0 v then none else some v

abbrev pub at_least : ℕ → ℤ → ℤ → ℤ
at_least n default value = if is_below n value then default else value

-- `os.LookupEnv`, and `strconv.Atoi` and `strconv.ParseBool`, which fail on some texts.
module _ (lookup_env : String → Option String) (atoi : String → Option ℤ)
    (parse_bool : String → Option Bool) where
  unfoldable pub get_env : String → String → String
  get_env key default = value_or default (lookup_env key)

  unfoldable pub get_int_env : String → ℤ → ℤ
  unfolding get_env
  get_int_env key default = value_or default (atoi (get_env key ""))

  unfoldable pub get_positive_int_env : String → ℤ → ℤ
  unfolding get_int_env
  get_positive_int_env key default = at_least 1 default (get_int_env key default)

  unfoldable pub get_non_negative_int_env : String → ℤ → ℤ
  unfolding get_int_env
  get_non_negative_int_env key default = at_least 0 default (get_int_env key default)

  abbrev read_optional : Option String → Option ℤ
  read_optional none = none
  read_optional (some text) = non_negative (atoi text)

  unfoldable pub get_optional_non_negative_int_env : String → Option ℤ
  get_optional_non_negative_int_env key = read_optional (lookup_env key)

  unfoldable pub get_bool_env : String → Bool → Bool
  unfolding get_env
  get_bool_env key default = value_or default (parse_bool (get_env key ""))

  -- The default of a queue of the live activity lane.
  abbrev pub la_queue_default : ℤ → ℤ
  la_queue_default default = value_or default (get_optional_non_negative_int_env "LA_QUEUE_SIZE")

  unfoldable pub load : Config
  unfolding get_positive_int_env get_non_negative_int_env get_optional_non_negative_int_env
      get_bool_env
  load =
      let apns_client_pool = get_positive_int_env "APNS_CLIENT_POOL" (pos 8) in
      let apns_max_concurrent = get_non_negative_int_env "APNS_MAX_CONCURRENT" (pos 0) in
      let fcm_client_pool = get_positive_int_env "FCM_CLIENT_POOL" (pos 4) in
      let fcm_max_concurrent = get_non_negative_int_env "FCM_MAX_CONCURRENT" (pos 360) in
      record {
        server_port = get_env "SERVER_PORT" ":8080";
        worker_count = get_int_env "WORKER_COUNT" (pos 10);
        sender_count = get_int_env "SENDER_COUNT" (pos 2000);
        job_queue_size = get_int_env "JOB_QUEUE_SIZE" (pos 1000);
        task_queue_size = get_non_negative_int_env "TASK_QUEUE_SIZE" (pos 10000);
        dlq_queue_size = get_non_negative_int_env "DLQ_QUEUE_SIZE" (pos 50000);
        batch_size = get_int_env "BATCH_SIZE" (pos 5000);
        outcome_batch_size = get_positive_int_env "OUTCOME_BATCH_SIZE" (pos 1000);
        outcome_flush_seconds = get_positive_int_env "OUTCOME_FLUSH_SECONDS" (pos 10);
        shutdown_timeout_secs = get_positive_int_env "SHUTDOWN_TIMEOUT_SECONDS" (pos 120);
        la_worker_count = get_int_env "LA_WORKER_COUNT" (pos 5);
        la_sender_count = get_int_env "LA_SENDER_COUNT" (pos 300);
        la_job_queue_size =
            get_non_negative_int_env "LA_JOB_QUEUE_SIZE" (la_queue_default (pos 1000));
        la_task_queue_size =
            get_non_negative_int_env "LA_TASK_QUEUE_SIZE" (la_queue_default (pos 5000));
        la_dlq_queue_size =
            get_non_negative_int_env "LA_DLQ_QUEUE_SIZE" (la_queue_default (pos 50000));
        max_retry_notification = get_non_negative_int_env "MAX_RETRY_NOTIFICATION" (pos 3);
        database_url = get_env "DATABASE_URL" "postgres://localhost:5432/pushboy?sslmode=disable";
        apns_key_id = get_env "APNS_KEY_ID" "";
        apns_team_id = get_env "APNS_TEAM_ID" "";
        apns_bundle_id = get_env "APNS_BUNDLE_ID" (get_env "APNS_TOPIC_ID" "");
        apns_key_path = get_env "APNS_KEY_PATH" "";
        apns_use_sandbox = get_bool_env "APNS_USE_SANDBOX" false;
        apns_endpoint = get_env "APNS_ENDPOINT" "";
        apns_client_pool = apns_client_pool;
        apns_max_concurrent = apns_max_concurrent;
        la_apns_client_pool = get_positive_int_env "LA_APNS_CLIENT_POOL" apns_client_pool;
        la_apns_max_concurrent =
            get_non_negative_int_env "LA_APNS_MAX_CONCURRENT" apns_max_concurrent;
        fcm_project_id = get_env "FCM_PROJECT_ID" "";
        fcm_service_account = get_env "FCM_SERVICE_ACCOUNT" "";
        fcm_key_path = get_env "FCM_KEY_PATH" "keys/service-account.json";
        fcm_client_pool = fcm_client_pool;
        fcm_max_concurrent = fcm_max_concurrent;
        la_fcm_client_pool = get_positive_int_env "LA_FCM_CLIENT_POOL" fcm_client_pool;
        la_fcm_max_concurrent = get_non_negative_int_env "LA_FCM_MAX_CONCURRENT" fcm_max_concurrent;
        broadcast_topic_name = get_env "BROADCAST_TOPIC_NAME" "broadcast";
      }
