-- ===== src/Validation/Settings.antt =====
-- src/utils/jobValidator.ts: the settings of a job besides its steps; and src/utils/inputSchema.ts for
-- its schema and its default input.
use background_jobs.Prelude.{
  ℕ, ◌+◌, String, Bool, false, Option, none, some, List, [], ◌∷◌, ◌++◌, Map, get, has, keys, map,
  filter, length, not, ◌&&◌, ◌||◌, leb, ◌==ℕ◌, if◌then◌else◌, ◌==◌,
}
use background_jobs.Json.{
  Json, string, array, object, Items, nil, cons, Fields, end, field, record_of, array_of, elements,
  entries,
}
use background_jobs.Json.Output.{normalize_execution_input}
use background_jobs.Platform.{Platform}
use background_jobs.Workflow.{is_valid_workflow_path, get_workflow_path_root}
use background_jobs.Validation.{
  FieldPath, key, at, ValidationIssue, issue, ◌◂◌, unless, for_each, absent_or, is_integer_from,
  is_integer_within, is_priority, is_delay, is_one_of, is_secret_name, is_queue_name, is_text,
}

abbrev pub failure_policies : List String
failure_policies = "fail_fast" ∷ "continue_independent" ∷ []

abbrev pub retry_backoff_types : List String
retry_backoff_types = "fixed" ∷ "exponential" ∷ []

abbrev pub webhook_events : List String
webhook_events = "success" ∷ "failed" ∷ "cancelled" ∷ "skipped" ∷ []

abbrev pub overlap_modes : List String
overlap_modes = "skip" ∷ "queue" ∷ "cancel_oldest" ∷ []

-- An issue at the first of the fields that are not supported.
abbrev pub no_other_fields : List String → Map Json → FieldPath → String → List ValidationIssue
no_other_fields known m path code = elim (filter (λ k. not (has k known)) (keys m)) [
  | [] ↦ []
  | k ∷ _ ↦ issue (path ◂ k) code
]

unfoldable pub validate_job_status : Option Json → List ValidationIssue
validate_job_status (some v) =
    unless (is_one_of ("active" ∷ "inactive" ∷ []) v) (key "status" ∷ []) "INVALID_JOB_STATUS"
validate_job_status none = issue (key "status" ∷ []) "INVALID_JOB_STATUS"

unfoldable pub validate_retry_policy : Option Json → FieldPath → List ValidationIssue
validate_retry_policy none path = []
validate_retry_policy (some v) path = elim (record_of (some v)) [
  | none ↦ issue path "INVALID_RETRY_POLICY"
  | some m ↦
      unless (absent_or (is_integer_from 1) (get "MAX_ATTEMPTS" m)) (path ◂ "MAX_ATTEMPTS")
        "INVALID_MAX_ATTEMPTS"
      ++ (unless (absent_or is_delay (get "DELAY_MS" m)) (path ◂ "DELAY_MS") "INVALID_RETRY_DELAY"
          ++ unless (absent_or (is_one_of retry_backoff_types) (get "BACKOFF" m)) (path ◂ "BACKOFF")
              "INVALID_RETRY_BACKOFF")
]

-- The part on OVERLAP.
unfoldable pub validate_overlap : Option Json → FieldPath → List ValidationIssue
validate_overlap none path = []
validate_overlap (some v) path = elim (record_of (some v)) [
  | none ↦ issue path "INVALID_OVERLAP_POLICY"
  | some m ↦
      no_other_fields ("SCHEDULED" ∷ "TRIGGERED" ∷ []) m path "INVALID_OVERLAP_FIELD"
      ++ (unless (absent_or (is_one_of overlap_modes) (get "SCHEDULED" m)) (path ◂ "SCHEDULED")
            "INVALID_OVERLAP_MODE"
          ++ unless (absent_or (is_one_of overlap_modes) (get "TRIGGERED" m)) (path ◂ "TRIGGERED")
              "INVALID_OVERLAP_MODE")
]

module _ (js : Platform) where
  -- assertValidCron of src/utils/cron.ts, for a time zone that is known.
  abbrev pub is_valid_cron : String → String → Bool
  is_valid_cron expression timezone =
      length (js.split_spaces (js.trim expression)) ==ℕ 6 && js.parses_cron expression timezone

  unfoldable pub validate_schedule : Option Json → Option Json → List ValidationIssue
  validate_schedule value (some (string timezone)) =
      if js.trim timezone == "" || not (js.knows_timezone timezone)
      then issue (key "timezone" ∷ []) "INVALID_TIMEZONE"
      else elim value [
        | none ↦ []
        | some v ↦ elim v [
          | string s ↦
              unless (not (js.trim s == "") && is_valid_cron s timezone) (key "schedule" ∷ [])
                "INVALID_SCHEDULE"
          | _ ↦ issue (key "schedule" ∷ []) "INVALID_SCHEDULE"
        ]
      ]
  validate_schedule value _ = issue (key "timezone" ∷ []) "INVALID_TIMEZONE"

  -- A path that is valid and begins at the input.
  abbrev pub is_input_path : Json → Bool
  is_input_path (string s) =
      is_valid_workflow_path js s
      && (elim (get_workflow_path_root js s) [ some root ↦ root == "input" | none ↦ false ])
  is_input_path _ = false

  unfoldable pub validate_run_policy : Option Json → List ValidationIssue
  unfolding validate_overlap
  validate_run_policy none = []
  validate_run_policy (some v) = elim (record_of (some v)) [
    | none ↦ issue (key "RUN_POLICY" ∷ []) "INVALID_RUN_POLICY"
    | some m ↦
        no_other_fields ("MAX_RUNNING" ∷ "KEY" ∷ "OVERLAP" ∷ []) m (key "RUN_POLICY" ∷ [])
          "INVALID_RUN_POLICY_FIELD"
        ++ (unless (absent_or (is_integer_within 1 1000) (get "MAX_RUNNING" m))
              (key "RUN_POLICY" ∷ key "MAX_RUNNING" ∷ []) "INVALID_MAX_RUNNING"
            ++ (unless (absent_or is_input_path (get "KEY" m)) (key "RUN_POLICY" ∷ key "KEY" ∷ [])
                  "INVALID_CONCURRENCY_KEY"
                ++ validate_overlap (get "OVERLAP" m) (key "RUN_POLICY" ∷ key "OVERLAP" ∷ [])))
  ]

  -- The loop over EVENTS, with the events met so far.
  pub validate_events : FieldPath → ℕ → List String → List Json → List ValidationIssue
  validate_events path i met [] = []
  validate_events path i met (string e ∷ es) =
      let known = has e webhook_events in
      let again = has e met in
      (if not known
        then issue (path ++ at i ∷ []) "INVALID_WEBHOOK_EVENT"
        else unless (not again) (path ++ at i ∷ []) "DUPLICATE_WEBHOOK_EVENT")
      ++ validate_events path (i + 1) (if known && not again then met ++ e ∷ [] else met) es
  validate_events path i met (_ ∷ es) =
      issue (path ++ at i ∷ []) "INVALID_WEBHOOK_EVENT" ++ validate_events path (i + 1) met es

  abbrev pub is_http_url : String → Bool
  is_http_url s = elim (js.parse_url s) [
    | none ↦ false
    | some u ↦ u.protocol == "http:" || u.protocol == "https:"
  ]

  abbrev pub is_http : Option Json → Bool
  is_http (some (string s)) = is_http_url s
  is_http _ = false

  abbrev pub validate_webhook_events : FieldPath → Option Json → List ValidationIssue
  validate_webhook_events path none = []
  validate_webhook_events path (some (array (cons x xs))) =
      validate_events path 0 [] (x ∷ elements xs)
  validate_webhook_events path _ = issue path "INVALID_WEBHOOK_EVENTS"

  abbrev pub is_signing_secret : Json → Bool
  is_signing_secret (string s) = is_secret_name s
  is_signing_secret _ = false

  abbrev pub validate_webhook : ℕ → Json → List ValidationIssue
  validate_webhook i (object fs) =
      let path : FieldPath = key "WEBHOOKS" ∷ at i ∷ [] in
      let m = entries fs in
      if is_text js (get "URL" m)
      then unless (is_http (get "URL" m)) (path ◂ "URL") "INVALID_WEBHOOK_URL"
        ++ (validate_webhook_events (path ◂ "EVENTS") (get "EVENTS" m)
            ++ unless (absent_or is_signing_secret (get "SIGNING_SECRET" m))
                (path ◂ "SIGNING_SECRET") "INVALID_SIGNING_SECRET")
      else issue (path ◂ "URL") "WEBHOOK_URL_REQUIRED"
  validate_webhook i _ = issue (key "WEBHOOKS" ∷ at i ∷ []) "INVALID_WEBHOOK"

  unfoldable pub validate_webhooks : Option Json → List ValidationIssue
  unfolding validate_events
  validate_webhooks none = []
  validate_webhooks (some v) = elim (array_of (some v)) [
    | some (x ∷ xs) ↦
        unless (leb (length (x ∷ xs)) 10) (key "WEBHOOKS" ∷ []) "TOO_MANY_WEBHOOKS"
        ++ for_each validate_webhook 0 (x ∷ xs)
    | _ ↦ issue (key "WEBHOOKS" ∷ []) "INVALID_WEBHOOKS"
  ]

  abbrev pub is_queue : Json → Bool
  is_queue (string s) = is_queue_name s
  is_queue _ = false

  unfoldable pub validate_execution_settings : Map Json → List ValidationIssue
  validate_execution_settings job =
      unless (absent_or is_queue (get "QUEUE" job)) (key "QUEUE" ∷ []) "INVALID_QUEUE"
      ++ (unless (absent_or is_priority (get "PRIORITY" job)) (key "PRIORITY" ∷ [])
            "INVALID_PRIORITY"
          ++ (unless (absent_or (is_integer_from 1) (get "TIMEOUT_MS" job)) (key "TIMEOUT_MS" ∷ [])
                "INVALID_JOB_TIMEOUT"
              ++ (unless (absent_or (is_integer_from 1) (get "MAX_CONCURRENCY" job))
                    (key "MAX_CONCURRENCY" ∷ []) "INVALID_MAX_CONCURRENCY"
                  ++ (unless (absent_or (is_one_of failure_policies) (get "FAILURE_POLICY" job))
                        (key "FAILURE_POLICY" ∷ []) "INVALID_FAILURE_POLICY"
                      ++ (validate_retry_policy (get "DEFAULT_STEP_RETRY" job)
                            (key "DEFAULT_STEP_RETRY" ∷ [])
                          ++ (validate_run_policy (get "RUN_POLICY" job)
                              ++ validate_webhooks (get "WEBHOOKS" job)))))))

  -- validateInputSchema. `compiles` is the answer of the schema library to this call; another call for the
  -- same schema may be answered otherwise, since the library keeps the `$id`s that it has met.
  unfoldable pub validate_input_schema : Json → List ValidationIssue
  validate_input_schema schema = elim (record_of (some schema)) [
    | none ↦ issue (key "INPUT_SCHEMA" ∷ []) "INVALID_INPUT_SCHEMA"
    | some m ↦
        if (elim (get "type" m) [ some v ↦ is_one_of ("object" ∷ []) v | none ↦ false ])
        then unless (js.compiles schema) (key "INPUT_SCHEMA" ∷ []) "INVALID_INPUT_SCHEMA"
        else issue (key "INPUT_SCHEMA" ∷ key "type" ∷ []) "INPUT_SCHEMA_MUST_DESCRIBE_OBJECT"
  ]

  abbrev pub default_violation : List String → ValidationIssue
  default_violation place = record {
    path = key "DEFAULT_INPUT" ∷ map key place;
    code = "DEFAULT_INPUT_SCHEMA_FAILED";
  }

  -- defaultInputIssues
  unfoldable pub default_input_issues : Option Json → Option Json → List ValidationIssue
  default_input_issues schema none = []
  default_input_issues schema (some input) = elim (normalize_execution_input (some input)) [
    | none ↦ issue (key "DEFAULT_INPUT" ∷ []) "INVALID_DEFAULT_INPUT"
    | some _ ↦ elim schema [
      | none ↦ []
      | some s ↦
          if js.compiles s
          then map default_violation (js.violations s input)
          else issue (key "DEFAULT_INPUT" ∷ []) "INVALID_DEFAULT_INPUT"
    ]
  ]

  -- validateSecretTemplates
  abbrev pub bad_references : FieldPath → List String → List ValidationIssue
  bad_references path [] = []
  bad_references path (r ∷ rs) =
      unless (is_secret_name r) path "INVALID_SECRET_REFERENCE" ++ bad_references path rs

  -- validateSecretTemplates, with the matches of SECRET_TEMPLATE in a text given.
  unfoldable mutual
    pub validate_secret_templates : Json → FieldPath → List ValidationIssue
    validate_secret_templates (string s) path = bad_references path (js.secret_references s)
    validate_secret_templates (array xs) path = validate_secret_items xs path 0
    validate_secret_templates (object fs) path = validate_secret_fields fs path
    validate_secret_templates _ path = []

    pub validate_secret_items : Items → FieldPath → ℕ → List ValidationIssue
    validate_secret_items nil path i = []
    validate_secret_items (cons x xs) path i =
        validate_secret_templates x (path ++ at i ∷ []) ++ validate_secret_items xs path (i + 1)

    pub validate_secret_fields : Fields → FieldPath → List ValidationIssue
    validate_secret_fields end path = []
    validate_secret_fields (field k v fs) path =
        validate_secret_templates v (path ◂ k) ++ validate_secret_fields fs path
