-- ===== src/Import.antt =====
-- src/jobs/jobImport.ts: an import file is changed item by item to what the validator accepts, and
-- either all its jobs are taken or none.
pub mod Correct
use background_jobs.Prelude.{
  ℕ, ◌+◌, String, Bool, true, false, Option, none, some, List, [], ◌∷◌, ◌++◌, Map, get, put, delete,
  map, length, if◌then◌else◌, ◌==◌, ◌==ℕ◌,
}
use background_jobs.Json.{
  Json, Number, whole, null, boolean, number, string, array, object, Fields, end, field, entries,
  of_entries, array_of, property, string_of,
}
use background_jobs.Platform.{Platform}
use background_jobs.Registry.{Plugin}
use background_jobs.Validation.{ValidationIssue, FieldPath, Segment, key, at, issue}
use background_jobs.Validation.Parameters.{PluginValidator}
use background_jobs.Validation.Definition.{
  JobValidationResult, valid, invalid, validate_job_definition,
}

abbrev pub read_only_fields : List String
read_only_fields = "last_run" ∷ "next_run" ∷ "created_at" ∷ "updated_at" ∷ []

pub record JobImportStats : Type 0 where
  pub total_jobs : ℕ
  pub schedules_converted : ℕ
  pub timezones_defaulted : ℕ
  pub statuses_set_inactive : ℕ
  pub read_only_fields_removed : ℕ
  pub legacy_retries_converted : ℕ

pub data JobImportPreparation : Type 0 where
  prepared : List Json → JobImportStats → JobImportPreparation
  refused : List ValidationIssue → JobImportStats → JobImportPreparation

-- A candidate, with the stats so far.
pub record Candidate : Type 0 where
  pub fields : Map Json
  pub stats : JobImportStats

-- The variables of the loop, but for its errors.
pub record Progress : Type 0 where
  pub jobs : List Json
  pub encountered : Map ℕ
  pub stats : JobImportStats

unfoldable pub remove_fields : List String → Candidate → Candidate
remove_fields [] c = c
remove_fields (k ∷ ks) c = elim (get k c.fields) [
  | none ↦ remove_fields ks c
  | some _ ↦ remove_fields ks (record {
    fields = delete k c.fields;
    stats = record c.stats { read_only_fields_removed = c.stats.read_only_fields_removed + 1 };
  })
]

unfoldable pub default_timezone : Candidate → Candidate
default_timezone c = elim (get "timezone" c.fields) [
  | some _ ↦ c
  | none ↦ record {
    fields = put "timezone" (string "UTC") c.fields;
    stats = record c.stats { timezones_defaulted = c.stats.timezones_defaulted + 1 };
  }
]

abbrev pub is_inactive : Option Json → Bool
is_inactive (some (string s)) = s == "inactive"
is_inactive _ = false

unfoldable pub deactivate : Candidate → Candidate
deactivate c = record {
  fields = put "status" (string "inactive") c.fields;
  stats =
      if is_inactive (get "status" c.fields)
      then c.stats
      else record c.stats { statuses_set_inactive = c.stats.statuses_set_inactive + 1 };
}

-- The retries of a job, from the number that `maxRetries` gave.
abbrev pub retries_of : ℕ → Json
retries_of n = object (field "MAX_ATTEMPTS" (number (whole (n + 1))) end)

abbrev pub convert_number : Json → Candidate → FieldPath → List ValidationIssue × Candidate
convert_number (number (whole n)) c path = (
  [],
  record {
    fields = delete "maxRetries" (put "DEFAULT_STEP_RETRY" (retries_of n) c.fields);
    stats = record c.stats { legacy_retries_converted = c.stats.legacy_retries_converted + 1 };
  },
)
convert_number _ c path =
    (issue path "INVALID_LEGACY_MAX_RETRIES", record c { fields = delete "maxRetries" c.fields })

unfoldable pub convert_retries : Candidate → ℕ → List ValidationIssue × Candidate
convert_retries c index = elim (get "maxRetries" c.fields) [
  | none ↦ ([], c)
  | some retries ↦ elim (get "DEFAULT_STEP_RETRY" c.fields) [
    | some _ ↦ (
      issue (at index ∷ key "maxRetries" ∷ []) "CONFLICTING_RETRY_SETTINGS",
      record c { fields = delete "maxRetries" c.fields },
    )
    | none ↦ convert_number retries c (at index ∷ key "maxRetries" ∷ [])
  ]
]

-- `[3].name` for an issue of item 3 at `name`.
abbrev pub within_item : ℕ → ValidationIssue → ValidationIssue
within_item index i = record i { path = at index ∷ i.path }

-- `job.id`, which is a text in a valid job.
abbrev pub job_id : Json → String
job_id job = elim (string_of (property (some job) "id")) [ none ↦ "" | some id ↦ id ]

abbrev pub no_stats : ℕ → JobImportStats
no_stats n = record {
  total_jobs = n;
  schedules_converted = 0;
  timezones_defaulted = 0;
  statuses_set_inactive = 0;
  read_only_fields_removed = 0;
  legacy_retries_converted = 0;
}

module _ (js : Platform) where
  -- Five fields of a cron expression become six.
  abbrev pub convert_text : String → Candidate → Candidate
  convert_text schedule c =
      let fields = js.split_spaces (js.trim schedule) in
      if length fields ==ℕ 5
      then record {
        fields = put "schedule" (string (js.concat "0 " (js.join_spaces fields))) c.fields;
        stats = record c.stats { schedules_converted = c.stats.schedules_converted + 1 };
      }
      else c

  unfoldable pub convert_schedule : Candidate → Candidate
  convert_schedule c = elim (string_of (get "schedule" c.fields)) [
    | none ↦ c
    | some s ↦ convert_text s c
  ]

  -- The changes to an item before it is validated.
  unfoldable pub prepare_item : Candidate → ℕ → List ValidationIssue × Candidate
  unfolding convert_retries deactivate default_timezone convert_schedule remove_fields
  prepare_item c index =
      convert_retries
        (deactivate (default_timezone (convert_schedule (remove_fields read_only_fields c)))) index

module _ (js : Platform) (plugins : Map (Plugin (Option PluginValidator))) where
  -- A valid job, unless an earlier item has its id.
  abbrev pub take_job : Json → ℕ → Progress → JobImportStats → List ValidationIssue × Progress
  take_job job index p stats = elim (get (job_id job) p.encountered) [
    | some _ ↦
        (issue (at index ∷ key "id" ∷ []) "DUPLICATE_IMPORT_JOB_ID", record p { stats = stats })
    | none ↦ (
      [],
      record {
        jobs = p.jobs ++ job ∷ [];
        encountered = put (job_id job) index p.encountered;
        stats = stats;
      },
    )
  ]

  abbrev pub take_result :
      JobValidationResult → ℕ → Progress → JobImportStats → List ValidationIssue × Progress
  take_result (invalid es) index p stats = (map (within_item index) es, record p { stats = stats })
  take_result (valid job) index p stats = take_job job index p stats

  abbrev pub import_fields : Map Json → ℕ → Progress → List ValidationIssue × Progress
  import_fields fields index p =
      let made = prepare_item js (record { fields = fields; stats = p.stats }) index in
      let taken =
        take_result (validate_job_definition js plugins (object (of_entries made.1.fields))) index p
          made.1.stats in
      (made.0 ++ taken.0, taken.1)

  abbrev pub import_item : Json → ℕ → Progress → List ValidationIssue × Progress
  import_item (object fs) index p = import_fields (entries fs) index p
  import_item _ index p = (issue (at index ∷ []) "INVALID_JOB", p)

  -- `input.forEach`
  unfoldable pub import_items : List Json → ℕ → Progress → List ValidationIssue × Progress
  import_items [] index p = ([], p)
  import_items (x ∷ xs) index p =
      let here = import_item x index p in
      let rest = import_items xs (index + 1) here.1 in (here.0 ++ rest.0, rest.1)

  abbrev pub preparation_of : List ValidationIssue × Progress → JobImportPreparation
  preparation_of ([], p) = prepared p.jobs p.stats
  preparation_of (e ∷ es, p) = refused (e ∷ es) p.stats

  unfoldable pub prepare_job_import : Json → JobImportPreparation
  unfolding import_items
  prepare_job_import input = elim (array_of (some input)) [
    | none ↦ refused (issue [] "IMPORT_ARRAY_REQUIRED") (no_stats 0)
    | some items ↦ preparation_of (
        import_items items 0
          (record { jobs = []; encountered = []; stats = no_stats (length items) }))
  ]
