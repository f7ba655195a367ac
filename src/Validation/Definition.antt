-- ===== src/Validation/Definition.antt =====
-- validateJobDefinition and assertValidJobDefinition of src/utils/jobValidator.ts.
use background_jobs.Prelude.{
  ℕ, ◌+◌, String, Option, none, some, List, [], ◌∷◌, ◌++◌, Map, get, has, add, not, ◌&&◌,
  if◌then◌else◌, ◌==◌, leb,
}
use background_jobs.Json.{
  Json, whole, number, string, object, entries, of_entries, record_of, array_of, is_present,
}
use background_jobs.Platform.{Platform}
use background_jobs.Graph.{DependencyNode}
use background_jobs.Graph.Cycle.{find_dependency_cycle, cycle, acyclic, exhausted}
use background_jobs.Registry.{Plugin, supports}
use background_jobs.Runner.Pool.{has_ℕ}
use background_jobs.Validation.{
  FieldPath, key, at, ValidationIssue, issue, ◌◂◌, unless, absent_or, is_boolean, required_string,
}
use background_jobs.Validation.Normalize.{normalize_job_definition}
use background_jobs.Validation.Settings.{
  validate_job_status, validate_schedule, validate_execution_settings, validate_input_schema,
  default_input_issues, validate_secret_templates, validate_retry_policy,
}
use background_jobs.Validation.Steps.{
  validate_workflow_shape, validate_workflow_references, validate_dependencies,
  build_dependency_nodes, reserved_context_roots,
}
use background_jobs.Validation.Parameters.{PluginValidator, validate_step_parameters}

pub data JobValidationResult : Type 0 where
  valid : Json → JobValidationResult
  invalid : List ValidationIssue → JobValidationResult

-- The error is a JobValidationError with the issues.
pub data Asserted : Type 0 where
  returned : Json → Asserted
  threw : List ValidationIssue → Asserted

-- The IDs and the ORDERs met so far.
pub record Met : Type 0 where
  pub ids : List String
  pub orders : List ℕ

abbrev pub result_of : List ValidationIssue → Json → JobValidationResult
result_of [] job = valid job
result_of (e ∷ es) job = invalid (e ∷ es)

abbrev pub forbid : String → Map Json → List ValidationIssue
forbid field job = unless (not (is_present (get field job))) (key field ∷ []) "READ_ONLY_FIELD"

module _ (js : Platform) (plugins : Map (Plugin (Option PluginValidator))) where
  abbrev pub validate_id_text : List String → String → FieldPath → List ValidationIssue
  validate_id_text ids id path =
      unless (not (js.includes id ".")) path "INVALID_STEP_ID"
      ++ (unless (not (has id reserved_context_roots)) path "RESERVED_STEP_ID"
          ++ unless (not (has id ids)) path "DUPLICATE_STEP_ID")

  -- The ID of a step: its issues, and the IDs met with it.
  abbrev pub validate_id :
      List String → Option Json → FieldPath → List ValidationIssue × List String
  validate_id ids (some (string s)) path =
      if js.trim s == ""
      then (issue path "STEP_ID_REQUIRED", ids)
      else (validate_id_text ids (js.trim s) path, add (js.trim s) ids)
  validate_id ids _ path = (issue path "STEP_ID_REQUIRED", ids)

  abbrev pub validate_order : List ℕ → Option Json → FieldPath → List ValidationIssue × List ℕ
  validate_order orders (some (number (whole n))) path =
      if not (leb 1 n)
      then (issue path "INVALID_STEP_ORDER", orders)
      else if has_ℕ n orders
      then (issue path "DUPLICATE_STEP_ORDER", orders)
      else ([], orders ++ n ∷ [])
  validate_order orders _ path = (issue path "INVALID_STEP_ORDER", orders)

  abbrev pub validate_type : Option Json → FieldPath → List ValidationIssue
  validate_type (some (string s)) path =
      if js.trim s == ""
      then issue path "STEP_TYPE_REQUIRED"
      else unless (supports js s plugins) path "UNSUPPORTED_STEP_TYPE"
  validate_type _ path = issue path "STEP_TYPE_REQUIRED"

  -- The fields of a step besides its ID and ORDER.
  abbrev pub validate_step_rest : Map Json → FieldPath → List ValidationIssue
  validate_step_rest step path =
      unless (absent_or is_boolean (get "FAIL_JOB_ON_FAILURE" step)) (path ◂ "FAIL_JOB_ON_FAILURE")
        "INVALID_FAIL_JOB_ON_FAILURE"
      ++ (unless (absent_or is_boolean (get "REPLAY_SAFE" step)) (path ◂ "REPLAY_SAFE")
            "INVALID_REPLAY_SAFE"
          ++ (validate_retry_policy (get "RETRY" step) (path ◂ "RETRY")
              ++ (validate_workflow_shape js step path
                  ++ validate_step_parameters js plugins step path)))

  abbrev pub validate_step : Met → Map Json → FieldPath → List ValidationIssue × Met
  validate_step met step path =
      let by_id = validate_id met.ids (get "ID" step) (path ◂ "ID") in
      let by_order = validate_order met.orders (get "ORDER" step) (path ◂ "ORDER") in
      (
        by_id.0
            ++ (required_string js (get "NAME" step) (path ◂ "NAME") "STEP_NAME_REQUIRED"
                ++ (validate_type (get "TYPE" step) (path ◂ "TYPE")
                    ++ (by_order.0 ++ validate_step_rest step path))),
        record { ids = by_id.1; orders = by_order.1 },
      )

  abbrev pub validate_raw_step : Met → ℕ → Json → List ValidationIssue × Met
  validate_raw_step met i (object fs) = validate_step met (entries fs) (key "STEPS" ∷ at i ∷ [])
  validate_raw_step met i _ = (issue (key "STEPS" ∷ at i ∷ []) "INVALID_STEP", met)

  -- The loop over the steps.
  unfoldable pub validate_steps : Met → ℕ → List Json → List ValidationIssue × Met
  validate_steps met i [] = ([], met)
  validate_steps met i (s ∷ ss) =
      let here = validate_raw_step met i s in
      let rest = validate_steps here.1 (i + 1) ss in (here.0 ++ rest.0, rest.1)

  abbrev pub cycle_issues : Option (List DependencyNode) → List ValidationIssue
  cycle_issues none = []
  cycle_issues (some nodes) = elim (find_dependency_cycle nodes) [
    | cycle _ ↦ issue (key "STEPS" ∷ []) "CIRCULAR_DEPENDENCY"
    | acyclic ↦ []
    | exhausted ↦ issue [] "EXHAUSTED"
  ]

  -- The issues of all steps, with those between them.
  unfoldable pub steps_issues : List Json → List ValidationIssue
  unfolding validate_steps
  steps_issues steps =
      let walked = validate_steps (record { ids = []; orders = [] }) 0 steps in
      walked.0
      ++ (validate_dependencies js steps walked.1.ids
          ++ (validate_workflow_references js steps walked.1.ids
              ++ cycle_issues (build_dependency_nodes js steps)))

  abbrev pub schema_issues : Option Json → List ValidationIssue
  schema_issues none = []
  schema_issues (some schema) = validate_input_schema js schema

  abbrev pub default_issues : Map Json → List ValidationIssue
  default_issues job =
      if is_present (get "DEFAULT_INPUT" job)
        && not (is_present (record_of (get "DEFAULT_INPUT" job)))
      then issue (key "DEFAULT_INPUT" ∷ []) "INVALID_DEFAULT_INPUT"
      else default_input_issues js (get "INPUT_SCHEMA" job) (get "DEFAULT_INPUT" job)

  -- What does not concern the steps alone.
  unfoldable pub settings_issues : Map Json → List ValidationIssue
  settings_issues job =
      required_string js (get "id" job) (key "id" ∷ []) "JOB_ID_REQUIRED"
      ++ (required_string js (get "name" job) (key "name" ∷ []) "JOB_NAME_REQUIRED"
          ++ (forbid "last_run" job
              ++ (forbid "next_run" job
                  ++ (forbid "version" job
                      ++ (validate_job_status (get "status" job)
                          ++ (validate_schedule js (get "schedule" job) (get "timezone" job)
                              ++ (validate_execution_settings js job
                                  ++ (schema_issues (get "INPUT_SCHEMA" job)
                                      ++ (default_issues job
                                          ++ validate_secret_templates js (object (of_entries job))
                                              [])))))))))

  -- The steps, if they are an array with an element.
  abbrev pub raw_steps : Map Json → Option (List Json)
  raw_steps job = elim (array_of (get "STEPS" job)) [
    | none ↦ none
    | some [] ↦ none
    | some (s ∷ ss) ↦ some (s ∷ ss)
  ]

  abbrev pub validate_fields : Map Json → Json → JobValidationResult
  validate_fields job v = elim (raw_steps job) [
    | none ↦ invalid (settings_issues job ++ issue (key "STEPS" ∷ []) "STEPS_REQUIRED")
    | some steps ↦ result_of (settings_issues job ++ steps_issues steps) v
  ]

  abbrev pub validate_normalized : Json → JobValidationResult
  validate_normalized v = elim (record_of (some v)) [
    | none ↦ invalid (issue [] "INVALID_JOB")
    | some job ↦ validate_fields job v
  ]

  unfoldable pub validate_job_definition : Json → JobValidationResult
  validate_job_definition input = validate_normalized (normalize_job_definition js input)

  unfoldable pub assert_valid_job_definition : Json → Asserted
  unfolding validate_job_definition
  assert_valid_job_definition input = elim (validate_job_definition input) [
    | valid job ↦ returned job
    | invalid es ↦ threw es
  ]
