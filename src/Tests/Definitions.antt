-- ===== src/Tests/Definitions.antt =====
-- A small job definition, on a platform whose operations are simple functions.
use background_jobs.Prelude.{
  String, true, false, Option, none, some, [], ◌∷◌, Map, get, put, has, String_discrete, ◌≡◌, refl,
  inl, inr, if◌then◌else◌, ◌==◌, add,
}
use background_jobs.Json.{
  Json, whole, boolean, number, string, array, object, Fields, entries, of_entries, of_elements,
  record_of,
}
use background_jobs.Platform.{Platform, level, literal}
use background_jobs.Registry.{Plugin, get_plugin, supports}
use background_jobs.Validation.Parameters.{
  PluginValidator, validate_captured_headers, validate_code_parameters, validate_command_parameters,
  validate_environment, validate_query, validate_rest_api_parameters, validate_rest_origin,
  validate_scalar_record, validate_step_parameters,
}
use background_jobs.Validation.Normalize.{
  normalize_job_definition, default_id, default_to, normalize_job_fields, normalize_step_fields,
  normalize_steps, update_array, update_record, update_text,
}
use background_jobs.Validation.Definition.{
  validate_job_definition, assert_valid_job_definition, valid, validate_steps, steps_issues,
  settings_issues,
}
use background_jobs.Validation.Valid.{StepOf, SoundJob, validate_job_definition-SoundJob}
use background_jobs.Validation.Settings.{
  default_input_issues, validate_execution_settings, validate_input_schema, validate_job_status,
  validate_overlap, validate_retry_policy, validate_run_policy, validate_schedule,
  validate_secret_templates, validate_webhooks,
}
use background_jobs.Validation.Steps.{
  build_dependency_nodes, nodes_from, validate_dependencies, validate_dependency_list,
  validate_workflow_references, validate_workflow_shape,
}
use background_jobs.Validation.{is_queue_name, is_secret_name}
use background_jobs.Workflow.{get_workflow_path_root, is_valid_workflow_path, parse_path}
use background_jobs.Graph.Cycle.{find_dependency_cycle}
use background_jobs.Graph.{nodes_by_id}
use background_jobs.Json.Output.{is_json, normalize_execution_input, normalize_json_output}
use background_jobs.Validation.Errors.{Asserts, assert_valid_job_definition-Asserts}
use background_jobs.Validation.Safety.{SafeCommand, command-SafeCommand}
use background_jobs.Validation.Requests.{SafeRequest, request-SafeRequest}

abbrev pub plain : Platform
plain = record {
  trim = λ s. s;
  upper = λ s. s;
  lower = λ s. s;
  includes = λ s t. false;
  split_dots = λ s. s ∷ [];
  split_spaces = λ s. s ∷ [];
  join_spaces = λ ss. "";
  concat = λ s t. s;
  index_of = λ s t. some 4;
  slice_to = λ n s. "http://";
  slice_from = λ n s. "localhost";
  search_delimiter = λ s. none;
  has_template = λ s. s == "{{secrets.TOKEN}}";
  is_exact_secret = λ s. s == "{{secrets.TOKEN}}";
  secret_references = λ s. if s == "{{secrets.TOKEN}}" then "TOKEN" ∷ [] else [];
  parse_url = λ s. some (record { protocol = "http:"; hostname = "localhost" });
  knows_timezone = λ s. s == "UTC";
  parses_cron = λ s t. true;
  compiles = λ v. true;
  violations = λ v w. [];
  difference = λ m n. level;
  locale_compare = λ s t. level;
  array_index = λ s. none;
  exact_path = λ s. if s == "{{load}}" then some "load" else none;
  pieces = λ s. literal s ∷ [];
  text_of = λ v. "";
  stringify = λ v. elim v [ string s ↦ s | _ ↦ "" ];
}

abbrev pub no_validator : String → Plugin (Option PluginValidator)
no_validator type = record { type = type; rest = none }

abbrev pub plugins : Map (Plugin (Option PluginValidator))
plugins = ("COMMAND", no_validator "COMMAND") ∷ ("RESTAPI", no_validator "RESTAPI") ∷ []

abbrev pub load_step : Fields
load_step = of_entries (
    ("ID", string "load")
    ∷ ("NAME", string "Load")
    ∷ ("TYPE", string "COMMAND")
    ∷ ("ORDER", number (whole 1))
    ∷ (
      "STEP_PARAMS",
      object (
          of_entries (
            ("EXECUTABLE", string "load")
            ∷ ("ENV", object (of_entries (("TOKEN", string "{{secrets.TOKEN}}") ∷ [])))
            ∷ [])),
    )
    ∷ [])

abbrev pub send_step : Fields
send_step = of_entries (
    ("ID", string "send")
    ∷ ("NAME", string "Send")
    ∷ ("TYPE", string "RESTAPI")
    ∷ ("ORDER", number (whole 2))
    ∷ ("DEPENDS_ON", array (of_elements (string "load" ∷ [])))
    ∷ ("STEP_PARAMS", object (of_entries (("URL", string "http://localhost/jobs") ∷ [])))
    ∷ [])

abbrev pub definition : Json
definition = object (
    of_entries (
      ("id", string "nightly")
      ∷ ("name", string "Nightly")
      ∷ ("STEPS", array (of_elements (object load_step ∷ object send_step ∷ [])))
      ∷ ("status", string "active")
      ∷ ("timezone", string "UTC")
      ∷ []))

definition_accepted : validate_job_definition plain plugins definition ≡ valid definition
unfolding default_id default_to normalize_job_definition normalize_job_fields normalize_step_fields
    normalize_steps update_array update_record update_text settings_issues steps_issues
    validate_job_definition validate_steps default_input_issues validate_execution_settings
    validate_input_schema validate_job_status validate_overlap validate_retry_policy
    validate_run_policy validate_schedule validate_secret_templates validate_webhooks
    validate_captured_headers validate_code_parameters validate_command_parameters
    validate_environment validate_query validate_rest_api_parameters validate_rest_origin
    validate_scalar_record validate_step_parameters build_dependency_nodes nodes_from
    validate_dependencies validate_dependency_list validate_workflow_references
    validate_workflow_shape is_queue_name is_secret_name get_workflow_path_root
    is_valid_workflow_path parse_path find_dependency_cycle nodes_by_id is_json
    normalize_execution_input normalize_json_output get_plugin supports add get has put
    String_discrete
definition_accepted = refl

validate_job_definition_example : SoundJob plain plugins definition
validate_job_definition_example =
    validate_job_definition-SoundJob plain plugins (λ s. refl) definition definition
      definition_accepted

assert_valid_job_definition_example :
    Asserts plain plugins (boolean true) (assert_valid_job_definition plain plugins (boolean true))
assert_valid_job_definition_example =
    assert_valid_job_definition-Asserts plain plugins (λ s. refl) (boolean true)

abbrev definition_fields : Fields
definition_fields = of_entries (
    ("id", string "nightly")
    ∷ ("name", string "Nightly")
    ∷ ("STEPS", array (of_elements (object load_step ∷ object send_step ∷ [])))
    ∷ ("status", string "active")
    ∷ ("timezone", string "UTC")
    ∷ [])

load_place : StepOf definition load_step
unfolding get String_discrete
load_place = record {
  fields = definition_fields;
  of_job = refl;
  steps = object load_step ∷ object send_step ∷ [];
  has_steps = refl;
  place = inl refl;
}

send_place : StepOf definition send_step
unfolding get String_discrete
send_place = record {
  fields = definition_fields;
  of_job = refl;
  steps = object load_step ∷ object send_step ∷ [];
  has_steps = refl;
  place = inr (inl refl);
}

load_type : get "TYPE" (entries load_step) ≡ some (string "COMMAND")
unfolding get String_discrete
load_type = refl

send_type : get "TYPE" (entries send_step) ≡ some (string "RESTAPI")
unfolding get String_discrete
send_type = refl

command_example :
    (params : Map Json) × (record_of (get "STEP_PARAMS" (entries load_step)) ≡ some params)
    × SafeCommand plain params
command_example =
    command-SafeCommand plain plugins (λ s. refl) definition definition load_step "COMMAND"
      definition_accepted load_place load_type refl

request_example :
    (params : Map Json) × (record_of (get "STEP_PARAMS" (entries send_step)) ≡ some params)
    × SafeRequest plain params
request_example =
    request-SafeRequest plain plugins (λ s. refl) definition definition send_step "RESTAPI"
      definition_accepted send_place send_type refl
