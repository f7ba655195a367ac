-- ===== src/Tests/Imports.antt =====
-- An import file with one job.
use background_jobs.Prelude.{
  some, List, [], ◌∷◌, get, put, has, delete, add, String_discrete, ◌≡◌, refl,
}
use background_jobs.Json.{
  Json, null, string, array, object, Fields, of_entries, of_elements, array_of,
}
use background_jobs.Registry.{get_plugin, supports}
use background_jobs.Validation.Parameters.{
  validate_captured_headers, validate_code_parameters, validate_command_parameters,
  validate_environment, validate_query, validate_rest_api_parameters, validate_rest_origin,
  validate_scalar_record, validate_step_parameters,
}
use background_jobs.Validation.Normalize.{
  normalize_job_definition, default_id, default_to, normalize_job_fields, normalize_step_fields,
  normalize_steps, update_array, update_record, update_text,
}
use background_jobs.Validation.Definition.{
  validate_job_definition, validate_steps, steps_issues, settings_issues,
}
use background_jobs.Validation.Settings.{
  default_input_issues, validate_execution_settings, validate_input_schema, validate_job_status,
  validate_overlap, validate_retry_policy, validate_run_policy, validate_schedule,
  validate_secret_templates, validate_webhooks,
}
use background_jobs.Validation.Steps.{
  build_dependency_nodes, nodes_from, validate_dependencies, validate_dependency_list,
  validate_workflow_references, validate_workflow_shape,
}
use background_jobs.Validation.{is_queue_name, is_secret_name}
use background_jobs.Workflow.{get_workflow_path_root, is_valid_workflow_path, parse_path}
use background_jobs.Graph.Cycle.{find_dependency_cycle}
use background_jobs.Graph.{nodes_by_id}
use background_jobs.Json.Output.{is_json, normalize_execution_input, normalize_json_output}
use background_jobs.Import.{
  JobImportStats, prepared, prepare_job_import, import_items, prepare_item, convert_retries,
  deactivate, default_timezone, convert_schedule, remove_fields,
}
use background_jobs.Import.Correct.{Imported, prepare_job_import-Imported}
use background_jobs.Tests.Definitions.{plain, plugins, load_step, send_step}

abbrev old_job : Fields
old_job = of_entries (
    ("id", string "nightly")
    ∷ ("name", string "Nightly")
    ∷ ("last_run", null)
    ∷ ("STEPS", array (of_elements (object load_step ∷ object send_step ∷ [])))
    ∷ [])

abbrev new_job : Json
new_job = object (
    of_entries (
      ("id", string "nightly")
      ∷ ("name", string "Nightly")
      ∷ ("STEPS", array (of_elements (object load_step ∷ object send_step ∷ [])))
      ∷ ("timezone", string "UTC")
      ∷ ("status", string "inactive")
      ∷ []))

abbrev stats : JobImportStats
stats = record {
  total_jobs = 1;
  schedules_converted = 0;
  timezones_defaulted = 1;
  statuses_set_inactive = 1;
  read_only_fields_removed = 1;
  legacy_retries_converted = 0;
}

old_job_prepared :
    prepare_job_import plain plugins (array (of_elements (object old_job ∷ [])))
    ≡ prepared (new_job ∷ []) stats
unfolding prepare_job_import import_items prepare_item convert_retries deactivate default_timezone
    convert_schedule remove_fields delete default_id default_to normalize_job_definition
    normalize_job_fields normalize_step_fields normalize_steps update_array update_record
    update_text settings_issues steps_issues validate_job_definition validate_steps
    default_input_issues validate_execution_settings validate_input_schema validate_job_status
    validate_overlap validate_retry_policy validate_run_policy validate_schedule
    validate_secret_templates validate_webhooks validate_captured_headers validate_code_parameters
    validate_command_parameters validate_environment validate_query validate_rest_api_parameters
    validate_rest_origin validate_scalar_record validate_step_parameters build_dependency_nodes
    nodes_from validate_dependencies validate_dependency_list validate_workflow_references
    validate_workflow_shape is_queue_name is_secret_name get_workflow_path_root
    is_valid_workflow_path parse_path find_dependency_cycle nodes_by_id is_json
    normalize_execution_input normalize_json_output get_plugin supports add get has put
    String_discrete
old_job_prepared = refl

import_example :
    (items : List Json) × (array_of (some (array (of_elements (object old_job ∷ [])))) ≡ some items)
    × Imported plain plugins items (new_job ∷ [])
import_example =
    prepare_job_import-Imported plain plugins (λ s. refl) refl
      (array (of_elements (object old_job ∷ []))) (new_job ∷ []) stats old_job_prepared
