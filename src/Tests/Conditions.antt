-- ===== src/Tests/Conditions.antt =====
-- Conditions and templates on small values.
use background_jobs.Prelude.{some, [], ◌∷◌, get, has, String_discrete, In, ◌≡◌, refl, inl}
use background_jobs.Json.{
  Json, whole, number, string, array, object, Fields, end, field, entries, of_elements,
}
use background_jobs.Json.Within.{here, item, first}
use background_jobs.Workflow.{is_valid_workflow_path, parse_path}
use background_jobs.Workflow.Conditions.{evaluate_workflow_condition}
use background_jobs.Workflow.Decided.{condition_of, Decides, evaluate_workflow_condition-Decides}
use background_jobs.Validation.Steps.{validate_condition}
use background_jobs.Templates.{
  made, resolve_value, resolve_string, resolve_pieces, resolve_context_path, walk_segments,
}
use background_jobs.Templates.Declared.{paths_of, Resolves, resolve_value-Resolves}
use background_jobs.Tests.Definitions.{plain}

abbrev rows : Json
rows = object (field "load" (array (of_elements (number (whole 1) ∷ string "two" ∷ []))) end)

abbrev when_loaded : Fields
when_loaded = field "PATH" (string "load") (field "OPERATOR" (string "truthy") end)

when_loaded_silent : validate_condition plain (some (object when_loaded)) [] ≡ []
unfolding get has String_discrete is_valid_workflow_path parse_path
when_loaded_silent = refl

condition_example :
    Decides plain
      (condition_of plain (entries when_loaded))
      rows
      (evaluate_workflow_condition plain (condition_of plain (entries when_loaded)) rows)
condition_example = evaluate_workflow_condition-Decides plain when_loaded [] rows when_loaded_silent

abbrev request : Json
request = array (of_elements (string "{{load}}" ∷ string "text" ∷ []))

request_made :
    resolve_value plain (some ("load" ∷ [])) rows request
    ≡ made (
        array (
          of_elements
            (array (of_elements (number (whole 1) ∷ string "two" ∷ [])) ∷ string "text" ∷ [])))
unfolding resolve_value resolve_string resolve_pieces resolve_context_path walk_segments get has
    String_discrete
request_made = refl

load_mentioned : In "load" (paths_of plain "{{load}}")
unfolding String_discrete
load_mentioned = inl refl

template_example : Resolves plain (some ("load" ∷ [])) rows "load"
template_example =
    resolve_value-Resolves plain (some ("load" ∷ [])) rows request
      (array (
        of_elements
          (array (of_elements (number (whole 1) ∷ string "two" ∷ [])) ∷ string "text" ∷ [])))
      "{{load}}" "load" request_made (item (first here)) load_mentioned
