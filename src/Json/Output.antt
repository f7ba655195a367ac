-- ===== src/Json/Output.antt =====
-- normalizeJsonOutput of src/utils/jsonOutput.ts and normalizeExecutionInput of
-- src/utils/executionInput.ts, on values that are JSON but for numbers that are not finite. A value
-- that passes is its own copy by way of JSON text.
use background_jobs.Prelude.{Bool, true, false, ◌&&◌, Option, none, some, Map, []}
use background_jobs.Json.{
  Number, infinite, Json, null, number, array, object, Items, nil, cons, Fields, end, field,
  record_of,
}

abbrev pub is_finite : Number → Bool
is_finite (infinite _) = false
is_finite _ = true

-- assertJsonValue
unfoldable mutual
  pub is_json : Json → Bool
  is_json (number n) = is_finite n
  is_json (array xs) = are_json xs
  is_json (object fs) = fields_are_json fs
  is_json _ = true

  pub are_json : Items → Bool
  are_json nil = true
  are_json (cons x xs) = is_json x && are_json xs

  pub fields_are_json : Fields → Bool
  fields_are_json end = true
  fields_are_json (field k v fs) = is_json v && fields_are_json fs

-- `none` stands for the error OUTPUT_NOT_SERIALIZABLE.
unfoldable pub normalize_json_output : Option Json → Option Json
normalize_json_output none = some null
normalize_json_output (some v) = elim (is_json v) [ true ↦ some v | false ↦ none ]

-- `none` stands for the error INVALID_EXECUTION_INPUT.
unfoldable pub normalize_execution_input : Option Json → Option (Map Json)
unfolding normalize_json_output
normalize_execution_input none = some []
normalize_execution_input (some v) = elim (record_of (some v)) [
  | none ↦ none
  | some _ ↦ record_of (normalize_json_output (some v))
]
