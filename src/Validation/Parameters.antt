-- ===== src/Validation/Parameters.antt =====
-- src/utils/jobValidator.ts: the parameters of a step, for each type of executor.
use background_jobs.Prelude.{
  ℕ, zero, suc, ◌+◌, String, Bool, true, false, Option, none, some, List, [], ◌∷◌, ◌++◌, Map, get,
  has, not, ◌&&◌, ◌||◌, all, if◌then◌else◌, ◌==◌,
}
use background_jobs.Json.{Json, string, array, elements, record_of, array_of, is_present}
use background_jobs.Platform.{Platform}
use background_jobs.Registry.{Plugin, get_plugin}
use background_jobs.Validation.{
  FieldPath, at, ValidationIssue, issue, ◌◂◌, unless, for_each, absent_or, is_integer_from,
  is_integer_within, is_one_of, is_scalar, is_query_primitive, required_string, is_text,
}

abbrev pub http_methods : List String
http_methods = "GET" ∷ "POST" ∷ "PUT" ∷ "PATCH" ∷ "DELETE" ∷ "HEAD" ∷ "OPTIONS" ∷ []

abbrev pub response_types : List String
response_types = "auto" ∷ "json" ∷ "text" ∷ []

abbrev pub min_response_bytes : ℕ
min_response_bytes = 1024

abbrev pub max_response_bytes : ℕ
max_response_bytes = 10485760

-- `for (const [name, item] of Object.entries(value))`
abbrev pub each_entry : (String → Json → List ValidationIssue) → Map Json → List ValidationIssue
each_entry f [] = []
each_entry f ((name, item) ∷ m) = f name item ++ each_entry f m

-- validateScalarRecord
unfoldable pub validate_scalar_record : Option Json → FieldPath → List ValidationIssue
validate_scalar_record none path = []
validate_scalar_record (some v) path = elim (record_of (some v)) [
  | none ↦ issue path "INVALID_OBJECT"
  | some m ↦
      each_entry (λ name item. unless (is_scalar item) (path ◂ name) "INVALID_SCALAR_VALUE") m
]

abbrev pub is_query_value : Json → Bool
is_query_value (array xs) = all is_query_primitive (elements xs)
is_query_value v = is_query_primitive v

unfoldable pub validate_query : Option Json → FieldPath → List ValidationIssue
validate_query none path = []
validate_query (some v) path = elim (record_of (some v)) [
  | none ↦ issue path "INVALID_QUERY"
  | some m ↦
      each_entry (λ name item. unless (is_query_value item) (path ◂ name) "INVALID_QUERY_VALUE") m
]

-- A command argument: a scalar or null.
abbrev pub validate_args : Option Json → FieldPath → List ValidationIssue
validate_args none path = []
validate_args (some v) path = elim (array_of (some v)) [
  | none ↦ issue path "INVALID_COMMAND_ARGS"
  | some xs ↦
      for_each (λ i x. unless (is_query_primitive x) (path ++ at i ∷ []) "INVALID_COMMAND_ARG") 0 xs
]

abbrev pub validate_timeout : Map Json → FieldPath → List ValidationIssue
validate_timeout params path =
    unless (absent_or (is_integer_from 1) (get "TIMEOUT_MS" params)) (path ◂ "TIMEOUT_MS")
      "INVALID_TIMEOUT"

module _ (js : Platform) where
  unfoldable pub validate_captured_headers : Option Json → FieldPath → List ValidationIssue
  validate_captured_headers none path = []
  validate_captured_headers (some v) path = elim (array_of (some v)) [
    | none ↦ issue path "INVALID_CAPTURE_HEADERS"
    | some xs ↦
        for_each (λ i x. unless (is_text js (some x)) (path ++ at i ∷ []) "INVALID_HEADER_NAME") 0
          xs
  ]

  -- The part of a URL before its path, query and fragment, from the end of its scheme on.
  abbrev pub authority_of : String → String
  authority_of suffix = elim (js.search_delimiter suffix) [
    | none ↦ suffix
    | some d ↦ js.slice_to d suffix
  ]

  abbrev pub is_origin : String → Bool
  is_origin text = elim (js.parse_url text) [
    | none ↦ false
    | some u ↦ (u.protocol == "http:" || u.protocol == "https:") && not (u.hostname == "")
  ]

  -- validateRestOrigin, from the place where "://" was found on.
  abbrev pub validate_origin_at : ℕ → String → FieldPath → List ValidationIssue
  validate_origin_at scheme_end trimmed path =
      let start = scheme_end + 3 in
      if js.has_template (js.slice_to start trimmed)
        || js.has_template (authority_of (js.slice_from start trimmed))
      then issue path "DYNAMIC_REST_ORIGIN"
      else unless (is_origin trimmed) path "INVALID_REST_URL"

  unfoldable pub validate_rest_origin : String → FieldPath → List ValidationIssue
  validate_rest_origin value path = elim (js.index_of "://" (js.trim value)) [
    | none ↦ issue path "INVALID_REST_URL"
    | some n ↦ elim n [
      | zero ↦ issue path "INVALID_REST_URL"
      | suc m ↦ validate_origin_at (suc m) (js.trim value) path
    ]
  ]

  -- The origin is looked at if the URL is a text that is not blank.
  abbrev pub validate_rest_url : Option Json → FieldPath → List ValidationIssue
  validate_rest_url (some (string s)) path =
      if js.trim s == "" then [] else validate_rest_origin s path
  validate_rest_url _ path = []

  abbrev pub method_of : Option Json → String
  method_of (some (string s)) = js.upper (js.trim s)
  method_of _ = "GET"

  abbrev pub validate_method : Option Json → FieldPath → List ValidationIssue
  validate_method none path = []
  validate_method (some (string s)) path =
      unless (has (js.upper (js.trim s)) http_methods) path "UNSUPPORTED_HTTP_METHOD"
  validate_method (some _) path = issue path "INVALID_HTTP_METHOD"

  abbrev pub has_no_body : String → Bool
  has_no_body method = method == "GET" || method == "HEAD"

  unfoldable pub validate_rest_api_parameters : Map Json → FieldPath → List ValidationIssue
  validate_rest_api_parameters params path =
      required_string js (get "URL" params) (path ◂ "URL") "REST_URL_REQUIRED"
      ++ (validate_rest_url (get "URL" params) (path ◂ "URL")
          ++ (validate_method (get "METHOD" params) (path ◂ "METHOD")
              ++ (validate_timeout params path
                  ++ (unless
                        (absent_or (is_integer_within min_response_bytes max_response_bytes)
                          (get "MAX_RESPONSE_BYTES" params))
                        (path ◂ "MAX_RESPONSE_BYTES") "INVALID_RESPONSE_LIMIT"
                      ++ (unless (absent_or (is_one_of response_types) (get "RESPONSE_TYPE" params))
                            (path ◂ "RESPONSE_TYPE") "INVALID_RESPONSE_TYPE"
                          ++ (unless
                                (not (
                                  has_no_body (method_of (get "METHOD" params))
                                  && is_present (get "BODY" params)))
                                (path ◂ "BODY") "BODY_NOT_ALLOWED"
                              ++ (validate_scalar_record (get "HEADERS" params) (path ◂ "HEADERS")
                                  ++ (validate_query (get "QUERY" params) (path ◂ "QUERY")
                                      ++ validate_captured_headers
                                          (get "CAPTURE_RESPONSE_HEADERS" params)
                                          (path ◂ "CAPTURE_RESPONSE_HEADERS")))))))))

  -- The value is no text with a template in it.
  abbrev pub is_literal : Option Json → Bool
  is_literal (some (string s)) = not (js.has_template s)
  is_literal _ = true

  -- A required text that must not hold a template, if it is there.
  abbrev pub validate_literal : Option Json → FieldPath → String → String → List ValidationIssue
  validate_literal none path missing dynamic = []
  validate_literal (some v) path missing dynamic =
      required_string js (some v) path missing ++ unless (is_literal (some v)) path dynamic

  abbrev pub validate_cwd : Option Json → FieldPath → List ValidationIssue
  validate_cwd none path = []
  validate_cwd (some v) path =
      if is_text js (some v)
      then unless (is_literal (some v)) path "DYNAMIC_WORKING_DIRECTORY"
      else issue path "INVALID_WORKING_DIRECTORY"

  abbrev pub validate_variable : FieldPath → String → Json → List ValidationIssue
  validate_variable path name (string s) =
      unless (not (js.has_template s && not (js.is_exact_secret s))) (path ◂ name)
        "UNSAFE_ENV_TEMPLATE"
  validate_variable path name _ = issue (path ◂ name) "INVALID_ENV_VALUE"

  unfoldable pub validate_environment : Option Json → FieldPath → List ValidationIssue
  validate_environment none path = []
  validate_environment (some v) path = elim (record_of (some v)) [
    | none ↦ issue path "INVALID_ENV"
    | some m ↦ each_entry (validate_variable path) m
  ]

  abbrev pub exactly_one : Bool → Bool → Bool
  exactly_one true b = not b
  exactly_one false b = b

  unfoldable pub validate_command_parameters : Map Json → FieldPath → List ValidationIssue
  validate_command_parameters params path =
      unless
        (exactly_one (is_present (get "COMMAND" params)) (is_present (get "EXECUTABLE" params)))
        path "COMMAND_MODE_REQUIRED"
      ++ (validate_literal (get "COMMAND" params) (path ◂ "COMMAND") "COMMAND_REQUIRED"
            "DYNAMIC_SHELL_COMMAND"
          ++ (validate_literal (get "EXECUTABLE" params) (path ◂ "EXECUTABLE") "EXECUTABLE_REQUIRED"
                "DYNAMIC_EXECUTABLE"
              ++ (validate_args (get "ARGS" params) (path ◂ "ARGS")
                  ++ (validate_timeout params path
                      ++ (validate_cwd (get "CWD" params) (path ◂ "CWD")
                          ++ validate_environment (get "ENV" params) (path ◂ "ENV"))))))

  unfoldable pub validate_code_parameters : Map Json → FieldPath → List ValidationIssue
  validate_code_parameters params path =
      required_string js (get "CODE" params) (path ◂ "CODE") "CODE_REQUIRED"
      ++ validate_timeout params path

  -- The `switch` on the type of the step.
  abbrev pub validate_by_type : String → Map Json → FieldPath → List ValidationIssue
  validate_by_type type params path =
      if type == "RESTAPI"
      then validate_rest_api_parameters params path
      else if type == "COMMAND"
      then validate_command_parameters params path
      else if type == "SCRIPT"
      then validate_code_parameters params path
      else if type == "PYTHON"
      then validate_code_parameters params path
        ++ validate_environment (get "ENV" params) (path ◂ "ENV")
      else []

-- A plugin's own validator, where it has one; `none` for its result stands for an exception.
abbrev pub PluginValidator : Type 0
PluginValidator = Map Json → FieldPath → Option (List ValidationIssue)

abbrev pub run_plugin :
    Option (Plugin (Option PluginValidator)) → Map Json → FieldPath → List ValidationIssue
run_plugin none params path = []
run_plugin (some p) params path = elim p.rest [
  | none ↦ []
  | some validate ↦ elim (validate params path) [
    | none ↦ issue path "PLUGIN_VALIDATION_FAILED"
    | some issues ↦ issues
  ]
]

module _ (js : Platform) (plugins : Map (Plugin (Option PluginValidator))) where
  abbrev pub validate_typed : Option Json → Map Json → FieldPath → List ValidationIssue
  validate_typed (some (string type)) params path =
      validate_by_type js (js.upper (js.trim type)) params path
      ++ run_plugin (get_plugin js type plugins) params path
  validate_typed _ params path = []

  -- validateStepParameters
  unfoldable pub validate_step_parameters : Map Json → FieldPath → List ValidationIssue
  validate_step_parameters step path = elim (record_of (get "STEP_PARAMS" step)) [
    | none ↦ issue (path ◂ "STEP_PARAMS") "STEP_PARAMS_REQUIRED"
    | some params ↦ validate_typed (get "TYPE" step) params (path ◂ "STEP_PARAMS")
  ]
