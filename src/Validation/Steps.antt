-- ===== src/Validation/Steps.antt =====
-- src/utils/jobValidator.ts: the conditions, the fan-out, the references and the dependencies of steps.
use background_jobs.Prelude.{
  ℕ, ◌+◌, String, Bool, true, false, Option, none, some, List, [], ◌∷◌, ◌++◌, Map, get, has, not,
  ◌&&◌, ◌||◌, if◌then◌else◌, ◌==◌,
}
use background_jobs.Json.{
  Json, null, string, object, entries, record_of, array_of, property, is_present,
}
use background_jobs.Platform.{Platform}
use background_jobs.Graph.{DependencyNode}
use background_jobs.Workflow.{is_valid_workflow_path, get_workflow_path_root}
use background_jobs.Validation.{
  FieldPath, key, at, ValidationIssue, issue, ◌◂◌, unless, for_each, absent_or, is_integer_from,
  required_string,
}

abbrev pub condition_operators : List String
condition_operators =
    "equals" ∷ "not_equals" ∷ "exists" ∷ "not_exists" ∷ "truthy" ∷ "falsy" ∷ "greater_than"
    ∷ "greater_than_or_equal" ∷ "less_than" ∷ "less_than_or_equal" ∷ "contains" ∷ []

abbrev pub value_condition_operators : List String
value_condition_operators =
    "equals" ∷ "not_equals" ∷ "greater_than" ∷ "greater_than_or_equal" ∷ "less_than"
    ∷ "less_than_or_equal" ∷ "contains" ∷ []

abbrev pub reserved_context_roots : List String
reserved_context_roots = "input" ∷ "secrets" ∷ "item" ∷ "index" ∷ []

-- `when.OPERATOR ?? 'truthy'`
abbrev pub operator_or_default : Option Json → Json
operator_or_default none = string "truthy"
operator_or_default (some null) = string "truthy"
operator_or_default (some v) = v

-- `dependencyId === rawStep.ID`
abbrev pub is_own_id : Option Json → String → Bool
is_own_id (some (string id)) d = id == d
is_own_id _ d = false

module _ (js : Platform) where
  -- A blank text has been reported already.
  abbrev pub is_path_or_blank : Option Json → Bool
  is_path_or_blank (some (string s)) = if js.trim s == "" then true else is_valid_workflow_path js s
  is_path_or_blank _ = true

  abbrev pub validate_operator : Json → Map Json → FieldPath → List ValidationIssue
  validate_operator (string op) m path =
      if not (has op condition_operators)
      then issue (path ◂ "OPERATOR") "INVALID_CONDITION_OPERATOR"
      else unless (not (has op value_condition_operators && not (is_present (get "VALUE" m))))
          (path ◂ "VALUE") "CONDITION_VALUE_REQUIRED"
  validate_operator _ m path = issue (path ◂ "OPERATOR") "INVALID_CONDITION_OPERATOR"

  abbrev pub validate_condition : Option Json → FieldPath → List ValidationIssue
  validate_condition none path = []
  validate_condition (some v) path = elim (record_of (some v)) [
    | none ↦ issue path "INVALID_CONDITION"
    | some m ↦
        required_string js (get "PATH" m) (path ◂ "PATH") "CONDITION_PATH_REQUIRED"
        ++ (unless (is_path_or_blank (get "PATH" m)) (path ◂ "PATH") "INVALID_WORKFLOW_PATH"
            ++ validate_operator (operator_or_default (get "OPERATOR" m)) m path)
  ]

  abbrev pub validate_foreach : Option Json → FieldPath → List ValidationIssue
  validate_foreach none path = []
  validate_foreach (some v) path = elim (record_of (some v)) [
    | none ↦ issue path "INVALID_FOREACH"
    | some m ↦
        required_string js (get "ITEMS" m) (path ◂ "ITEMS") "FOREACH_ITEMS_REQUIRED"
        ++ (unless (is_path_or_blank (get "ITEMS" m)) (path ◂ "ITEMS") "INVALID_WORKFLOW_PATH"
            ++ unless (absent_or (is_integer_from 1) (get "MAX_CONCURRENCY" m))
                (path ◂ "MAX_CONCURRENCY") "INVALID_FOREACH_CONCURRENCY")
  ]

  unfoldable pub validate_workflow_shape : Map Json → FieldPath → List ValidationIssue
  validate_workflow_shape step path =
      validate_condition (get "WHEN" step) (path ◂ "WHEN")
      ++ validate_foreach (get "FOREACH" step) (path ◂ "FOREACH")

  -- The texts among the dependencies, trimmed.
  abbrev pub texts_of : List Json → List String
  texts_of [] = []
  texts_of (string s ∷ xs) = js.trim s ∷ texts_of xs
  texts_of (_ ∷ xs) = texts_of xs

  abbrev pub declared_dependencies : Map Json → List String
  declared_dependencies step = elim (array_of (get "DEPENDS_ON" step)) [
    | none ↦ []
    | some xs ↦ texts_of xs
  ]

  abbrev pub validate_root :
      List String → List String → Option String → FieldPath → List ValidationIssue
  validate_root ids dependencies none path = issue path "INVALID_WORKFLOW_ROOT"
  validate_root ids dependencies (some root) path =
      if root == "input"
      then []
      else if has root reserved_context_roots
      then issue path "INVALID_WORKFLOW_ROOT"
      else if not (has root ids)
      then issue path "MISSING_WORKFLOW_SOURCE"
      else unless (has root dependencies) path "WORKFLOW_SOURCE_NOT_DEPENDENCY"

  abbrev pub validate_reference :
      List String → List String → Option Json → FieldPath → List ValidationIssue
  validate_reference ids dependencies (some (string s)) path =
      if is_valid_workflow_path js s
      then validate_root ids dependencies (get_workflow_path_root js s) path
      else []
  validate_reference ids dependencies _ path = []

  abbrev pub validate_step_references : List String → ℕ → Json → List ValidationIssue
  validate_step_references ids index (object fs) =
      let step = entries fs in
      let path : FieldPath = key "STEPS" ∷ at index ∷ [] in
      validate_reference ids (declared_dependencies step) (property (get "WHEN" step) "PATH")
        (path ◂ "WHEN" ◂ "PATH")
      ++ validate_reference ids (declared_dependencies step) (property (get "FOREACH" step) "ITEMS")
          (path ◂ "FOREACH" ◂ "ITEMS")
  validate_step_references ids index _ = []

  unfoldable pub validate_workflow_references : List Json → List String → List ValidationIssue
  validate_workflow_references steps ids = for_each (validate_step_references ids) 0 steps

  -- The loop over the dependencies of a step, with those met so far.
  unfoldable pub validate_dependency_list :
      List String → Option Json → FieldPath → ℕ → List String → List Json → List ValidationIssue
  validate_dependency_list ids own path i met [] = []
  validate_dependency_list ids own path i met (string d ∷ ds) =
      let id = js.trim d in
      let blank = id == "" in
      let again = has id met in
      (if blank
        then issue (path ++ at i ∷ []) "INVALID_DEPENDENCY"
        else if again
        then issue (path ++ at i ∷ []) "DUPLICATE_DEPENDENCY"
        else if is_own_id own id
        then issue (path ++ at i ∷ []) "SELF_DEPENDENCY"
        else unless (has id ids) (path ++ at i ∷ []) "MISSING_DEPENDENCY")
      ++ validate_dependency_list ids own path (i + 1)
          (if blank || again then met else met ++ id ∷ []) ds
  validate_dependency_list ids own path i met (_ ∷ ds) =
      issue (path ++ at i ∷ []) "INVALID_DEPENDENCY"
      ++ validate_dependency_list ids own path (i + 1) met ds

  abbrev pub validate_depends_on :
      List String → Map Json → FieldPath → Option Json → List ValidationIssue
  validate_depends_on ids step path none = []
  validate_depends_on ids step path (some v) = elim (array_of (some v)) [
    | none ↦ issue path "INVALID_DEPENDENCIES"
    | some ds ↦ validate_dependency_list ids (get "ID" step) path 0 [] ds
  ]

  abbrev pub validate_step_dependencies : List String → ℕ → Json → List ValidationIssue
  validate_step_dependencies ids index (object fs) =
      validate_depends_on ids (entries fs) (key "STEPS" ∷ at index ∷ key "DEPENDS_ON" ∷ [])
        (get "DEPENDS_ON" (entries fs))
  validate_step_dependencies ids index _ = []

  unfoldable pub validate_dependencies : List Json → List String → List ValidationIssue
  unfolding validate_dependency_list
  validate_dependencies steps ids = for_each (validate_step_dependencies ids) 0 steps

  -- `(rawDependencies ?? []).flatMap(…)`: the dependencies that are no blank texts, trimmed.
  abbrev pub dependency_ids : List Json → List String
  dependency_ids [] = []
  dependency_ids (string s ∷ xs) =
      if js.trim s == "" then dependency_ids xs else js.trim s ∷ dependency_ids xs
  dependency_ids (_ ∷ xs) = dependency_ids xs

  -- The dependencies of a node, unless DEPENDS_ON is there and is no array.
  abbrev pub node_dependencies : Option Json → Option (List String)
  node_dependencies none = some []
  node_dependencies (some v) = elim (array_of (some v)) [
    | none ↦ none
    | some xs ↦ some (dependency_ids xs)
  ]

  -- The trimmed ID, unless it is no text or blank.
  abbrev pub node_id : Option Json → Option String
  node_id (some (string s)) = if js.trim s == "" then none else some (js.trim s)
  node_id _ = none

  abbrev pub node_of : Map Json → Option DependencyNode
  node_of step = elim (node_id (get "ID" step)) [
    | none ↦ none
    | some id ↦ elim (node_dependencies (get "DEPENDS_ON" step)) [
      | none ↦ none
      | some ds ↦ some (record { id = id; depends_on = ds })
    ]
  ]

  abbrev pub json_node : Json → Option DependencyNode
  json_node (object fs) = node_of (entries fs)
  json_node _ = none

  -- The loop of buildDependencyNodes, with the ids met so far.
  unfoldable pub nodes_from : List String → List Json → Option (List DependencyNode)
  nodes_from met [] = some []
  nodes_from met (s ∷ ss) = elim (json_node s) [
    | none ↦ none
    | some n ↦ elim (has n.id met) [
      | true ↦ none
      | false ↦ elim (nodes_from (met ++ n.id ∷ []) ss) [ none ↦ none | some ns ↦ some (n ∷ ns) ]
    ]
  ]

  unfoldable pub build_dependency_nodes : List Json → Option (List DependencyNode)
  unfolding nodes_from
  build_dependency_nodes steps = nodes_from [] steps
