-- ===== src/Workflow/Decided.antt =====
-- What evaluateWorkflowCondition of src/utils/workflowExpressions.ts does with a condition that the
-- validator accepts.
use background_jobs.Prelude.{
  String, Bool, true, false, Option, none, some, [], Map, get, has, has_iff, In, ◌≡◌, ◌≢◌, ◌⊎◌,
  refl, ap, ◌∙◌, inl, inr, ⊎_elim, arith, Bool-cases, Option-cases, ◌==◌,
}
use background_jobs.Json.{Json, null, boolean, number, string, array, object, Fields, entries}
use background_jobs.Platform.{Platform}
use background_jobs.Workflow.{parse_path, is_valid_workflow_path}
use background_jobs.Workflow.Conditions.{
  WorkflowCondition, Resolved, gives, bad_path, condition_path_not_found,
  invalid_condition_operator, foreach_path_not_found, foreach_not_array, apply_operator,
  operator_of, evaluate_found, walk, try_resolve_workflow_path, evaluate_workflow_condition,
}
use background_jobs.Validation.{FieldPath, unless, ◌◂◌, is_text, required_string}
use background_jobs.Validation.Silence.{append_silent, unless_silent}
use background_jobs.Validation.Steps.{
  validate_condition, validate_operator, operator_or_default, condition_operators, is_path_or_blank,
}

abbrev is_gives : {A : Type 0} → Resolved A → Bool
is_gives (gives _) = true
is_gives _ = false

given : {A : Type 0} (r : Resolved A) → is_gives r ≡ true → (a : A) × (r ≡ gives a)
given (gives a) h = (a, refl)
given bad_path h = absurd (ground arith)
given condition_path_not_found h = absurd (ground arith)
given (invalid_condition_operator op) h = absurd (ground arith)
given foreach_path_not_found h = absurd (ground arith)
given foreach_not_array h = absurd (ground arith)

module _ (js : Platform) where
  apply_operator-gives :
      (op : String) (v : Json) (e : Option Json)
      → In op condition_operators
      → (op == "exists") ≡ false
      → (op == "not_exists") ≡ false
      → is_gives (apply_operator js op v e) ≡ true
  unfolding apply_operator
  apply_operator-gives op v e h a b = ground arith

  -- WHEN of a step that has been validated.
  abbrev pub operator_text : Option Json → Option String
  operator_text (some (string op)) = some op
  operator_text _ = none

  abbrev pub path_text : Option Json → String
  path_text (some (string s)) = s
  path_text _ = ""

  abbrev pub condition_of : Map Json → WorkflowCondition
  condition_of m = record {
    path = path_text (get "PATH" m);
    operator = operator_text (get "OPERATOR" m);
    value = get "VALUE" m;
  }

  path_silent :
      (v : Option Json)
      → is_text js v ≡ true
      → is_path_or_blank js v ≡ true
      → is_valid_workflow_path js (path_text v) ≡ true
  path_silent (some (string s)) a b = ground arith
  path_silent none a b = absurd (ground arith)
  path_silent (some null) a b = absurd (ground arith)
  path_silent (some (boolean _)) a b = absurd (ground arith)
  path_silent (some (number _)) a b = absurd (ground arith)
  path_silent (some (array _)) a b = absurd (ground arith)
  path_silent (some (object _)) a b = absurd (ground arith)

  valid_found :
      (path : String) (context : Json)
      → is_valid_workflow_path js path ≡ true
      → (found : Option Json) × (try_resolve_workflow_path js path context ≡ some found)
  unfolding is_valid_workflow_path try_resolve_workflow_path
  valid_found path context h = elim (Option-cases (parse_path js path)) [
    | inl e ↦ absurd (ground arith)
    | inr (segments, e) ↦ (walk js segments context, ground arith)
  ]

  operator_known :
      (op : String) (m : Map Json) (path : FieldPath)
      → validate_operator js (string op) m path ≡ []
      → In op condition_operators
  operator_known op m path h = elim (Bool-cases (has op condition_operators)) [
    | inl e ↦ (has_iff op condition_operators).0 e
    | inr e ↦ absurd (ground arith)
  ]

  -- The operator by which a validated condition is decided.
  operator_silent :
      (v : Option Json) (m : Map Json) (path : FieldPath)
      → validate_operator js (operator_or_default v) m path ≡ []
      → In (elim (operator_text v) [ none ↦ "truthy" | some op ↦ op ]) condition_operators
  operator_silent none m path h = operator_known "truthy" m path h
  operator_silent (some null) m path h = operator_known "truthy" m path h
  operator_silent (some (string op)) m path h = operator_known op m path h
  operator_silent (some (boolean _)) m path h = absurd (ground arith)
  operator_silent (some (number _)) m path h = absurd (ground arith)
  operator_silent (some (array _)) m path h = absurd (ground arith)
  operator_silent (some (object _)) m path h = absurd (ground arith)

  abbrev pub Decides : WorkflowCondition → Json → Resolved Bool → Type 0
  Decides c context r =
      ((b : Bool) × (r ≡ gives b))
      ⊎ ((r ≡ condition_path_not_found)
          × (try_resolve_workflow_path js c.path context ≡ some none)
          × (operator_of js c ≢ "exists")
          × (operator_of js c ≢ "not_exists"))

  found_Decides :
      (op : String) (found : Option Json) (e : Option Json)
      → In op condition_operators
      → ((b : Bool) × (evaluate_found js op found e ≡ gives b))
        ⊎ ((evaluate_found js op found e ≡ condition_path_not_found)
            × (found ≡ none)
            × (op ≢ "exists")
            × (op ≢ "not_exists"))
  found_Decides op found e h = elim (Bool-cases (op == "exists")) [
    | inl a ↦ inl (given (evaluate_found js op found e) (ground arith))
    | inr a ↦ elim (Bool-cases (op == "not_exists")) [
      | inl b ↦ inl (given (evaluate_found js op found e) (ground arith))
      | inr b ↦ elim (Option-cases found) [
        | inl n ↦ inr (ground arith, n, ground arith, ground arith)
        | inr (v, s) ↦
            let (x, q) = given (apply_operator js op v e) (apply_operator-gives op v e h a b) in
            inl (x, ground arith)
      ]
    ]
  ]

  -- A condition in which the validator finds no issue is decided in every context, unless its path leads
  -- nowhere there and its operator is not one that asks for that: then it is the error for such a path.
  -- No path is refused while a job runs, and no operator is unknown.
  pub evaluate_workflow_condition-Decides :
      (when : Fields) (path : FieldPath) (context : Json)
      → validate_condition js (some (object when)) path ≡ []
      → Decides
          (condition_of (entries when))
          context
          (evaluate_workflow_condition js (condition_of (entries when)) context)
  unfolding evaluate_workflow_condition
  evaluate_workflow_condition-Decides when path context h =
      let m = entries when in
      let (a, r) =
        append_silent (required_string js (get "PATH" m) (path ◂ "PATH") "CONDITION_PATH_REQUIRED")
          _ h in
      let (b, c) =
        append_silent
          (unless (is_path_or_blank js (get "PATH" m)) (path ◂ "PATH") "INVALID_WORKFLOW_PATH") _
          r in
      let known = operator_silent (get "OPERATOR" m) m path c in
      let (found, q) = valid_found (path_text (get "PATH" m)) context (
        path_silent (get "PATH" m) (unless_silent _ (path ◂ "PATH") "CONDITION_PATH_REQUIRED" a)
          (unless_silent _ (path ◂ "PATH") "INVALID_WORKFLOW_PATH" b)) in
      let op = operator_of js (condition_of m) in
      let e : evaluate_workflow_condition js (condition_of m) context
          ≡ evaluate_found js op found (get "VALUE" m) =
        ground arith in
      ⊎_elim (λ (b, t). inl (b, e ∙ t)) (λ (t, n, x, y). inr (e ∙ t, q ∙ ap some n, x, y))
        (found_Decides op found (get "VALUE" m) known)
