-- ===== src/Workflow/Conditions.antt =====
-- src/utils/workflowExpressions.ts: conditions and the items of a fan-out, on a context of JSON values.
use background_jobs.Prelude.{
  String, Bool, true, false, Option, none, some, List, [], ◌∷◌, Map, get, get_elem?, any, length,
  not, if◌then◌else◌, ◌==◌, ◌==ℕ◌,
}
use background_jobs.Json.{
  Json, whole, null, boolean, number, string, array, object, elements, entries,
}
use background_jobs.Platform.{Platform, Sign, below, level, above}
use background_jobs.Workflow.{parse_path}

-- OPERATOR stands as its text, `none` for one that is absent.
pub record WorkflowCondition : Type 0 where
  pub path : String
  pub operator : Option String
  pub value : Option Json

-- The value, or the error that is thrown. `bad_path` is the plain Error of parsePath.
pub data Resolved {ℓ} (A : Type ℓ) : Type ℓ where
  gives : A → Resolved A
  bad_path : Resolved A
  condition_path_not_found : Resolved A
  invalid_condition_operator : String → Resolved A
  foreach_path_not_found : Resolved A
  foreach_not_array : Resolved A

-- `Boolean(value)`
abbrev pub truthy : Json → Bool
truthy null = false
truthy (boolean b) = b
truthy (number (whole n)) = not (n ==ℕ 0)
truthy (number _) = true
truthy (string s) = not (s == "")
truthy _ = true

abbrev pub is_above : Sign → Bool
is_above above = true
is_above _ = false

abbrev pub is_above_or_level : Sign → Bool
is_above_or_level above = true
is_above_or_level level = true
is_above_or_level _ = false

abbrev pub is_below : Sign → Bool
is_below below = true
is_below _ = false

abbrev pub is_below_or_level : Sign → Bool
is_below_or_level below = true
is_below_or_level level = true
is_below_or_level _ = false

module _ (js : Platform) where
  -- The comparison of the JSON texts; a VALUE that is absent has none, and is equal to no JSON value.
  abbrev pub json_equal : Json → Option Json → Bool
  json_equal v none = false
  json_equal v (some w) = js.stringify v == js.stringify w

  abbrev pub compare_values : Json → Option Json → (Sign → Bool) → Bool
  compare_values (number m) (some (number n)) test = test (js.difference m n)
  compare_values (string s) (some (string t)) test = test (js.locale_compare s t)
  compare_values _ _ test = false

  abbrev pub has_key : String → Map Json → Bool
  has_key k m = elim (get k m) [ none ↦ false | some _ ↦ true ]

  abbrev pub contains : Json → Option Json → Bool
  contains (string s) (some (string t)) = js.includes s t
  contains (array xs) expected = any (λ x. json_equal x expected) (elements xs)
  contains (object fs) (some (string k)) = has_key k (entries fs)
  contains _ _ = false

  -- A property of an object, an index of an array, or the length of an array.
  abbrev pub own_property : Json → String → Option Json
  own_property (object fs) k = get k (entries fs)
  own_property (array xs) k =
      if k == "length"
      then some (number (whole (length (elements xs))))
      else elim (js.array_index k) [ none ↦ none | some i ↦ get_elem? (elements xs) i ]
  own_property _ k = none

  -- The walk along the segments.
  unfoldable pub walk : List String → Json → Option Json
  walk [] v = some v
  walk (k ∷ ks) v = elim (own_property v k) [ none ↦ none | some w ↦ walk ks w ]

  -- tryResolveWorkflowPath; the outer `none` stands for its error.
  unfoldable pub try_resolve_workflow_path : String → Json → Option (Option Json)
  unfolding walk
  try_resolve_workflow_path path context = elim (parse_path js path) [
    | none ↦ none
    | some segments ↦ some (walk segments context)
  ]

  -- The `switch` on the operator.
  unfoldable pub apply_operator : String → Json → Option Json → Resolved Bool
  apply_operator op v expected =
      if op == "truthy"
      then gives (truthy v)
      else if op == "falsy"
      then gives (not (truthy v))
      else if op == "equals"
      then gives (json_equal v expected)
      else if op == "not_equals"
      then gives (not (json_equal v expected))
      else if op == "greater_than"
      then gives (compare_values v expected is_above)
      else if op == "greater_than_or_equal"
      then gives (compare_values v expected is_above_or_level)
      else if op == "less_than"
      then gives (compare_values v expected is_below)
      else if op == "less_than_or_equal"
      then gives (compare_values v expected is_below_or_level)
      else if op == "contains"
      then gives (contains v expected)
      else invalid_condition_operator op

  abbrev pub operator_of : WorkflowCondition → String
  operator_of c = elim c.operator [ none ↦ "truthy" | some op ↦ op ]

  abbrev pub evaluate_found : String → Option Json → Option Json → Resolved Bool
  evaluate_found op found expected =
      if op == "exists"
      then gives (elim found [ none ↦ false | some _ ↦ true ])
      else if op == "not_exists"
      then gives (elim found [ none ↦ true | some _ ↦ false ])
      else elim found [ none ↦ condition_path_not_found | some v ↦ apply_operator op v expected ]

  unfoldable pub evaluate_workflow_condition : WorkflowCondition → Json → Resolved Bool
  unfolding apply_operator
  evaluate_workflow_condition c context = elim (try_resolve_workflow_path c.path context) [
    | none ↦ bad_path
    | some found ↦ evaluate_found (operator_of c) found c.value
  ]

  abbrev pub items_of : Option Json → Resolved (List Json)
  items_of none = foreach_path_not_found
  items_of (some (array xs)) = gives (elements xs)
  items_of (some _) = foreach_not_array

  unfoldable pub resolve_fan_out_items : String → Json → Resolved (List Json)
  resolve_fan_out_items path context = elim (try_resolve_workflow_path path context) [
    | none ↦ bad_path
    | some found ↦ items_of found
  ]
