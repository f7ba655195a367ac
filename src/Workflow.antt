-- ===== src/Workflow.antt =====
-- src/utils/workflowExpressions.ts: paths into the context.
pub mod Conditions
pub mod Decided
use background_jobs.Prelude.{
  String, Bool, true, false, Option, none, some, List, [], ◌∷◌, any, has, map, ◌==◌, ◌||◌,
  if◌then◌else◌,
}
use background_jobs.Platform.{Platform}

abbrev pub forbidden_path_segments : List String
forbidden_path_segments = "__proto__" ∷ "prototype" ∷ "constructor" ∷ []

abbrev pub is_empty_list : List String → Bool
is_empty_list [] = true
is_empty_list (_ ∷ _) = false

module _ (js : Platform) where
  -- `path.split('.').map(segment => segment.trim())`
  abbrev pub segments_of : String → List String
  segments_of path = map js.trim (js.split_dots path)

  -- `none` stands for an error.
  unfoldable pub parse_path : String → Option (List String)
  parse_path path =
      let segments = segments_of path in
      if is_empty_list segments || any (λ s. s == "") segments
      then none
      else if any (λ s. has s forbidden_path_segments) segments
      then none
      else some segments

  abbrev pub first_segment : List String → Option String
  first_segment [] = none
  first_segment (s ∷ _) = some s

  -- For a valid path; of another the call throws.
  unfoldable pub get_workflow_path_root : String → Option String
  unfolding parse_path
  get_workflow_path_root path = elim (parse_path path) [ none ↦ none | some s ↦ first_segment s ]

  unfoldable pub is_valid_workflow_path : String → Bool
  unfolding parse_path
  is_valid_workflow_path path = elim (parse_path path) [
    | none ↦ false
    | some [] ↦ false
    | some (_ ∷ _) ↦ true
  ]
