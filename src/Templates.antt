-- ===== src/Templates.antt =====
-- src/utils/contextResolver.ts: templates in the parameters of a step. What regular expressions find in
-- a text is given: the path of a text that is one template, and the pieces of any other.
pub mod Declared
use background_jobs.Prelude.{
  String, Bool, true, false, Option, none, some, List, [], ◌∷◌, Map, map, any, has, not, ◌&&◌, ◌||◌,
  if◌then◌else◌, ◌==◌,
}
use background_jobs.Json.{
  Json, null, boolean, number, string, array, object, Items, nil, cons, Fields, end, field,
}
use background_jobs.Platform.{Platform, Piece, literal, template}
use background_jobs.Workflow.{is_empty_list}
use background_jobs.Workflow.Conditions.{own_property}

pub data TemplateError : Type 0 where
  invalid_path : String → TemplateError
  unsafe_segment : String → TemplateError
  undeclared_step : String → TemplateError
  not_resolved : String → String → TemplateError
  not_embeddable : String → TemplateError

pub data Templated {ℓ} (A : Type ℓ) : Type ℓ where
  made : A → Templated A
  fails : TemplateError → Templated A

abbrev pub then_with {ℓ κ} :
    {A : Type ℓ} {B : Type κ} → Templated A → (A → Templated B) → Templated B
then_with (made a) k = k a
then_with (fails e) k = fails e

-- FORBIDDEN_PATH_SEGMENTS
abbrev pub forbidden_segments : List String
forbidden_segments = "__proto__" ∷ "prototype" ∷ "constructor" ∷ []

abbrev pub runtime_roots : List String
runtime_roots = "input" ∷ "secrets" ∷ "item" ∷ "index" ∷ []

-- `for (const segment of pathSegments) if (FORBIDDEN.has(segment)) throw …`
abbrev pub forbidden_in : List String → Option String
forbidden_in [] = none
forbidden_in (s ∷ ss) = if has s forbidden_segments then some s else forbidden_in ss

-- `allowed` is `options.allowedStepIds`.
abbrev pub may_use : Option (List String) → String → Bool
may_use none root = true
may_use (some ids) root = has root runtime_roots || has root ids

module _ (js : Platform) (allowed : Option (List String)) (context : Json) where
  -- The walk along the segments of `raw`.
  unfoldable pub walk_segments : String → List String → Json → Templated Json
  walk_segments raw [] v = made v
  walk_segments raw (s ∷ ss) v = elim (own_property js v s) [
    | none ↦ fails (not_resolved raw s)
    | some w ↦ walk_segments raw ss w
  ]

  abbrev pub resolve_segments : String → List String → Templated Json
  resolve_segments raw [] = fails (invalid_path raw)
  resolve_segments raw (root ∷ rest) =
      if may_use allowed root
      then walk_segments raw (root ∷ rest) context
      else fails (undeclared_step root)

  abbrev pub segments_of_path : String → List String
  segments_of_path raw = map js.trim (js.split_dots (js.trim raw))

  unfoldable pub resolve_context_path : String → Templated Json
  unfolding walk_segments
  resolve_context_path raw =
      let segments = segments_of_path raw in
      if is_empty_list segments || any (λ s. s == "") segments
      then fails (invalid_path (js.trim raw))
      else elim (forbidden_in segments) [
        | some s ↦ fails (unsafe_segment s)
        | none ↦ resolve_segments (js.trim raw) segments
      ]

  -- A value as a part of a text.
  abbrev pub embed : String → Json → Templated String
  embed raw (array _) = fails (not_embeddable (js.trim raw))
  embed raw (object _) = fails (not_embeddable (js.trim raw))
  embed raw v = made (js.text_of v)

  abbrev pub resolve_piece : Piece → Templated String
  resolve_piece (literal s) = made s
  resolve_piece (template raw) = then_with (resolve_context_path raw) (embed raw)

  -- `template.replace(TEMPLATE_PATTERN, …)`
  unfoldable pub resolve_pieces : List Piece → Templated String
  resolve_pieces [] = made ""
  resolve_pieces (p ∷ ps) =
      let rest = resolve_pieces ps in
      then_with (resolve_piece p) (λ s. then_with rest (λ t. made (js.concat s t)))

  abbrev pub as_text : String → Templated Json
  as_text s = made (string s)

  unfoldable pub resolve_string : String → Templated Json
  unfolding resolve_pieces resolve_context_path
  resolve_string text = elim (js.exact_path text) [
    | some raw ↦ resolve_context_path raw
    | none ↦ then_with (resolve_pieces (js.pieces text)) as_text
  ]

  abbrev pub to_array : Items → Templated Json
  to_array xs = made (array xs)

  abbrev pub to_object : Fields → Templated Json
  to_object fs = made (object fs)

  unfoldable mutual
    unfolding resolve_string

    pub resolve_value : Json → Templated Json
    resolve_value (string s) = resolve_string s
    resolve_value (array xs) = then_with (resolve_items xs) to_array
    resolve_value (object fs) = then_with (resolve_fields fs) to_object
    resolve_value v = made v

    pub resolve_items : Items → Templated Items
    resolve_items nil = made nil
    resolve_items (cons x xs) =
        let rest = resolve_items xs in
        then_with (resolve_value x) (λ y. then_with rest (λ ys. made (cons y ys)))

    pub resolve_fields : Fields → Templated Fields
    resolve_fields end = made end
    resolve_fields (field k v fs) =
        let rest = resolve_fields fs in
        then_with (resolve_value v) (λ w. then_with rest (λ gs. made (field k w gs)))
