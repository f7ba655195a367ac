-- ===== src/Validation/Normalize.antt =====
-- normalizeJobDefinition of src/utils/jobValidator.ts.
use background_jobs.Prelude.{
  ℕ, ◌+◌, String, none, some, List, [], ◌∷◌, Map, get, put, map, ◌==◌, if◌then◌else◌,
}
use background_jobs.Json.{
  Json, number, whole, string, array, object, elements, of_elements, entries, of_entries,
}
use background_jobs.Platform.{Platform}

-- `if (typeof value.key === 'string') value.key = f(value.key)`
unfoldable pub update_text : String → (String → String) → Map Json → Map Json
update_text k f m = elim (get k m) [ some (string s) ↦ put k (string (f s)) m | _ ↦ m ]

-- `if (value.key === undefined) value.key = v`
unfoldable pub default_to : String → Json → Map Json → Map Json
default_to k v m = elim (get k m) [ none ↦ put k v m | some _ ↦ m ]

-- `if (Array.isArray(value.key)) value.key = value.key.map(f)`
unfoldable pub update_array : String → (List Json → List Json) → Map Json → Map Json
update_array k f m = elim (get k m) [
  | some (array xs) ↦ put k (array (of_elements (f (elements xs)))) m
  | _ ↦ m
]

-- `if (isRecord(value.key)) value.key = f(value.key)`
unfoldable pub update_record : String → (Map Json → Map Json) → Map Json → Map Json
update_record k f m = elim (get k m) [
  | some (object fs) ↦ put k (object (of_entries (f (entries fs)))) m
  | _ ↦ m
]

-- `isRecord(value) ? f(value) : value`
abbrev pub if_record : (Map Json → Map Json) → Json → Json
if_record f (object fs) = object (of_entries (f (entries fs)))
if_record f v = v

abbrev pub if_text : (String → String) → Json → Json
if_text f (string s) = string (f s)
if_text f v = v

module _ (js : Platform) where
  -- The ID of a step that has none is its name.
  unfoldable pub default_id : Map Json → Map Json
  default_id m = elim (get "ID" m) [
    | some _ ↦ m
    | none ↦ elim (get "NAME" m) [
      | some (string name) ↦ if name == "" then m else put "ID" (string name) m
      | _ ↦ m
    ]
  ]

  abbrev pub normalize_condition : Map Json → Map Json
  normalize_condition m =
      update_text "OPERATOR" (λ s. js.lower (js.trim s)) (update_text "PATH" js.trim m)

  unfoldable pub normalize_step_fields : ℕ → Map Json → Map Json
  normalize_step_fields index m =
      let named = default_id (update_text "ID" js.trim (update_text "NAME" js.trim m)) in
      let typed = update_text "TYPE" (λ s. js.upper (js.trim s)) named in
      let ordered = default_to "ORDER" (number (whole (index + 1))) typed in
      let linked = update_array "DEPENDS_ON" (map (if_text js.trim)) ordered in
      update_record "FOREACH" (update_text "ITEMS" js.trim)
        (update_record "WHEN" normalize_condition linked)

  unfoldable pub normalize_steps : ℕ → List Json → List Json
  normalize_steps index [] = []
  normalize_steps index (s ∷ ss) =
      if_record (normalize_step_fields index) s ∷ normalize_steps (index + 1) ss

  abbrev pub normalize_webhook : Map Json → Map Json
  normalize_webhook m =
      update_text "SIGNING_SECRET" (λ s. js.upper (js.trim s)) (update_text "URL" js.trim m)

  unfoldable pub normalize_job_fields : Map Json → Map Json
  normalize_job_fields m =
      let texts = update_text "status" js.trim (
        update_text "schedule" js.trim (update_text "name" js.trim (update_text "id" js.trim m))) in
      let queued =
        update_text "QUEUE" (λ s. js.lower (js.trim s))
          (default_to "status" (string "active") texts) in
      let zoned = default_to "timezone" (string "UTC") (update_text "timezone" js.trim queued) in
      update_array "WEBHOOKS" (map (if_record normalize_webhook))
        (update_array "STEPS" (normalize_steps 0) zoned)

  unfoldable pub normalize_job_definition : Json → Json
  unfolding normalize_job_fields normalize_steps normalize_step_fields default_id
  normalize_job_definition v = if_record normalize_job_fields v
