-- ===== src/Validation/Trimmed.antt =====
-- What normalizeJobDefinition of src/utils/jobValidator.ts leaves of the steps and their IDs.
use background_jobs.Prelude.{
  ℕ, ◌+◌, String, false, Option, none, some, List, [], ◌∷◌, Map, get, map, In, get-put_self,
  get-put_ne, ◌≡◌, ◌≢◌, refl, sym, ap, subst, ◌∙◌, inl, inr, arith, Bool-cases, Option-cases, ◌==◌,
  String_discrete,
}
use background_jobs.Json.{
  Json, whole, null, boolean, number, string, array, object, elements, of_elements, entries,
  of_entries, array_of, record_of, elements-of_elements, entries-of_entries,
}
use background_jobs.Platform.{Platform}
use background_jobs.Validation.Normalize.{
  update_text, default_to, update_array, update_record, if_record, if_text, default_id,
  normalize_condition, normalize_step_fields, normalize_steps, normalize_webhook,
  normalize_job_fields,
}

differs : (s t : String) → (s == t) ≡ false → s ≢ t
differs s t h = ground arith

-- A write at another key is not seen.
get-update_text :
    (j k : String) (f : String → String) (m : Map Json)
    → (k == j) ≡ false
    → get j (update_text k f m) ≡ get j m
unfolding update_text
get-update_text j k f m h = elim (Option-cases (get k m)) [
  | inl e ↦ ground arith
  | inr (string s, e) ↦ ground (arith, get-put_ne j k (string (f s)) m (differs k j h))
  | inr (null, e) ↦ ground arith
  | inr (boolean b, e) ↦ ground arith
  | inr (number n, e) ↦ ground arith
  | inr (array xs, e) ↦ ground arith
  | inr (object fs, e) ↦ ground arith
]

get-default_to :
    (j k : String) (v : Json) (m : Map Json) → (k == j) ≡ false → get j (default_to k v m) ≡ get j m
unfolding default_to
get-default_to j k v m h = ground (arith, get-put_ne j k v m (differs k j h))

get-default_to_self :
    (k : String) (v : Json) (m : Map Json) (w : Json)
    → get k m ≡ some w
    → get k (default_to k v m) ≡ some w
unfolding default_to
get-default_to_self k v m w h = ground arith

get-update_text_self :
    (k : String) (f : String → String) (m : Map Json) (s : String)
    → get k m ≡ some (string s)
    → get k (update_text k f m) ≡ some (string (f s))
unfolding update_text
get-update_text_self k f m s h = ground (arith, get-put_self k (string (f s)) m)

get-update_array :
    (j k : String) (f : List Json → List Json) (m : Map Json)
    → (k == j) ≡ false
    → get j (update_array k f m) ≡ get j m
unfolding update_array
get-update_array j k f m h = elim (Option-cases (get k m)) [
  | inl e ↦ ground arith
  | inr (array xs, e) ↦
      ground (arith, get-put_ne j k (array (of_elements (f (elements xs)))) m (differs k j h))
  | inr (null, e) ↦ ground arith
  | inr (boolean b, e) ↦ ground arith
  | inr (number n, e) ↦ ground arith
  | inr (string s, e) ↦ ground arith
  | inr (object fs, e) ↦ ground arith
]

get-update_record :
    (j k : String) (f : Map Json → Map Json) (m : Map Json)
    → (k == j) ≡ false
    → get j (update_record k f m) ≡ get j m
unfolding update_record
get-update_record j k f m h = elim (Option-cases (get k m)) [
  | inl e ↦ ground arith
  | inr (object fs, e) ↦
      ground (arith, get-put_ne j k (object (of_entries (f (entries fs)))) m (differs k j h))
  | inr (null, e) ↦ ground arith
  | inr (boolean b, e) ↦ ground arith
  | inr (number n, e) ↦ ground arith
  | inr (string s, e) ↦ ground arith
  | inr (array xs, e) ↦ ground arith
]

-- The array at the key itself.
pub array_of-update_array :
    (k : String) (f : List Json → List Json) (m : Map Json)
    → array_of (get k (update_array k f m))
      ≡ (elim (array_of (get k m)) [ none ↦ none | some xs ↦ some (f xs) ])
unfolding update_array
array_of-update_array k f m = elim (Option-cases (get k m)) [
  | inl e ↦ ground arith
  | inr (array xs, e) ↦ ground (
    arith,
    get-put_self k (array (of_elements (f (elements xs)))) m,
    elements-of_elements (f (elements xs)),
  )
  | inr (null, e) ↦ ground arith
  | inr (boolean b, e) ↦ ground arith
  | inr (number n, e) ↦ ground arith
  | inr (string s, e) ↦ ground arith
  | inr (object fs, e) ↦ ground arith
]

some_inj : {m n : Map Json} → some m ≡ some n → m ≡ n
some_inj {m} {n} e = ground arith

-- A text, where there is one, is its own trimmed text.
abbrev pub IsTrimmed : Platform → Option Json → Type 0
IsTrimmed js v = (s : String) → v ≡ some (string s) → js.trim s ≡ s

module _ (js : Platform) (trims : (s : String) → js.trim (js.trim s) ≡ js.trim s) where
  update_text-IsTrimmed :
      (k : String) (m : Map Json) → IsTrimmed js (get k (update_text k js.trim m))
  unfolding update_text
  update_text-IsTrimmed k m s e = elim (Option-cases (get k m)) [
    | inl q ↦ ground arith
    | inr (string t, q) ↦ ground (arith, get-put_self k (string (js.trim t)) m, trims t)
    | inr (null, q) ↦ ground arith
    | inr (boolean b, q) ↦ ground arith
    | inr (number n, q) ↦ ground arith
    | inr (array xs, q) ↦ ground arith
    | inr (object fs, q) ↦ ground arith
  ]

  default_id-IsTrimmed :
      (m : Map Json)
      → IsTrimmed js (get "ID" m)
      → IsTrimmed js (get "NAME" m)
      → IsTrimmed js (get "ID" (default_id js m))
  unfolding default_id
  default_id-IsTrimmed m a b s e = elim (Option-cases (get "ID" m)) [
    | inr (v, q) ↦ a s (ground arith)
    | inl q ↦ elim (Option-cases (get "NAME" m)) [
      | inl r ↦ ground arith
      | inr (string t, r) ↦ elim (Bool-cases (t == "")) [
        | inl z ↦ ground arith
        | inr z ↦ b s (ground (arith, get-put_self "ID" (string t) m))
      ]
      | inr (null, r) ↦ ground arith
      | inr (boolean _, r) ↦ ground arith
      | inr (number _, r) ↦ ground arith
      | inr (array xs, r) ↦ ground arith
      | inr (object fs, r) ↦ ground arith
    ]
  ]

  normalize_step_fields-IsTrimmed :
      (i : ℕ) (m : Map Json) → IsTrimmed js (get "ID" (normalize_step_fields js i m))
  unfolding normalize_step_fields String_discrete
  normalize_step_fields-IsTrimmed i m =
      let named = update_text "ID" js.trim (update_text "NAME" js.trim m) in
      let typed = update_text "TYPE" (λ s. js.upper (js.trim s)) (default_id js named) in
      let ordered = default_to "ORDER" (number (whole (i + 1))) typed in
      let linked = update_array "DEPENDS_ON" (map (if_text js.trim)) ordered in
      let whened = update_record "WHEN" (normalize_condition js) linked in
      let q : get "ID" (normalize_step_fields js i m) ≡ get "ID" (default_id js named) =
        get-update_record "ID" "FOREACH" (update_text "ITEMS" js.trim) whened refl
        ∙ get-update_record "ID" "WHEN" (normalize_condition js) linked refl
        ∙ get-update_array "ID" "DEPENDS_ON" (map (if_text js.trim)) ordered refl
        ∙ get-default_to "ID" "ORDER" (number (whole (i + 1))) typed refl
        ∙ get-update_text "ID" "TYPE" (λ s. js.upper (js.trim s)) (default_id js named) refl in
      subst (IsTrimmed js) (sym q) (
        default_id-IsTrimmed named (update_text-IsTrimmed "ID" (update_text "NAME" js.trim m)) (
          subst (IsTrimmed js)
            (sym (get-update_text "NAME" "ID" js.trim (update_text "NAME" js.trim m) refl))
            (update_text-IsTrimmed "NAME" m)))

  -- The IDs of the steps that normalization leaves are trimmed.
  pub normalize_steps-IsTrimmed :
      (i : ℕ) (xs : List Json) (s : Json) (m : Map Json)
      → In s (normalize_steps js i xs)
      → record_of (some s) ≡ some m
      → IsTrimmed js (get "ID" m)
  unfolding normalize_steps
  normalize_steps-IsTrimmed i [] s m h e = absurd h
  normalize_steps-IsTrimmed i (x ∷ xs) s m (inr h) e = normalize_steps-IsTrimmed (i + 1) xs s m h e
  normalize_steps-IsTrimmed i (object fs ∷ xs) s m (inl h) e =
      let q : some (normalize_step_fields js i (entries fs)) ≡ some m =
        ap some (sym (entries-of_entries _)) ∙ ap (λ z. record_of (some z)) (sym h) ∙ e in
      subst (λ z. IsTrimmed js (get "ID" z)) (some_inj q)
        (normalize_step_fields-IsTrimmed i (entries fs))
  normalize_steps-IsTrimmed i (null ∷ xs) s m (inl h) e = absurd (ground arith)
  normalize_steps-IsTrimmed i (boolean _ ∷ xs) s m (inl h) e = absurd (ground arith)
  normalize_steps-IsTrimmed i (number _ ∷ xs) s m (inl h) e = absurd (ground arith)
  normalize_steps-IsTrimmed i (string _ ∷ xs) s m (inl h) e = absurd (ground arith)
  normalize_steps-IsTrimmed i (array _ ∷ xs) s m (inl h) e = absurd (ground arith)

-- The steps of a normalized job are the normalized steps.
pub normalize_job_fields-steps :
    (js : Platform) (m : Map Json)
    → array_of (get "STEPS" (normalize_job_fields js m))
      ≡ (elim (array_of (get "STEPS" m)) [ none ↦ none | some xs ↦ some (normalize_steps js 0 xs) ])
unfolding normalize_job_fields String_discrete
normalize_job_fields-steps js m =
    let identified = update_text "id" js.trim m in
    let called = update_text "name" js.trim identified in
    let scheduled = update_text "schedule" js.trim called in
    let texts = update_text "status" js.trim scheduled in
    let active = default_to "status" (string "active") texts in
    let queued = update_text "QUEUE" (λ s. js.lower (js.trim s)) active in
    let placed = update_text "timezone" js.trim queued in
    let zoned = default_to "timezone" (string "UTC") placed in
    let stepped = update_array "STEPS" (normalize_steps js 0) zoned in
    let kept : get "STEPS" zoned ≡ get "STEPS" m =
      get-default_to "STEPS" "timezone" (string "UTC") placed refl
      ∙ get-update_text "STEPS" "timezone" js.trim queued refl
      ∙ get-update_text "STEPS" "QUEUE" (λ s. js.lower (js.trim s)) active refl
      ∙ get-default_to "STEPS" "status" (string "active") texts refl
      ∙ get-update_text "STEPS" "status" js.trim scheduled refl
      ∙ get-update_text "STEPS" "schedule" js.trim called refl
      ∙ get-update_text "STEPS" "name" js.trim identified refl
      ∙ get-update_text "STEPS" "id" js.trim m refl in
    ap array_of
      (get-update_array "STEPS" "WEBHOOKS" (map (if_record (normalize_webhook js))) stepped refl)
    ∙ array_of-update_array "STEPS" (normalize_steps js 0) zoned
    ∙ ap (λ v. elim (array_of v) [ none ↦ none | some xs ↦ some (normalize_steps js 0 xs) ]) kept

-- The status of a normalized job that has one as a text.
pub normalize_job_fields-status :
    (js : Platform) (m : Map Json) (s : String)
    → get "status" m ≡ some (string s)
    → get "status" (normalize_job_fields js m) ≡ some (string (js.trim s))
unfolding normalize_job_fields String_discrete
normalize_job_fields-status js m s e =
    let identified = update_text "id" js.trim m in
    let called = update_text "name" js.trim identified in
    let scheduled = update_text "schedule" js.trim called in
    let texts = update_text "status" js.trim scheduled in
    let active = default_to "status" (string "active") texts in
    let queued = update_text "QUEUE" (λ t. js.lower (js.trim t)) active in
    let placed = update_text "timezone" js.trim queued in
    let zoned = default_to "timezone" (string "UTC") placed in
    let stepped = update_array "STEPS" (normalize_steps js 0) zoned in
    let before : get "status" scheduled ≡ some (string s) =
      get-update_text "status" "schedule" js.trim called refl
      ∙ get-update_text "status" "name" js.trim identified refl
      ∙ get-update_text "status" "id" js.trim m refl
      ∙ e in
    get-update_array "status" "WEBHOOKS" (map (if_record (normalize_webhook js))) stepped refl
    ∙ get-update_array "status" "STEPS" (normalize_steps js 0) zoned refl
    ∙ get-default_to "status" "timezone" (string "UTC") placed refl
    ∙ get-update_text "status" "timezone" js.trim queued refl
    ∙ get-update_text "status" "QUEUE" (λ t. js.lower (js.trim t)) active refl
    ∙ get-default_to_self "status" (string "active") texts (string (js.trim s))
        (get-update_text_self "status" js.trim scheduled s before)
