-- ===== src/Import/Correct.antt =====
-- What prepareJobImport of src/jobs/jobImport.ts hands over when it refuses nothing.
use background_jobs.Prelude.{
  ℕ, ◌+◌, String, Option, some, List, [], ◌∷◌, ◌++◌, Map, get, put, keys, map, length, In,
  In-append, Distinct, Distinct-append, In-keys_iff, In-keys-put, get-put, get-put_self, get-delete,
  length-append, map-append, ◌≡◌, ◌≢◌, refl, sym, ap, subst, ◌∙◌, inl, inr, ⊎_elim, arith,
  Option-cases, String_discrete,
}
use background_jobs.Json.{
  Json, whole, negative, fractional, infinite, null, boolean, number, string, array, object,
  entries, of_entries, array_of, property, elements, entries-of_entries,
}
use background_jobs.Platform.{Platform}
use background_jobs.Registry.{Plugin}
use background_jobs.Validation.{ValidationIssue, key, at}
use background_jobs.Validation.Silence.{append_silent}
use background_jobs.Validation.Parameters.{PluginValidator}
use background_jobs.Validation.Normalize.{normalize_job_definition, normalize_job_fields}
use background_jobs.Validation.Trimmed.{normalize_job_fields-status}
use background_jobs.Validation.Valid.{SoundJob, validate_job_definition-SoundJob}
use background_jobs.Validation.Errors.{told_definition, invalid_some}
use background_jobs.Validation.Definition.{
  JobValidationResult, valid, invalid, validate_job_definition,
}
use background_jobs.Import.{
  JobImportStats, prepared, Candidate, Progress, remove_fields, read_only_fields, convert_schedule,
  default_timezone, deactivate, retries_of, convert_number, convert_retries, prepare_item, job_id,
  no_stats, take_job, take_result, import_item, import_items, preparation_of, prepare_job_import,
}

-- The candidate is inactive when it is validated.
deactivate-status : (c : Candidate) → get "status" (deactivate c).fields ≡ some (string "inactive")
unfolding deactivate
deactivate-status c = get-put_self "status" (string "inactive") c.fields

convert_number-status :
    (v : Json) (c : Candidate) (path : _)
    → get "status" (convert_number v c path).1.fields ≡ get "status" c.fields
unfolding String_discrete
convert_number-status (number (whole n)) c path = ground (
  arith,
  get-delete "status" "maxRetries" (put "DEFAULT_STEP_RETRY" (retries_of n) c.fields),
  get-put "status" "DEFAULT_STEP_RETRY" (retries_of n) c.fields,
)
convert_number-status (number (negative n)) c path =
    ground (arith, get-delete "status" "maxRetries" c.fields)
convert_number-status (number (fractional b n)) c path =
    ground (arith, get-delete "status" "maxRetries" c.fields)
convert_number-status (number (infinite n)) c path =
    ground (arith, get-delete "status" "maxRetries" c.fields)
convert_number-status null c path = ground (arith, get-delete "status" "maxRetries" c.fields)
convert_number-status (boolean n) c path = ground (arith, get-delete "status" "maxRetries" c.fields)
convert_number-status (string n) c path = ground (arith, get-delete "status" "maxRetries" c.fields)
convert_number-status (array n) c path = ground (arith, get-delete "status" "maxRetries" c.fields)
convert_number-status (object n) c path = ground (arith, get-delete "status" "maxRetries" c.fields)

convert_retries-status :
    (c : Candidate) (i : ℕ) → get "status" (convert_retries c i).1.fields ≡ get "status" c.fields
unfolding convert_retries String_discrete
convert_retries-status c i = elim (Option-cases (get "maxRetries" c.fields)) [
  | inl e ↦ ground arith
  | inr (v, e) ↦ elim (Option-cases (get "DEFAULT_STEP_RETRY" c.fields)) [
    | inl q ↦ ground (arith, convert_number-status v c (at i ∷ key "maxRetries" ∷ []))
    | inr (w, q) ↦ ground (arith, get-delete "status" "maxRetries" c.fields)
  ]
]

pub prepare_item-status :
    (js : Platform) (c : Candidate) (i : ℕ)
    → get "status" (prepare_item js c i).1.fields ≡ some (string "inactive")
unfolding prepare_item
prepare_item-status js c i =
    let d = default_timezone (convert_schedule js (remove_fields read_only_fields c)) in
    convert_retries-status (deactivate d) i ∙ deactivate-status d

module _ (js : Platform) (plugins : Map (Plugin (Option PluginValidator))) where
  -- A job that can be taken over: valid, and inactive.
  pub record Inactive (job : Json) : Type 0 where
    pub sound : SoundJob js plugins job
    pub status : property (some job) "status" ≡ some (string "inactive")

  record Taken (p : Progress) : Type 0 where
    each : (job : Json) → In job p.jobs → Inactive job
    ids : (x : String) → In x (map job_id p.jobs) → In x (keys p.encountered)
    distinct : Distinct (map job_id p.jobs)

  abbrev pub Imported : List Json → List Json → Type 0
  Imported items jobs =
      ((job : Json) → In job jobs → Inactive job)
      × Distinct (map job_id jobs)
      × (length jobs ≡ length items)

  module _ (trims : (s : String) → js.trim (js.trim s) ≡ js.trim s)
      (trims_inactive : js.trim "inactive" ≡ "inactive") where
    normalized_status :
        (m : Map Json)
        → get "status" m ≡ some (string "inactive")
        → property (some (normalize_job_definition js (object (of_entries m)))) "status"
          ≡ some (string "inactive")
    unfolding normalize_job_definition normalize_job_fields
    normalized_status m e =
        let q =
          ap (get "status")
            (entries-of_entries (normalize_job_fields js (entries (of_entries m)))) in
        q
        ∙ normalize_job_fields-status js (entries (of_entries m)) "inactive"
            (ap (get "status") (entries-of_entries m) ∙ e)
        ∙ ap (λ s. some (string s)) trims_inactive

    valid-Inactive :
        (m : Map Json) (job : Json)
        → get "status" m ≡ some (string "inactive")
        → validate_job_definition js plugins (object (of_entries m)) ≡ valid job
        → Inactive job
    valid-Inactive m job e h = record {
      sound = validate_job_definition-SoundJob js plugins trims (object (of_entries m)) job h;
      status =
          subst (λ v. property (some v) "status" ≡ some (string "inactive"))
            (told_definition js plugins (object (of_entries m)) job h) (normalized_status m e);
    }

    -- An item without an issue adds one job.
    record Added (p next : Progress) : Type 0 where
      job : Json
      inactive : Inactive job
      is_new : ¬ In (job_id job) (keys p.encountered)
      jobs : next.jobs ≡ p.jobs ++ job ∷ []
      index : ℕ
      encountered : next.encountered ≡ put (job_id job) index p.encountered

    take_job_silent :
        (job : Json) (i : ℕ) (p : Progress) (stats : JobImportStats)
        → Inactive job
        → (take_job js plugins job i p stats).0 ≡ []
        → Added p (take_job js plugins job i p stats).1
    take_job_silent job i p stats a h = elim (Option-cases (get (job_id job) p.encountered)) [
      | inr (v, e) ↦ absurd (ground arith)
      | inl e ↦ record {
        job = job;
        inactive = a;
        is_new = λ m. (In-keys_iff (job_id job) p.encountered).0 m e;
        jobs = ground arith;
        index = i;
        encountered = ground arith;
      }
    ]

    take_result_silent :
        (r : JobValidationResult) (i : ℕ) (p : Progress) (stats : JobImportStats)
        → ((job : Json) → r ≡ valid job → Inactive job)
        → ((es : List ValidationIssue) → r ≡ invalid es → es ≢ [])
        → (take_result js plugins r i p stats).0 ≡ []
        → Added p (take_result js plugins r i p stats).1
    take_result_silent (valid job) i p stats a b h = take_job_silent job i p stats (a job refl) h
    take_result_silent (invalid []) i p stats a b h = absurd (b [] refl refl)
    take_result_silent (invalid (e ∷ es)) i p stats a b h = absurd (ground arith)

    import_item_silent :
        (x : Json) (i : ℕ) (p : Progress)
        → (import_item js plugins x i p).0 ≡ []
        → Added p (import_item js plugins x i p).1
    import_item_silent (object fs) i p h =
        let c : Candidate = record { fields = entries fs; stats = p.stats } in
        let m = (prepare_item js c i).1.fields in
        let (_, b) = append_silent (prepare_item js c i).0 _ h in
        take_result_silent (validate_job_definition js plugins (object (of_entries m))) i p
          (prepare_item js c i).1.stats
          (λ job e. valid-Inactive m job (prepare_item-status js c i) e)
          (λ es e. invalid_some js plugins (object (of_entries m)) es e) b
    import_item_silent null i p h = absurd (ground arith)
    import_item_silent (boolean _) i p h = absurd (ground arith)
    import_item_silent (number _) i p h = absurd (ground arith)
    import_item_silent (string _) i p h = absurd (ground arith)
    import_item_silent (array _) i p h = absurd (ground arith)

    Added-Taken : (p next : Progress) → Taken p → Added p next → Taken next
    Added-Taken p next t a =
        let ids : map job_id next.jobs ≡ map job_id p.jobs ++ job_id a.job ∷ [] =
          ap (map job_id) a.jobs ∙ map-append job_id p.jobs (a.job ∷ []) in
        record {
          each = λ job m.
              ⊎_elim (t.each job)
                (λ k. ⊎_elim (λ e. subst Inactive (sym e) a.inactive) (λ z. absurd z) k)
                ((In-append job p.jobs (a.job ∷ [])).0 (subst (In job) a.jobs m));
          ids = λ x m.
              subst (λ e. In x (keys e)) (sym a.encountered)
                ((In-keys-put x (job_id a.job) a.index p.encountered).1 (
                  ⊎_elim (λ k. inr (t.ids x k)) (λ k. ⊎_elim inl (λ z. absurd z) k)
                    ((In-append x (map job_id p.jobs) (job_id a.job ∷ [])).0
                      (subst (In x) ids m))));
          distinct = subst Distinct (sym ids) (
              Distinct-append (map job_id p.jobs) (job_id a.job) t.distinct
                (λ m. a.is_new (t.ids (job_id a.job) m)));
        }

    import_items_silent :
        (xs : List Json) (i : ℕ) (p : Progress)
        → Taken p
        → (import_items js plugins xs i p).0 ≡ []
        → Taken (import_items js plugins xs i p).1
          × (length (import_items js plugins xs i p).1.jobs ≡ length p.jobs + length xs)
    unfolding import_items
    import_items_silent [] i p t h = (t, omega arith)
    import_items_silent (x ∷ xs) i p t h =
        let (a, r) = append_silent (import_item js plugins x i p).0 _ h in
        let added = import_item_silent x i p a in
        let next = (import_item js plugins x i p).1 in
        let (u, n) = import_items_silent xs (i + 1) next (Added-Taken p next t added) r in
        (u, omega (arith, n, ap length added.jobs, length-append p.jobs (added.job ∷ [])))

    preparation_of-prepared :
        (r : List ValidationIssue × Progress) (jobs : List Json) (stats : JobImportStats)
        → preparation_of js plugins r ≡ prepared jobs stats
        → (r.0 ≡ []) × (r.1.jobs ≡ jobs)
    preparation_of-prepared ([], p) jobs stats h = (refl, ground arith)
    preparation_of-prepared (e ∷ es, p) jobs stats h = absurd (ground arith)

    -- An import that is not refused was a list, and takes a job for each of its items: each is a
    -- definition that the runner can take, is inactive, and no two have one id. The conditions: a text
    -- that was trimmed is not changed by trimming it again, and neither is the text "inactive".
    pub prepare_job_import-Imported :
        (input : Json) (jobs : List Json) (stats : JobImportStats)
        → prepare_job_import js plugins input ≡ prepared jobs stats
        → (items : List Json) × (array_of (some input) ≡ some items) × Imported items jobs
    unfolding prepare_job_import
    prepare_job_import-Imported (array xs) jobs stats h =
        let items = elements xs in
        let begin : Progress = record {
          jobs = [];
          encountered = [];
          stats = no_stats (length items);
        } in
        let (silent, same) =
          preparation_of-prepared (import_items js plugins items 0 begin) jobs stats h in
        let (t, n) =
          import_items_silent items 0 begin
            (record { each = λ job m. absurd m; ids = λ x m. absurd m; distinct = tt }) silent in
        (items, refl, subst (Imported items) same (t.each, t.distinct, omega (arith, n)))
    prepare_job_import-Imported null jobs stats h = absurd (ground arith)
    prepare_job_import-Imported (boolean _) jobs stats h = absurd (ground arith)
    prepare_job_import-Imported (number _) jobs stats h = absurd (ground arith)
    prepare_job_import-Imported (string _) jobs stats h = absurd (ground arith)
    prepare_job_import-Imported (object _) jobs stats h = absurd (ground arith)
