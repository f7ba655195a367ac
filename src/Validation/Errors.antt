-- ===== src/Validation/Errors.antt =====
-- assertValidJobDefinition of src/utils/jobValidator.ts: what it returns and what it throws.
use background_jobs.Prelude.{
  String, Option, List, [], ◌∷◌, ◌++◌, Map, ◌≡◌, ◌≢◌, refl, sym, subst, inl, inr, arith,
  Option-cases,
}
use background_jobs.Json.{Json, null, boolean, number, string, array, object, entries}
use background_jobs.Platform.{Platform}
use background_jobs.Registry.{Plugin}
use background_jobs.Validation.{ValidationIssue, issue, key}
use background_jobs.Validation.Silence.{append_silent}
use background_jobs.Validation.Parameters.{PluginValidator}
use background_jobs.Validation.Normalize.{normalize_job_definition}
use background_jobs.Validation.Valid.{SoundJob, validate_job_definition-SoundJob}
use background_jobs.Validation.Definition.{
  JobValidationResult, valid, invalid, Asserted, returned, threw, result_of, settings_issues,
  steps_issues, raw_steps, validate_fields, validate_normalized, validate_job_definition,
  assert_valid_job_definition,
}

module _ (js : Platform) (plugins : Map (Plugin (Option PluginValidator))) where
  abbrev Told : Json → JobValidationResult → Type 0
  Told v (valid job) = v ≡ job
  Told v (invalid es) = es ≢ []

  Told-result : (es : List ValidationIssue) (v : Json) → Told v (result_of es v)
  Told-result [] v = refl
  Told-result (e ∷ es) v = λ q. ground arith

  Told-fields : (m : Map Json) (v : Json) → Told v (validate_fields js plugins m v)
  Told-fields m v = elim (Option-cases (raw_steps js plugins m)) [
    | inl e ↦
        let q : validate_fields js plugins m v
            ≡ invalid (settings_issues js plugins m ++ issue (key "STEPS" ∷ []) "STEPS_REQUIRED") =
          ground arith in
        subst (Told v) (sym q)
          (λ z. absurd (ground (arith, (append_silent (settings_issues js plugins m) _ z).1)))
    | inr (steps, e) ↦
        let q : validate_fields js plugins m v
            ≡ result_of (settings_issues js plugins m ++ steps_issues js plugins steps) v =
          ground arith in
        subst (Told v) (sym q) (Told-result _ v)
  ]

  Told-normalized : (v : Json) → Told v (validate_normalized js plugins v)
  Told-normalized (object fs) = Told-fields (entries fs) (object fs)
  Told-normalized null = λ q. ground arith
  Told-normalized (boolean _) = λ q. ground arith
  Told-normalized (number _) = λ q. ground arith
  Told-normalized (string _) = λ q. ground arith
  Told-normalized (array _) = λ q. ground arith

  -- A definition that is accepted is the normalized one.
  pub told_definition :
      (input job : Json)
      → validate_job_definition js plugins input ≡ valid job
      → normalize_job_definition js input ≡ job
  unfolding validate_job_definition
  told_definition input job e =
      subst (Told (normalize_job_definition js input)) e
        (Told-normalized (normalize_job_definition js input))

  -- A refusal has an issue.
  pub invalid_some :
      (input : Json) (es : List ValidationIssue)
      → validate_job_definition js plugins input ≡ invalid es
      → es ≢ []
  unfolding validate_job_definition
  invalid_some input es e =
      subst (Told (normalize_job_definition js input)) e
        (Told-normalized (normalize_job_definition js input))

  abbrev pub Asserts : Json → Asserted → Type 0
  Asserts input (returned job) =
      (validate_job_definition js plugins input ≡ valid job)
      × (normalize_job_definition js input ≡ job)
      × SoundJob js plugins job
  Asserts input (threw es) = (validate_job_definition js plugins input ≡ invalid es) × (es ≢ [])

  module _ (trims : (s : String) → js.trim (js.trim s) ≡ js.trim s) where
    Asserts-result :
        (input : Json) (r : JobValidationResult)
        → validate_job_definition js plugins input ≡ r
        → Told (normalize_job_definition js input) r
        → Asserts input (elim r [ valid job ↦ returned job | invalid es ↦ threw es ])
    Asserts-result input (valid job) e t =
        (e, t, validate_job_definition-SoundJob js plugins trims input job e)
    Asserts-result input (invalid es) e t = (e, t)

    -- assertValidJobDefinition returns the normalized definition only if the validator accepts it, and it
    -- is one that the runner can take; else it throws the validator's issues, of which there is one at
    -- least. The condition: a text that was trimmed is not changed by trimming it again.
    pub assert_valid_job_definition-Asserts :
        (input : Json) → Asserts input (assert_valid_job_definition js plugins input)
    unfolding assert_valid_job_definition validate_job_definition
    assert_valid_job_definition-Asserts input =
        Asserts-result input (validate_job_definition js plugins input) refl
          (Told-normalized (normalize_job_definition js input))
