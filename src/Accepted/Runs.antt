-- ===== src/Accepted/Runs.antt =====
-- JobRunner.run on any input: a definition that is accepted meets the conditions of the runner, and one
-- that is refused fails before any step is begun.
use background_jobs.Prelude.{
  ℕ, ◌<◌, String, true, Option, none, some, List, [], ◌∷◌, Map, get, map, In, In-map, Distinct, ◌≡◌,
  ◌≢◌, refl, sym, ap, subst, ◌∙◌, inl, inr, arith,
}
use background_jobs.Types.{Step, Signal, plain, text}
use background_jobs.Json.{
  Json, whole, negative, fractional, infinite, null, boolean, number, string, array, object,
  entries, array_of,
}
use background_jobs.Platform.{Platform}
use background_jobs.Registry.{Plugin}
use background_jobs.Workflow.Conditions.{WorkflowCondition}
use background_jobs.Runner.{Services}
use background_jobs.Runner.State.{Options}
use background_jobs.Runner.State.Sorted.{DistinctIds}
use background_jobs.Runner.Rounds.{RoundEnv, Returned, RunStatus}
use background_jobs.Runner.Rounds.Turns.{IsLive}
use background_jobs.Runner.Rounds.Endings.{RunOk, run_correct, run_refused}
use background_jobs.Validation.{
  ValidationIssue, unless, key, absent_or, is_integer_from, is_priority,
}
use background_jobs.Validation.Silence.{append_silent, unless_silent}
use background_jobs.Validation.Parameters.{PluginValidator}
use background_jobs.Validation.Settings.{validate_execution_settings, is_queue}
use background_jobs.Validation.Walk.{text_id, step_id, SoundStep}
use background_jobs.Validation.Valid.{SoundJob}
use background_jobs.Validation.Execution.{settings_silent}
use background_jobs.Validation.Errors.{Asserts, assert_valid_job_definition-Asserts}
use background_jobs.Validation.Definition.{Asserted, returned, threw, assert_valid_job_definition}
use background_jobs.Accepted.{
  text_or, fields_of, read_max_concurrency, read_step, read_job_fields, read_job, runner_services,
  run_asserted, run_definition,
}

-- The step of a list of read steps is read from an element.
module _ {A B : Type 0} (f : A → B) where
  map_In : (xs : List A) (b : B) → In b (map f xs) → (a : A) × In a xs × (b ≡ f a)
  map_In [] b m = absurd m
  map_In (x ∷ xs) b (inl e) = (x, inl refl, e)
  map_In (x ∷ xs) b (inr m) = let (a, i, e) = map_In xs b m in (a, inr i, e)

module _ (js : Platform) (delay : Json → ℕ) (plugins : Map (Plugin (Option PluginValidator))) where
  -- The trimmed ID is that of the ID that is read.
  trimmed_id :
      (s : Json) → SoundStep js plugins s → step_id js s ≡ js.trim (read_step js delay s).id
  trimmed_id s h =
      ap (step_id js) h.shape
      ∙ ap (text_id js) h.has_id
      ∙ sym (ap (λ v. js.trim (text_or "" v)) h.has_id)
      ∙ sym (ap (λ x. js.trim (read_step js delay x).id) h.shape)

  read_steps-DistinctIds :
      (steps : List Json)
      → ((s : Json) → In s steps → SoundStep js plugins s)
      → Distinct (map (step_id js) steps)
      → DistinctIds (map (read_step js delay) steps)
  read_steps-DistinctIds [] h d = tt
  read_steps-DistinctIds (s ∷ ss) h d = (
    λ a m e.
        let (t, i, q) = map_In (read_step js delay) ss a m in
        let same : step_id js t ≡ step_id js s =
          trimmed_id t (h t (inr i))
          ∙ ap (λ x. js.trim x) (sym (ap (λ (z : Step WorkflowCondition). z.id) q) ∙ e)
          ∙ sym (trimmed_id s (h s (inl refl))) in
        d.0 (subst (λ x. In x (map (step_id js) ss)) same (In-map (step_id js) t ss i)),
    read_steps-DistinctIds ss (λ t i. h t (inr i)) d.1,
  )

  positive : (v : Option Json) → absent_or (is_integer_from 1) v ≡ true → 0 < read_max_concurrency v
  positive none h = omega arith
  positive (some (number (whole n))) h = ground arith
  positive (some (number (negative n))) h = absurd (ground arith)
  positive (some (number (fractional b n))) h = absurd (ground arith)
  positive (some (number (infinite n))) h = absurd (ground arith)
  positive (some null) h = absurd (ground arith)
  positive (some (boolean _)) h = absurd (ground arith)
  positive (some (string _)) h = absurd (ground arith)
  positive (some (array _)) h = absurd (ground arith)
  positive (some (object _)) h = absurd (ground arith)

  max_concurrency_silent :
      (m : Map Json)
      → validate_execution_settings js m ≡ []
      → absent_or (is_integer_from 1) (get "MAX_CONCURRENCY" m) ≡ true
  unfolding validate_execution_settings
  max_concurrency_silent m h =
      let (_, r) =
        append_silent
          (unless (absent_or (is_queue js) (get "QUEUE" m)) (key "QUEUE" ∷ []) "INVALID_QUEUE") _
          h in
      let (_, r2) =
        append_silent
          (unless (absent_or is_priority (get "PRIORITY" m)) (key "PRIORITY" ∷ [])
            "INVALID_PRIORITY")
          _ r in
      let (_, r3) =
        append_silent
          (unless (absent_or (is_integer_from 1) (get "TIMEOUT_MS" m)) (key "TIMEOUT_MS" ∷ [])
            "INVALID_JOB_TIMEOUT")
          _ r2 in
      unless_silent _ (key "MAX_CONCURRENCY" ∷ []) "INVALID_MAX_CONCURRENCY"
        (append_silent
          (unless (absent_or (is_integer_from 1) (get "MAX_CONCURRENCY" m))
            (key "MAX_CONCURRENCY" ∷ []) "INVALID_MAX_CONCURRENCY")
          _ r3).0

  read_job_steps :
      (m : Map Json) (steps : List Json)
      → array_of (get "STEPS" m) ≡ some steps
      → (read_job_fields js delay m).steps ≡ map (read_step js delay) steps
  read_job_steps m steps e =
      ap (λ o. elim o [ none ↦ [] | some xs ↦ map (read_step js delay) xs ]) e

  -- What a run needs of a definition.
  read_job-Ready :
      (job : Json)
      → SoundJob js plugins job
      → DistinctIds (read_job js delay job).steps × (0 < (read_job js delay job).max_concurrency)
  unfolding read_job
  read_job-Ready job j =
      let m = entries j.fields in
      let e = settings_silent js plugins m j.settings in
      subst
        (λ v.
          DistinctIds (read_job_fields js delay (fields_of (some v))).steps
          × (0 < (read_job_fields js delay (fields_of (some v))).max_concurrency))
        (sym j.shape)
        (
          subst DistinctIds (sym (read_job_steps m j.steps j.has_steps))
              (read_steps-DistinctIds j.steps j.sound.each j.sound.distinct_ids),
          positive (get "MAX_CONCURRENCY" m) (max_concurrency_silent m e),
        )

module _ (js : Platform) (delay : Json → ℕ) (plugins : Map (Plugin (Option PluginValidator)))
    (given : Services Json WorkflowCondition) (summary : List ValidationIssue → String) where
  abbrev pub Refused : Option (Returned Json WorkflowCondition) → Type 0
  Refused r =
      (e : Returned Json WorkflowCondition) × (r ≡ some e)
      × (e.result.step_results ≡ [])
      × (e.result.status ≢ RunStatus.success)

  -- What a run says of the definition that it was given.
  abbrev pub Runs :
      Options Json
      → List (RoundEnv Json)
      → Asserted
      → Option (Returned Json WorkflowCondition)
      → Type 0
  Runs options envs (returned job) r =
      RunOk (runner_services js plugins given) (read_job js delay job) options envs r
  Runs options envs (threw es) r = Refused r

  module _ (trims : (s : String) → js.trim (js.trim s) ≡ js.trim s) where
    run_asserted-Runs :
        (input : Json) (options : Options Json) (envs : List (RoundEnv Json)) (signal : Signal)
        (a : Asserted)
        → ((env : RoundEnv Json) → In env envs → IsLive env)
        → Asserts js plugins input a
        → Runs options envs a (run_asserted js delay plugins given summary options envs signal a)
    run_asserted-Runs input options envs signal (returned job) live_at (e, n, j) =
        let (d, pos) = read_job-Ready js delay plugins job j in
        run_correct (runner_services js plugins given) (read_job js delay job) options envs signal d
          pos live_at
    run_asserted-Runs input options envs signal (threw es) live_at h =
        run_refused (runner_services js plugins given) (read_job js delay null) options
          (plain (text (summary es))) envs signal

    -- A run of any input: if it is accepted as a definition, the run of its steps is as the runner promises,
    -- with no condition on the definition left; if it is refused, the run ends, without success, and no step
    -- has a result. The conditions: a text that was trimmed is not changed by trimming it again, and tasks
    -- begin while the signal is live.
    pub run_definition-Runs :
        (input : Json) (options : Options Json) (envs : List (RoundEnv Json)) (signal : Signal)
        → ((env : RoundEnv Json) → In env envs → IsLive env)
        → Runs options envs
            (assert_valid_job_definition js plugins input)
            (run_definition js delay plugins given summary input options envs signal)
    unfolding run_definition
    run_definition-Runs input options envs signal live_at =
        run_asserted-Runs input options envs signal (assert_valid_job_definition js plugins input)
          live_at (assert_valid_job_definition-Asserts js plugins trims input)
