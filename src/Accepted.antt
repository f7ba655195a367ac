-- ===== src/Accepted.antt =====
-- src/core/JobRunner.ts on a definition that src/utils/jobValidator.ts has accepted: the validator's JSON
-- read as the runner's types, with the runner's defaults, and the conditions, fan-outs and the registry
-- as the runner calls them.
pub mod Runs
use background_jobs.Prelude.{
  ℕ, String, Bool, true, false, Option, none, some, List, [], ◌∷◌, Map, get, map, ◌==◌,
  if◌then◌else◌,
}
use background_jobs.Types.{
  FailurePolicy, fail_fast, continue_independent, RetryPolicy, RetryBackoff, fixed, exponential,
  FanOutDefinition, Step, Result, ok, err, Error, app, plain, text,
}
use background_jobs.Json.{
  Json, Number, whole, null, boolean, number, string, array, object, Fields, entries, of_entries,
  of_elements, elements, record_of, array_of, string_of,
}
use background_jobs.Platform.{Platform}
use background_jobs.Registry.{Plugin, supports}
use background_jobs.Workflow.Conditions.{
  WorkflowCondition, Resolved, gives, bad_path, condition_path_not_found,
  invalid_condition_operator, foreach_path_not_found, foreach_not_array,
  evaluate_workflow_condition, resolve_fan_out_items,
}
use background_jobs.Workflow.Decided.{condition_of}
use background_jobs.Runner.{Services}
use background_jobs.Runner.State.{Job, Options}
use background_jobs.Runner.Rounds.{RoundEnv, Returned, run}
use background_jobs.Types.{Signal}
use background_jobs.Validation.{ValidationIssue}
use background_jobs.Validation.Parameters.{PluginValidator}
use background_jobs.Validation.Definition.{Asserted, returned, threw, assert_valid_job_definition}

abbrev pub text_or : String → Option Json → String
text_or d (some (string s)) = s
text_or d _ = d

abbrev pub count_of : Option Json → Option ℕ
count_of (some (number (whole n))) = some n
count_of _ = none

abbrev pub is_true : Option Json → Bool
is_true (some (boolean b)) = b
is_true _ = false

abbrev pub texts : List Json → List String
texts [] = []
texts (string s ∷ xs) = s ∷ texts xs
texts (_ ∷ xs) = texts xs

abbrev pub texts_in : Option Json → List String
texts_in v = elim (array_of v) [ none ↦ [] | some xs ↦ texts xs ]

-- `executableJob.FAILURE_POLICY ?? 'fail_fast'`
abbrev pub read_failure_policy : Option Json → FailurePolicy
read_failure_policy (some (string s)) =
    if s == "continue_independent" then continue_independent else fail_fast
read_failure_policy _ = fail_fast

-- `executableJob.MAX_CONCURRENCY ?? 10`
abbrev pub read_max_concurrency : Option Json → ℕ
read_max_concurrency v = elim (count_of v) [ none ↦ 10 | some n ↦ n ]

abbrev pub read_backoff : Option Json → Option RetryBackoff
read_backoff (some (string s)) = some (if s == "exponential" then exponential else fixed)
read_backoff _ = none

abbrev pub read_foreach : Map Json → FanOutDefinition
read_foreach m = record {
  items = text_or "" (get "ITEMS" m);
  max_concurrency = count_of (get "MAX_CONCURRENCY" m);
}

abbrev pub fields_of : Option Json → Map Json
fields_of v = elim (record_of v) [ none ↦ [] | some m ↦ m ]

-- `delay` rounds a delay to whole milliseconds.
module _ (js : Platform) (delay : Json → ℕ) where
  abbrev pub read_retry : Map Json → RetryPolicy
  read_retry m = record {
    max_attempts = count_of (get "MAX_ATTEMPTS" m);
    delay_ms = elim (get "DELAY_MS" m) [ none ↦ none | some d ↦ some (delay d) ];
    backoff = read_backoff (get "BACKOFF" m);
  }

  abbrev pub read_fields : Map Json → Step WorkflowCondition
  read_fields m = record {
    order = elim (count_of (get "ORDER" m)) [ none ↦ 0 | some n ↦ n ];
    id = text_or "" (get "ID" m);
    name = text_or "" (get "NAME" m);
    type = text_or "" (get "TYPE" m);
    depends_on = texts_in (get "DEPENDS_ON" m);
    when = elim (record_of (get "WHEN" m)) [ none ↦ none | some w ↦ some (condition_of js w) ];
    foreach = elim (record_of (get "FOREACH" m)) [ none ↦ none | some f ↦ some (read_foreach f) ];
    retry = read_retry (fields_of (get "RETRY" m));
    fail_job_on_failure = is_true (get "FAIL_JOB_ON_FAILURE" m);
  }

  abbrev pub read_step : Json → Step WorkflowCondition
  read_step v = read_fields (fields_of (some v))

  abbrev pub read_job_fields : Map Json → Job WorkflowCondition
  read_job_fields m = record {
    steps = elim (array_of (get "STEPS" m)) [ none ↦ [] | some xs ↦ map read_step xs ];
    failure_policy = read_failure_policy (get "FAILURE_POLICY" m);
    default_step_retry = read_retry (fields_of (get "DEFAULT_STEP_RETRY" m));
    max_concurrency = read_max_concurrency (get "MAX_CONCURRENCY" m);
  }

  unfoldable pub read_job : Json → Job WorkflowCondition
  read_job v = read_job_fields (fields_of (some v))

-- The texts of these errors are those of the code's, by their codes.
abbrev pub as_result {ℓ} : {A : Type ℓ} → Resolved A → Result A
as_result (gives a) = ok a
as_result bad_path = err (plain (text "path"))
as_result condition_path_not_found = err (app "CONDITION_PATH_NOT_FOUND" (text "path"))
as_result (invalid_condition_operator op) = err (app "INVALID_CONDITION_OPERATOR" (text op))
as_result foreach_path_not_found = err (app "FOREACH_PATH_NOT_FOUND" (text "path"))
as_result foreach_not_array = err (app "FOREACH_NOT_ARRAY" (text "path"))

-- What the runner calls of the other parts; `clean` and `redact` are given.
module _ {P : Type 0} (js : Platform) (plugins : Map (Plugin P)) where
  abbrev pub context_of : Map Json → Json
  context_of context = object (of_entries context)

  abbrev pub runner_services : Services Json WorkflowCondition → Services Json WorkflowCondition
  runner_services given = record {
    condition_path = λ c. c.path;
    evaluate = λ c context. as_result (evaluate_workflow_condition js c (context_of context));
    fan_out_items = λ path context. as_result (resolve_fan_out_items js path (context_of context));
    supports = λ type. supports js type plugins;
    clean = given.clean;
    redact = given.redact;
    null = null;
    undefined = given.undefined;
    array = λ xs. array (of_elements xs);
    number = λ n. number (whole n);
  }

-- `run` begins with assertValidJobDefinition; `summary` is the text of its error.
module _ (js : Platform) (delay : Json → ℕ) (plugins : Map (Plugin (Option PluginValidator)))
    (given : Services Json WorkflowCondition) (summary : List ValidationIssue → String) where
  abbrev pub run_asserted :
      Options Json
      → List (RoundEnv Json)
      → Signal
      → Asserted
      → Option (Returned Json WorkflowCondition)
  run_asserted options envs signal (returned job) =
      run (runner_services js plugins given) (read_job js delay job) options none envs signal
  run_asserted options envs signal (threw es) =
      run (runner_services js plugins given) (read_job js delay null) options
        (some (plain (text (summary es)))) envs signal

  unfoldable pub run_definition :
      Json → Options Json → List (RoundEnv Json) → Signal → Option (Returned Json WorkflowCondition)
  run_definition input options envs signal =
      run_asserted options envs signal (assert_valid_job_definition js plugins input)
