-- ===== src/Runner/Steps.antt =====
-- executeStep, conditionAllowsStep, executeFanOut and the step logs of src/core/JobRunner.ts. What
-- the environment does while a step runs is given as a StepEnv.
pub mod Outcomes
use background_jobs.Prelude.{
  ℕ, ◌+◌, Bool, true, false, Option, none, some, List, [], ◌∷◌, ◌++◌, Map, put, if◌then◌else◌,
}
use background_jobs.Types.{
  Step, StepLog, StepStatus, success, failed, skipped, cancelled, Error, app, plain, item_failed,
  unsupported_type, Result, ok, err, Signal, throw_if_aborted, resolve_error, abort_error, is_fired,
  aborted, server_interrupted, message, Reason, because, condition_false, AttemptLog, RetryPolicy,
  FanOutDefinition,
}
use background_jobs.Runner.{Services}
use background_jobs.Runner.Retry.{AttemptEnv, resolve_retry, execute_with_retry}

-- The signal when the step starts, the attempts of the step or of each item, and the signal when the
-- body has ended.
pub record StepEnv (V : Type 0) : Type 0 where
  pub start : Signal
  pub attempts : ℕ → AttemptEnv V
  pub item_attempts : ℕ → ℕ → AttemptEnv V
  pub after : Signal

pub data Outcome (V : Type 0) : Type 0 where
  fulfilled : V → Outcome V
  rejected : Error → Outcome V

-- An abort cancels the step, but for one by the server's interruption, which fails it.
abbrev pub cancels : Error → Bool
cancels (aborted server_interrupted _) = false
cancels (aborted _ _) = true
cancels _ = false

module _ {V C : Type 0} where
  abbrev pub base_log : Step C → StepStatus → StepLog V
  base_log step status = record {
    step_id = step.id;
    step_name = step.name;
    step_type = step.type;
    status = status;
    attempts = [];
    output = none;
    error = none;
    reason = none;
  }

  -- terminalUnstartedStep: its log, which also goes to the observer.
  abbrev pub unstarted_log : Step C → StepStatus → Reason → StepLog V
  unstarted_log step status why = record (base_log step status) { reason = some why }

  abbrev success_log : Step C → List AttemptLog → V → StepLog V
  success_log step attempts v = record (base_log step success) {
    attempts = attempts;
    output = some v;
  }

  abbrev error_log : Step C → List AttemptLog → Error → StepLog V
  error_log step attempts e =
      if cancels e
      then record (base_log step cancelled) {
        attempts = attempts;
        error = some e;
        reason = some (because (message e));
      }
      else record (base_log step failed) { attempts = attempts; error = some e }

module _ {V C : Type 0} (services : Services V C) (default_retry : RetryPolicy) where
  open services use {
    condition_path, evaluate, fan_out_items, supports, clean, redact, null, array, number,
  }

  -- executeWithRetry with the executor looked up first.
  run_attempts : Step C → Map V → Option ℕ → (ℕ → AttemptEnv V) → List AttemptLog × Result V
  run_attempts step context item env =
      if supports step.type
      then execute_with_retry (clean context) (redact context) step.name
          (resolve_retry default_retry step.retry) item env
      else ([], err (plain (unsupported_type step.type)))

  -- `{ ...context, item, index }`
  abbrev item_context : Map V → ℕ → V → Map V
  item_context context i item = put "index" (number i) (put "item" item context)

  -- The items in the order of their indices, as the logs are sorted in the end: all logs, and the
  -- outcome of each item.
  run_items :
      Step C → Map V → (ℕ → ℕ → AttemptEnv V) → ℕ → List V → List AttemptLog × List (Result V)
  run_items step context env i [] = ([], [])
  run_items step context env i (item ∷ items) =
      let here = run_attempts step (item_context context i item) (some i) (env i) in
      let rest = run_items step context env (i + 1) items in (here.0 ++ rest.0, here.1 ∷ rest.1)

  -- `errors.findIndex(…)`, and the results where there is none.
  collect : ℕ → List (Result V) → Result (List V)
  collect i [] = ok []
  collect i (err e ∷ rs) = err (app "FOREACH_ITEM_FAILED" (item_failed i (message e)))
  collect i (ok v ∷ rs) = elim (collect (i + 1) rs) [ err e ↦ err e | ok vs ↦ ok (v ∷ vs) ]

  execute_fan_out : Step C → FanOutDefinition → Map V → StepEnv V → List AttemptLog × Result V
  execute_fan_out step definition context env = elim (fan_out_items definition.items context) [
    | err e ↦ ([], err e)
    | ok [] ↦ ([], ok (array []))
    | ok (v ∷ vs) ↦
        let runs = run_items step context env.item_attempts 0 (v ∷ vs) in
        (
          runs.0,
          throw_if_aborted env.after
              (elim (collect 0 runs.1) [ err e ↦ err e | ok rs ↦ ok (array rs) ]),
        )
  ]

  run_body : Step C → Map V → StepEnv V → List AttemptLog × Result V
  run_body step context env = elim step.foreach [
    | none ↦ run_attempts step context none env.attempts
    | some definition ↦ execute_fan_out step definition context env
  ]

  -- The part of executeStep behind its condition.
  execute_body : Step C → Map V → StepEnv V → StepLog V × Outcome V
  execute_body step context env =
      let (attempts, r) = run_body step context env in
      elim r [
        | ok v ↦ (success_log step attempts v, fulfilled v)
        | err e ↦
            let resolved = resolve_error env.after e in
            (error_log step attempts resolved, rejected resolved)
      ]

  -- conditionAllowsStep: `none` lets the step run; a false condition skips it, and it counts as
  -- fulfilled; an error in the condition fails it.
  check_condition : Step C → Map V → Option (StepLog V × Outcome V)
  check_condition step context = elim step.when [
    | none ↦ none
    | some c ↦ elim (evaluate c context) [
      | ok true ↦ none
      | ok false ↦
          some (unstarted_log step skipped (condition_false (condition_path c)), fulfilled null)
      | err e ↦ some (record (base_log step failed) { error = some e }, rejected e)
    ]
  ]

  -- `none` for the log: the step was not begun, since the signal had fired.
  unfoldable pub execute_step : Step C → Map V → StepEnv V → Option (StepLog V) × Outcome V
  unfolding check_condition execute_body run_body execute_fan_out collect run_items run_attempts
  execute_step step context env = elim (is_fired env.start) [
    | true ↦ (none, rejected (abort_error env.start))
    | false ↦ elim (check_condition step context) [
      | some (log, o) ↦ (some log, o)
      | none ↦ let (log, o) = execute_body step context env in (some log, o)
    ]
  ]
