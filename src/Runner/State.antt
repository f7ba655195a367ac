-- ===== src/Runner/State.antt =====
-- The state of JobRunner.run in src/core/JobRunner.ts, its start, and the steps that end without
-- being run: skipDependencyBlocked and cancelPending.
pub mod Invariant
pub mod Skips
pub mod Blocked
pub mod Sorted
pub mod Start
pub mod Kept
use background_jobs.Prelude.{
  ℕ, zero, suc, ◌+◌, String, Bool, true, false, not, Option, none, some, List, [], ◌∷◌, ◌++◌, Map,
  get, put, delete, has, add, values, filter, all, length, leb, if◌then◌else◌,
}
use background_jobs.Types.{
  FailurePolicy, RetryPolicy, Step, StepLog, pending, running, success, skipped, cancelled, reused,
  Reason, output_reused, outside_closure, dependencies_failed,
}
use background_jobs.Runner.{Services}
use background_jobs.Runner.Steps.{base_log, unstarted_log}

pub record Job (C : Type 0) : Type 0 where
  pub steps : List (Step C)
  pub failure_policy : FailurePolicy
  pub default_step_retry : RetryPolicy
  pub max_concurrency : ℕ

pub record Options (V : Type 0) : Type 0 where
  pub input : V
  pub secrets : V
  pub step_ids : Option (List String)
  pub reused_results : Map (StepLog V)

pub record RunState (V C : Type 0) : Type 0 where
  pub pending_steps : Map (Step C)
  pub successful : List String
  pub unsuccessful : List String
  pub results : Map (StepLog V)
  pub context : Map V
  pub observed : List (StepLog V)

-- `steps.sort((first, second) => first.ORDER - second.ORDER)`, a stable sort.
module _ {C : Type 0} where
  unfoldable pub insert_step : Step C → List (Step C) → List (Step C)
  insert_step s [] = s ∷ []
  insert_step s (t ∷ ts) = if leb s.order t.order then s ∷ t ∷ ts else t ∷ insert_step s ts

  unfoldable pub sort_steps : List (Step C) → List (Step C)
  sort_steps [] = []
  sort_steps (s ∷ ss) = insert_step s (sort_steps ss)

-- A result of the replayed run that can be taken over.
abbrev pub is_reusable : {V : Type 0} → Option (StepLog V) → Option (StepLog V)
is_reusable none = none
is_reusable (some log) = elim log.status [ success ↦ some log | reused ↦ some log | _ ↦ none ]

abbrev pub is_outside : Option (List String) → String → Bool
is_outside none id = false
is_outside (some ids) id = not (has id ids)

abbrev pub value_or {ℓ} : {A : Type ℓ} → Option A → A → A
value_or (some a) d = a
value_or none d = d

abbrev pub is_running : {V : Type 0} → Option (StepLog V) → Bool
is_running none = false
is_running (some log) = elim log.status [ running ↦ true | _ ↦ false ]

module _ {V C : Type 0} (services : Services V C) where
  open services use {undefined}

  -- A step at the start: reused, left out, or pending.
  unfoldable pub init_step : Options V → RunState V C → Step C → RunState V C
  init_step options s step = elim (is_reusable (get step.id options.reused_results)) [
    | some log ↦ record s {
      results = put step.id (record log { status = reused; reason = some output_reused }) s.results;
      successful = add step.id s.successful;
      context = put step.id (value_or log.output undefined) s.context;
    }
    | none ↦ elim (is_outside options.step_ids step.id) [
      | true ↦ record s {
        results =
            put step.id (record (base_log step skipped) { reason = some outside_closure })
              s.results;
      }
      | false ↦ record s {
        pending_steps = put step.id step s.pending_steps;
        results = put step.id (base_log step pending) s.results;
      }
    ]
  ]

  unfoldable pub init_steps : Options V → List (Step C) → RunState V C → RunState V C
  init_steps options [] s = s
  init_steps options (step ∷ steps) s = init_steps options steps (init_step options s step)

module _ {V C : Type 0} where
  -- The observer is told of a step's last log.
  abbrev pub finish_log : String → StepLog V → RunState V C → RunState V C
  finish_log id log s = record s {
    results = put id log s.results;
    observed = s.observed ++ log ∷ [];
  }

  abbrev pub end_step : String → StepLog V → RunState V C → RunState V C
  end_step id log s = record s {
    results = put id log s.results;
    observed = s.observed ++ log ∷ [];
    pending_steps = delete id s.pending_steps;
    unsuccessful = add id s.unsuccessful;
  }

  abbrev pub blockers : Step C → RunState V C → List String
  blockers step s = filter (λ d. has d s.unsuccessful) step.depends_on

  -- One pass of skipDependencyBlocked over a copy of the pending steps, and whether it changed anything.
  unfoldable pub skip_pass : Map (Step C) → RunState V C → RunState V C × Bool
  skip_pass [] s = (s, false)
  skip_pass ((id, step) ∷ rest) s = elim (blockers step s) [
    | [] ↦ skip_pass rest s
    | b ∷ bs ↦ (
      (skip_pass rest
          (end_step id (unstarted_log step skipped (dependencies_failed (b ∷ bs))) s)).0,
      true,
    )
  ]

  -- Each pass but the last removes a pending step, so one more pass than there are steps is enough.
  unfoldable pub skip_passes : ℕ → RunState V C → RunState V C
  skip_passes zero s = s
  skip_passes (suc fuel) s =
      let (t, changed) = skip_pass s.pending_steps s in
      elim changed [ true ↦ skip_passes fuel t | false ↦ t ]

  unfoldable pub skip_blocked : RunState V C → RunState V C
  skip_blocked s = skip_passes (length s.pending_steps + 1) s

  unfoldable pub cancel_steps : Map (Step C) → Reason → RunState V C → RunState V C
  cancel_steps [] why s = s
  cancel_steps ((id, step) ∷ rest) why s = cancel_steps rest why (
      if is_running (get id s.results) then s else end_step id (unstarted_log step cancelled why) s)

  unfoldable pub cancel_pending : Reason → RunState V C → RunState V C
  cancel_pending why s = cancel_steps s.pending_steps why s

  -- `every(dependency => successfulSteps.has(dependency))`
  abbrev pub is_runnable : RunState V C → Step C → Bool
  is_runnable s step = all (λ d. has d s.successful) step.depends_on

  abbrev pub runnable : RunState V C → List (Step C)
  runnable s = filter (is_runnable s) (values s.pending_steps)
