-- ===== src/Runner/Rounds.antt =====
-- JobRunner.run: the loop over batches of runnable steps, and how it ends. The definition has been
-- validated; an error of that validation is the argument `invalid` of `run`.
pub mod Batches
pub mod Merge
mod Places
pub mod Causes
pub mod Turns
pub mod Endings
use background_jobs.Prelude.{
  ℕ, String, Bool, true, false, Option, none, some, List, [], ◌∷◌, Map, put, delete, add, keys,
  values, filter, length, get_elem?, if◌then◌else◌,
}
use background_jobs.Types.{
  fail_fast, continue_independent, Step, StepLog, StepStatus, Error, app, plain, aborted,
  execution_cancelled, circular_or_unresolved, Message, Signal, is_fired, abort_error,
  resolve_error, AbortCode, message, because, failure_policy, after_failure,
}
use background_jobs.Runner.{Services}
use background_jobs.Runner.State.{
  init_step, insert_step, skip_passes, skip_pass, cancel_steps, Job, Options, RunState, finish_log,
  cancel_pending, runnable, skip_blocked, init_steps, sort_steps,
}
use background_jobs.Runner.Pool.{Pool, pool_start, settle, is_done, settled, has_ℕ, first_of}
use background_jobs.Runner.Steps.{StepEnv, Outcome, fulfilled, rejected, execute_step}

-- A task of the batch that has settled.
pub record Task (V C : Type 0) : Type 0 where
  pub step : Step C
  pub outcome : Outcome V

pub record Batch (V C : Type 0) : Type 0 where
  pub pool : Pool (Task V C)
  pub state : RunState V C

-- One turn of the loop as the environment makes it: the signal at its head, the tasks in the order in
-- which they settle, and the signal after the batch.
pub record RoundEnv (V : Type 0) : Type 0 where
  pub head : Signal
  pub events : List (ℕ × StepEnv V)
  pub tail : Signal

pub data Turn (V C : Type 0) : Type 0 where
  continues : RunState V C → Option Error → Turn V C
  throws : RunState V C → Error → Turn V C
  leaves : RunState V C → Option Error → Turn V C
  waits : Turn V C

module _ {V C : Type 0} (services : Services V C) (job : Job C) where
  -- `failurePolicy === 'fail_fast' || step.FAIL_JOB_ON_FAILURE === true`
  pub should_stop : Step C → Bool
  should_stop step = elim job.failure_policy [
    | fail_fast ↦ true
    | continue_independent ↦ step.fail_job_on_failure
  ]

  abbrev stop_reason : Step C → Outcome V → Option Error
  stop_reason step (fulfilled _) = none
  stop_reason step (rejected e) = if should_stop step then some e else none

  abbrev pub record_log : String → Option (StepLog V) → RunState V C → RunState V C
  record_log id none s = s
  record_log id (some log) s = finish_log id log s

  -- The task of the step at place `i` settles: its log is written, and the worker goes on.
  abbrev pub settle_step :
      List (Step C) → ℕ → Step C → Option (StepLog V) × Outcome V → Batch V C → Batch V C
  settle_step steps i step (log, outcome) b = record {
    pool =
        settle steps i (record { step = step; outcome = outcome }) (stop_reason step outcome)
          b.pool;
    state = record_log step.id log b.state;
  }

  abbrev is_running_at : ℕ → Pool (Task V C) → Option (Step C) → Option (Step C)
  is_running_at i p none = none
  is_running_at i p (some step) = if has_ℕ i p.running then some step else none

  pub batch_event : List (Step C) → Batch V C → ℕ × StepEnv V → Batch V C
  batch_event steps b (i, env) = elim (is_running_at i b.pool (get_elem? steps i)) [
    | none ↦ b
    | some step ↦
        settle_step steps i step
          (execute_step services job.default_step_retry step b.state.context env) b
  ]

  pub run_batch : List (Step C) → Batch V C → List (ℕ × StepEnv V) → Batch V C
  run_batch steps b [] = b
  run_batch steps b (e ∷ es) = run_batch steps (batch_event steps b e) es

  -- The loop over `batch.results`, with `representativeFailure`.
  pub merge_results : List (Task V C) → RunState V C × Option Error → RunState V C × Option Error
  merge_results [] r = r
  merge_results (t ∷ ts) (s, failure) = elim t.outcome [
    | fulfilled v ↦ merge_results ts (
      record s {
        pending_steps = delete t.step.id s.pending_steps;
        context = put t.step.id v s.context;
        successful = add t.step.id s.successful;
      },
      failure,
    )
    | rejected e ↦ merge_results ts (
      record s {
        pending_steps = delete t.step.id s.pending_steps;
        unsuccessful = add t.step.id s.unsuccessful;
      },
      first_of failure (some e),
    )
  ]

  -- After the batch: the results are merged, then the signal and the reason to stop are looked at.
  pub after_batch : Signal → Option Error → Batch V C → Turn V C
  after_batch tail failure b =
      let (s, failure') = merge_results (settled b.pool.results) (b.state, failure) in
      elim (is_fired tail) [
        | true ↦ throws s (abort_error tail)
        | false ↦ elim b.pool.stop [
          | some e ↦ throws (cancel_pending (failure_policy (message e)) s) e
          | none ↦ continues s failure'
        ]
      ]

  abbrev is_empty : {A : Type 0} → List A → Bool
  is_empty [] = true
  is_empty (_ ∷ _) = false

  -- The batch of the runnable steps, when the blocked ones are out of the way.
  pub run_runnable : RoundEnv V → Option Error → RunState V C → Turn V C
  run_runnable env failure s = elim (runnable s) [
    | [] ↦ throws s (plain (circular_or_unresolved (keys s.pending_steps)))
    | step ∷ steps ↦
        let batch =
          run_batch (step ∷ steps)
            (record { pool = pool_start (step ∷ steps) job.max_concurrency; state = s })
            env.events in
        elim (is_done (step ∷ steps) batch.pool) [
          | true ↦ after_batch env.tail failure batch
          | false ↦ waits
        ]
  ]

  pub turn : RoundEnv V → Option Error → RunState V C → Turn V C
  turn env failure s = elim (is_fired env.head) [
    | true ↦ throws s (abort_error env.head)
    | false ↦
        let s' = skip_blocked s in
        elim (is_empty s'.pending_steps) [
          | true ↦ leaves s' failure
          | false ↦ run_runnable env failure s'
        ]
  ]

pub data Ending (V C : Type 0) : Type 0 where
  left : RunState V C → Option Error → Ending V C
  thrown : RunState V C → Error → Ending V C
  unfinished : Ending V C

pub data RunStatus : Type 0 where
  success failed cancelled : RunStatus

pub data ErrorCode : Type 0 where
  app_code : String → ErrorCode
  abort_code : AbortCode → ErrorCode
  job_failed : ErrorCode

pub data JobError : Type 0 where
  of_message : Message → JobError
  step_failed : String → String → Message → JobError
  steps_failed : ℕ → JobError

pub record JobRunResult (V : Type 0) : Type 0 where
  pub status : RunStatus
  pub error_code : Option ErrorCode
  pub error : Option JobError
  pub step_results : Map (StepLog V)

-- What the run has done when it returns: its result and its last state.
pub record Returned (V C : Type 0) : Type 0 where
  pub result : JobRunResult V
  pub state : RunState V C

abbrev pub is_failed : {V : Type 0} → StepLog V → Bool
is_failed log = elim log.status [ StepStatus.failed ↦ true | _ ↦ false ]

abbrev failure_text : {V : Type 0} → Message → List (StepLog V) → JobError
failure_text fallback [] = of_message fallback
failure_text fallback (log ∷ []) =
    step_failed log.step_name log.step_id (elim log.error [ some e ↦ message e | none ↦ fallback ])
failure_text fallback (a ∷ b ∷ logs) = steps_failed (length (a ∷ b ∷ logs))

-- buildJobError
unfoldable pub build_job_error : {V : Type 0} → Map (StepLog V) → Error → JobError
build_job_error results fallback =
    failure_text (message fallback) (filter is_failed (values results))

abbrev pub error_code_of : Error → ErrorCode
error_code_of (app c _) = app_code c
error_code_of (aborted c _) = abort_code c
error_code_of (plain _) = job_failed

abbrev pub abort_status : AbortCode → RunStatus
abort_status execution_cancelled = cancelled
abort_status _ = failed

module _ {V C : Type 0} where
  -- The `catch` block, for the error that it resolves.
  pub fail_run : RunState V C → Error → Returned V C
  fail_run s (aborted c m) =
      let t = cancel_pending (because m) s in
      record {
        result = record {
          status = abort_status c;
          error_code = some (abort_code c);
          error = some (of_message m);
          step_results = t.results;
        };
        state = t;
      }
  fail_run s e =
      let t = cancel_pending (after_failure (message e)) s in
      record {
        result = record {
          status = failed;
          error_code = some (error_code_of e);
          error = some (build_job_error t.results e);
          step_results = t.results;
        };
        state = t;
      }

  pub succeed : RunState V C → Returned V C
  succeed s = record {
    result = record { status = success; error_code = none; error = none; step_results = s.results };
    state = s;
  }

  -- `signal` is the signal when an error is caught; `none` when the environment has not let the run end.
  pub conclude : Signal → Ending V C → Option (Returned V C)
  conclude signal unfinished = none
  conclude signal (thrown s e) = some (fail_run s (resolve_error signal e))
  conclude signal (left s (some e)) = some (fail_run s (resolve_error signal e))
  conclude signal (left s none) = some (succeed s)

  pub empty_state : Services V C → Options V → RunState V C
  empty_state services options = record {
    pending_steps = [];
    successful = [];
    unsuccessful = [];
    results = [];
    context = ("input", options.input) ∷ ("secrets", options.secrets) ∷ [];
    observed = [];
  }

module _ {V C : Type 0} (services : Services V C) (job : Job C) where
  -- `while (pendingSteps.size > 0)`: one RoundEnv for each turn.
  pub run_turns : List (RoundEnv V) → Option Error → RunState V C → Ending V C
  run_turns [] failure s = elim (is_empty services job s.pending_steps) [
    | true ↦ left s failure
    | false ↦ unfinished
  ]
  run_turns (env ∷ envs) failure s = elim (is_empty services job s.pending_steps) [
    | true ↦ left s failure
    | false ↦ elim (turn services job env failure s) [
      | continues s' failure' ↦ run_turns envs failure' s'
      | throws s' e ↦ thrown s' e
      | leaves s' failure' ↦ left s' failure'
      | waits ↦ unfinished
    ]
  ]

  -- `invalid` is what assertValidJobDefinition throws, if it does.
  unfoldable pub run : Options V → Option Error → List (RoundEnv V) → Signal → Option (Returned V C)
  unfolding run_turns turn run_runnable after_batch merge_results run_batch batch_event should_stop
      conclude fail_run succeed empty_state init_steps init_step sort_steps insert_step skip_blocked
      skip_passes skip_pass cancel_pending cancel_steps
  run options invalid envs signal = elim invalid [
    | some e ↦ conclude signal (thrown (empty_state services options) e)
    | none ↦ conclude signal (
        run_turns envs none
          (init_steps services options (sort_steps job.steps) (empty_state services options)))
  ]
