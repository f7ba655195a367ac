-- ===== src/Tests/Aborts.antt =====
-- src/core/JobRunner.ts when the signal fires while a step runs and another has not begun.
use background_jobs.Prelude.{
  get, put, has, add, delete, String_discrete, String, true, false, Option, none, some, List, [],
  ◌∷◌, ◌≡◌, refl,
}
use background_jobs.Types.{
  Step, StepStatus, pending, cancelled, RetryPolicy, continue_independent, execution_cancelled,
  was_cancelled, ok, Signal, live, fired,
}
use background_jobs.Runner.{Services}
use background_jobs.Runner.Pool.{pool_start, settle}
use background_jobs.Runner.Retry.{execute_with_retry, resolve_retry}
use background_jobs.Runner.Steps.{StepEnv, execute_step}
use background_jobs.Runner.State.{Job, Options}
use background_jobs.Runner.Rounds.{RoundEnv, run, Returned}

abbrev services : Services String String
services = record {
  condition_path = λ c. c;
  evaluate = λ c context. ok true;
  fan_out_items = λ path context. ok [];
  supports = λ type. true;
  clean = λ context v. ok v;
  redact = λ context m. m;
  null = "null";
  undefined = "undefined";
  array = λ vs. "array";
  number = λ n. "number";
}

abbrev no_policy : RetryPolicy
no_policy = record { max_attempts = none; delay_ms = none; backoff = none }

abbrev first : Step String
first = record {
  order = 1;
  id = "first";
  name = "First";
  type = "http";
  depends_on = [];
  when = none;
  foreach = none;
  retry = no_policy;
  fail_job_on_failure = true;
}

abbrev second : Step String
second = record first { order = 2; id = "second"; fail_job_on_failure = false }

-- One worker, and no failure stops it.
abbrev job : Job String
job = record {
  steps = record first { fail_job_on_failure = false } ∷ second ∷ [];
  failure_policy = continue_independent;
  default_step_retry = no_policy;
  max_concurrency = 1;
}

abbrev stop : Signal
stop = fired execution_cancelled was_cancelled

-- The signal fires while the first step's attempt is made, so the second starts after it.
abbrev first_env : StepEnv String
first_env = record {
  start = live;
  attempts = λ n. record { before = live; result = ok "done"; after = stop; delay = stop };
  item_attempts = λ i n. record { before = stop; result = ok "done"; after = stop; delay = stop };
  after = stop;
}

abbrev second_env : StepEnv String
second_env = record first_env { start = stop }

abbrev rounds : List (RoundEnv String)
rounds = record { head = live; events = (0, first_env) ∷ (1, second_env) ∷ []; tail = stop } ∷ []

abbrev options : Options String
options = record { input = "input"; secrets = "secrets"; step_ids = none; reused_results = [] }

abbrev log_status : String → Option (Returned String String) → Option StepStatus
log_status id none = none
log_status id (some r) = elim (get id r.result.step_results) [
  | some log ↦ some log.status
  | none ↦ none
]

first_is_cancelled : log_status "first" (run services job options none rounds stop) ≡ some cancelled
unfolding run get put has add delete execute_step execute_with_retry resolve_retry pool_start settle
    String_discrete
first_is_cancelled = refl

-- The step that was taken after the abort is "pending" in the result of the run that has ended.
second_is_pending : log_status "second" (run services job options none rounds stop) ≡ some pending
unfolding run get put has add delete execute_step execute_with_retry resolve_retry pool_start settle
    String_discrete
second_is_pending = refl
