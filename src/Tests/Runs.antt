-- ===== src/Tests/Runs.antt =====
-- src/core/JobRunner.ts on a job of two steps, the second of which needs the first.
use background_jobs.Prelude.{
  get, put, has, add, delete, String_discrete, ℕ, zero, suc, String, true, Option, none, some, List,
  [], ◌∷◌, In, keys, length, ◌≡◌, ◌≤◌, refl, inl, inr, ⊎_elim, arith, sym, subst, ap, ◌∙◌,
}
use background_jobs.Types.{
  Step, StepLog, RetryPolicy, fail_fast, text, because, plain, ok, err, live,
}
use background_jobs.Runner.{Services}
use background_jobs.Runner.Pool.{pool_start, settle}
use background_jobs.Runner.Retry.{AttemptEnv, execute_with_retry, resolve_retry}
use background_jobs.Runner.Retry.Attempts.{Retried, execute_with_retry-Retried}
use background_jobs.Runner.Steps.{StepEnv, Outcome, execute_step}
use background_jobs.Runner.Steps.Outcomes.{Explains, execute_step-Explains}
use background_jobs.Runner.State.{
  Job, Options, RunState, init_steps, sort_steps, skip_blocked, cancel_pending,
}
use background_jobs.Runner.State.Invariant.{RunInv}
use background_jobs.Runner.State.Blocked.{Unblocked, skip_blocked-RunInv, cancel_pending-RunInv}
use background_jobs.Runner.State.Skips.{Skips}
use background_jobs.Runner.State.Kept.{init_steps_kept}
use background_jobs.Runner.State.Sorted.{DistinctIds, DistinctIds-Unique}
use background_jobs.Runner.Rounds.{RoundEnv, turn, run, empty_state, RunStatus, Returned}
use background_jobs.Runner.Rounds.Merge.{FailureKnown}
use background_jobs.Runner.Rounds.Turns.{IsLive, TurnOk, turn-TurnOk}
use background_jobs.Runner.Rounds.Endings.{RunOk, start-RunInv, start_clean, run_correct}

-- Values and conditions are texts; nothing is redacted.
abbrev services : Services String String
services = record {
  condition_path = λ c. c;
  evaluate = λ c context. ok true;
  fan_out_items = λ path context. ok ("a" ∷ "b" ∷ []);
  supports = λ type. true;
  clean = λ context v. ok v;
  redact = λ context m. m;
  null = "null";
  undefined = "undefined";
  array = λ vs. "array";
  number = λ n. "number";
}

abbrev no_policy : RetryPolicy
no_policy = record { max_attempts = none; delay_ms = none; backoff = none }

abbrev load : Step String
load = record {
  order = 1;
  id = "load";
  name = "Load";
  type = "http";
  depends_on = [];
  when = none;
  foreach = none;
  retry = record no_policy { max_attempts = some 2 };
  fail_job_on_failure = true;
}

abbrev store : Step String
store = record load { order = 2; id = "store"; name = "Store"; depends_on = "load" ∷ [] }

abbrev job : Job String
job = record {
  steps = store ∷ load ∷ [];
  failure_policy = fail_fast;
  default_step_retry = no_policy;
  max_concurrency = 4;
}

abbrev options : Options String
options = record { input = "input"; secrets = "secrets"; step_ids = none; reused_results = [] }

-- The first attempt fails, the second gives a value.
abbrev attempt_env : ℕ → AttemptEnv String
attempt_env (suc zero) = record {
  before = live;
  result = err (plain (text "refused"));
  after = live;
  delay = live;
}
attempt_env _ = record { before = live; result = ok "done"; after = live; delay = live }

abbrev step_env : StepEnv String
step_env = record {
  start = live;
  attempts = attempt_env;
  item_attempts = λ i. attempt_env;
  after = live;
}

abbrev round : RoundEnv String
round = record { head = live; events = (0, step_env) ∷ []; tail = live }

abbrev rounds : List (RoundEnv String)
rounds = round ∷ round ∷ []

round-IsLive : IsLive round
round-IsLive i e m = ⊎_elim (λ p. ap (λ (x : ℕ × StepEnv String). x.1.start) p) (λ n. absurd n) m

rounds-IsLive : (env : RoundEnv String) → In env rounds → IsLive env
rounds-IsLive env (inl e) = subst IsLive (sym e) round-IsLive
rounds-IsLive env (inr (inl e)) = subst IsLive (sym e) round-IsLive
rounds-IsLive env (inr (inr n)) = absurd n

job-DistinctIds : DistinctIds job.steps
job-DistinctIds = (
  λ a m e.
      ⊎_elim (λ q. let h : "load" ≡ "store" = sym (ap (λ (x : Step String). x.id) q) ∙ e in cc)
        (λ n. absurd n) m,
  (λ a m. absurd m, tt),
)

abbrev at_start : RunState String String
at_start = init_steps services options (sort_steps job.steps) (empty_state services options)

run_correct_example : RunOk services job options rounds (run services job options none rounds live)
run_correct_example =
    run_correct services job options rounds live job-DistinctIds (omega arith) rounds-IsLive

execute_with_retry_example :
    let result =
      execute_with_retry ok (λ m. m) "Load" (resolve_retry no_policy load.retry) none attempt_env in
    Retried 2 1 none result.0 result.1
unfolding resolve_retry
execute_with_retry_example =
    execute_with_retry-Retried ok (λ m. m) "Load" (resolve_retry no_policy load.retry) none
      attempt_env

execute_step_example :
    (log : StepLog String) × (o : Outcome String) × (execute_step services no_policy load []
        step_env
      ≡ (some log, o))
    × Explains services load [] o log
    × (log.step_id ≡ "load")
execute_step_example = execute_step-Explains services no_policy load [] step_env refl

start_known : FailureKnown (at_start, none)
start_known e =
    init_steps_kept services options (sort_steps job.steps) (empty_state services options)
    ∙ start_clean services job options

start_inv : RunInv job.steps at_start
start_inv = start-RunInv services job options job-DistinctIds

turn_example : TurnOk services job job.steps round at_start (turn services job round none at_start)
turn_example =
    turn-TurnOk services job job.steps round none at_start start_inv start_known
      (DistinctIds-Unique job.steps job-DistinctIds) (omega arith) round-IsLive

skip_blocked_example :
    RunInv job.steps (skip_blocked at_start)
    × Unblocked (skip_blocked at_start)
    × (length (skip_blocked at_start).pending_steps ≤ length at_start.pending_steps)
    × Skips at_start (skip_blocked at_start)
skip_blocked_example = skip_blocked-RunInv job.steps at_start start_inv

cancel_pending_example :
    RunInv job.steps (cancel_pending (because (text "stop")) at_start)
    × ((k : String) → ¬ In k (keys (cancel_pending (because (text "stop")) at_start).pending_steps))
cancel_pending_example = cancel_pending-RunInv job.steps (because (text "stop")) at_start start_inv

abbrev status_of : Option (Returned String String) → Option RunStatus
status_of none = none
status_of (some r) = some r.result.status

-- Both steps succeed at their second attempt.
run_succeeds : status_of (run services job options none rounds live) ≡ some RunStatus.success
unfolding run get put has add delete execute_step execute_with_retry resolve_retry pool_start settle
    String_discrete
run_succeeds = refl
