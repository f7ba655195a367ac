-- ===== src/Tests/Accepted.antt =====
-- The definition of Tests/Definitions, run.
use background_jobs.Prelude.{
  ℕ, String, true, none, List, [], ◌∷◌, In, refl, inl, inr, ⊎_elim, sym, ap, subst,
}
use background_jobs.Types.{live, ok}
use background_jobs.Json.{Json, null, number, whole, array, string, object, of_elements, end}
use background_jobs.Workflow.Conditions.{WorkflowCondition}
use background_jobs.Runner.{Services}
use background_jobs.Runner.State.{Options}
use background_jobs.Runner.Retry.{AttemptEnv}
use background_jobs.Runner.Steps.{StepEnv}
use background_jobs.Runner.Rounds.{RoundEnv}
use background_jobs.Runner.Rounds.Turns.{IsLive}
use background_jobs.Validation.{ValidationIssue}
use background_jobs.Validation.Definition.{assert_valid_job_definition}
use background_jobs.Accepted.{run_definition}
use background_jobs.Accepted.Runs.{Runs, run_definition-Runs}
use background_jobs.Tests.Definitions.{plain, plugins, definition}

abbrev given : Services Json WorkflowCondition
given = record {
  condition_path = λ c. c.path;
  evaluate = λ c context. ok true;
  fan_out_items = λ path context. ok [];
  supports = λ type. true;
  clean = λ context v. ok v;
  redact = λ context m. m;
  null = null;
  undefined = null;
  array = λ xs. array (of_elements xs);
  number = λ n. number (whole n);
}

abbrev options : Options Json
options = record { input = object end; secrets = object end; step_ids = none; reused_results = [] }

abbrev one_second : Json → ℕ
one_second d = 1000

abbrev summary : List ValidationIssue → String
summary es = "invalid"

abbrev attempt_env : ℕ → AttemptEnv Json
attempt_env n = record { before = live; result = ok (string "done"); after = live; delay = live }

abbrev step_env : StepEnv Json
step_env = record {
  start = live;
  attempts = attempt_env;
  item_attempts = λ i. attempt_env;
  after = live;
}

abbrev round : RoundEnv Json
round = record { head = live; events = (0, step_env) ∷ []; tail = live }

abbrev rounds : List (RoundEnv Json)
rounds = round ∷ round ∷ []

round-IsLive : IsLive round
round-IsLive i e m = ⊎_elim (λ p. ap (λ (x : ℕ × StepEnv Json). x.1.start) p) (λ n. absurd n) m

rounds-IsLive : (env : RoundEnv Json) → In env rounds → IsLive env
rounds-IsLive env (inl e) = subst IsLive (sym e) round-IsLive
rounds-IsLive env (inr (inl e)) = subst IsLive (sym e) round-IsLive
rounds-IsLive env (inr (inr n)) = absurd n

run_definition_example :
    Runs plain one_second plugins given summary options rounds
      (assert_valid_job_definition plain plugins definition)
      (run_definition plain one_second plugins given summary definition options rounds live)
run_definition_example =
    run_definition-Runs plain one_second plugins given summary (λ s. refl) definition options rounds
      live rounds-IsLive
