-- ===== src/Runner.antt =====
-- src/core/JobRunner.ts: what it calls of other parts of the program, as an interface.
pub mod Retry
pub mod Pool
pub mod Steps
pub mod State
pub mod Rounds
use background_jobs.Prelude.{ℕ, String, Bool, List, Map}
use background_jobs.Types.{Result, Message}

-- `V` is a JSON value, `C` the condition of a step. `evaluate` and `fan_out_items` stand for the
-- functions of src/utils/workflowExpressions.ts, `supports` for the executor registry, `clean` for
-- normalizeJsonOutput and redaction, `redact` for redactManagedSecretText; both see the context.
pub record Services (V C : Type 0) : Type 0 where
  pub condition_path : C → String
  pub evaluate : C → Map V → Result Bool
  pub fan_out_items : String → Map V → Result (List V)
  pub supports : String → Bool
  pub clean : Map V → V → Result V
  pub redact : Map V → Message → Message
  pub null : V
  pub undefined : V
  pub array : List V → V
  pub number : ℕ → V
