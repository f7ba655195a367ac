-- ===== src/Types.antt =====
-- src/types/index.ts and src/errors.ts: steps, policies, logs and errors as the runner uses them.
use background_jobs.Prelude.{ℕ, String, Bool, true, false, Option, List}

pub data FailurePolicy : Type 0 where
  fail_fast continue_independent : FailurePolicy

pub data RetryBackoff : Type 0 where
  fixed exponential : RetryBackoff

pub record RetryPolicy : Type 0 where
  pub max_attempts : Option ℕ
  pub delay_ms : Option ℕ
  pub backoff : Option RetryBackoff

pub record FanOutDefinition : Type 0 where
  pub items : String
  pub max_concurrency : Option ℕ

pub data StepStatus : Type 0 where
  pending running success failed skipped cancelled reused : StepStatus

-- `code` of an ExecutionAbortError.
pub data AbortCode : Type 0 where
  execution_cancelled job_timeout server_interrupted : AbortCode

-- The texts of errors: `text` is one that the program is given, the others are its own templates.
pub data Message : Type 0 where
  text : String → Message
  was_cancelled : Message
  circular_or_unresolved : List String → Message
  item_failed : ℕ → Message → Message
  failed_without_error : String → Message
  unsupported_type : String → Message

-- AppError, ExecutionAbortError, and any other Error.
pub data Error : Type 0 where
  app : String → Message → Error
  aborted : AbortCode → Message → Error
  plain : Message → Error

pub data Result {ℓ} (A : Type ℓ) : Type ℓ where
  ok : A → Result A
  err : Error → Result A

-- An AbortSignal: live, or aborted with a reason that is an ExecutionAbortError or something else.
pub data Signal : Type 0 where
  live : Signal
  fired : AbortCode → Message → Signal
  fired_otherwise : Signal

abbrev pub is_fired : Signal → Bool
is_fired live = false
is_fired _ = true

-- `abortError(signal)`
abbrev pub abort_error : Signal → Error
abort_error (fired c m) = aborted c m
abort_error _ = aborted execution_cancelled was_cancelled

-- `throwIfAborted(signal)`
abbrev pub throw_if_aborted {ℓ} : {A : Type ℓ} → Signal → Result A → Result A
throw_if_aborted live k = k
throw_if_aborted (fired c m) k = err (abort_error (fired c m))
throw_if_aborted fired_otherwise k = err (abort_error fired_otherwise)

-- `error instanceof ExecutionAbortError`
abbrev pub is_abort : Error → Bool
is_abort (aborted _ _) = true
is_abort _ = false

abbrev pub message : Error → Message
message (app _ m) = m
message (aborted _ m) = m
message (plain m) = m

-- `signal.aborted ? abortError(signal) : error`
abbrev pub resolve_error : Signal → Error → Error
resolve_error live e = e
resolve_error s e = abort_error s

-- Why a step ended without an output of its own.
pub data Reason : Type 0 where
  because : Message → Reason
  output_reused outside_closure : Reason
  condition_false : String → Reason
  dependencies_failed : List String → Reason
  failure_policy : Message → Reason
  after_failure : Message → Reason

pub record AttemptLog : Type 0 where
  pub attempt : ℕ
  pub item_index : Option ℕ
  pub status : StepStatus
  pub error : Option Error

module _ (Condition : Type 0) where
  pub record Step : Type 0 where
    pub order : ℕ
    pub id : String
    pub name : String
    pub type : String
    pub depends_on : List String
    pub when : Option Condition
    pub foreach : Option FanOutDefinition
    pub retry : RetryPolicy
    pub fail_job_on_failure : Bool

module _ (V : Type 0) where
  -- Without its times; `errorCode` and the error's text are those of `error`.
  pub record StepLog : Type 0 where
    pub step_id : String
    pub step_name : String
    pub step_type : String
    pub status : StepStatus
    pub attempts : List AttemptLog
    pub output : Option V
    pub error : Option Error
    pub reason : Option Reason
