-- ===== src/Runner/Retry.antt =====
-- executeWithRetry, resolveRetry and calculateDelay of src/core/JobRunner.ts. What the executor, the
-- clock and the abort signal do in an attempt is given for each attempt.
pub mod Attempts
use background_jobs.Prelude.{
  ℕ, zero, suc, ◌+◌, ◌-◌, ◌*◌, ◌^◌, String, Bool, true, false, ◌||◌, not, Option, none, some, List,
  [], ◌∷◌, if◌then◌else◌,
}
use background_jobs.Types.{
  RetryPolicy, RetryBackoff, fixed, exponential, StepStatus, success, failed, cancelled, Error,
  plain, failed_without_error, Result, ok, err, app, aborted, Message, Signal, live, fired,
  fired_otherwise, abort_error, resolve_error, throw_if_aborted, is_abort, is_fired, AttemptLog,
}

pub record ResolvedRetryPolicy : Type 0 where
  pub max_attempts : ℕ
  pub delay_ms : ℕ
  pub backoff : RetryBackoff

-- A later spread wins where it has the field.
abbrev pub first_of_three {ℓ} : {A : Type ℓ} → Option A → Option A → A → A
first_of_three (some a) _ _ = a
first_of_three none (some b) _ = b
first_of_three none none c = c

-- `{ MAX_ATTEMPTS: 1, DELAY_MS: 1000, BACKOFF: 'fixed', ...defaultPolicy, ...stepPolicy }`
unfoldable pub resolve_retry : RetryPolicy → RetryPolicy → ResolvedRetryPolicy
resolve_retry default_policy step_policy = record {
  max_attempts = first_of_three step_policy.max_attempts default_policy.max_attempts 1;
  delay_ms = first_of_three step_policy.delay_ms default_policy.delay_ms 1000;
  backoff = first_of_three step_policy.backoff default_policy.backoff fixed;
}

unfoldable pub calculate_delay : ResolvedRetryPolicy → ℕ → ℕ
calculate_delay retry attempt = elim retry.backoff [
  | exponential ↦ retry.delay_ms * 2 ^ (attempt - 1)
  | fixed ↦ retry.delay_ms
]

-- One attempt as the environment makes it: the signal before it, what the executor gives, the
-- signal when that is looked at, and the signal at the end of the delay that follows a failure.
pub record AttemptEnv (V : Type 0) : Type 0 where
  pub before : Signal
  pub result : Result V
  pub after : Signal
  pub delay : Signal

-- `redactManagedSecretError` of src/security/redaction.ts: an AppError keeps its code, any other
-- error becomes a plain one.
abbrev pub redact_error : (Message → Message) → Error → Error
redact_error redact (app code m) = app code (redact m)
redact_error redact (aborted _ m) = plain (redact m)
redact_error redact (plain m) = plain (redact m)

-- `clean` stands for `redactManagedSecrets(normalizeJsonOutput(…))`, `redact` for the redaction of a
-- text.
module _ {V : Type 0} (clean : V → Result V) (redact : Message → Message) where
  -- The `try` block, with the error that its `catch` block resolves.
  pub attempt_once : AttemptEnv V → Result V
  attempt_once a = elim a.result [
    | err e ↦ err (resolve_error a.after (redact_error redact e))
    | ok raw ↦
        throw_if_aborted a.after
          (elim (clean raw) [ ok v ↦ ok v | err e ↦ err (redact_error redact e) ])
  ]

  abbrev pub attempt_log : Option ℕ → ℕ → Result V → AttemptLog
  attempt_log item n (ok _) = record {
    attempt = n;
    item_index = item;
    status = success;
    error = none;
  }
  attempt_log item n (err e) = record {
    attempt = n;
    item_index = item;
    status = if is_abort e then cancelled else failed;
    error = some e;
  }

  -- `lastError ?? new Error(…)`
  abbrev pub last_or : Option Error → String → Error
  last_or (some e) name = e
  last_or none name = plain (failed_without_error name)

  -- `attemptNumber >= MAX_ATTEMPTS`
  abbrev pub is_last : ℕ → Bool
  is_last zero = true
  is_last (suc _) = false

  -- The loop from attempt `n` on, with `left` attempts left. A delay stands between two attempts.
  pub retry_loop :
      String
      → Option ℕ
      → (ℕ → AttemptEnv V)
      → (left n : ℕ) → Option Error
      → List AttemptLog × Result V
  retry_loop name item env zero n last = ([], err (last_or last name))
  retry_loop name item env (suc left) n last =
      let outcome = attempt_once (env n) in
      let log = attempt_log item n outcome in
      elim (is_fired (env n).before) [
        | true ↦ ([], err (abort_error (env n).before))
        | false ↦ elim outcome [
          | ok v ↦ (log ∷ [], ok v)
          | err e ↦ elim (is_abort e) [
            | true ↦ (log ∷ [], err e)
            | false ↦ elim (is_last left || not (is_fired (env n).delay)) [
              | false ↦ (log ∷ [], err (abort_error (env n).delay))
              | true ↦
                  let rest = retry_loop name item env left (n + 1) (some e) in
                  (log ∷ rest.0, rest.1)
            ]
          ]
        ]
      ]

  unfoldable pub execute_with_retry :
      String → ResolvedRetryPolicy → Option ℕ → (ℕ → AttemptEnv V) → List AttemptLog × Result V
  unfolding retry_loop attempt_once
  execute_with_retry name retry item env = retry_loop name item env retry.max_attempts 1 none
