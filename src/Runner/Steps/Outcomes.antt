-- ===== src/Runner/Steps/Outcomes.antt =====
-- The log of a step that was begun fits what the batch is told of it.
use background_jobs.Prelude.{
  String, Bool, true, false, none, some, List, Map, ◌≡◌, ◌⊎◌, refl, sym, subst, inl, inr, ⊎_elim,
  arith, Bool-cases, Option-cases,
}
use background_jobs.Types.{
  Step, StepLog, success, failed, skipped, cancelled, Error, Message, app, aborted, plain,
  execution_cancelled, job_timeout, server_interrupted, condition_false, Result, ok, err, live,
  RetryPolicy, resolve_error, AttemptLog,
}
use background_jobs.Runner.{Services}
use background_jobs.Runner.Steps.{
  StepEnv, Outcome, fulfilled, rejected, execute_step, execute_body, check_condition, run_body,
  error_log, success_log, base_log, unstarted_log, cancels,
}

-- The log of a step that is fulfilled says that it succeeded or that its condition was false; of one
-- that is rejected, that it failed or was cancelled.
abbrev pub Fits : {V : Type 0} → Outcome V → StepLog V → Type 0
Fits (fulfilled _) log =
    (log.status ≡ success)
    ⊎ ((log.status ≡ skipped) × (path : String) × (log.reason ≡ some (condition_false path)))
Fits (rejected _) log = (log.status ≡ failed) ⊎ (log.status ≡ cancelled)

-- An abort of the execution, but not by the server's interruption.
abbrev pub IsAbort : Error → Type 0
IsAbort e = (m : Message) × ((e ≡ aborted execution_cancelled m) ⊎ (e ≡ aborted job_timeout m))

module _ {V C : Type 0} (services : Services V C) (step : Step C) (context : Map V) where
  open services use {evaluate, condition_path, null}

  -- What a step's log and outcome say of each other: a value is the output of a success, or comes of a
  -- condition that was false; an error stands in the log, and it is that of the condition, which fails
  -- the step, or an abort, which cancels it, or another, which fails it.
  abbrev pub Explains : Outcome V → StepLog V → Type 0
  Explains (fulfilled v) log =
      ((log.status ≡ success) × (log.output ≡ some v))
      ⊎ ((log.status ≡ skipped)
          × (v ≡ null)
          × (c : C) × (step.when ≡ some c)
          × (evaluate c context ≡ ok false)
          × (log.reason ≡ some (condition_false (condition_path c))))
  Explains (rejected e) log =
      (log.error ≡ some e)
      × (((log.status ≡ failed) × (c : C) × (step.when ≡ some c) × (evaluate c context ≡ err e))
          ⊎ (((log.status ≡ cancelled) × IsAbort e) ⊎ ((log.status ≡ failed) × (¬ IsAbort e))))

  pub Explains-Fits : (o : Outcome V) (log : StepLog V) → Explains o log → Fits o log
  Explains-Fits (fulfilled v) log h =
      ⊎_elim (λ p. inl p.0) (λ (a, _, c, _, _, r). inr (a, condition_path c, r)) h
  Explains-Fits (rejected e) log h =
      ⊎_elim (λ p. inl p.0) (⊎_elim (λ p. inr p.0) (λ p. inl p.0)) h.1

module _ {V C : Type 0} (services : Services V C) (retry : RetryPolicy) (step : Step C)
    (context : Map V) (env : StepEnv V) where
  abbrev ExplainsPair : StepLog V × Outcome V → Type 0
  ExplainsPair p = Explains services step context p.1 p.0 × (p.0.step_id ≡ step.id)

  cancels-IsAbort : (e : Error) → cancels e ≡ true → IsAbort e
  cancels-IsAbort (app c m) q = cc
  cancels-IsAbort (aborted execution_cancelled m) q = (m, inl refl)
  cancels-IsAbort (aborted job_timeout m) q = (m, inr refl)
  cancels-IsAbort (aborted server_interrupted m) q = cc
  cancels-IsAbort (plain m) q = cc

  IsAbort-cancels : (e : Error) → cancels e ≡ false → ¬ IsAbort e
  IsAbort-cancels e q (m, h) = ground arith

  error_log-Explains :
      (attempts : List AttemptLog) (e : Error)
      → ExplainsPair (error_log step attempts e, rejected e)
  error_log-Explains attempts e = elim (Bool-cases (cancels e)) [
    | inl c ↦ ((ground arith, inr (inl (ground arith, cancels-IsAbort e c))), ground arith)
    | inr c ↦ ((ground arith, inr (inr (ground arith, IsAbort-cancels e c))), ground arith)
  ]

  execute_body-Explains : ExplainsPair (execute_body services retry step context env)
  unfolding execute_body
  execute_body-Explains = by_result (run_body services retry step context env).1 refl
    where
      by_result :
          (r : Result V)
          → (run_body services retry step context env).1 ≡ r
          → ExplainsPair (execute_body services retry step context env)
      by_result (ok v) e =
          let q : execute_body services retry step context env
              ≡ (success_log step (run_body services retry step context env).0 v, fulfilled v) =
            ground arith in
          subst ExplainsPair (sym q) (inl (refl, refl), refl)
      by_result (err x) e =
          let logs = (run_body services retry step context env).0 in
          let q : execute_body services retry step context env ≡ (
            error_log step logs (resolve_error env.after x),
            rejected (resolve_error env.after x),
          ) =
            ground arith in
          subst ExplainsPair (sym q) (error_log-Explains logs (resolve_error env.after x))

  check_condition-Explains :
      (p : StepLog V × Outcome V)
      → check_condition services retry step context ≡ some p
      → ExplainsPair p
  unfolding check_condition
  check_condition-Explains p h = elim (Option-cases step.when) [
    | inl e ↦ absurd (none_of e)
    | inr (c, e) ↦ by_answer c e (services.evaluate c context) refl
  ]
    where
      none_of : step.when ≡ none → ⊥
      none_of e = ground arith

      by_answer :
          (c : C)
          → step.when ≡ some c
          → (r : Result Bool) → services.evaluate c context ≡ r
          → ExplainsPair p
      by_answer c e (ok true) q = absurd (ground arith)
      by_answer c e (ok false) q =
          let k : (
            unstarted_log step skipped (condition_false (services.condition_path c)),
            fulfilled services.null,
          )
              ≡ p =
            ground arith in
          subst ExplainsPair k (inr (refl, refl, c, e, q, refl), refl)
      by_answer c e (err x) q =
          let k : (record (base_log step failed) { error = some x }, rejected x) ≡ p =
            ground arith in
          subst ExplainsPair k ((refl, inl (refl, c, e, q)), refl)

  -- With the signal live when it is started, a step has a log under its id, and the log and the outcome
  -- fit. A value is the output of a step that succeeded, or null of one that was skipped since its
  -- condition evaluated to false, which is the log's reason. An error stands in the log: the step
  -- failed by that error of its condition, or it is an abort other than the server's interruption and
  -- the step was cancelled, or it is no such abort and the step failed.
  pub execute_step-Explains :
      env.start ≡ live
      → (log : StepLog V) × (o : Outcome V) × (execute_step services retry step context env
          ≡ (some log, o))
        × Explains services step context o log
        × (log.step_id ≡ step.id)
  unfolding execute_step
  execute_step-Explains s = elim (Option-cases (check_condition services retry step context)) [
    | inl e ↦
        let body = execute_body services retry step context env in
        (body.0, body.1, ground arith, execute_body-Explains.0, execute_body-Explains.1)
    | inr (p, e) ↦
        (p.0, p.1, ground arith, (check_condition-Explains p e).0, (check_condition-Explains p e).1)
  ]
