-- ===== src/Runner/Retry/Attempts.antt =====
-- The attempts that executeWithRetry makes and logs.
use background_jobs.Prelude.{
  ℕ, zero, suc, ◌+◌, ◌≤◌, String, true, false, ◌||◌, not, Option, none, some, List, [], ◌∷◌, ◌++◌,
  length, AllIn, ◌≡◌, ◌⊎◌, refl, inl, inr, arith, ap, sym, subst, Bool-cases,
}
use background_jobs.Types.{
  success, failed, cancelled, Error, Message, Result, ok, err, Signal, live, fired, fired_otherwise,
  is_abort, AttemptLog, is_fired, abort_error,
}
use background_jobs.Runner.Retry.{
  ResolvedRetryPolicy, AttemptEnv, attempt_once, retry_loop, execute_with_retry, is_last,
  attempt_log, last_or,
}

abbrev pub IsFailed : AttemptLog → Type 0
IsFailed l = l.status ≡ failed

abbrev pub IsUnsuccessful : AttemptLog → Type 0
IsUnsuccessful l = (l.status ≡ failed) ⊎ (l.status ≡ cancelled)

-- The logs are numbered from `n` on, all for one item.
abbrev pub Numbered : ℕ → Option ℕ → List AttemptLog → Type 0
Numbered n item [] = Unit
Numbered n item (l ∷ ls) = (l.attempt ≡ n) × (l.item_index ≡ item) × Numbered (n + 1) item ls

-- What holds of the attempts when at most `left` may be made.
pub record Retried {V : Type 0} (left n : ℕ) (item : Option ℕ) (logs : List AttemptLog)
    (r : Result V) : Type 0 where
  pub numbered : Numbered n item logs
  pub bounded : length logs ≤ left
  pub on_success :
      (v : V)
      → r ≡ ok v
      → (init : List AttemptLog) × (l : AttemptLog) × (logs ≡ init ++ l ∷ [])
        × AllIn IsFailed init
        × (l.status ≡ success)
  pub on_failure :
      (e : Error) → r ≡ err e → is_abort e ≡ false → (length logs ≡ left) × AllIn IsFailed logs
  pub on_abort : (e : Error) → r ≡ err e → is_abort e ≡ true → AllIn IsUnsuccessful logs

Signal-abort : (s : Signal) → is_abort (abort_error s) ≡ true
Signal-abort live = refl
Signal-abort (fired c m) = refl
Signal-abort fired_otherwise = refl

module _ {V : Type 0} (clean : V → Result V) (redact : Message → Message) (name : String)
    (item : Option ℕ) (env : ℕ → AttemptEnv V) where
  -- One more failed attempt in front.
  Retried-failed :
      (left n : ℕ) (l : AttemptLog) (logs : List AttemptLog) (r : Result V)
      → l.attempt ≡ n
      → l.item_index ≡ item
      → IsFailed l
      → Retried left (n + 1) item logs r
      → Retried (suc left) n item (l ∷ logs) r
  Retried-failed left n l logs r a i f h = record {
    numbered = (a, i, h.numbered);
    bounded = omega (arith, h.bounded);
    on_success = λ v e.
        let (init, last, q, fs, s) = h.on_success v e in
        (l ∷ init, last, ap (λ t. l ∷ t) q, (f, fs), s);
    on_failure = λ e q b. let (k, fs) = h.on_failure e q b in (omega (arith, k), (f, fs));
    on_abort = λ e q b. (inl f, h.on_abort e q b);
  }

  -- An attempt that ends the loop with an abort.
  Retried-aborted :
      (left n : ℕ) (l : AttemptLog) (e : Error)
      → l.attempt ≡ n
      → l.item_index ≡ item
      → IsUnsuccessful l
      → is_abort e ≡ true
      → Retried {V = V} (suc left) n item (l ∷ []) (err e)
  Retried-aborted left n l e a i u b = record {
    numbered = (a, i, tt);
    bounded = omega arith;
    on_success = λ v q. cc;
    on_failure = λ e' q c. ground arith;
    on_abort = λ e' q c. (u, tt);
  }

  abbrev RetriedBy : ℕ → ℕ → List AttemptLog × Result V → Type 0
  RetriedBy left n p = Retried left n item p.0 p.1

  Retried-nothing :
      (left n : ℕ) (e : Error) → (left ≡ 0) ⊎ (is_abort e ≡ true) → RetriedBy left n ([], err e)
  Retried-nothing left n e h = record {
    numbered = tt;
    bounded = omega arith;
    on_success = λ v q. cc;
    on_failure = λ e' q b. (ground arith, tt);
    on_abort = λ e' q b. tt;
  }

  Retried-success :
      (left n : ℕ) (v : V)
      → RetriedBy (suc left) n (attempt_log clean redact item n (ok v) ∷ [], ok v)
  Retried-success left n v = record {
    numbered = (refl, refl, tt);
    bounded = omega arith;
    on_success = λ w q. ([], attempt_log clean redact item n (ok v), refl, tt, refl);
    on_failure = λ e' q b. cc;
    on_abort = λ e' q b. cc;
  }

  Result-cases : (r : Result V) → ((v : V) × (r ≡ ok v)) ⊎ ((e : Error) × (r ≡ err e))
  Result-cases (ok v) = inl (v, refl)
  Result-cases (err e) = inr (e, refl)

  abbrev loop : ℕ → ℕ → Option Error → List AttemptLog × Result V
  loop left n last = retry_loop clean redact name item env left n last

  abbrev log_of : ℕ → Error → AttemptLog
  log_of n e = attempt_log clean redact item n (err e)

  fired_abort : (s : Signal) → is_fired s ≡ true → is_abort (abort_error s) ≡ true
  fired_abort s h = Signal-abort s

  -- The cases of one round; the rest of the loop is taken as done.
  round-Retried :
      (left n : ℕ) (last : Option Error)
      → ((e : Error) → RetriedBy left (n + 1) (loop left (n + 1) (some e)))
      → RetriedBy (suc left) n (loop (suc left) n last)
  unfolding retry_loop
  round-Retried left n last ih = elim (Bool-cases (is_fired (env n).before)) [
    | inl f ↦
        subst (RetriedBy (suc left) n) (sym (by_fired f))
          (Retried-nothing (suc left) n _ (inr (Signal-abort (env n).before)))
    | inr f ↦ elim (Result-cases (attempt_once clean redact (env n))) [
      | inl (v, o) ↦ subst (RetriedBy (suc left) n) (sym (by_ok f v o)) (Retried-success left n v)
      | inr (e, o) ↦ elim (Bool-cases (is_abort e)) [
        | inl a ↦
            subst (RetriedBy (suc left) n) (sym (by_abort f e o a))
              (Retried-aborted left n (log_of n e) e refl refl (inr (ground arith)) a)
        | inr a ↦ elim (Bool-cases (is_last clean redact left || not (is_fired (env n).delay))) [
          | inl g ↦
              subst (RetriedBy (suc left) n) (sym (by_next f e o a g))
                (Retried-failed left n (log_of n e) _ _ refl refl (ground arith) (ih e))
          | inr g ↦ subst (RetriedBy (suc left) n) (sym (by_delay f e o a g)) (
              Retried-aborted left n (log_of n e) _ refl refl (inl (ground arith))
                (Signal-abort (env n).delay))
        ]
      ]
    ]
  ]
    where
      by_fired :
          is_fired (env n).before ≡ true
          → loop (suc left) n last ≡ ([], err (abort_error (env n).before))
      by_fired f = ground arith

      by_ok :
          is_fired (env n).before ≡ false
          → (v : V) → attempt_once clean redact (env n) ≡ ok v
          → loop (suc left) n last ≡ (attempt_log clean redact item n (ok v) ∷ [], ok v)
      by_ok f v o = ground arith

      by_abort :
          is_fired (env n).before ≡ false
          → (e : Error) → attempt_once clean redact (env n) ≡ err e
          → is_abort e ≡ true
          → loop (suc left) n last ≡ (log_of n e ∷ [], err e)
      by_abort f e o a = ground arith

      by_delay :
          is_fired (env n).before ≡ false
          → (e : Error) → attempt_once clean redact (env n) ≡ err e
          → is_abort e ≡ false
          → (is_last clean redact left || not (is_fired (env n).delay)) ≡ false
          → loop (suc left) n last ≡ (log_of n e ∷ [], err (abort_error (env n).delay))
      by_delay f e o a g = ground arith

      by_next :
          is_fired (env n).before ≡ false
          → (e : Error) → attempt_once clean redact (env n) ≡ err e
          → is_abort e ≡ false
          → (is_last clean redact left || not (is_fired (env n).delay)) ≡ true
          → loop (suc left) n last
            ≡ (log_of n e ∷ (loop left (n + 1) (some e)).0, (loop left (n + 1) (some e)).1)
      by_next f e o a g = ground arith

  retry_loop-Retried : (left n : ℕ) (last : Option Error) → RetriedBy left n (loop left n last)
  unfolding retry_loop
  retry_loop-Retried zero n last =
      Retried-nothing zero n (last_or clean redact last name) (inl refl)
  retry_loop-Retried (suc left) n last =
      round-Retried left n last (λ e. retry_loop-Retried left (n + 1) (some e))

-- The attempts of a step or an item are numbered from 1 without a gap, and are no more than the
-- policy allows. If the call returns a value, the last attempt succeeded and all before it failed.
-- If it throws an error that is no abort, every attempt that the policy allows was made and failed.
-- If it throws an abort, no attempt succeeded.
pub execute_with_retry-Retried :
    {V : Type 0} (clean : V → Result V) (redact : Message → Message) (name : String)
    (retry : ResolvedRetryPolicy) (item : Option ℕ) (env : ℕ → AttemptEnv V)
    → let run = execute_with_retry clean redact name retry item env in
      Retried retry.max_attempts 1 item run.0 run.1
unfolding execute_with_retry
execute_with_retry-Retried clean redact name retry item env =
    retry_loop-Retried clean redact name item env retry.max_attempts 1 none
