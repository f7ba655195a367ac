-- ===== src/Runner/Rounds/Endings.antt =====
-- What a run of JobRunner.run that ends has done.
use background_jobs.Prelude.{
  ◌≤◌, ◌<◌, String, Option, none, some, List, [], ◌∷◌, Map, get, keys, length, In, ◌≡◌, ◌≢◌, ◌⊎◌,
  refl, sym, ap, subst, ◌∙◌, inl, inr, ⊎_elim, arith, List-cases,
}
use background_jobs.Types.{
  Step, StepLog, Error, Signal, because, after_failure, message, resolve_error, app, plain, aborted,
  AbortCode,
}
use background_jobs.Runner.{Services}
use background_jobs.Runner.State.{
  Job, Options, RunState, cancel_pending, cancel_steps, skip_blocked, init_steps, sort_steps,
}
use background_jobs.Runner.State.Invariant.{RunInv, HasLog, IsMet, IsGood, IsBad, Ran, Unique}
use background_jobs.Runner.State.Blocked.{cancel_pending-RunInv}
use background_jobs.Runner.State.Kept.{init_steps_kept, length-init_steps, length-sort_steps}
use background_jobs.Runner.State.Sorted.{
  DistinctIds, DistinctIds-Unique, In-sort_steps, sort_steps-DistinctIds,
}
use background_jobs.Runner.State.Start.{init_steps-RunInv}
use background_jobs.Runner.Rounds.{
  RoundEnv, Turn, continues, throws, leaves, waits, turn, Ending, left, thrown, unfinished,
  RunStatus, JobRunResult, Returned, fail_run, succeed, conclude, empty_state, run_turns, run,
  abort_status,
}
use background_jobs.Runner.Rounds.Merge.{FailureKnown}
use background_jobs.Runner.Rounds.Turns.{IsLive, TurnOk, turn-TurnOk}
use background_jobs.Runner.Rounds.Causes.{InFlight}

abort_status-not_success : (c : AbortCode) → abort_status c ≢ RunStatus.success
abort_status-not_success c = ground arith

module _ {V : Type 0} where
  abbrev Ended : StepLog V → Type 0
  Ended log = IsGood log ⊎ IsBad log

  HasLog-weaken :
      (P Q : StepLog V → Type 0) (id : String) (m : Map (StepLog V))
      → ((z : StepLog V) → P z → Q z)
      → HasLog P id m
      → HasLog Q id m
  HasLog-weaken P Q id m h (l, e, p) = (l, e, h l p)

module _ {V C : Type 0} where
  -- What the result of a run says of the job's steps.
  pub record RunEnds (steps : List (Step C)) (r : JobRunResult V) : Type 0 where
    pub ended : (a : Step C) → In a steps → HasLog Ended a.id r.step_results
    pub ordered :
        (a : Step C)
        → In a steps
        → HasLog Ran a.id r.step_results
        → (d : String) → In d a.depends_on
        → HasLog IsMet d r.step_results
    pub all_good :
        r.status ≡ RunStatus.success → (a : Step C) → In a steps → HasLog IsGood a.id r.step_results

  ends_of_inv :
      (steps : List (Step C)) (s : RunState V C) (r : JobRunResult V)
      → RunInv steps s
      → ((k : String) → ¬ In k (keys s.pending_steps))
      → r.step_results ≡ s.results
      → (r.status ≡ RunStatus.success → s.unsuccessful ≡ [])
      → RunEnds steps r
  ends_of_inv steps s r v idle same clean = record {
    ended = λ a m. subst (HasLog Ended a.id) (sym same) (
        ⊎_elim (λ k. absurd (idle a.id k))
          (⊎_elim (HasLog-weaken IsGood Ended a.id s.results (λ z. inl))
            (λ (b, u). HasLog-weaken IsBad Ended a.id s.results (λ z. inr) b))
          (v.accounted a m));
    ordered = λ a m ran d k.
        subst (HasLog IsMet d) (sym same)
          (v.successes d (v.ordered a m (subst (HasLog Ran a.id) same ran) d k)).1;
    all_good = λ e a m. subst (HasLog IsGood a.id) (sym same) (
        ⊎_elim (λ k. absurd (idle a.id k))
          (⊎_elim (λ g. g) (λ (b, u). absurd (subst (In a.id) (clean e) u))) (v.accounted a m));
  }

  fail_run-RunEnds :
      (steps : List (Step C)) (s : RunState V C) (e : Error)
      → RunInv steps s
      → RunEnds steps (fail_run s e).result
  unfolding fail_run
  fail_run-RunEnds steps s (aborted c m) v =
      let (w, idle) = cancel_pending-RunInv steps (because m) s v in
      ends_of_inv steps (cancel_pending (because m) s) _ w idle refl
        (λ q. absurd (abort_status-not_success c q))
  fail_run-RunEnds steps s (app c m) v =
      let (w, idle) = cancel_pending-RunInv steps (after_failure (message (app c m))) s v in
      ends_of_inv steps (cancel_pending (after_failure (message (app c m))) s) _ w idle refl
        (λ q. cc)
  fail_run-RunEnds steps s (plain m) v =
      let (w, idle) = cancel_pending-RunInv steps (after_failure (message (plain m))) s v in
      ends_of_inv steps (cancel_pending (after_failure (message (plain m))) s) _ w idle refl
        (λ q. cc)

  succeed-RunEnds :
      (steps : List (Step C)) (s : RunState V C)
      → RunInv steps s
      → s.pending_steps ≡ []
      → s.unsuccessful ≡ []
      → RunEnds steps (succeed s).result
  unfolding succeed
  succeed-RunEnds steps s v idle clean =
      ends_of_inv steps s _ v (λ k m. subst (λ p. In k (keys p)) idle m) refl (λ q. clean)

module _ {V C : Type 0} (services : Services V C) (job : Job C) (steps : List (Step C)) where
  -- One of the turns that follow each other from `s` on leaves a task in flight.
  pub Waits : List (RoundEnv V) → Option Error → RunState V C → Type 0
  Waits [] f s = ⊥
  Waits (env ∷ envs) f s =
      ((turn services job env f s ≡ waits) × InFlight services job env (skip_blocked s))
      ⊎ ((t : RunState V C) × (g : Option Error) × (turn services job env f s ≡ continues t g)
          × Waits envs g t)

  -- How the loop over `envs`, from `s` on, ends.
  abbrev EndingOk : List (RoundEnv V) → Option Error → RunState V C → Ending V C → Type 0
  EndingOk envs g s (left t f) = RunInv steps t × FailureKnown (t, f) × (t.pending_steps ≡ [])
  EndingOk envs g s (thrown t e) = RunInv steps t
  EndingOk envs g s unfinished = (length envs < length s.pending_steps) ⊎ Waits envs g s

  later-EndingOk :
      (env : RoundEnv V) (envs : List (RoundEnv V)) (f g : Option Error) (s t : RunState V C)
      (e : Ending V C)
      → turn services job env f s ≡ continues t g
      → length t.pending_steps < length s.pending_steps
      → EndingOk envs g t e
      → EndingOk (env ∷ envs) f s e
  unfolding Waits
  later-EndingOk env envs f g s t (left u _) q lt h = h
  later-EndingOk env envs f g s t (thrown u x) q lt h = h
  later-EndingOk env envs f g s t unfinished q lt h =
      ⊎_elim (λ k. inl (omega arith)) (λ w. inr (inr (t, g, q, w))) h

  run_turns-EndingOk :
      (envs : List (RoundEnv V)) (f : Option Error) (s : RunState V C)
      → RunInv steps s
      → FailureKnown (s, f)
      → Unique steps
      → 0 < job.max_concurrency
      → ((env : RoundEnv V) → In env envs → IsLive env)
      → EndingOk envs f s (run_turns services job envs f s)
  unfolding run_turns Waits
  run_turns-EndingOk [] f s v k u pos live_at = elim (List-cases s.pending_steps) [
    | inl e ↦
        let eq : run_turns services job [] f s ≡ left s f = ground arith in
        subst (EndingOk [] f s) (sym eq) (v, k, e)
    | inr (p, rest, e) ↦
        let eq : run_turns services job [] f s ≡ unfinished = ground arith in
        subst (EndingOk [] f s) (sym eq) (inl (omega (arith, ap length e)))
  ]
  run_turns-EndingOk (env ∷ envs) f s v k u pos live_at = elim (List-cases s.pending_steps) [
    | inl e ↦
        let eq : run_turns services job (env ∷ envs) f s ≡ left s f = ground arith in
        subst (EndingOk (env ∷ envs) f s) (sym eq) (v, k, e)
    | inr (p, rest, e) ↦
        by_turn p rest e
          (λ t g w n. run_turns-EndingOk envs g t w n u pos (λ x m. live_at x (inr m)))
          (turn services job env f s) refl
          (turn-TurnOk services job steps env f s v k u pos (live_at env (inl refl)))
  ]
    where
      by_turn :
          (p : String × Step C) (rest : Map (Step C))
          → s.pending_steps ≡ p ∷ rest
          → ((t : RunState V C) (g : Option Error)
              → RunInv steps t
              → FailureKnown (t, g)
              → EndingOk envs g t (run_turns services job envs g t))
          → (t : Turn V C) → turn services job env f s ≡ t
          → TurnOk services job steps env s t
          → EndingOk (env ∷ envs) f s (run_turns services job (env ∷ envs) f s)
      by_turn p rest e later (continues t g) q (w, n, lt) =
          let eq : run_turns services job (env ∷ envs) f s ≡ run_turns services job envs g t =
            ground arith in
          subst (EndingOk (env ∷ envs) f s) (sym eq)
            (later-EndingOk env envs f g s t (run_turns services job envs g t) q lt (later t g w n))
      by_turn p rest e later (throws t x) q h =
          let eq : run_turns services job (env ∷ envs) f s ≡ thrown t x = ground arith in
          subst (EndingOk (env ∷ envs) f s) (sym eq) h.0
      by_turn p rest e later (leaves t g) q h =
          let eq : run_turns services job (env ∷ envs) f s ≡ left t g = ground arith in
          subst (EndingOk (env ∷ envs) f s) (sym eq) h
      by_turn p rest e later waits q h =
          let eq : run_turns services job (env ∷ envs) f s ≡ unfinished = ground arith in
          subst (EndingOk (env ∷ envs) f s) (sym eq) (inr (inl (q, h)))

module _ {V C : Type 0} (services : Services V C) (job : Job C) where
  -- A run that has no result was given too few turns, or a turn whose tasks do not all settle.
  abbrev pub RunOk : Options V → List (RoundEnv V) → Option (Returned V C) → Type 0
  RunOk options envs none =
      (length envs < length job.steps)
      ⊎ Waits services job job.steps envs none
          (init_steps services options (sort_steps job.steps) (empty_state services options))
  RunOk options envs (some r) = RunEnds job.steps r.result

  conclude-RunOk :
      (options : Options V) (envs : List (RoundEnv V)) (signal : Signal) (s : RunState V C)
      (e : Ending V C)
      → s ≡ init_steps services options (sort_steps job.steps) (empty_state services options)
      → length s.pending_steps ≤ length job.steps
      → EndingOk services job job.steps envs none s e
      → RunOk options envs (conclude signal e)
  unfolding conclude
  conclude-RunOk options envs signal s (left t none) q le (v, k, idle) =
      succeed-RunEnds job.steps t v idle (k refl)
  conclude-RunOk options envs signal s (left t (some x)) q le (v, k, idle) =
      fail_run-RunEnds job.steps t (resolve_error signal x) v
  conclude-RunOk options envs signal s (thrown t x) q le v =
      fail_run-RunEnds job.steps t (resolve_error signal x) v
  conclude-RunOk options envs signal s unfinished q le h =
      ⊎_elim (λ k. inl (omega arith))
        (λ w. inr (subst (Waits services job job.steps envs none) q w)) h

  empty-RunInv : (options : Options V) → RunInv [] (empty_state services options)
  unfolding empty_state get
  empty-RunInv options = record {
    entries = λ id a m. absurd m;
    distinct = tt;
    accounted = λ a m. absurd m;
    ordered = λ a m. absurd m;
    successes = λ d m. absurd m;
    named = λ d m. absurd m;
    idle = λ id log e. cc;
  }

  pub start_clean : (options : Options V) → (empty_state services options).unsuccessful ≡ []
  unfolding empty_state
  start_clean options = refl

  start_length :
      (options : Options V)
      → length
          (init_steps services options
            (sort_steps job.steps)
            (empty_state services options)).pending_steps
        ≤ length job.steps
  unfolding empty_state
  start_length options = omega (
    arith,
    length-init_steps services options (sort_steps job.steps) (empty_state services options),
    length-sort_steps job.steps,
  )

  pub start-RunInv :
      (options : Options V)
      → DistinctIds job.steps
      → RunInv job.steps
          (init_steps services options (sort_steps job.steps) (empty_state services options))
  unfolding empty_state
  start-RunInv options d =
      init_steps-RunInv services options (sort_steps job.steps) [] (empty_state services options)
        (empty-RunInv options) (sort_steps-DistinctIds job.steps d) (λ a m b n. absurd n) job.steps
        (λ a. (
          λ m. ⊎_elim ((In-sort_steps a job.steps).0) (λ n. absurd n) m,
          λ m. inl ((In-sort_steps a job.steps).1 m),
        ))

  -- Of a run of a valid definition: when it returns, every step has ended, a step whose work was begun
  -- has only dependencies that ended well, and if the status is success all steps ended well; and it
  -- returns, unless there are fewer turns than steps or a turn's tasks do not all settle. Its conditions:
  -- distinct step ids, a worker at least, and tasks that begin while the signal is live.
  pub run_correct :
      (options : Options V) (envs : List (RoundEnv V)) (signal : Signal)
      → DistinctIds job.steps
      → 0 < job.max_concurrency
      → ((env : RoundEnv V) → In env envs → IsLive env)
      → RunOk options envs (run services job options none envs signal)
  unfolding run
  run_correct options envs signal d pos live_at =
      let s = init_steps services options (sort_steps job.steps) (empty_state services options) in
      conclude-RunOk options envs signal s (run_turns services job envs none s) refl
        (start_length options)
        (run_turns-EndingOk services job job.steps envs none s (start-RunInv options d)
          (λ e.
            init_steps_kept services options (sort_steps job.steps) (empty_state services options)
            ∙ start_clean options)
          (DistinctIds-Unique job.steps d) pos live_at)

  fail_run_empty :
      (options : Options V) (e : Error)
      → ((fail_run (empty_state services options) e).result.step_results ≡ [])
        × ((fail_run (empty_state services options) e).result.status ≢ RunStatus.success)
  unfolding fail_run empty_state cancel_pending cancel_steps
  fail_run_empty options (aborted c m) = (refl, abort_status-not_success c)
  fail_run_empty options (app c m) = (refl, λ q. ground arith)
  fail_run_empty options (plain m) = (refl, λ q. ground arith)

  -- A run of a definition that is refused ends without success, and no step has a result.
  pub run_refused :
      (options : Options V) (e : Error) (envs : List (RoundEnv V)) (signal : Signal)
      → (r : Returned V C) × (run services job options (some e) envs signal ≡ some r)
        × (r.result.step_results ≡ [])
        × (r.result.status ≢ RunStatus.success)
  unfolding run conclude
  run_refused options e envs signal =
      let s = empty_state services options in
      let (a, b) = fail_run_empty options (resolve_error signal e) in
      (fail_run s (resolve_error signal e), refl, a, b)
