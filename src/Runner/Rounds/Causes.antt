-- ===== src/Runner/Rounds/Causes.antt =====
-- What a turn of the loop of JobRunner.run leaves behind: why it throws, and when it waits.
use background_jobs.Prelude.{
  ℕ, String, Map, all, has, values, In-filter, has-false_iff, ◌⊎◌, ◌<◌, true, false, some, List, [],
  ◌∷◌, length, In, ◌≡◌, refl, sym, ap, subst, inl, inr, arith, Bool-cases, List-cases,
}
use background_jobs.Types.{Step, Error, is_fired, abort_error}
use background_jobs.Runner.{Services}
use background_jobs.Runner.Pool.{Pool, is_done, pool_start}
use background_jobs.Runner.State.{Job, RunState, is_runnable, runnable}
use background_jobs.Runner.State.Invariant.{RunInv}
use background_jobs.Runner.Rounds.{
  Task, RoundEnv, Turn, continues, throws, leaves, waits, run_batch,
}
use background_jobs.Runner.Rounds.Merge.{FailureKnown}

missing :
    (ds : List String) (done : List String)
    → all (λ d. has d done) ds ≡ false
    → (d : String) × In d ds × (¬ In d done)
missing [] done h = absurd (ground arith)
missing (d ∷ ds) done h = elim (Bool-cases (has d done)) [
  | inr e ↦ (d, inl refl, (has-false_iff d done).0 e)
  | inl e ↦ let (x, m, n) = missing ds done (ground arith) in (x, inr m, n)
]

module _ {C : Type 0} where
  values_of :
      (id : String) (step : Step C) (m : Map (Step C)) → In (id, step) m → In step (values m)
  values_of id step [] h = absurd h
  values_of id step ((i, x) ∷ m) (inl e) = inl (ap (λ (p : String × Step C). p.1) e)
  values_of id step ((i, x) ∷ m) (inr h) = inr (values_of id step m h)

module _ {V C : Type 0} where
  -- What a turn that began in `s` leaves behind; `W` holds of one whose tasks do not all settle,
  -- and `E` of an error that is thrown.
  abbrev pub Behind : List (Step C) → Type 0 → (Error → Type 0) → RunState V C → Turn V C → Type 0
  Behind steps W E s (continues t f) =
      RunInv steps t × FailureKnown (t, f) × (length t.pending_steps < length s.pending_steps)
  Behind steps W E s (throws t e) = RunInv steps t × E e
  Behind steps W E s (leaves t f) = RunInv steps t × FailureKnown (t, f) × (t.pending_steps ≡ [])
  Behind steps W E s waits = W

  not_done-running :
      (list : List (Step C)) (p : Pool (Task V C))
      → is_done list p ≡ false
      → (i : ℕ) × In i p.running
  not_done-running list p d = elim (List-cases p.running) [
    | inl e ↦ absurd (ground arith)
    | inr (i, is, e) ↦ (i, subst (In i) (sym e) (inl refl))
  ]

  pub runnable_none :
      (s : RunState V C)
      → runnable s ≡ []
      → (id : String) (step : Step C) → In (id, step) s.pending_steps
      → (d : String) × In d step.depends_on × (¬ In d s.successful)
  runnable_none s e id step m = elim (Bool-cases (is_runnable s step)) [
    | inr n ↦ missing step.depends_on s.successful n
    | inl r ↦ absurd (
        subst (In step) e (
          (In-filter (is_runnable s) step (values s.pending_steps)).1
            (values_of id step s.pending_steps m, r)))
  ]

module _ {V C : Type 0} (services : Services V C) (job : Job C) where
  -- A task of the batch that `env` makes of the runnable steps of `s` runs when the events are over.
  abbrev pub InFlight : RoundEnv V → RunState V C → Type 0
  InFlight env s =
      (i : ℕ) × In i
        (run_batch services job (runnable s)
          (record { pool = pool_start (runnable s) job.max_concurrency; state = s })
          env.events).pool.running

  -- Why a turn throws: the signal has fired at its head or after the batch; or a task gave a reason to
  -- stop; or each step that is pending in `s` has a dependency that is not successful.
  abbrev pub Cause : RoundEnv V → RunState V C → Error → Type 0
  Cause env s e =
      ((is_fired env.head ≡ true) × (e ≡ abort_error env.head))
      ⊎ (((is_fired env.tail ≡ true) × (e ≡ abort_error env.tail))
          ⊎ (((run_batch services job (runnable s)
                  (record { pool = pool_start (runnable s) job.max_concurrency; state = s })
                  env.events).pool.stop
                ≡ some e)
              ⊎ ((id : String) (step : Step C)
                  → In (id, step) s.pending_steps
                  → (d : String) × In d step.depends_on × (¬ In d s.successful))))

  pub not_done-InFlight :
      (env : RoundEnv V) (s : RunState V C) (list : List (Step C))
      → runnable s ≡ list
      → is_done list
          (run_batch services job list
            (record { pool = pool_start list job.max_concurrency; state = s })
            env.events).pool
        ≡ false
      → InFlight env s
  not_done-InFlight env s list e q =
      subst
        (λ xs.
          (i : ℕ) × In i
            (run_batch services job xs
              (record { pool = pool_start xs job.max_concurrency; state = s })
              env.events).pool.running)
        (sym e)
        (not_done-running list
          (run_batch services job list
            (record { pool = pool_start list job.max_concurrency; state = s }) env.events).pool
          q)

  pub stop_of :
      (env : RoundEnv V) (s : RunState V C) (list : List (Step C))
      → runnable s ≡ list
      → (x : Error)
      → (run_batch services job list
          (record { pool = pool_start list job.max_concurrency; state = s })
          env.events).pool.stop
        ≡ some x
      → (run_batch services job
          (runnable s)
          (record { pool = pool_start (runnable s) job.max_concurrency; state = s })
          env.events).pool.stop
        ≡ some x
  stop_of env s list e x q =
      subst
        (λ xs.
          (run_batch services job xs
            (record { pool = pool_start xs job.max_concurrency; state = s }) env.events).pool.stop
          ≡ some x)
        (sym e) q
