-- ===== src/Runner/Rounds/Turns.antt =====
-- One turn of the loop of JobRunner.run keeps the invariant, and ends or brings the run nearer its end.
use background_jobs.Prelude.{
  ℕ, ◌<◌, min, Bool, true, false, Option, none, some, List, [], ◌∷◌, keys, length, In, ◌≡◌, refl,
  sym, ap, subst, ◌∙◌, inl, inr, arith, Bool-cases, List-cases,
}
use background_jobs.Types.{
  Step, Error, Signal, is_fired, abort_error, live, failure_policy, message, plain,
  circular_or_unresolved,
}
use background_jobs.Runner.{Services}
use background_jobs.Runner.Pool.{is_done, settled, pool_start}
use background_jobs.Runner.Pool.Invariant.{all_settled}
use background_jobs.Runner.Steps.{StepEnv}
use background_jobs.Runner.State.{Job, RunState, runnable, skip_blocked, cancel_pending}
use background_jobs.Runner.State.Invariant.{RunInv, Unique}
use background_jobs.Runner.State.Blocked.{skip_blocked-RunInv, cancel_pending-RunInv}
use background_jobs.Runner.State.Kept.{skip_blocked_none}
use background_jobs.Runner.State.Sorted.{DistinctIds}
use background_jobs.Runner.Rounds.{
  Task, Batch, RoundEnv, Turn, continues, throws, leaves, waits, run_batch, merge_results,
  after_batch, run_runnable, turn,
}
use background_jobs.Runner.Rounds.Merge.{Merged, FailureKnown, merge_results-Merged}
use background_jobs.Runner.Rounds.Places.{
  Chosen, runnable-Chosen, runnable-DistinctIds, settled_of_place,
}
use background_jobs.Runner.Rounds.Batches.{
  BatchInv, run_batch-BatchInv, start-BatchInv, batch-AllMergeable, batch-DistinctIds,
}
use background_jobs.Runner.Rounds.Causes.{
  Behind, InFlight, Cause, not_done-InFlight, stop_of, runnable_none,
}

-- The tasks of the turn begin while the signal is live.
abbrev pub IsLive : {V : Type 0} → RoundEnv V → Type 0
IsLive env = (i : ℕ) (e : StepEnv _) → In (i, e) env.events → e.start ≡ live

In-length : {A : Type 0} (xs : List A) (a : A) → In a xs → 0 < length xs
In-length [] a m = absurd m
In-length (x ∷ xs) a m = omega arith

module _ {V C : Type 0} (services : Services V C) (job : Job C) where
  abbrev pub TurnOk : List (Step C) → RoundEnv V → RunState V C → Turn V C → Type 0
  TurnOk steps env s t =
      Behind steps (InFlight services job env (skip_blocked s))
        (Cause services job env (skip_blocked s)) s t

module _ {V C : Type 0} (services : Services V C) (job : Job C) (steps : List (Step C)) where
  after_batch-Behind :
      (list : List (Step C)) (W : Type 0) (E : Error → Type 0) (s : RunState V C) (tail : Signal)
      (f : Option Error) (b : Batch V C)
      → BatchInv steps list s (min job.max_concurrency (length list)) b
      → FailureKnown (s, f)
      → DistinctIds list
      → ((a : Step C) → In a list → Chosen steps s a)
      → 0 < job.max_concurrency
      → 0 < length list
      → is_done list b.pool ≡ true
      → (is_fired tail ≡ true → E (abort_error tail))
      → ((x : Error) → b.pool.stop ≡ some x → E x)
      → Behind steps W E s (after_batch services job tail f b)
  unfolding after_batch
  after_batch-Behind list W E s tail f b v k d chosen pos some_step done at_tail at_stop =
      by_signal (is_fired tail) refl b.pool.stop refl
    where
      results : List (Task V C)
      results = settled b.pool.results

      merged : RunState V C × Option Error
      merged = merge_results services job results (b.state, f)

      ok : Merged services job steps (length results) (b.state, f) merged
      ok =
          merge_results-Merged services job steps results b.state f v.inv
            (λ e. v.unsuccessful_kept ∙ k e) (batch-DistinctIds steps list s _ b d v)
            (batch-AllMergeable steps list s _ b chosen v)

      by_signal :
          (fired : Bool)
          → is_fired tail ≡ fired
          → (stop : Option Error) → b.pool.stop ≡ stop
          → Behind steps W E s (after_batch services job tail f b)
      by_signal true e stop q =
          let eq : after_batch services job tail f b ≡ throws merged.0 (abort_error tail) =
            ground arith in
          subst (Behind steps W E s) (sym eq) (ok.inv, at_tail e)
      by_signal false e (some x) q =
          let eq : after_batch services job tail f b
              ≡ throws (cancel_pending (failure_policy (message x)) merged.0) x =
            ground arith in
          subst (Behind steps W E s) (sym eq) (
            (cancel_pending-RunInv steps (failure_policy (message x)) merged.0 ok.inv).0,
            at_stop x q,
          )
      by_signal false e none q =
          let eq : after_batch services job tail f b ≡ continues merged.0 merged.1 = ground arith in
          let (t, at) =
            all_settled list (λ (a : Step C) (t : Task V C). t.step ≡ a)
              (min job.max_concurrency (length list)) b.pool v.pool_inv v.busy (omega arith) done q
              0 some_step in
          let some_result = In-length results t (settled_of_place b.pool.results 0 t at) in
          let same : length b.state.pending_steps ≡ length s.pending_steps =
            ap length v.pending_kept in
          subst (Behind steps W E s) (sym eq)
            (ok.inv, ok.known, omega (arith, ok.shrinks, some_result, same))

  run_runnable-Behind :
      (env : RoundEnv V) (f : Option Error) (s : RunState V C)
      → RunInv steps s
      → FailureKnown (s, f)
      → Unique steps
      → 0 < job.max_concurrency
      → IsLive env
      → Behind steps
          (InFlight services job env s)
          (Cause services job env s)
          s
          (run_runnable services job env f s)
  unfolding run_runnable
  run_runnable-Behind env f s v k u pos live_at = elim (List-cases (runnable s)) [
    | inl e ↦
        let eq : run_runnable services job env f s
            ≡ throws s (plain (circular_or_unresolved (keys s.pending_steps))) =
          ground arith in
        subst (Behind steps (InFlight services job env s) (Cause services job env s) s) (sym eq)
          (v, inr (inr (inr (runnable_none s e))))
    | inr (a, more, e) ↦ of_list (a ∷ more) (omega arith) (a, more, refl) e
  ]
    where
      of_list :
          (list : List (Step C))
          → 0 < length list
          → ((a : Step C) × (more : List (Step C)) × (list ≡ a ∷ more))
          → runnable s ≡ list
          → Behind steps
              (InFlight services job env s)
              (Cause services job env s)
              s
              (run_runnable services job env f s)
      of_list list some_step (a, more, shape) e =
          let d = subst DistinctIds e (runnable-DistinctIds steps s v) in
          let chosen : (x : Step C) → In x list → Chosen steps s x =
            λ x m. runnable-Chosen steps s x v (subst (In x) (sym e) m) in
          let start : Batch V C = record {
            pool = pool_start list job.max_concurrency;
            state = s;
          } in
          let b = run_batch services job list start env.events in
          let bi =
            run_batch-BatchInv services job steps list s (min job.max_concurrency (length list)) u d
              chosen env.events start live_at
              (start-BatchInv steps list s (min job.max_concurrency (length list))
                job.max_concurrency refl v) in
          elim (Bool-cases (is_done list b.pool)) [
            | inl done ↦
                let eq : run_runnable services job env f s ≡ after_batch services job env.tail f b =
                  ground arith in
                subst (Behind steps (InFlight services job env s) (Cause services job env s) s)
                  (sym eq)
                  (after_batch-Behind list (InFlight services job env s) (Cause services job env s)
                    s env.tail f b bi k d chosen pos some_step done (λ r. inr (inl (r, refl)))
                    (λ x q. inr (inr (inl (stop_of services job env s list e x q)))))
            | inr not_done ↦
                let eq : run_runnable services job env f s ≡ waits = ground arith in
                subst (Behind steps (InFlight services job env s) (Cause services job env s) s)
                  (sym eq) (not_done-InFlight services job env s list e not_done)
          ]

  -- A turn keeps the invariant, and throws only for a cause: the signal has fired at its head or after its
  -- batch, a task gave a reason to stop, or no pending step has all its dependencies among the
  -- successful. One that waits has a task in flight when its events are over. One that goes on leaves fewer steps pending, and one that leaves the loop
  -- leaves none; in both, without a failure so far no step is unsuccessful. Its conditions: a worker at
  -- least, distinct ids, and tasks that begin while the signal is live.
  pub turn-TurnOk :
      (env : RoundEnv V) (f : Option Error) (s : RunState V C)
      → RunInv steps s
      → FailureKnown (s, f)
      → Unique steps
      → 0 < job.max_concurrency
      → IsLive env
      → TurnOk services job steps env s (turn services job env f s)
  unfolding turn
  turn-TurnOk env f s v k u pos live_at = elim (Bool-cases (is_fired env.head)) [
    | inl e ↦
        let eq : turn services job env f s ≡ throws s (abort_error env.head) = ground arith in
        subst (TurnOk services job steps env s) (sym eq) (v, inl (e, refl))
    | inr e ↦ elim (List-cases (skip_blocked s).pending_steps) [
      | inl q ↦
          let eq : turn services job env f s ≡ leaves (skip_blocked s) f = ground arith in
          subst (TurnOk services job steps env s) (sym eq) (w, still_known, q)
      | inr (p, rest, q) ↦
          let eq : turn services job env f s ≡ run_runnable services job env f (skip_blocked s) =
            ground arith in
          subst (TurnOk services job steps env s) (sym eq) (
            nearer (run_runnable services job env f (skip_blocked s))
              (run_runnable-Behind env f (skip_blocked s) w still_known u pos live_at))
    ]
  ]
    where
      w : RunInv steps (skip_blocked s)
      w = (skip_blocked-RunInv steps s v).0

      still_known : FailureKnown (skip_blocked s, f)
      still_known e = ap (λ (x : RunState V C). x.unsuccessful) (skip_blocked_none s (k e)) ∙ k e

      nearer :
          (t : Turn V C)
          → Behind steps
              (InFlight services job env (skip_blocked s))
              (Cause services job env (skip_blocked s))
              (skip_blocked s)
              t
          → TurnOk services job steps env s t
      nearer (continues t g) (x, y, z) = (x, y, omega (arith, (skip_blocked-RunInv steps s v).2))
      nearer (throws t x) h = h
      nearer (leaves t g) h = h
      nearer waits h = h
