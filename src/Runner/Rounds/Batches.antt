-- ===== src/Runner/Rounds/Batches.antt =====
-- A batch of the run: the pool of its tasks and the logs that they write.
use background_jobs.Prelude.{
  ℕ, ◌<◌, min, true, Option, none, some, List, [], ◌∷◌, map, put, keys, length, get_elem?, get-put,
  In, ◌≡◌, ◌≢◌, refl, sym, ap, subst, ◌∙◌, inl, inr, ⊎_elim, arith, Option-cases, String_discrete,
}
use native.Mathlib.Decide.{ℕ_discrete}
use background_jobs.Types.{Step, StepLog, running, live, Error}
use background_jobs.Runner.{Services}
use background_jobs.Runner.Pool.{has_ℕ, pool_start, settle, settled}
use background_jobs.Runner.Pool.Places.{
  settle_results, pool_start_results, get_elem?-set, get_elem?_lt,
}
use background_jobs.Runner.Pool.Invariant.{
  PoolInv, Busy, no_result, settle-PoolInv, pool_start-PoolInv,
}
use background_jobs.Runner.Steps.{StepEnv, Outcome, fulfilled, rejected, execute_step}
use background_jobs.Runner.Steps.Outcomes.{Fits, Explains-Fits, execute_step-Explains}
use background_jobs.Runner.State.{Job, RunState, finish_log}
use background_jobs.Runner.State.Invariant.{
  RunInv, HasLog, IsMet, IsGood, IsBad, Ran, Unique, HasLog-put_self, HasLog-put_ne, HasLog-of_put,
}
use background_jobs.Runner.State.Sorted.{DistinctIds}
use background_jobs.Runner.Rounds.{Task, Batch, stop_reason, is_running_at, batch_event, run_batch}
use background_jobs.Runner.Rounds.Merge.{step_of, AllMergeable}
use background_jobs.Runner.Rounds.Places.{
  Chosen, DistinctIds-places, DistinctIds-settled, place_of_settled, In-get_elem?,
}

module _ {V C : Type 0} where
  finish_log-RunInv :
      (steps : List (Step C)) (s : RunState V C) (step : Step C) (log : StepLog V)
      → Unique steps
      → RunInv steps s
      → Chosen steps s step
      → log.status ≢ running
      → RunInv steps (finish_log step.id log s)
  finish_log-RunInv steps s step log u v c r = record {
    entries = v.entries;
    distinct = v.distinct;
    accounted = λ a m. elim (String_discrete a.id step.id) [
      | yes e ↦ inl (subst (λ x. In x (keys s.pending_steps)) (sym e) c.open_still)
      | no n ↦
          ⊎_elim inl
            (λ o. inr (
              ⊎_elim (λ g. inl (HasLog-put_ne IsGood step.id a.id log s.results n g))
                (λ (b, k). inr (HasLog-put_ne IsBad step.id a.id log s.results n b, k)) o))
            (v.accounted a m)
    ];
    ordered = λ a m ran d k. elim (String_discrete a.id step.id) [
      | yes e ↦ c.ready d (subst (λ (x : Step C). In d x.depends_on) (u a step m c.member e) k)
      | no n ↦ v.ordered a m (HasLog-of_put Ran step.id a.id log s.results n ran) d k
    ];
    successes = λ d h.
        let (n, g) = v.successes d h in
        (
          n,
          HasLog-put_ne IsMet step.id d log s.results
              (λ e. n (subst (λ x. In x (keys s.pending_steps)) (sym e) c.open_still)) g,
        );
    named = v.named;
    idle = λ j l e. ground (arith, get-put j step.id log s.results, v.idle j l);
  }

module _ {V C : Type 0} (steps : List (Step C)) (list : List (Step C)) (s0 : RunState V C)
    (workers : ℕ) where
  abbrev Belongs : Step C → Task V C → Type 0
  Belongs a t = t.step ≡ a

  -- What holds at any time of a batch that began in the state `s0`.
  pub record BatchInv (b : Batch V C) : Type 0 where
    pub pool_inv : PoolInv list Belongs workers b.pool
    pub busy : Busy list Belongs workers b.pool
    pub inv : RunInv steps b.state
    pub pending_kept : b.state.pending_steps ≡ s0.pending_steps
    pub successful_kept : b.state.successful ≡ s0.successful
    pub unsuccessful_kept : b.state.unsuccessful ≡ s0.unsuccessful
    pub logged :
        (i : ℕ) (t : Task V C)
        → get_elem? b.pool.results i ≡ some (some t)
        → HasLog (Fits t.outcome) t.step.id b.state.results

  place_in_batch :
      (b : Batch V C) (i : ℕ) (t : Task V C)
      → BatchInv b
      → get_elem? b.pool.results i ≡ some (some t)
      → get_elem? list i ≡ some t.step
  place_in_batch b i t v e = let (a, p, q) = v.pool_inv.holds i t e in p ∙ ap some (sym q)

  settle_step-BatchInv :
      (i : ℕ) (step : Step C) (log : StepLog V) (o : Outcome V) (reason : Option Error)
      (b : Batch V C)
      → Unique steps
      → DistinctIds list
      → ((a : Step C) → In a list → Chosen steps s0 a)
      → BatchInv b
      → get_elem? list i ≡ some step
      → has_ℕ i b.pool.running ≡ true
      → Fits o log
      → BatchInv (record {
        pool = settle list i (record { step = step; outcome = o }) reason b.pool;
        state = finish_log step.id log b.state;
      })
  settle_step-BatchInv i step log o reason b u d chosen v e h fits =
      let t : Task V C = record { step = step; outcome = o } in
      let (p, q) =
        settle-PoolInv list Belongs workers i t reason step b.pool e refl v.pool_inv v.busy in
      let c0 = chosen step (In-get_elem? list i step e) in
      let c : Chosen steps b.state step = record {
        member = c0.member;
        open_still = subst (λ m. In step.id (keys m)) (sym v.pending_kept) c0.open_still;
        ready = λ x k. subst (In x) (sym v.successful_kept) (c0.ready x k);
      } in
      record {
        pool_inv = p;
        busy = q;
        inv = finish_log-RunInv steps b.state step log u v.inv c (not_running o log fits);
        pending_kept = v.pending_kept;
        successful_kept = v.successful_kept;
        unsuccessful_kept = v.unsuccessful_kept;
        logged = λ j x k.
            let k' =
              subst (λ rs. get_elem? rs j ≡ some (some x)) (settle_results list i t reason b.pool h)
                k in
            elim (ℕ_discrete i j) [
              | yes same ↦
                  let r : x ≡ t = ground (arith, get_elem?-set b.pool.results i j (some t) here) in
                  subst (λ y. HasLog (Fits y.outcome) y.step.id (put step.id log b.state.results))
                    (sym r) (HasLog-put_self (Fits o) step.id log b.state.results fits)
              | no other ↦
                  let old : get_elem? b.pool.results j ≡ some (some x) =
                    ground (arith, get_elem?-set b.pool.results i j (some t) here) in
                  HasLog-put_ne (Fits x.outcome) step.id x.step.id log b.state.results
                    (DistinctIds-places list j i x.step step d (place_in_batch b j x v old) e
                      (λ q. other (sym q)))
                    (v.logged j x old)
            ];
      }
    where
      not_running : (w : Outcome V) (z : StepLog V) → Fits w z → z.status ≢ running
      not_running (fulfilled _) z f = ground arith
      not_running (rejected _) z f = ground arith

      here : i < length b.pool.results
      here = omega (arith, get_elem?_lt list i step e, v.pool_inv.size)

module _ {V C : Type 0} (services : Services V C) (job : Job C) (steps list : List (Step C))
    (s0 : RunState V C) (workers : ℕ) where
  batch_event-idle :
      (b : Batch V C) (i : ℕ) (env : StepEnv V)
      → is_running_at services job i b.pool (get_elem? list i) ≡ none
      → batch_event services job list b (i, env) ≡ b
  unfolding batch_event
  batch_event-idle b i env e = ground arith

  batch_event-busy :
      (b : Batch V C) (i : ℕ) (env : StepEnv V) (step : Step C) (log : StepLog V) (o : Outcome V)
      → is_running_at services job i b.pool (get_elem? list i) ≡ some step
      → execute_step services job.default_step_retry step b.state.context env ≡ (some log, o)
      → batch_event services job list b (i, env) ≡ record {
        pool =
            settle list i
              (record { step = step; outcome = o })
              (stop_reason services job step o)
              b.pool;
        state = finish_log step.id log b.state;
      }
  unfolding batch_event
  batch_event-busy b i env step log o e q = ground arith

  module _ (unique : Unique steps) (distinct : DistinctIds list)
      (chosen : (a : Step C) → In a list → Chosen steps s0 a) where
    batch_event-BatchInv :
        (b : Batch V C) (i : ℕ) (env : StepEnv V)
        → env.start ≡ live
        → BatchInv steps list s0 workers b
        → BatchInv steps list s0 workers (batch_event services job list b (i, env))
    batch_event-BatchInv b i env start v =
        elim (Option-cases (is_running_at services job i b.pool (get_elem? list i))) [
          | inl e ↦ subst (BatchInv steps list s0 workers) (sym (batch_event-idle b i env e)) v
          | inr (step, e) ↦
              let (log, o, q, told, _) =
                execute_step-Explains services job.default_step_retry step b.state.context env
                  start in
              subst (BatchInv steps list s0 workers) (sym (batch_event-busy b i env step log o e q))
                (settle_step-BatchInv steps list s0 workers i step log o
                  (stop_reason services job step o) b unique distinct chosen v
                  (at_place (get_elem? list i) step e) (in_flight (get_elem? list i) step e)
                  (Explains-Fits services step b.state.context o log told))
        ]
      where
        at_place :
            (a : Option (Step C)) (step : Step C)
            → is_running_at services job i b.pool a ≡ some step
            → a ≡ some step
        at_place a step e = ground arith

        in_flight :
            (a : Option (Step C)) (step : Step C)
            → is_running_at services job i b.pool a ≡ some step
            → has_ℕ i b.pool.running ≡ true
        in_flight a step e = ground arith

    pub run_batch-BatchInv :
        (events : List (ℕ × StepEnv V)) (b : Batch V C)
        → ((i : ℕ) (env : StepEnv V) → In (i, env) events → env.start ≡ live)
        → BatchInv steps list s0 workers b
        → BatchInv steps list s0 workers (run_batch services job list b events)
    unfolding run_batch
    run_batch-BatchInv [] b live_at v = v
    run_batch-BatchInv ((i, env) ∷ events) b live_at v =
        run_batch-BatchInv events (batch_event services job list b (i, env))
          (λ j x m. live_at j x (inr m)) (batch_event-BatchInv b i env (live_at i env (inl refl)) v)

module _ {V C : Type 0} (steps list : List (Step C)) (s0 : RunState V C) (workers : ℕ) where
  -- The results of a batch are fit to be merged.
  pub batch-AllMergeable :
      (b : Batch V C)
      → ((a : Step C) → In a list → Chosen steps s0 a)
      → BatchInv steps list s0 workers b
      → AllMergeable steps b.state (settled b.pool.results)
  batch-AllMergeable b chosen v t m =
      let (i, e) = place_of_settled b.pool.results t m in
      let c =
        chosen t.step
          (In-get_elem? list i t.step (place_in_batch steps list s0 workers b i t v e)) in
      record {
        member = c.member;
        open_still = subst (λ p. In t.step.id (keys p)) (sym v.pending_kept) c.open_still;
        logged = v.logged i t e;
      }

  pub batch-DistinctIds :
      (b : Batch V C)
      → DistinctIds list
      → BatchInv steps list s0 workers b
      → DistinctIds (map step_of (settled b.pool.results))
  batch-DistinctIds b d v =
      DistinctIds-settled list b.pool.results d
        (λ i t e. place_in_batch steps list s0 workers b i t v e)

  -- A batch starts with no result.
  pub start-BatchInv :
      (max_concurrency : ℕ)
      → workers ≡ min max_concurrency (length list)
      → RunInv steps s0
      → BatchInv steps list s0 workers
          (record { pool = pool_start list max_concurrency; state = s0 })
  start-BatchInv max_concurrency e v =
      let (p, b, _) =
        pool_start-PoolInv list (λ (a : Step C) (t : Task V C). t.step ≡ a) max_concurrency in
      record {
        pool_inv =
            subst
              (λ w.
                PoolInv list (λ (a : Step C) (t : Task V C). t.step ≡ a) w
                  (pool_start list max_concurrency))
              (sym e) p;
        busy = λ s. ⊎_elim inl (λ h. inr (h ∙ sym e)) (b s);
        inv = v;
        pending_kept = refl;
        successful_kept = refl;
        unsuccessful_kept = refl;
        logged = λ i t h. absurd (
            no_result list (λ (a : Step C) (x : Task V C). x.step ≡ a) i t
              (subst (λ rs. get_elem? rs i ≡ some (some t))
                (pool_start_results list max_concurrency) h));
      }
