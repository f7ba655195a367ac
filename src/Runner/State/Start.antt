-- ===== src/Runner/State/Start.antt =====
-- The state that the loop starts from.
use background_jobs.Prelude.{
  String, true, false, none, some, List, [], ◌∷◌, Map, get, put, add, keys, get-put, In-keys-put,
  In-put, Distinct-keys-put, entry_of_key, In-add, In, ◌≡◌, ◌≢◌, ◌⊎◌, ◌↔◌, refl, sym, ap, subst,
  ◌∙◌, inl, inr, ⊎_elim, arith, Bool-cases, Option-cases, String_discrete,
}
use background_jobs.Types.{
  Step, StepLog, pending, running, skipped, reused, output_reused, outside_closure,
}
use background_jobs.Runner.{Services}
use background_jobs.Runner.Steps.{base_log}
use background_jobs.Runner.State.{
  Options, RunState, init_step, init_steps, is_reusable, is_outside, value_or,
}
use background_jobs.Runner.State.Invariant.{
  RunInv, HasLog, IsMet, IsGood, IsBad, Ran, HasLog-put_self, HasLog-put_ne, HasLog-of_put,
}
use background_jobs.Runner.State.Sorted.{DistinctIds}

-- The step's id is new.
abbrev Fresh : {C : Type 0} → Step C → List (Step C) → Type 0
Fresh step done = (a : Step _) → In a done → a.id ≢ step.id

module _ {V C : Type 0} where
  not_pending :
      (step : Step C) (done : List (Step C)) (s : RunState V C)
      → RunInv done s
      → Fresh step done
      → ¬ In step.id (keys s.pending_steps)
  not_pending step done s v f m =
      let (a, h) = entry_of_key step.id s.pending_steps m in
      let (e, i) = v.entries step.id a h in f a i e

  -- A step whose first log is a good one: it was reused, or it is left out.
  settled-RunInv :
      (step : Step C) (done : List (Step C)) (log : StepLog V) (s : RunState V C) (context : Map V)
      (successful : List String)
      → RunInv done s
      → Fresh step done
      → IsMet log ⊎ ((successful ≡ s.successful) × IsGood log)
      → (¬ Ran log)
      → log.status ≢ running
      → ((d : String) → In d successful → (d ≡ step.id) ⊎ In d s.successful)
      → ((d : String) → In d s.successful → In d successful)
      → RunInv (step ∷ done) (record s {
        results = put step.id log s.results;
        context = context;
        successful = successful;
      })
  settled-RunInv step done log s context successful v f good nr idle from to = record {
    entries = λ id a h. let (e, m) = v.entries id a h in (e, inr m);
    distinct = v.distinct;
    accounted = λ a m.
        ⊎_elim
          (λ e. inr (
            inl (
              subst (λ x. HasLog IsGood x (put step.id log s.results))
                (sym (ap (λ (x : Step C). x.id) e))
                (HasLog-put_self IsGood step.id log s.results (good_of good)))))
          (λ old.
            ⊎_elim inl
              (λ r. inr (
                ⊎_elim (λ g. inl (HasLog-put_ne IsGood step.id a.id log s.results (f a old) g))
                  (λ (b, u). inr (HasLog-put_ne IsBad step.id a.id log s.results (f a old) b, u))
                  r))
              (v.accounted a old))
          m;
    ordered = λ a m ran d k.
        ⊎_elim (λ e. absurd (not_ran a (ap (λ (x : Step C). x.id) e) ran))
          (λ old.
            to d (v.ordered a old (HasLog-of_put Ran step.id a.id log s.results (f a old) ran) d k))
          m;
    successes = λ d m. elim (String_discrete d step.id) [
      | yes e ↦ (
        λ k. not_pending step done s v f (subst (λ x. In x (keys s.pending_steps)) e k),
        ⊎_elim
            (λ met.
              subst (λ x. HasLog IsMet x (put step.id log s.results)) (sym e)
                (HasLog-put_self IsMet step.id log s.results met))
            (λ (same, g). let (a, i, q) = v.named d (subst (In d) same m) in absurd (f a i (q ∙ e)))
            good,
      )
      | no n ↦
          let (k, g) = v.successes d (⊎_elim (λ e. absurd (n e)) (λ h. h) (from d m)) in
          (k, HasLog-put_ne IsMet step.id d log s.results n g)
    ];
    named = λ d m.
        ⊎_elim (λ e. (step, inl refl, sym e))
          (λ old. let (a, i, e) = v.named d old in (a, inr i, e)) (from d m);
    idle = λ j l e. ground (arith, get-put j step.id log s.results, v.idle j l);
  }
    where
      good_of : IsMet log ⊎ ((successful ≡ s.successful) × IsGood log) → IsGood log
      good_of h = ⊎_elim inl (λ p. p.1) h

      not_ran : (a : Step C) → a.id ≡ step.id → ¬ HasLog Ran a.id (put step.id log s.results)
      not_ran a e (l, q, r) = ground (arith, get-put a.id step.id log s.results)

  pending-RunInv :
      (step : Step C) (done : List (Step C)) (s : RunState V C)
      → RunInv done s
      → Fresh step done
      → RunInv (step ∷ done) (record s {
        pending_steps = put step.id step s.pending_steps;
        results = put step.id (base_log step pending) s.results;
      })
  pending-RunInv step done s v f = record {
    entries = λ id a h.
        ⊎_elim (λ (e, q). (ap (λ (x : Step C). x.id) q ∙ sym e, inl q))
          (λ old. let (e, m) = v.entries id a old in (e, inr m))
          (In-put id step.id a step s.pending_steps h);
    distinct = Distinct-keys-put step.id step s.pending_steps v.distinct;
    accounted = λ a m.
        ⊎_elim
          (λ e.
            inl (
              (In-keys-put a.id step.id step s.pending_steps).1
                (inl (ap (λ (x : Step C). x.id) e))))
          (λ old.
            ⊎_elim (λ k. inl ((In-keys-put a.id step.id step s.pending_steps).1 (inr k)))
              (λ r. inr (
                ⊎_elim (λ g. inl (HasLog-put_ne IsGood step.id a.id _ s.results (f a old) g))
                  (λ (b, u). inr (HasLog-put_ne IsBad step.id a.id _ s.results (f a old) b, u)) r))
              (v.accounted a old))
          m;
    ordered = λ a m ran d k.
        ⊎_elim (λ e. absurd (not_ran a (ap (λ (x : Step C). x.id) e) ran))
          (λ old. v.ordered a old (HasLog-of_put Ran step.id a.id _ s.results (f a old) ran) d k) m;
    successes = λ d m.
        let (k, g) = v.successes d m in
        let (a, i, e) = v.named d m in
        let n : d ≢ step.id = λ q. f a i (e ∙ q) in
        (
          λ h. ⊎_elim n k ((In-keys-put d step.id step s.pending_steps).0 h),
          HasLog-put_ne IsMet step.id d _ s.results n g,
        );
    named = λ d m. let (a, i, e) = v.named d m in (a, inr i, e);
    idle = λ j l e.
        ground
          (arith, get-put j step.id (base_log {V = V} {C = C} step pending) s.results, v.idle j l);
  }
    where
      not_ran :
          (a : Step C)
          → a.id ≡ step.id
          → ¬ HasLog Ran a.id (put step.id (base_log step pending) s.results)
      not_ran a e (l, q, r) =
          ground (arith, get-put a.id step.id (base_log {V = V} {C = C} step pending) s.results)

  module _ (services : Services V C) (options : Options V) where
    init_step-RunInv :
        (step : Step C) (done : List (Step C)) (s : RunState V C)
        → RunInv done s
        → Fresh step done
        → RunInv (step ∷ done) (init_step services options s step)
    unfolding init_step
    init_step-RunInv step done s v f =
        elim (Option-cases (is_reusable (get step.id options.reused_results))) [
          | inr (log, e) ↦ subst (RunInv (step ∷ done)) (sym (by_reuse log e)) (
              settled-RunInv step done (record log { status = reused; reason = some output_reused })
                s (put step.id (value_or log.output services.undefined) s.context)
                (add step.id s.successful) v f (inl (inr (inr refl))) (λ r. ground arith) (λ q. cc)
                (λ d. (In-add d step.id s.successful).0)
                (λ d h. (In-add d step.id s.successful).1 (inr h)))
          | inl e ↦ elim (Bool-cases (is_outside options.step_ids step.id)) [
            | inl o ↦ subst (RunInv (step ∷ done)) (sym (by_selection e o)) (
                settled-RunInv step done
                  (record (base_log step skipped) { reason = some outside_closure }) s s.context
                  s.successful v f (inr (refl, inr (refl, refl))) (λ r. ground arith) (λ q. cc)
                  (λ d. inr) (λ d h. h))
            | inr o ↦
                subst (RunInv (step ∷ done)) (sym (otherwise e o)) (pending-RunInv step done s v f)
          ]
        ]
      where
        by_reuse :
            (log : StepLog V)
            → is_reusable (get step.id options.reused_results) ≡ some log
            → init_step services options s step ≡ record s {
              results =
                  put step.id
                    (record log { status = reused; reason = some output_reused })
                    s.results;
              successful = add step.id s.successful;
              context = put step.id (value_or log.output services.undefined) s.context;
            }
        by_reuse log e = ground arith

        by_selection :
            is_reusable (get step.id options.reused_results) ≡ none
            → is_outside options.step_ids step.id ≡ true
            → init_step services options s step ≡ record s {
              results =
                  put step.id
                    (record (base_log step skipped) { reason = some outside_closure })
                    s.results;
            }
        by_selection e o = ground arith

        otherwise :
            is_reusable (get step.id options.reused_results) ≡ none
            → is_outside options.step_ids step.id ≡ false
            → init_step services options s step ≡ record s {
              pending_steps = put step.id step s.pending_steps;
              results = put step.id (base_log step pending) s.results;
            }
        otherwise e o = ground arith

    -- The invariant speaks of the steps as a set.
    RunInv-resp :
        (xs ys : List (Step C)) (s : RunState V C)
        → ((a : Step C) → In a xs ↔ In a ys)
        → RunInv xs s
        → RunInv ys s
    RunInv-resp xs ys s same v = record {
      entries = λ id a h. let (e, m) = v.entries id a h in (e, (same a).0 m);
      distinct = v.distinct;
      accounted = λ a m. v.accounted a ((same a).1 m);
      ordered = λ a m. v.ordered a ((same a).1 m);
      successes = v.successes;
      named = λ d h. let (a, m, e) = v.named d h in (a, (same a).0 m, e);
      idle = v.idle;
    }

    pub init_steps-RunInv :
        (rest done : List (Step C)) (s : RunState V C)
        → RunInv done s
        → DistinctIds rest
        → ((a : Step C) → In a rest → Fresh a done)
        → (all : List (Step C)) → ((a : Step C) → (In a rest ⊎ In a done) ↔ In a all)
        → RunInv all (init_steps services options rest s)
    unfolding init_steps
    init_steps-RunInv [] done s v d f all same =
        RunInv-resp done all s
          (λ a. (λ m. (same a).0 (inr m), λ m. ⊎_elim (λ n. absurd n) (λ h. h) ((same a).1 m))) v
    init_steps-RunInv (step ∷ rest) done s v d f all same =
        init_steps-RunInv rest (step ∷ done) (init_step services options s step)
          (init_step-RunInv step done s v (f step (inl refl))) d.1
          (λ a m b n.
            ⊎_elim (λ e k. d.0 a m (sym k ∙ ap (λ (x : Step C). x.id) e)) (f a (inr m) b) n)
          all
          (λ a. (
            λ m. (same a).0 (⊎_elim (λ r. inl (inr r)) (⊎_elim (λ e. inl (inl e)) inr) m),
            λ m. ⊎_elim (⊎_elim (λ e. inr (inl e)) inl) (λ o. inr (inr o)) ((same a).1 m),
          ))
