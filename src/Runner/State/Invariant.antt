-- ===== src/Runner/State/Invariant.antt =====
-- What holds of the run's state between two batches, and how a step that ends keeps it.
use background_jobs.Prelude.{
  String, some, List, ◌∷◌, Map, get, put, keys, get-put, get-put_self, get-put_ne, In-keys-delete,
  In-delete, Distinct-keys-delete, In-add, In, Distinct, ◌≡◌, ◌≢◌, ◌⊎◌, sym, ◌∙◌, inl, inr, ⊎_elim,
  arith, String_discrete,
}
use background_jobs.Types.{
  Step, StepLog, condition_false, outside_closure, dependencies_failed, running, success, failed,
  skipped, cancelled, reused,
}
use background_jobs.Runner.State.{RunState, end_step}

module _ {V : Type 0} where
  -- The step lets those that depend on it run: it succeeded, its condition was false, or its result was
  -- taken over.
  abbrev pub IsMet : StepLog V → Type 0
  IsMet log =
      (log.status ≡ success)
      ⊎ (((log.status ≡ skipped) × (path : String) × (log.reason ≡ some (condition_false path)))
          ⊎ (log.status ≡ reused))

  -- The step ended well, or it was left out by the selection of steps.
  abbrev pub IsGood : StepLog V → Type 0
  IsGood log = IsMet log ⊎ ((log.status ≡ skipped) × (log.reason ≡ some outside_closure))

  -- The step was skipped for dependencies that it names, one at least.
  abbrev pub IsBlocked : StepLog V → Type 0
  IsBlocked log =
      (log.status ≡ skipped)
      × (b : String) × (bs : List String) × (log.reason ≡ some (dependencies_failed (b ∷ bs)))

  -- The step failed, was cancelled, or was skipped for its dependencies.
  abbrev pub IsBad : StepLog V → Type 0
  IsBad log = (log.status ≡ failed) ⊎ ((log.status ≡ cancelled) ⊎ IsBlocked log)

  -- The step's own work was begun in this run.
  abbrev pub Ran : StepLog V → Type 0
  Ran log = (log.status ≡ success) ⊎ (log.status ≡ failed)

-- A job has one step for an id.
abbrev pub Unique : {C : Type 0} → List (Step C) → Type 0
Unique steps = (a b : Step _) → In a steps → In b steps → a.id ≡ b.id → a ≡ b

module _ {V : Type 0} where
  abbrev pub HasLog : (StepLog V → Type 0) → String → Map (StepLog V) → Type 0
  HasLog P id results = (log : StepLog V) × (get id results ≡ some log) × P log

  pub HasLog-put_self :
      (P : StepLog V → Type 0) (id : String) (log : StepLog V) (m : Map (StepLog V))
      → P log
      → HasLog P id (put id log m)
  HasLog-put_self P id log m h = (log, get-put_self id log m, h)

  pub HasLog-put_ne :
      (P : StepLog V → Type 0) (id j : String) (log : StepLog V) (m : Map (StepLog V))
      → j ≢ id
      → HasLog P j m
      → HasLog P j (put id log m)
  HasLog-put_ne P id j log m n (l, e, h) = (l, get-put_ne j id log m (λ q. n (sym q)) ∙ e, h)

  pub HasLog-of_put :
      (P : StepLog V → Type 0) (id j : String) (log : StepLog V) (m : Map (StepLog V))
      → j ≢ id
      → HasLog P j (put id log m)
      → HasLog P j m
  HasLog-of_put P id j log m n (l, e, h) = (l, sym (get-put_ne j id log m (λ q. n (sym q))) ∙ e, h)

module _ {V C : Type 0} where
  pub record RunInv (steps : List (Step C)) (s : RunState V C) : Type 0 where
    pub entries :
        (id : String) (step : Step C)
        → In (id, step) s.pending_steps
        → (step.id ≡ id) × In step steps
    pub distinct : Distinct (keys s.pending_steps)
    -- A step is pending, or it ended well, or it did not and is among the unsuccessful.
    pub accounted :
        (step : Step C)
        → In step steps
        → In step.id (keys s.pending_steps)
          ⊎ (HasLog IsGood step.id s.results
              ⊎ (HasLog IsBad step.id s.results × In step.id s.unsuccessful))
    -- Work was begun only on steps whose dependencies are all among the successful.
    pub ordered :
        (step : Step C)
        → In step steps
        → HasLog Ran step.id s.results
        → (d : String) → In d step.depends_on
        → In d s.successful
    pub successes :
        (d : String)
        → In d s.successful
        → (¬ In d (keys s.pending_steps)) × HasLog IsMet d s.results
    pub named : (d : String) → In d s.successful → (step : Step C) × In step steps × (step.id ≡ d)
    pub idle : (id : String) (log : StepLog V) → get id s.results ≡ some log → log.status ≢ running

  -- A log that is neither "running" nor the mark of begun work ends a step that is pending.
  pub end_step-RunInv :
      (steps : List (Step C)) (id : String) (log : StepLog V) (s : RunState V C)
      → RunInv steps s
      → In id (keys s.pending_steps)
      → ((log.status ≡ cancelled) ⊎ IsBlocked log)
      → RunInv steps (end_step id log s)
  end_step-RunInv steps id log s v m k = record {
    entries = λ j step h. v.entries j step (In-delete j id step s.pending_steps h);
    distinct = Distinct-keys-delete id s.pending_steps v.distinct;
    accounted = λ step h. elim (String_discrete step.id id) [
      | yes e ↦ inr (
          inr (
            rw e (HasLog-put_self IsBad id log s.results (inr k)),
            (In-add step.id id s.unsuccessful).1 (inl e),
          ))
      | no n ↦
          ⊎_elim (λ p. inl ((In-keys-delete step.id id s.pending_steps).1 (p, n)))
            (λ r. inr (
              ⊎_elim (λ g. inl (HasLog-put_ne IsGood id step.id log s.results n g))
                (λ (b, u). inr (
                  HasLog-put_ne IsBad id step.id log s.results n b,
                  (In-add step.id id s.unsuccessful).1 (inr u),
                ))
                r))
            (v.accounted step h)
    ];
    ordered = λ step h ran. elim (String_discrete step.id id) [
      | yes e ↦ absurd (not_ran step e ran)
      | no n ↦ v.ordered step h (HasLog-of_put Ran id step.id log s.results n ran)
    ];
    successes = λ d h.
        let (n, g) = v.successes d h in
        (
          λ q. n ((In-keys-delete d id s.pending_steps).0 q).0,
          HasLog-put_ne IsMet id d log s.results (λ e. n (rw e m)) g,
        );
    named = v.named;
    idle = λ j l e. ground (arith, get-put j id log s.results, v.idle j l);
  }
    where
      not_ran : (step : Step C) → step.id ≡ id → ¬ HasLog Ran step.id (put id log s.results)
      not_ran step e (l, q, r) = ground (arith, get-put step.id id log s.results)
