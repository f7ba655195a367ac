-- ===== src/Runner/Rounds/Merge.antt =====
-- The loop over the results of a batch keeps the invariant of the run's state.
use background_jobs.Prelude.{
  ℕ, suc, ◌+◌, ◌≤◌, ◌<◌, String, Option, none, some, List, [], ◌∷◌, map, put, delete, add, keys,
  length, In-keys-delete, In-delete, length-delete-lt, Distinct-keys-delete, In-add, In-map, In,
  ◌≡◌, ◌≢◌, refl, sym, subst, inl, inr, ⊎_elim, arith, String_discrete,
}
use background_jobs.Types.{Step, StepLog, Error}
use background_jobs.Runner.{Services}
use background_jobs.Runner.Pool.{first_of}
use background_jobs.Runner.Steps.{Outcome, fulfilled, rejected}
use background_jobs.Runner.Steps.Outcomes.{Fits}
use background_jobs.Runner.State.{Job, RunState}
use background_jobs.Runner.State.Invariant.{RunInv, HasLog, IsMet, IsGood, IsBad}
use background_jobs.Runner.State.Sorted.{DistinctIds}
use background_jobs.Runner.Rounds.{Task, merge_results}

module _ {V C : Type 0} where
  abbrev pub step_of : Task V C → Step C
  step_of t = t.step

  -- The task's step is pending, and its log fits the outcome.
  pub record Mergeable (steps : List (Step C)) (s : RunState V C) (t : Task V C) : Type 0 where
    pub member : In t.step steps
    pub open_still : In t.step.id (keys s.pending_steps)
    pub logged : HasLog (Fits t.outcome) t.step.id s.results

  abbrev done_well : Step C → V → RunState V C → RunState V C
  done_well step v s = record s {
    pending_steps = delete step.id s.pending_steps;
    context = put step.id v s.context;
    successful = add step.id s.successful;
  }

  abbrev done_badly : Step C → RunState V C → RunState V C
  done_badly step s = record s {
    pending_steps = delete step.id s.pending_steps;
    unsuccessful = add step.id s.unsuccessful;
  }

  done_well-RunInv :
      (steps : List (Step C)) (s : RunState V C) (step : Step C) (v : V)
      → RunInv steps s
      → In step steps
      → HasLog IsMet step.id s.results
      → RunInv steps (done_well step v s)
  done_well-RunInv steps s step v inv m good = record {
    entries = λ j a h. inv.entries j a (In-delete j step.id a s.pending_steps h);
    distinct = Distinct-keys-delete step.id s.pending_steps inv.distinct;
    accounted = λ a h. elim (String_discrete a.id step.id) [
      | yes e ↦
          let (l, q, met) = good in
          inr (inl (subst (λ x. HasLog IsGood x s.results) (sym e) (l, q, inl met)))
      | no n ↦
          ⊎_elim (λ k. inl ((In-keys-delete a.id step.id s.pending_steps).1 (k, n))) inr
            (inv.accounted a h)
    ];
    ordered = λ a h ran d k. (In-add d step.id s.successful).1 (inr (inv.ordered a h ran d k));
    successes = λ d h. elim (String_discrete d step.id) [
      | yes e ↦ (
        λ k. ((In-keys-delete d step.id s.pending_steps).0 k).1 e,
        subst (λ x. HasLog IsMet x s.results) (sym e) good,
      )
      | no n ↦
          let (k, g) =
            inv.successes d
              (⊎_elim (λ e. absurd (n e)) (λ o. o) ((In-add d step.id s.successful).0 h)) in
          (λ q. k ((In-keys-delete d step.id s.pending_steps).0 q).0, g)
    ];
    named =
        λ d h. ⊎_elim (λ e. (step, m, sym e)) (inv.named d) ((In-add d step.id s.successful).0 h);
    idle = inv.idle;
  }

  done_badly-RunInv :
      (steps : List (Step C)) (s : RunState V C) (step : Step C)
      → RunInv steps s
      → HasLog IsBad step.id s.results
      → RunInv steps (done_badly step s)
  done_badly-RunInv steps s step inv bad = record {
    entries = λ j a h. inv.entries j a (In-delete j step.id a s.pending_steps h);
    distinct = Distinct-keys-delete step.id s.pending_steps inv.distinct;
    accounted = λ a h. elim (String_discrete a.id step.id) [
      | yes e ↦ inr (
          inr (
            subst (λ x. HasLog IsBad x s.results) (sym e) bad,
            (In-add a.id step.id s.unsuccessful).1 (inl e),
          ))
      | no n ↦
          ⊎_elim (λ k. inl ((In-keys-delete a.id step.id s.pending_steps).1 (k, n)))
            (λ r.
              inr
                (⊎_elim inl (λ (b, u). inr (b, (In-add a.id step.id s.unsuccessful).1 (inr u))) r))
            (inv.accounted a h)
    ];
    ordered = inv.ordered;
    successes = λ d h.
        let (k, g) = inv.successes d h in
        (λ q. k ((In-keys-delete d step.id s.pending_steps).0 q).0, g);
    named = inv.named;
    idle = inv.idle;
  }

  abbrev pub AllMergeable : List (Step C) → RunState V C → List (Task V C) → Type 0
  AllMergeable steps s ts = (t : Task V C) → In t ts → Mergeable steps s t

  -- Without a failure so far no step is unsuccessful.
  abbrev pub FailureKnown : RunState V C × Option Error → Type 0
  FailureKnown r = r.1 ≡ none → r.0.unsuccessful ≡ []

module _ {V C : Type 0} (services : Services V C) (job : Job C) (steps : List (Step C)) where
  -- What merging `n` results leads to from `r`.
  pub record Merged (n : ℕ) (r q : RunState V C × Option Error) : Type 0 where
    pub inv : RunInv steps q.0
    pub known : FailureKnown q
    pub shrinks : length q.0.pending_steps + n ≤ length r.0.pending_steps

  later_tasks :
      (t : Task V C) (ts : List (Task V C)) (s u : RunState V C)
      → ((k : String) → k ≢ t.step.id → In k (keys s.pending_steps) → In k (keys u.pending_steps))
      → u.results ≡ s.results
      → DistinctIds (map step_of (t ∷ ts))
      → AllMergeable steps s (t ∷ ts)
      → AllMergeable steps u ts
  later_tasks t ts s u keep same d h x m =
      let old = h x (inr m) in
      record {
        member = old.member;
        open_still = keep x.step.id (d.0 x.step (In-map step_of x ts m)) old.open_still;
        logged = subst (HasLog (Fits x.outcome) x.step.id) (sym same) old.logged;
      }

  IsMet-of_Fits : (v : V) (log : StepLog V) → Fits (fulfilled v) log → IsMet log
  IsMet-of_Fits v log h = ⊎_elim inl (λ p. inr (inl p)) h

  IsBad-of_Fits : (e : Error) (log : StepLog V) → Fits {V = V} (rejected e) log → IsBad log
  IsBad-of_Fits e log h = ⊎_elim inl (λ c. inr (inl c)) h

  merge_task-fulfilled :
      (t : Task V C) (ts : List (Task V C)) (s : RunState V C) (f : Option Error) (w : V)
      → t.outcome ≡ fulfilled w
      → merge_results services job (t ∷ ts) (s, f)
        ≡ merge_results services job ts (done_well t.step w s, f)
  unfolding merge_results
  merge_task-fulfilled t ts s f w e = ground arith

  merge_task-rejected :
      (t : Task V C) (ts : List (Task V C)) (s : RunState V C) (f : Option Error) (w : Error)
      → t.outcome ≡ rejected w
      → merge_results services job (t ∷ ts) (s, f)
        ≡ merge_results services job ts (done_badly t.step s, first_of f (some w))
  unfolding merge_results
  merge_task-rejected t ts s f w e = ground arith

  shorter-Merged :
      (n : ℕ) (r r' q q' : RunState V C × Option Error)
      → q' ≡ q
      → length r.0.pending_steps < length r'.0.pending_steps
      → Merged n r q
      → Merged (suc n) r' q'
  shorter-Merged n r r' q q' e le m = record {
    inv = subst (λ x. RunInv steps x.0) (sym e) m.inv;
    known = subst FailureKnown (sym e) m.known;
    shrinks =
        subst (λ x. length x.0.pending_steps + suc n ≤ length r'.0.pending_steps) (sym e)
          (omega (arith, m.shrinks, le));
  }

  abbrev pub AllMerged : List (Task V C) → Type 0
  AllMerged ts =
      (s : RunState V C) (f : Option Error)
      → RunInv steps s
      → FailureKnown (s, f)
      → DistinctIds (map step_of ts)
      → AllMergeable steps s ts
      → Merged (length ts) (s, f) (merge_results services job ts (s, f))

  first_of-known : (f : Option Error) (e : Error) → first_of f (some e) ≢ none
  first_of-known f e = ground arith

  merge_task-Merged : (t : Task V C) (ts : List (Task V C)) → AllMerged ts → AllMerged (t ∷ ts)
  merge_task-Merged t ts rest s f v k d h = by_outcome t.outcome refl
    where
      m : Mergeable steps s t
      m = h t (inl refl)

      shorter : length (delete t.step.id s.pending_steps) < length s.pending_steps
      shorter = length-delete-lt t.step.id s.pending_steps m.open_still

      keep :
          (x : String)
          → x ≢ t.step.id
          → In x (keys s.pending_steps)
          → In x (keys (delete t.step.id s.pending_steps))
      keep x n i = (In-keys-delete x t.step.id s.pending_steps).1 (i, n)

      by_outcome :
          (o : Outcome V)
          → t.outcome ≡ o
          → Merged (suc (length ts)) (s, f) (merge_results services job (t ∷ ts) (s, f))
      by_outcome (fulfilled w) e =
          let (l, q, g) = m.logged in
          let u = done_well t.step w s in
          let inv =
            done_well-RunInv steps s t.step w v m.member
              (l, q, IsMet-of_Fits w l (subst (λ o. Fits o l) e g)) in
          shorter-Merged (length ts) (u, f) (s, f) (merge_results services job ts (u, f))
            (merge_results services job (t ∷ ts) (s, f)) (merge_task-fulfilled t ts s f w e) shorter
            (rest u f inv k d.1 (later_tasks t ts s u keep refl d h))
      by_outcome (rejected w) e =
          let (l, q, g) = m.logged in
          let u = done_badly t.step s in
          let f' = first_of f (some w) in
          let inv =
            done_badly-RunInv steps s t.step v
              (l, q, IsBad-of_Fits w l (subst (λ o. Fits o l) e g)) in
          shorter-Merged (length ts) (u, f') (s, f) (merge_results services job ts (u, f'))
            (merge_results services job (t ∷ ts) (s, f)) (merge_task-rejected t ts s f w e) shorter
            (rest u f' inv (λ q. absurd (first_of-known f w q)) d.1
              (later_tasks t ts s u keep refl d h))

  -- Merging the results of a batch keeps the invariant of the run, and without a representative failure
  -- no step is unsuccessful; each result takes a step from the pending ones. The tasks are those of distinct pending steps whose logs fit their
  -- outcomes.
  pub merge_results-Merged : (ts : List (Task V C)) → AllMerged ts
  unfolding merge_results
  merge_results-Merged [] s f v k d h = record { inv = v; known = k; shrinks = omega arith }
  merge_results-Merged (t ∷ ts) s f v k d h =
      merge_task-Merged t ts (merge_results-Merged ts) s f v k d h
