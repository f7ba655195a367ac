-- ===== src/Runner/State/Kept.antt =====
-- While no step is unsuccessful nothing is blocked; the start makes no step unsuccessful, and no more
-- steps pending than there are.
use background_jobs.Prelude.{
  ◌+◌, String, false, List, [], ◌∷◌, Map, get, has, length, filter, put, ◌≤◌, ◌≡◌, refl, sym, subst,
  ◌∙◌, inl, inr, arith, Bool-cases, Option-cases,
}
use background_jobs.Types.{Step}
use background_jobs.Runner.{Services}
use background_jobs.Runner.State.{
  Options, RunState, blockers, skip_pass, skip_passes, skip_blocked, init_step, init_steps,
  is_reusable, is_outside, insert_step, sort_steps,
}

filter-has_none : (ds : List String) → filter (λ d. has d []) ds ≡ []
unfolding has
filter-has_none [] = refl
filter-has_none (d ∷ ds) = filter-has_none ds

length-put-le : {A : Type 0} (k : String) (v : A) (m : Map A) → length (put k v m) ≤ length m + 1
unfolding put
length-put-le k v [] = omega arith
length-put-le k v ((i, w) ∷ m) = ground (arith, length-put-le k v m)

module _ {C : Type 0} where
  length-insert_step : (s : Step C) (ts : List (Step C)) → length (insert_step s ts) ≡ length ts + 1
  unfolding insert_step
  length-insert_step s [] = refl
  length-insert_step s (t ∷ ts) = ground (arith, length-insert_step s ts)

  pub length-sort_steps : (ss : List (Step C)) → length (sort_steps ss) ≡ length ss
  unfolding sort_steps
  length-sort_steps [] = refl
  length-sort_steps (s ∷ ss) =
      omega (arith, length-insert_step s (sort_steps ss), length-sort_steps ss)

module _ {V C : Type 0} where
  skip_pass_none :
      (m : Map (Step C)) (s : RunState V C) → s.unsuccessful ≡ [] → skip_pass m s ≡ (s, false)
  unfolding skip_pass
  skip_pass_none [] s e = refl
  skip_pass_none ((id, step) ∷ m) s e =
      let none_blocks : blockers step s ≡ [] =
        subst (λ u. filter (λ d. has d u) step.depends_on ≡ []) (sym e)
          (filter-has_none step.depends_on) in
      let rest = skip_pass_none m s e in ground arith

  pub skip_blocked_none : (s : RunState V C) → s.unsuccessful ≡ [] → skip_blocked s ≡ s
  unfolding skip_blocked skip_passes
  skip_blocked_none s e = let first = skip_pass_none s.pending_steps s e in ground arith

  module _ (services : Services V C) (options : Options V) where
    init_step_kept :
        (step : Step C) (s : RunState V C)
        → (init_step services options s step).unsuccessful ≡ s.unsuccessful
    unfolding init_step
    init_step_kept step s = elim (Option-cases (is_reusable (get step.id options.reused_results))) [
      | inr (log, e) ↦ ground arith
      | inl e ↦ elim (Bool-cases (is_outside options.step_ids step.id)) [
        | inl o ↦ ground arith
        | inr o ↦ ground arith
      ]
    ]

    pub init_steps_kept :
        (steps : List (Step C)) (s : RunState V C)
        → (init_steps services options steps s).unsuccessful ≡ s.unsuccessful
    unfolding init_steps
    init_steps_kept [] s = refl
    init_steps_kept (step ∷ steps) s =
        init_steps_kept steps (init_step services options s step) ∙ init_step_kept step s

    length-init_step :
        (step : Step C) (s : RunState V C)
        → length (init_step services options s step).pending_steps ≤ length s.pending_steps + 1
    unfolding init_step
    length-init_step step s =
        elim (Option-cases (is_reusable (get step.id options.reused_results))) [
          | inr (log, e) ↦ ground arith
          | inl e ↦ elim (Bool-cases (is_outside options.step_ids step.id)) [
            | inl o ↦ ground arith
            | inr o ↦ ground (arith, length-put-le step.id step s.pending_steps)
          ]
        ]

    pub length-init_steps :
        (steps : List (Step C)) (s : RunState V C)
        → length (init_steps services options steps s).pending_steps
          ≤ length s.pending_steps + length steps
    unfolding init_steps
    length-init_steps [] s = omega arith
    length-init_steps (step ∷ steps) s = omega (
      arith,
      length-init_steps steps (init_step services options s step),
      length-init_step step s,
    )
