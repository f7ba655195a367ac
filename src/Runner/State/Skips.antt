-- ===== src/Runner/State/Skips.antt =====
-- How the state of a run differs when skipDependencyBlocked has ended steps for their dependencies.
use background_jobs.Prelude.{
  String, List, ◌∷◌, get, keys, put, add, has, has_iff, get-put_ne, In-add, In-filter,
  has-false_iff, some, ◌∙◌, ◌⊎◌, String_discrete, In-keys-delete, In, ◌≡◌, refl, sym, subst, inl,
  inr, ⊎_elim, Bool-cases,
}
use background_jobs.Types.{Step, StepLog, skipped, dependencies_failed}
use background_jobs.Runner.Steps.{unstarted_log}
use background_jobs.Runner.State.{RunState, end_step, blockers}
use background_jobs.Runner.State.Invariant.{HasLog, HasLog-put_self}

module _ {V : Type 0} where
  -- A log that names dependencies for which its step was skipped, all of them unsuccessful.
  abbrev pub BlockedIn : List String → StepLog V → Type 0
  BlockedIn unsuccessful log =
      (log.status ≡ skipped)
      × (b : String) × (bs : List String) × (log.reason ≡ some (dependencies_failed (b ∷ bs)))
      × ((d : String) → In d (b ∷ bs) → In d unsuccessful)

module _ {V C : Type 0} where
  -- How `t` differs from `s` when steps have been skipped for their dependencies: no step becomes
  -- successful, and one that is no longer pending is unsuccessful, with a log that says why.
  pub record Skips (s t : RunState V C) : Type 0 where
    pub same : t.successful ≡ s.successful
    pub grows : (d : String) → In d s.unsuccessful → In d t.unsuccessful
    pub others : (k : String) → (¬ In k (keys s.pending_steps)) → get k t.results ≡ get k s.results
    pub within : (k : String) → In k (keys t.pending_steps) → In k (keys s.pending_steps)
    pub moved :
        (k : String)
        → In k (keys s.pending_steps)
        → In k (keys t.pending_steps)
          ⊎ (In k t.unsuccessful × HasLog (BlockedIn t.unsuccessful) k t.results)

  pub Skips-refl : (s : RunState V C) → Skips s s
  Skips-refl s = record {
    same = refl;
    grows = λ d h. h;
    others = λ k n. refl;
    within = λ k h. h;
    moved = λ k h. inl h;
  }

  pub Skips-trans : (s t u : RunState V C) → Skips s t → Skips t u → Skips s u
  Skips-trans s t u a b = record {
    same = b.same ∙ a.same;
    grows = λ d h. b.grows d (a.grows d h);
    others = λ k n. b.others k (λ m. n (a.within k m)) ∙ a.others k n;
    within = λ k h. a.within k (b.within k h);
    moved = λ k h. elim (Bool-cases (has k (keys t.pending_steps))) [
      | inl m ↦ b.moved k ((has_iff k (keys t.pending_steps)).0 m)
      | inr m ↦
          let n = (has-false_iff k (keys t.pending_steps)).0 m in
          ⊎_elim (λ m. absurd (n m))
            (λ (q, (l, e, why)).
              let (z, x, xs, r, all) = why in
              inr (b.grows k q, (l, b.others k n ∙ e, (z, x, xs, r, λ d m. b.grows d (all d m)))))
            (a.moved k h)
    ];
  }

  pub Skips-end :
      (step : Step C) (id b : String) (bs : List String) (s : RunState V C)
      → In id (keys s.pending_steps)
      → blockers step s ≡ b ∷ bs
      → Skips s (end_step id (unstarted_log step skipped (dependencies_failed (b ∷ bs))) s)
  Skips-end step id b bs s m e =
      let log : StepLog V = unstarted_log step skipped (dependencies_failed (b ∷ bs)) in
      record {
        same = refl;
        grows = λ d h. (In-add d id s.unsuccessful).1 (inr h);
        others = λ k n.
            get-put_ne k id log s.results (λ q. n (subst (λ x. In x (keys s.pending_steps)) q m));
        within = λ k h. ((In-keys-delete k id s.pending_steps).0 h).0;
        moved = λ k h. elim (String_discrete k id) [
          | no n ↦ inl ((In-keys-delete k id s.pending_steps).1 (h, n))
          | yes q ↦ inr (
            (In-add k id s.unsuccessful).1 (inl q),
            subst (λ x. HasLog (BlockedIn (add id s.unsuccessful)) x (put id log s.results)) (sym q)
                (HasLog-put_self (BlockedIn (add id s.unsuccessful)) id log s.results (
                  refl,
                  b,
                  bs,
                  refl,
                  λ d i.
                      (In-add d id s.unsuccessful).1
                        (inr (blocker-unsuccessful step s d (subst (In d) (sym e) i))),
                )),
          )
        ];
      }
    where
      blocker-unsuccessful :
          (step : Step C) (s : RunState V C) (d : String)
          → In d (blockers step s)
          → In d s.unsuccessful
      blocker-unsuccessful step s d h =
          (has_iff d s.unsuccessful).0
            ((In-filter (λ x. has x s.unsuccessful) d step.depends_on).0 h).1
