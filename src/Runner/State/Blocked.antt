-- ===== src/Runner/State/Blocked.antt =====
-- skipDependencyBlocked and cancelPending keep the invariant; after the first no pending step has an
-- unsuccessful dependency, after the second no step is pending.
use background_jobs.Prelude.{
  ℕ, zero, suc, ◌+◌, ◌≤◌, ◌<◌, String, Bool, true, false, List, [], ◌∷◌, Map, get, keys,
  In-keys-delete, length-delete-lt, length-delete-le, length, In, Distinct, ◌≡◌, refl, sym, subst,
  inl, inr, ⊎_elim, arith, Bool-cases, List-cases, Option-cases,
}
use background_jobs.Types.{Step, StepLog, skipped, cancelled, Reason, dependencies_failed}
use background_jobs.Runner.Steps.{unstarted_log}
use background_jobs.Runner.State.{
  RunState, end_step, blockers, skip_pass, skip_passes, skip_blocked, is_running, cancel_steps,
  cancel_pending,
}
use background_jobs.Runner.State.Invariant.{RunInv, end_step-RunInv}
use background_jobs.Runner.State.Skips.{Skips, Skips-refl, Skips-trans, Skips-end}

module _ {V C : Type 0} where
  -- All of the copy is still pending.
  abbrev StillPending : Map (Step C) → RunState V C → Type 0
  StillPending m s = (k : String) → In k (keys m) → In k (keys s.pending_steps)

  StillPending-end :
      (id : String) (step : Step C) (m : Map (Step C)) (log : StepLog V) (s : RunState V C)
      → Distinct (keys ((id, step) ∷ m))
      → StillPending ((id, step) ∷ m) s
      → StillPending m (end_step id log s)
  StillPending-end id step m log s d p k h =
      (In-keys-delete k id s.pending_steps).1
        (p k (inr h), λ e. d.0 (subst (λ z. In z (keys m)) e h))

  -- What a pass does; `changed` is its second result.
  pub record PassOk (steps : List (Step C)) (m : Map (Step C)) (s : RunState V C)
      (t : RunState V C × Bool) : Type 0 where
    pub inv : RunInv steps t.0
    pub same : t.1 ≡ false → t.0 ≡ s
    pub free : t.1 ≡ false → (id : String) (step : Step C) → In (id, step) m → blockers step s ≡ []
    pub fewer : t.1 ≡ true → length t.0.pending_steps < length s.pending_steps
    pub shrinks : length t.0.pending_steps ≤ length s.pending_steps
    pub skips : Skips s t.0

  module _ (id : String) (step : Step C) (m : Map (Step C)) (s : RunState V C) where
    abbrev ended : String → List String → RunState V C
    ended b bs = end_step id (unstarted_log step skipped (dependencies_failed (b ∷ bs))) s

    skip_pass_free : blockers step s ≡ [] → skip_pass ((id, step) ∷ m) s ≡ skip_pass m s
    unfolding skip_pass
    skip_pass_free e = ground arith

    skip_pass_blocked :
        (b : String) (bs : List String)
        → blockers step s ≡ b ∷ bs
        → skip_pass ((id, step) ∷ m) s ≡ ((skip_pass m (ended b bs)).0, true)
    unfolding skip_pass
    skip_pass_blocked b bs e = ground arith

    PassOk-free :
        (steps : List (Step C)) (t : RunState V C × Bool)
        → blockers step s ≡ []
        → PassOk steps m s t
        → PassOk steps ((id, step) ∷ m) s t
    PassOk-free steps t e h = record {
      inv = h.inv;
      same = h.same;
      free = λ q j other k.
          ⊎_elim (λ here. subst (λ x. blockers x s ≡ []) (sym (λ i. (here i).1)) e)
            (λ later. h.free q j other later) k;
      fewer = h.fewer;
      shrinks = h.shrinks;
      skips = h.skips;
    }

    PassOk-blocked :
        (steps : List (Step C)) (b : String) (bs : List String) (t : RunState V C × Bool)
        → In id (keys s.pending_steps)
        → blockers step s ≡ b ∷ bs
        → PassOk steps m (ended b bs) t
        → PassOk steps ((id, step) ∷ m) s (t.0, true)
    PassOk-blocked steps b bs t k e h = record {
      inv = h.inv;
      same = λ q. cc;
      free = λ q j other n. cc;
      fewer = λ _. omega (arith, h.shrinks, length-delete-lt id s.pending_steps k);
      shrinks = omega (arith, h.shrinks, length-delete-le id s.pending_steps);
      skips = Skips-trans s (ended b bs) t.0 (Skips-end step id b bs s k e) h.skips;
    }

  skip_pass-PassOk :
      (steps : List (Step C)) (m : Map (Step C)) (s : RunState V C)
      → RunInv steps s
      → Distinct (keys m)
      → StillPending m s
      → PassOk steps m s (skip_pass m s)
  unfolding skip_pass
  skip_pass-PassOk steps [] s v d p = record {
    inv = v;
    same = λ _. refl;
    free = λ _ id step h. absurd h;
    fewer = λ e. cc;
    shrinks = omega arith;
    skips = Skips-refl s;
  }
  skip_pass-PassOk steps ((id, step) ∷ m) s v d p = elim (List-cases (blockers step s)) [
    | inl e ↦
        subst (PassOk steps ((id, step) ∷ m) s) (sym (skip_pass_free id step m s e)) (
          PassOk-free id step m s steps _ e (skip_pass-PassOk steps m s v d.1 (λ k h. p k (inr h))))
    | inr (b, bs, e) ↦
        let here : In id (keys s.pending_steps) = p id (inl refl) in
        let log : StepLog V = unstarted_log step skipped (dependencies_failed (b ∷ bs)) in
        subst (PassOk steps ((id, step) ∷ m) s) (sym (skip_pass_blocked id step m s b bs e)) (
          PassOk-blocked id step m s steps b bs (skip_pass m (end_step id log s)) here e (
            skip_pass-PassOk steps m (end_step id log s)
              (end_step-RunInv steps id log s v here (inr (refl, b, bs, refl))) d.1
              (StillPending-end id step m log s d p)))
  ]

  -- No pending step has an unsuccessful dependency.
  abbrev pub Unblocked : RunState V C → Type 0
  Unblocked s = (id : String) (step : Step C) → In (id, step) s.pending_steps → blockers step s ≡ []

  skip_passes-RunInv :
      (steps : List (Step C)) (fuel : ℕ) (s : RunState V C)
      → RunInv steps s
      → length s.pending_steps < fuel
      → RunInv steps (skip_passes fuel s)
        × Unblocked (skip_passes fuel s)
        × (length (skip_passes fuel s).pending_steps ≤ length s.pending_steps)
        × Skips s (skip_passes fuel s)
  unfolding skip_passes
  skip_passes-RunInv steps zero s v lt = absurd (omega arith)
  skip_passes-RunInv steps (suc fuel) s v lt =
      let ok = skip_pass-PassOk steps s.pending_steps s v v.distinct (λ k h. h) in
      let t = (skip_pass s.pending_steps s).0 in
      elim (Bool-cases (skip_pass s.pending_steps s).1) [
        | inl changed ↦
            let (a, b, c, d) =
              skip_passes-RunInv steps fuel t ok.inv (omega (arith, ok.fewer changed)) in
            subst Kept (sym (again changed))
              (a, b, omega (arith, c, ok.shrinks), Skips-trans s t (skip_passes fuel t) ok.skips d)
        | inr same ↦
            subst Kept (sym (at_rest same))
              (v, (λ id step h. ok.free same id step h), omega arith, Skips-refl s)
      ]
    where
      Kept : RunState V C → Type 0
      Kept u =
          RunInv steps u
          × Unblocked u
          × (length u.pending_steps ≤ length s.pending_steps)
          × Skips s u

      again :
          (skip_pass s.pending_steps s).1 ≡ true
          → skip_passes (suc fuel) s ≡ skip_passes fuel (skip_pass s.pending_steps s).0
      again e = ground arith

      at_rest : (skip_pass s.pending_steps s).1 ≡ false → skip_passes (suc fuel) s ≡ s
      at_rest e =
          ground (arith, (skip_pass-PassOk steps s.pending_steps s v v.distinct (λ k h. h)).same e)

  -- From a state with the invariant, skipDependencyBlocked leads to one with it, in which no pending
  -- step has an unsuccessful dependency, and no more steps are pending than before. The successful steps
  -- stay the same; a step that was pending still is, or it is unsuccessful, and its log has the status
  -- skipped and names dependencies, one at least, that are unsuccessful; other logs stay.
  pub skip_blocked-RunInv :
      (steps : List (Step C)) (s : RunState V C)
      → RunInv steps s
      → RunInv steps (skip_blocked s)
        × Unblocked (skip_blocked s)
        × (length (skip_blocked s).pending_steps ≤ length s.pending_steps)
        × Skips s (skip_blocked s)
  unfolding skip_blocked
  skip_blocked-RunInv steps s v =
      skip_passes-RunInv steps (length s.pending_steps + 1) s v (omega arith)

  cancel_steps-RunInv :
      (steps : List (Step C)) (m : Map (Step C)) (why : Reason) (s : RunState V C)
      → RunInv steps s
      → Distinct (keys m)
      → StillPending m s
      → RunInv steps (cancel_steps m why s)
        × ((k : String)
            → In k (keys (cancel_steps m why s).pending_steps)
            → In k (keys s.pending_steps) × (¬ In k (keys m)))
  unfolding cancel_steps
  cancel_steps-RunInv steps [] why s v d p = (v, λ k h. (h, λ n. n))
  cancel_steps-RunInv steps ((id, step) ∷ m) why s v d p =
      let log : StepLog V = unstarted_log step cancelled why in
      let here : In id (keys s.pending_steps) = p id (inl refl) in
      let (w, left) =
        cancel_steps-RunInv steps m why (end_step id log s)
          (end_step-RunInv steps id log s v here (inl refl)) d.1
          (StillPending-end id step m log s d p) in
      subst Kept (sym cancelled_first) (
        w,
        λ k h.
            let (q, n) = left k h in
            let (x, ne) = (In-keys-delete k id s.pending_steps).0 q in (x, ⊎_elim ne n),
      )
    where
      Kept : RunState V C → Type 0
      Kept u =
          RunInv steps u
          × ((k : String)
              → In k (keys u.pending_steps)
              → In k (keys s.pending_steps) × (¬ In k (id ∷ keys m)))

      not_running : is_running (get id s.results) ≡ false
      not_running = elim (Option-cases (get id s.results)) [
        | inl e ↦ rw e
        | inr (log, e) ↦ ground (arith, v.idle id log e)
      ]

      cancelled_first :
          cancel_steps ((id, step) ∷ m) why s
          ≡ cancel_steps m why (end_step id (unstarted_log step cancelled why) s)
      cancelled_first = rw (not_running, cancel_steps)

  -- From a state with the invariant, cancelPending leads to one with it in which no step is pending.
  pub cancel_pending-RunInv :
      (steps : List (Step C)) (why : Reason) (s : RunState V C)
      → RunInv steps s
      → RunInv steps (cancel_pending why s)
        × ((k : String) → ¬ In k (keys (cancel_pending why s).pending_steps))
  unfolding cancel_pending
  cancel_pending-RunInv steps why s v =
      let (w, left) = cancel_steps-RunInv steps s.pending_steps why s v v.distinct (λ k h. h) in
      (w, λ k h. (left k h).1 (left k h).0)
