-- ===== src/Runner/Pool/Invariant.antt =====
-- What holds of the pool at any time: how many tasks run, and which results are there.
use background_jobs.Prelude.{
  Distinct-append, ℕ, zero, suc, ◌+◌, ◌≤◌, ◌<◌, min, true, Option, none, some, List, [], ◌∷◌, ◌++◌,
  length, get_elem?, length-append, In, Distinct, In-append, ◌≡◌, ◌≢◌, ◌⊎◌, refl, ap, ◌∙◌, sym,
  subst, inl, inr, ⊎_elim, arith, Bool-cases, Option-cases,
}
use native.Mathlib.Decide.{dec_lt, ℕ_discrete}
use background_jobs.Types.{Error}
use background_jobs.Runner.Pool.{
  Pool, replicate, set, has_ℕ, remove, first_of, worker_next, workers_start, empty_pool, pool_start,
  settle, is_done,
}
use background_jobs.Runner.Pool.Places.{
  length-set, length-replicate, get_elem?-set, get_elem?-replicate, get_elem?_lt, get_elem?-none,
  has_ℕ_iff, length-remove, In-remove, Distinct-remove,
}

module _ {A R : Type 0} (steps : List A) (Q : A → R → Type 0) where
  -- `workers` tasks at most run at a time; each step from the front on that was taken either runs or
  -- has its result, and no other step has one.
  pub record PoolInv (workers : ℕ) (p : Pool R) : Type 0 where
    pub size : length p.results ≡ length steps
    pub in_flight :
        (i : ℕ)
        → In i p.running
        → (i < length steps) × (i < p.index) × (get_elem? p.results i ≡ some none)
    pub taken :
        (i : ℕ)
        → i < length steps
        → i < p.index
        → In i p.running ⊎ ((r : R) × (get_elem? p.results i ≡ some (some r)))
    pub untouched : (i : ℕ) → i < length steps → p.index ≤ i → get_elem? p.results i ≡ some none
    pub distinct : Distinct p.running
    pub few : length p.running ≤ workers
    pub holds :
        (i : ℕ) (r : R)
        → get_elem? p.results i ≡ some (some r)
        → (a : A) × (get_elem? steps i ≡ some a) × Q a r

  -- As long as there is no reason to stop, all workers are busy or all steps are taken.
  abbrev pub Busy : ℕ → Pool R → Type 0
  Busy workers p = p.stop ≡ none → (length steps ≤ p.index) ⊎ (length p.running ≡ workers)

  take_some :
      (workers : ℕ) (p : Pool R) (a : A)
      → PoolInv workers p
      → length p.running < workers
      → get_elem? steps p.index ≡ some a
      → PoolInv workers (record p { index = p.index + 1; running = p.running ++ p.index ∷ [] })
  take_some workers p a v room e = record {
    size = v.size;
    in_flight = λ i m.
        ⊎_elim (λ o. let (a, b, c) = v.in_flight i o in (a, omega arith, c))
          (λ n.
            let q = at_end i n in
            let lt : i < length steps = omega (arith, get_elem?_lt steps p.index a e) in
            (lt, omega arith, v.untouched i lt (omega arith)))
          ((In-append i p.running (p.index ∷ [])).0 m);
    taken = λ i lt le. elim (dec_lt i p.index) [
      | yes old ↦
          ⊎_elim (λ m. inl ((In-append i p.running (p.index ∷ [])).1 (inl m))) inr
            (v.taken i lt old)
      | no new ↦ inl ((In-append i p.running (p.index ∷ [])).1 (inr (inl (omega arith))))
    ];
    untouched = λ i lt le. v.untouched i lt (omega arith);
    distinct =
        Distinct-append p.running p.index v.distinct
          (λ m. omega (arith, (v.in_flight p.index m).1));
    few = omega (arith, length-append p.running (p.index ∷ []));
    holds = v.holds;
  }
    where
      at_end : (i : ℕ) → In i (p.index ∷ []) → i ≡ p.index
      at_end i n = ⊎_elim (λ q. q) (λ n. absurd n) n

  take_none :
      (workers : ℕ) (p : Pool R)
      → PoolInv workers p
      → get_elem? steps p.index ≡ none
      → PoolInv workers (record p { index = p.index + 1 })
  take_none workers p v e = record {
    size = v.size;
    in_flight = λ i m. let (a, b, c) = v.in_flight i m in (a, omega arith, c);
    taken = λ i lt le. v.taken i lt (omega (arith, get_elem?-none steps p.index e));
    untouched = λ i lt le. v.untouched i lt (omega arith);
    distinct = v.distinct;
    few = v.few;
    holds = v.holds;
  }

  worker_next-PoolInv :
      (workers : ℕ) (p : Pool R)
      → PoolInv workers p
      → length p.running < workers
      → PoolInv workers (worker_next steps p)
  unfolding worker_next
  worker_next-PoolInv workers p v room = elim (Option-cases p.stop) [
    | inr (e, s) ↦ subst (PoolInv workers) (ground arith) v
    | inl s ↦ elim (Option-cases (get_elem? steps p.index)) [
      | inl n ↦ subst (PoolInv workers) (ground arith) (take_none workers p v n)
      | inr (a, n) ↦ subst (PoolInv workers) (ground arith) (take_some workers p a v room n)
    ]
  ]

  -- A worker that goes on is busy again, or finds no step left.
  worker_next-Busy :
      (workers : ℕ) (p : Pool R)
      → (p.stop ≡ none → (length steps ≤ p.index) ⊎ (length p.running + 1 ≡ workers))
      → Busy workers (worker_next steps p)
  unfolding worker_next
  worker_next-Busy workers p b s =
      ground (arith, get_elem?-none steps p.index, length-append p.running (p.index ∷ []), b)

  -- The pool after a task has settled, before its worker goes on.
  abbrev released : ℕ → R → Option Error → Pool R → Pool R
  released i r reason p = record p {
    running = remove i p.running;
    results = set p.results i (some r);
    stop = first_of p.stop reason;
  }

  released-PoolInv :
      (workers i : ℕ) (r : R) (reason : Option Error) (a : A) (p : Pool R)
      → get_elem? steps i ≡ some a
      → Q a r
      → In i p.running
      → PoolInv workers p
      → PoolInv workers (released i r reason p)
  released-PoolInv workers i r reason a p e q m v = record {
    size = length-set p.results i (some r) ∙ v.size;
    in_flight = λ j k.
        let (k', ne) = (In-remove i j p.running v.distinct).0 k in
        let (x, y, z) = v.in_flight j k' in (x, y, unset j ne z);
    taken = λ j lt le. ground (
      arith,
      get_elem?-set p.results i j (some r) here,
      v.taken j lt le,
      In-remove i j p.running v.distinct,
    );
    untouched = λ j lt le. unset j (λ q. omega (arith, (v.in_flight i m).1)) (v.untouched j lt le);
    distinct = Distinct-remove i p.running v.distinct;
    few = omega (arith, length-remove i p.running m, v.few);
    holds = λ j t h. elim (ℕ_discrete i j) [
      | yes same ↦ (a, ground arith, ground (arith, get_elem?-set p.results i j (some r) here))
      | no other ↦ v.holds j t (ground (arith, get_elem?-set p.results i j (some r) here))
    ];
  }
    where
      here : i < length p.results
      here = omega (arith, (v.in_flight i m).0, v.size)

      unset :
          (j : ℕ)
          → j ≢ i
          → get_elem? p.results j ≡ some none
          → get_elem? (set p.results i (some r)) j ≡ some none
      unset j ne z = ground (arith, get_elem?-set p.results i j (some r) here)

  -- When the task of step `a` settles with a result that is right for it, the invariant is kept, and
  -- so is that all workers are busy or all steps are taken as long as there is no reason to stop.
  pub settle-PoolInv :
      (workers i : ℕ) (r : R) (reason : Option Error) (a : A) (p : Pool R)
      → get_elem? steps i ≡ some a
      → Q a r
      → PoolInv workers p
      → Busy workers p
      → PoolInv workers (settle steps i r reason p) × Busy workers (settle steps i r reason p)
  unfolding settle
  settle-PoolInv workers i r reason a p e q v b = elim (Bool-cases (has_ℕ i p.running)) [
    | inr idle ↦ subst (λ t. PoolInv workers t × Busy workers t) (ground arith) (v, b)
    | inl busy ↦
        let m = (has_ℕ_iff i p.running).0 busy in
        subst (λ t. PoolInv workers t × Busy workers t) (ground arith)
          (
            worker_next-PoolInv workers (released i r reason p)
                (released-PoolInv workers i r reason a p e q m v)
                (omega (arith, length-remove i p.running m, v.few)),
            worker_next-Busy workers (released i r reason p)
                (λ n. ground (arith, b, length-remove i p.running m)),
          )
  ]

  worker_next-some :
      (p : Pool R) (a : A)
      → p.stop ≡ none
      → get_elem? steps p.index ≡ some a
      → worker_next steps p ≡ record p { index = p.index + 1; running = p.running ++ p.index ∷ [] }
  unfolding worker_next
  worker_next-some p a s n = ground arith

  start-PoolInv :
      (k workers : ℕ) (p : Pool R)
      → PoolInv workers p
      → p.stop ≡ none
      → p.index + k ≤ length steps
      → length p.running + k ≡ workers
      → PoolInv workers (workers_start steps k p)
        × Busy workers (workers_start steps k p)
        × (p.index + k ≤ (workers_start steps k p).index)
  unfolding workers_start
  start-PoolInv zero workers p v s le e = (v, (λ _. inr (omega arith)), omega arith)
  start-PoolInv (suc k) workers p v s le e = elim (Option-cases (get_elem? steps p.index)) [
    | inl n ↦ absurd (omega (arith, get_elem?-none steps p.index n))
    | inr (a, n) ↦
        let next : Pool R = record p { index = p.index + 1; running = p.running ++ p.index ∷ [] } in
        let (x, y, z) =
          start-PoolInv k workers next (take_some workers p a v (omega arith) n) s (omega arith)
            (omega (arith, length-append p.running (p.index ∷ []))) in
        subst
          (λ t.
            PoolInv workers (workers_start steps k t)
            × Busy workers (workers_start steps k t)
            × (p.index + suc k ≤ (workers_start steps k t).index))
          (sym (worker_next-some p a s n)) (x, y, omega arith)
  ]

  pub no_result : (i : ℕ) (r : R) → ¬ (get_elem? (replicate (length steps) none) i ≡ some (some r))
  no_result i r h = ground (
    arith,
    get_elem?-replicate {A = Option R} (length steps) i none,
    get_elem?_lt (replicate {A = Option R} (length steps) none) i (some r),
    length-replicate {A = Option R} (length steps) none,
  )

  empty-PoolInv : (workers : ℕ) → PoolInv workers (empty_pool steps)
  empty-PoolInv workers = record {
    size = length-replicate (length steps) none;
    in_flight = λ i m. absurd m;
    taken = λ i lt le. absurd (omega arith);
    untouched = λ i lt le. get_elem?-replicate (length steps) i none lt;
    distinct = tt;
    few = omega arith;
    holds = λ i r h. absurd (no_result i r h);
  }

  -- A pool starts with the invariant for `min max_concurrency (length steps)` workers; they are busy
  -- or all steps are taken, and that many steps have been taken.
  pub pool_start-PoolInv :
      (max_concurrency : ℕ)
      → let workers = min max_concurrency (length steps) in
        PoolInv workers (pool_start {R = R} steps max_concurrency)
        × Busy workers (pool_start {R = R} steps max_concurrency)
        × (workers ≤ (pool_start {R = R} steps max_concurrency).index)
  unfolding pool_start
  pool_start-PoolInv max_concurrency =
      let (v, b, k) =
        start-PoolInv (min max_concurrency (length steps)) (min max_concurrency (length steps))
          (empty_pool steps) (empty-PoolInv _) refl (omega arith) (omega arith) in
      (v, b, omega arith)

  -- In a pool with a worker that satisfies the invariant and keeps its workers busy, with no task left
  -- to settle and no reason to stop, every step has its result.
  pub all_settled :
      (workers : ℕ) (p : Pool R)
      → PoolInv workers p
      → Busy workers p
      → 0 < workers
      → is_done steps p ≡ true
      → p.stop ≡ none
      → (i : ℕ) → i < length steps
      → (r : R) × (get_elem? p.results i ≡ some (some r))
  all_settled workers p v b pos d s i lt =
      let e : p.running ≡ [] = ground arith in
      let past : length steps ≤ p.index =
        ⊎_elim (λ h. h) (λ h. absurd (omega (arith, ap length e))) (b s) in
      ⊎_elim (λ m. absurd (subst (In i) e m)) (λ h. h) (v.taken i lt (omega arith))

  -- Tasks that settle one after another: their places, results and reasons to stop.
  abbrev pub settle_all : List (ℕ × (R × Option Error)) → Pool R → Pool R
  settle_all [] p = p
  settle_all ((i, (r, reason)) ∷ es) p = settle_all es (settle steps i r reason p)

  -- The result is right for the step at its place.
  abbrev pub Right : ℕ × (R × Option Error) → Type 0
  Right e = (a : A) × (get_elem? steps e.0 ≡ some a) × Q a e.1.0

  settle_all-PoolInv :
      (workers : ℕ) (es : List (ℕ × (R × Option Error))) (p : Pool R)
      → ((e : ℕ × (R × Option Error)) → In e es → Right e)
      → PoolInv workers p
      → Busy workers p
      → PoolInv workers (settle_all es p) × Busy workers (settle_all es p)
  settle_all-PoolInv workers [] p h v b = (v, b)
  settle_all-PoolInv workers ((i, (r, reason)) ∷ es) p h v b =
      let (a, e, q) = h (i, (r, reason)) (inl refl) in
      let (w, c) = settle-PoolInv workers i r reason a p e q v b in
      settle_all-PoolInv workers es (settle steps i r reason p) (λ x m. h x (inr m)) w c

  -- A pool with a worker that starts and whose tasks settle in any order, with results that are right for
  -- their steps: when no task is left to settle and there is no reason to stop, every step has a result,
  -- which is right for it.
  pub settle_all-Complete :
      (max_concurrency : ℕ) (es : List (ℕ × (R × Option Error)))
      → 0 < max_concurrency
      → ((e : ℕ × (R × Option Error)) → In e es → Right e)
      → (settle_all es (pool_start steps max_concurrency)).running ≡ []
      → (settle_all es (pool_start steps max_concurrency)).stop ≡ none
      → (i : ℕ) (a : A) → get_elem? steps i ≡ some a
      → (r : R) × (get_elem? (settle_all es (pool_start steps max_concurrency)).results i
          ≡ some (some r))
        × Q a r
  settle_all-Complete max_concurrency es pos h idle going i a e =
      let (v, b, _) = pool_start-PoolInv max_concurrency in
      let p = settle_all es (pool_start steps max_concurrency) in
      let (w, c) =
        settle_all-PoolInv (min max_concurrency (length steps)) es
          (pool_start steps max_concurrency) h v b in
      let lt : i < length steps = get_elem?_lt steps i a e in
      let (r, at) =
        all_settled (min max_concurrency (length steps)) p w c (omega (arith, pos, lt))
          (ground arith) going i lt in
      let (x, f, q) = w.holds i r at in (r, at, subst (λ z. Q z r) (some_step (sym f ∙ e)) q)
    where
      some_step : {x y : A} → some x ≡ some y → x ≡ y
      some_step {x} {y} k = ground arith
