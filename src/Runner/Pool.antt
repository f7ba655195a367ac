-- ===== src/Runner/Pool.antt =====
-- runStepsWithConcurrency of src/core/JobRunner.ts: workers that share an index, a place for each
-- result and a reason to stop. `A` is a step, `R` what a task gives when it settles. The order in
-- which tasks settle is given from outside, by their indices.
pub mod Places
pub mod Invariant
use background_jobs.Prelude.{
  ℕ, zero, suc, ◌+◌, Bool, true, false, Option, none, some, List, [], ◌∷◌, ◌++◌, length, get_elem?,
  min, ◌==ℕ◌, if◌then◌else◌,
}
use background_jobs.Types.{Error}

pub record Pool (R : Type 0) : Type 0 where
  pub index : ℕ
  pub running : List ℕ
  pub results : List (Option R)
  pub stop : Option Error

abbrev pub replicate {ℓ} : {A : Type ℓ} → ℕ → A → List A
replicate zero a = []
replicate (suc n) a = a ∷ replicate n a

abbrev pub set {ℓ} : {A : Type ℓ} → List A → ℕ → A → List A
set [] i v = []
set (x ∷ xs) zero v = v ∷ xs
set (x ∷ xs) (suc i) v = x ∷ set xs i v

abbrev pub has_ℕ : ℕ → List ℕ → Bool
has_ℕ i [] = false
has_ℕ i (j ∷ js) = if j ==ℕ i then true else has_ℕ i js

abbrev pub remove : ℕ → List ℕ → List ℕ
remove i [] = []
remove i (j ∷ js) = if j ==ℕ i then js else j ∷ remove i js

abbrev pub first_of {ℓ} : {A : Type ℓ} → Option A → Option A → Option A
first_of (some a) _ = some a
first_of none o = o

module _ {A R : Type 0} (steps : List A) where
  -- `const current = index++; const step = steps[current]; if (step === undefined) return;`
  abbrev pub take_step : Option A → Pool R → Pool R
  take_step none p = record p { index = p.index + 1 }
  take_step (some _) p = record p { index = p.index + 1; running = p.running ++ p.index ∷ [] }

  -- A worker at the head of its loop: it takes the next step, or it ends.
  pub worker_next : Pool R → Pool R
  worker_next p = elim p.stop [ some _ ↦ p | none ↦ take_step (get_elem? steps p.index) p ]

  pub workers_start : ℕ → Pool R → Pool R
  workers_start zero p = p
  workers_start (suc n) p = workers_start n (worker_next p)

  abbrev pub empty_pool : Pool R
  empty_pool = record {
    index = 0;
    running = [];
    results = replicate (length steps) none;
    stop = none;
  }

  unfoldable pub pool_start : ℕ → Pool R
  unfolding workers_start worker_next
  pool_start max_concurrency = workers_start (min max_concurrency (length steps)) empty_pool

  -- The task of step `i` settles with `r`; `reason` is its error where `shouldStop` holds of it.
  unfoldable pub settle : ℕ → R → Option Error → Pool R → Pool R
  unfolding worker_next
  settle i r reason p =
      if has_ℕ i p.running
      then worker_next (record p {
        running = remove i p.running;
        results = set p.results i (some r);
        stop = first_of p.stop reason;
      })
      else p

  -- `Promise.all(workers)` is done.
  abbrev pub is_done : Pool R → Bool
  is_done p = elim p.running [ [] ↦ true | _ ∷ _ ↦ false ]

-- `results.filter(item => item !== undefined)`
abbrev pub settled : {R : Type 0} → List (Option R) → List R
settled [] = []
settled (none ∷ rs) = settled rs
settled (some r ∷ rs) = r ∷ settled rs
