-- ===== src/Runner/Pool/Places.antt =====
-- Lists read and written at an index, and lists of indices.
use background_jobs.Prelude.{
  ℕ, zero, suc, ◌+◌, ◌≤◌, ◌<◌, true, Option, none, some, List, [], ◌∷◌, length, get_elem?, min, In,
  Distinct, ◌≡◌, ◌≢◌, ◌↔◌, refl, ap, ◌∙◌, arith, if◌then◌else◌, ◌==ℕ◌,
}
use background_jobs.Types.{Error}
use background_jobs.Runner.Pool.{
  Pool, settle, worker_next, workers_start, pool_start, empty_pool, replicate, set, has_ℕ, remove,
}

pub length-set : {A : Type 0} (xs : List A) (i : ℕ) (v : A) → length (set xs i v) ≡ length xs
length-set [] i v = refl
length-set (x ∷ xs) zero v = refl
length-set (x ∷ xs) (suc i) v = ap suc (length-set xs i v)

pub length-replicate : {A : Type 0} (n : ℕ) (a : A) → length (replicate n a) ≡ n
length-replicate zero a = refl
length-replicate (suc n) a = ap suc (length-replicate n a)

pub get_elem?-set :
    {A : Type 0} (xs : List A) (i j : ℕ) (v : A)
    → i < length xs
    → get_elem? (set xs i v) j ≡ (if i ==ℕ j then some v else get_elem? xs j)
get_elem?-set [] i j v h = absurd (omega arith)
get_elem?-set (x ∷ xs) zero zero v h = refl
get_elem?-set (x ∷ xs) zero (suc j) v h = ground arith
get_elem?-set (x ∷ xs) (suc i) zero v h = ground arith
get_elem?-set (x ∷ xs) (suc i) (suc j) v h = ground (arith, get_elem?-set xs i j v)

pub get_elem?-replicate :
    {A : Type 0} (n i : ℕ) (a : A) → i < n → get_elem? (replicate n a) i ≡ some a
get_elem?-replicate zero i a h = absurd (omega arith)
get_elem?-replicate (suc n) zero a h = refl
get_elem?-replicate (suc n) (suc i) a h = get_elem?-replicate n i a (omega arith)

pub get_elem?_lt :
    {A : Type 0} (xs : List A) (i : ℕ) (a : A) → get_elem? xs i ≡ some a → i < length xs
get_elem?_lt [] i a h = cc
get_elem?_lt (x ∷ xs) zero a h = omega arith
get_elem?_lt (x ∷ xs) (suc i) a h = omega (arith, get_elem?_lt xs i a h)

pub get_elem?-none : {A : Type 0} (xs : List A) (i : ℕ) → get_elem? xs i ≡ none → length xs ≤ i
get_elem?-none [] i h = omega arith
get_elem?-none (x ∷ xs) zero h = cc
get_elem?-none (x ∷ xs) (suc i) h = omega (arith, get_elem?-none xs i h)

pub has_ℕ_iff : (i : ℕ) (js : List ℕ) → (has_ℕ i js ≡ true) ↔ In i js
has_ℕ_iff i [] = ground arith
has_ℕ_iff i (j ∷ js) = ground (arith, has_ℕ_iff i js)

pub length-remove : (i : ℕ) (js : List ℕ) → In i js → length (remove i js) + 1 ≡ length js
length-remove i [] m = absurd m
length-remove i (j ∷ js) m = ground (arith, length-remove i js)

pub In-remove : (i k : ℕ) (js : List ℕ) → Distinct js → In k (remove i js) ↔ (In k js × (k ≢ i))
In-remove i k [] d = ground arith
In-remove i k (j ∷ js) d = ground (arith, In-remove i k js)

pub Distinct-remove : (i : ℕ) (js : List ℕ) → Distinct js → Distinct (remove i js)
Distinct-remove i [] d = tt
Distinct-remove i (j ∷ js) d = ground (arith, Distinct-remove i js, In-remove i j js)

module _ {A R : Type 0} (steps : List A) (i : ℕ) (r : R) (reason : Option Error) (p : Pool R) where
  pub settle_results :
      has_ℕ i p.running ≡ true → (settle steps i r reason p).results ≡ set p.results i (some r)
  unfolding settle worker_next
  settle_results h = ground arith

module _ {A R : Type 0} (steps : List A) where
  worker_next_results : (p : Pool R) → (worker_next steps p).results ≡ p.results
  unfolding worker_next
  worker_next_results p = ground arith

  workers_start_results : (n : ℕ) (p : Pool R) → (workers_start steps n p).results ≡ p.results
  unfolding workers_start
  workers_start_results zero p = refl
  workers_start_results (suc n) p =
      workers_start_results n (worker_next steps p) ∙ worker_next_results p

  pub pool_start_results :
      (max_concurrency : ℕ)
      → (pool_start {R = R} steps max_concurrency).results ≡ replicate (length steps) none
  unfolding pool_start
  pool_start_results max_concurrency =
      workers_start_results (min max_concurrency (length steps)) (empty_pool steps)
