-- ===== src/Tests/Pools.antt =====
-- The pool of src/core/JobRunner.ts with two workers over three steps.
use background_jobs.Prelude.{
  ℕ, String, Option, none, some, In, inl, inr, sym, subst, List, [], ◌∷◌, ◌≡◌, ◌≤◌, refl, arith,
  min, length, get_elem?,
}
use background_jobs.Types.{Error}
use background_jobs.Runner.Pool.{Pool, pool_start, settle}
use background_jobs.Runner.Pool.Invariant.{
  PoolInv, Busy, settle-PoolInv, pool_start-PoolInv, settle_all, Right, settle_all-Complete,
}

abbrev three : List String
three = "load" ∷ "check" ∷ "store" ∷ []

-- A task's result is the name of its step.
abbrev Named : String → String → Type 0
Named a r = a ≡ r

abbrev started : Pool String
started = pool_start three 2

abbrev one_done : Pool String
one_done = settle three 1 "check" none started

abbrev two_done : Pool String
two_done = settle three 2 "store" none one_done

pool_start_example :
    PoolInv three Named (min 2 (length three)) started
    × Busy three Named (min 2 (length three)) started
    × (min 2 (length three) ≤ started.index)
pool_start_example = pool_start-PoolInv three Named 2

first : PoolInv three Named 2 started × Busy three Named 2 started
first = ((pool_start-PoolInv three Named 2).0, (pool_start-PoolInv three Named 2).1)

second : PoolInv three Named 2 one_done × Busy three Named 2 one_done
second = settle-PoolInv three Named 2 1 "check" none "check" started refl refl first.0 first.1

settle_example : PoolInv three Named 2 two_done × Busy three Named 2 two_done
settle_example =
    settle-PoolInv three Named 2 2 "store" none "store" one_done refl refl second.0 second.1

-- The tasks settle from the second step on.
abbrev endings : List (ℕ × (String × Option Error))
endings = (1, ("check", none)) ∷ (2, ("store", none)) ∷ (0, ("load", none)) ∷ []

endings-Right : (e : ℕ × (String × Option Error)) → In e endings → Right three Named e
endings-Right e (inl q) = subst (Right three Named) (sym q) ("check", refl, refl)
endings-Right e (inr (inl q)) = subst (Right three Named) (sym q) ("store", refl, refl)
endings-Right e (inr (inr (inl q))) = subst (Right three Named) (sym q) ("load", refl, refl)
endings-Right e (inr (inr (inr n))) = absurd n

endings_idle : (settle_all three Named endings started).running ≡ []
unfolding pool_start settle
endings_idle = refl

endings_going : (settle_all three Named endings started).stop ≡ none
unfolding pool_start settle
endings_going = refl

settle_all_example :
    (r : String) × (get_elem? (settle_all three Named endings started).results 2 ≡ some (some r))
    × ("store" ≡ r)
settle_all_example =
    settle_all-Complete three Named 2 endings (omega arith) endings-Right endings_idle endings_going
      2 "store" refl

-- The third step is taken by the worker that is free first.
takes_next : one_done.running ≡ 0 ∷ 2 ∷ []
unfolding pool_start settle
takes_next = refl
