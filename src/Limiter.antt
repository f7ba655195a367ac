-- ===== src/Limiter.antt =====
-- src/utils/ConcurrencyLimiter.ts: a limit on the tasks that run at a time, with a queue of waiters.
-- An owner stands for one call of `acquire`, and is a holder as long as its `released` is false. What
-- the signals are at the time of a call is given from outside.
pub mod Slots
use background_jobs.Prelude.{
  ℕ, ◌+◌, ◌-◌, Bool, true, false, List, [], ◌∷◌, ◌++◌, map, any, ltb, ◌==ℕ◌, if◌then◌else◌,
}
use background_jobs.Types.{Error, Signal, is_fired, abort_error}
use background_jobs.Runner.Pool.{has_ℕ, remove}

pub record Waiter : Type 0 where
  pub owner : ℕ
  pub signal : ℕ

-- `rejected` collects the promises that were rejected, with their errors.
pub record Limiter : Type 0 where
  pub active : ℕ
  pub waiters : List Waiter
  pub holders : List ℕ
  pub rejected : List (ℕ × Error)

abbrev pub idle : Limiter
idle = record { active = 0; waiters = []; holders = []; rejected = [] }

abbrev pub reject : ℕ → Error → Limiter → Limiter
reject owner e s = record s { rejected = s.rejected ++ (owner, e) ∷ [] }

pub acquire : ℕ → ℕ → ℕ → Signal → Limiter → Limiter
acquire limit owner signal now s = elim (is_fired now) [
  | true ↦ reject owner (abort_error now) s
  | false ↦ elim (ltb s.active limit) [
    | true ↦ record s { active = s.active + 1; holders = s.holders ++ owner ∷ [] }
    | false ↦ record s { waiters = s.waiters ++ record { owner = owner; signal = signal } ∷ [] }
  ]
]

-- The loop of a release over the queue.
pub hand_over : (ℕ → Signal) → List Waiter → Limiter → Limiter
hand_over now [] s = record s { waiters = []; active = s.active - 1 }
hand_over now (w ∷ ws) s = elim (is_fired (now w.signal)) [
  | true ↦ hand_over now ws (reject w.owner (abort_error (now w.signal)) s)
  | false ↦ record s { waiters = ws; holders = s.holders ++ w.owner ∷ [] }
]

-- What `releaseOnce` returns, called by its owner.
pub release : ℕ → (ℕ → Signal) → Limiter → Limiter
release owner now s =
    if has_ℕ owner s.holders
    then hand_over now s.waiters (record s { holders = remove owner s.holders })
    else s

-- `this.waiters.splice(index, 1)`
pub without : ℕ → List Waiter → List Waiter
without owner [] = []
without owner (w ∷ ws) = if w.owner ==ℕ owner then ws else w ∷ without owner ws

-- `onAbort`, which listens only while its waiter stands in the queue.
pub on_abort : ℕ → Signal → Limiter → Limiter
on_abort owner now s =
    if any (λ w. w.owner ==ℕ owner) s.waiters
    then reject owner (abort_error now) (record s { waiters = without owner s.waiters })
    else s

pub data Event : Type 0 where
  acquires : (owner signal : ℕ) → Signal → Event
  releases : (owner : ℕ) → (ℕ → Signal) → Event
  aborts : (owner : ℕ) → Signal → Event

abbrev pub handle : ℕ → Event → Limiter → Limiter
handle limit (acquires owner signal now) s = acquire limit owner signal now s
handle limit (releases owner now) s = release owner now s
handle limit (aborts owner now) s = on_abort owner now s

unfoldable pub handle_all : ℕ → List Event → Limiter → Limiter
unfolding acquire release hand_over on_abort without
handle_all limit [] s = s
handle_all limit (e ∷ es) s = handle_all limit es (handle limit e s)
