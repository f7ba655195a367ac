-- ===== src/Tests/Limits.antt =====
-- src/utils/ConcurrencyLimiter.ts with a limit of one.
use background_jobs.Prelude.{ℕ, List, [], ◌∷◌, ◌≡◌, refl, inl}
use background_jobs.Types.{Signal, live, fired, execution_cancelled, was_cancelled}
use background_jobs.Limiter.{Limiter, Event, acquires, releases, aborts, idle, handle_all, release}
use background_jobs.Limiter.Slots.{LimiterInv, Goes, handle_all-LimiterInv, release-Goes}
use background_jobs.Runner.Pool.{remove}

abbrev all_live : ℕ → Signal
all_live n = live

-- Three calls, of which the second is aborted while it waits; then the first releases its slot.
abbrev three_calls : List Event
three_calls = acquires 1 7 live ∷ acquires 2 8 live ∷ acquires 3 9 live ∷ []

abbrev crowded : Limiter
crowded = handle_all 1 three_calls idle

abbrev full_story : List Event
full_story =
    acquires 1 7 live
    ∷ acquires 2 8 live
    ∷ acquires 3 9 live
    ∷ aborts 2 (fired execution_cancelled was_cancelled)
    ∷ releases 1 all_live
    ∷ releases 1 all_live
    ∷ []

handle_all_example : LimiterInv 1 (handle_all 1 full_story idle)
handle_all_example = handle_all-LimiterInv 1 full_story

release_example :
    Goes all_live crowded.waiters
      (record crowded { holders = remove 1 crowded.holders })
      (release 1 all_live crowded)
unfolding handle_all
release_example = release-Goes 1 all_live crowded (inl refl)

-- The second release by the same owner does nothing: the third call keeps its slot.
third_holds : (handle_all 1 full_story idle).holders ≡ 3 ∷ []
unfolding handle_all
third_holds = refl
