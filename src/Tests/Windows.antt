-- ===== src/Tests/Windows.antt =====
-- dashboard/src/pagination.ts for the last of nine pages.
use background_jobs.Prelude.{ℕ, ◌+◌, ◌≤◌, ◌<◌, min, [], ◌∷◌, length, In, ◌≡◌, ◌↔◌, refl, arith}
use background_jobs.Dashboard.{pagination_window}
use background_jobs.Dashboard.Pages.{pagination_window-shows}

pagination_window_example :
    (start : ℕ) × (length (pagination_window 9 9 5) ≡ min 5 9)
    × ((x : ℕ) → In x (pagination_window 9 9 5) ↔ ((start ≤ x) × (x < start + min 5 9)))
    × (1 ≤ start)
    × (start + min 5 9 ≤ 9 + 1)
    × (start ≤ 9)
    × (9 < start + min 5 9)
pagination_window_example = pagination_window-shows 9 9 5 (omega arith) (omega arith) (omega arith)

last_pages : pagination_window 9 9 5 ≡ 5 ∷ 6 ∷ 7 ∷ 8 ∷ 9 ∷ []
unfolding pagination_window
last_pages = refl
