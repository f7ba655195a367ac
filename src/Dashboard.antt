-- ===== src/Dashboard.antt =====
-- dashboard/src/pagination.ts: the page numbers that a list shows.
pub mod Pages
use background_jobs.Prelude.{
  ℕ, zero, suc, ◌+◌, ◌-◌, ◌/◌, min, true, false, List, [], ◌∷◌, ltb, if◌then◌else◌,
}

abbrev pub max : ℕ → ℕ → ℕ
max a b = if ltb a b then b else a

-- `Array.from({ length: width }, (_, index) => start + index)`
abbrev pub numbers_from : ℕ → ℕ → List ℕ
numbers_from start zero = []
numbers_from start (suc width) = start ∷ numbers_from (start + 1) width

-- `page - half` stops at 0 here, which the maximum with 1 hides.
unfoldable pub pagination_window : ℕ → ℕ → ℕ → List ℕ
pagination_window page total_pages size =
    let width = max 1 (min size total_pages) in
    if ltb total_pages 1
    then []
    else numbers_from (max 1 (min (page - width / 2) ((total_pages - width) + 1))) width
