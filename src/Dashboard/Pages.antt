-- ===== src/Dashboard/Pages.antt =====
-- Which pages the window shows.
use background_jobs.Prelude.{
  ℕ, zero, suc, ◌+◌, ◌-◌, ◌/◌, ◌≤◌, ◌<◌, min, length, In, ◌≡◌, ◌↔◌, refl, subst, sym, ap, arith,
}
use background_jobs.Dashboard.{max, numbers_from, pagination_window}

length-numbers_from : (start width : ℕ) → length (numbers_from start width) ≡ width
length-numbers_from start zero = refl
length-numbers_from start (suc width) = ap suc (length-numbers_from (start + 1) width)

In-numbers_from :
    (x start width : ℕ) → In x (numbers_from start width) ↔ ((start ≤ x) × (x < start + width))
In-numbers_from x start zero = (λ n. absurd n, λ (a, b). omega arith)
In-numbers_from x start (suc width) = ground (arith, In-numbers_from x (start + 1) width)

-- For a page of the list and a window of one page at least, the window shows as many pages as it may
-- and there are, all of them pages of the list, without a gap, and the page itself is one of them.
pub pagination_window-shows :
    (page total_pages size : ℕ)
    → 1 ≤ page
    → page ≤ total_pages
    → 1 ≤ size
    → (start : ℕ) × (length (pagination_window page total_pages size) ≡ min size total_pages)
      × ((x : ℕ)
          → In x (pagination_window page total_pages size)
            ↔ ((start ≤ x) × (x < start + min size total_pages)))
      × (1 ≤ start)
      × (start + min size total_pages ≤ total_pages + 1)
      × (start ≤ page)
      × (page < start + min size total_pages)
unfolding pagination_window
pagination_window-shows page total size low high some_size =
    let width = min size total in
    let start = max 1 (min (page - width / 2) ((total - width) + 1)) in
    let e : pagination_window page total size ≡ numbers_from start width = ground arith in
    (
      start,
      subst (λ w. length w ≡ width) (sym e) (length-numbers_from start width),
      (λ x.
          subst (λ w. In x w ↔ ((start ≤ x) × (x < start + width))) (sym e)
            (In-numbers_from x start width)),
      ground arith,
      ground arith,
      ground arith,
      ground arith,
    )
