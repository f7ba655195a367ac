-- ===== src/Graph/Cycle/Visit.antt =====
-- One call of `visit`, with enough fuel: it finds a cycle, or it finishes its node and all that the
-- node depends on.
use background_jobs.Prelude.{
  ℕ, zero, suc, ◌≤◌, String, Bool, true, false, ◌||◌, not, Option, none, some, List, [], ◌∷◌, ◌++◌,
  Map, get, In, get-put, get-put_self, ◌==◌, ◌⊎◌, ◌≡◌, ◌≢◌, ◌∙◌, refl, inl, inr, ⊎_elim, arith,
  Bool-cases,
}
use background_jobs.Graph.{DependencyNode, known, dependencies}
use background_jobs.Graph.Cycle.{
  Mark, visiting, visited, Search, Outcome, found, done, out_of_fuel, cycle_from, enter, leave,
  finish, and_then, scan, visit,
}
use background_jobs.Graph.Cycle.Chains.{drop_last-append, Chain, Chain-append, cycle_from-IsCycle}
use background_jobs.Graph.Cycle.Traverse.{
  Visited, unmarked, Inv, Grows, Ensures, Grows-refl, Grows-trans, Ensures-map, Ensures-and_then,
  unmarked-enter, unmarked-enter-le, unmarked-leave-le, enter-Inv, leave-Inv,
}

pub Mark-cases : (o : Option Mark) → (o ≡ none) ⊎ ((o ≡ some visiting) ⊎ (o ≡ some visited))
Mark-cases none = inl refl
Mark-cases (some visiting) = inr (inl refl)
Mark-cases (some visited) = inr (inr refl)

module _ (by_id : Map DependencyNode) where
  -- What a call of `visit` is given: the path may go on to `id`, which has no mark yet.
  pub record Ready (fuel : ℕ) (id : String) (s : Search) : Type 0 where
    pub inv : Inv by_id s
    pub member : known by_id id ≡ true
    pub fresh : get id s.states ≡ none
    pub linked : Chain by_id (s.current_path ++ id ∷ [])
    pub room : unmarked by_id s ≤ fuel

  abbrev pub After : String → Search → Search → Type 0
  After id s t = Inv by_id t × Grows by_id s t × Visited t id

  abbrev pub VisitOk : ℕ → (String → Search → Outcome) → Type 0
  VisitOk fuel visit_id =
      (d : String) (s : Search) → Ready fuel d s → Ensures by_id (After d s) (visit_id d s)

  -- After the loop every dependency that the loop does not skip is finished.
  abbrev Scanned : String → List String → Search → Search → Type 0
  Scanned id ds s t =
      Inv by_id t
      × Grows by_id s t
      × ((d : String) → In d ds → d ≢ id → known by_id d ≡ true → Visited t d)

  abbrev ScanOk : (String → Search → Outcome) → ℕ → String → List String → List String → Type 0
  ScanOk visit_id fuel id p ds =
      (s : Search)
      → Inv by_id s
      → s.current_path ≡ p ++ id ∷ []
      → ((d : String) → In d ds → In d (dependencies by_id id))
      → unmarked by_id s ≤ fuel
      → Ensures by_id (Scanned id ds s) (scan by_id visit_id id ds s)

  Scanned-more :
      (id d : String) (ds : List String) (s t : Search)
      → (d ≢ id → known by_id d ≡ true → Visited t d)
      → Scanned id ds s t
      → Scanned id (d ∷ ds) s t
  Scanned-more id d ds s t h (i, g, all) =
      (i, g, λ x m n k. ⊎_elim (λ e. rw e (h (λ q. n (e ∙ q)) (rw e at k))) (λ r. all x r n k) m)

  -- The cases of one round of the loop.
  module _ (visit_id : String → Search → Outcome) (id d : String) (ds : List String)
      (s : Search) where
    abbrev skips : Bool
    skips = d == id || not (known by_id d)

    scan_skipped : skips ≡ true → scan by_id visit_id id (d ∷ ds) s ≡ scan by_id visit_id id ds s
    unfolding scan
    scan_skipped h = ground arith

    scan_fresh :
        skips ≡ false
        → get d s.states ≡ none
        → scan by_id visit_id id (d ∷ ds) s
          ≡ and_then (visit_id d s) (λ t. scan by_id visit_id id ds t)
    unfolding scan
    scan_fresh h m = ground arith

    scan_visiting :
        skips ≡ false
        → get d s.states ≡ some visiting
        → scan by_id visit_id id (d ∷ ds) s ≡ found (cycle_from d s.current_path)
    unfolding scan
    scan_visiting h m = ground arith

    scan_visited :
        skips ≡ false
        → get d s.states ≡ some visited
        → scan by_id visit_id id (d ∷ ds) s ≡ scan by_id visit_id id ds s
    unfolding scan
    scan_visited h m = ground arith

  scan-Ensures :
      (visit_id : String → Search → Outcome) (fuel : ℕ) (id : String) (p : List String)
      → VisitOk fuel visit_id
      → (ds : List String) → ScanOk visit_id fuel id p ds
  unfolding scan
  scan-Ensures visit_id fuel id p ok [] s v e sub room = (v, Grows-refl by_id s, λ d m. absurd m)
  scan-Ensures visit_id fuel id p ok (d ∷ ds) s v e sub room =
      let ih = scan-Ensures visit_id fuel id p ok ds in
      let sub' : (x : String) → In x ds → In x (dependencies by_id id) = λ x m. sub x (inr m) in
      elim (Bool-cases (d == id || not (known by_id d))) [
        | inl skip ↦ rw (scan_skipped visit_id id d ds s skip) (
            Ensures-map by_id _ _ _ (ih s v e sub' room)
              (λ t. Scanned-more id d ds s t (λ n k. ground arith)))
        | inr take ↦
            let linked : Chain by_id (s.current_path ++ d ∷ []) = rw e (
              Chain-append by_id p id d (rw e at v.chain)
                (sub d (inl refl), ground arith, ground arith)) in
            elim (Mark-cases (get d s.states)) [
              | inl fresh ↦ rw (scan_fresh visit_id id d ds s take fresh) (
                  Ensures-and_then by_id (After d s) _ _ _
                    (ok d s (record {
                      inv = v;
                      member = ground arith;
                      fresh = fresh;
                      linked = linked;
                      room = room;
                    }))
                    (λ t (v', g, seen).
                      Ensures-map by_id (Scanned id ds t) (Scanned id (d ∷ ds) s)
                        (scan by_id visit_id id ds t)
                        (ih t v' (g.same_path ∙ e) sub' (omega (arith, g.fewer)))
                        (λ u (v'', g', all).
                          Scanned-more id d ds s u (λ _ _. g'.keeps d seen)
                            (v'', Grows-trans by_id g g', all))))
              | inr (inl m) ↦
                  rw (scan_visiting visit_id id d ds s take m)
                    (cycle_from-IsCycle by_id d s.current_path ((v.on_path d).0 m) linked)
              | inr (inr m) ↦ rw (scan_visited visit_id id d ds s take m) (
                  Ensures-map by_id (Scanned id ds s) (Scanned id (d ∷ ds) s)
                    (scan by_id visit_id id ds s) (ih s v e sub' room)
                    (λ t (v', g, all). Scanned-more id d ds s t (λ _ _. g.keeps d m) (v', g, all)))
            ]
      ]

  enter_path : (id : String) (s : Search) → (enter id s).current_path ≡ s.current_path ++ id ∷ []
  unfolding enter
  enter_path id s = refl

  Ensures-finish :
      (id : String) (P Q : Search → Type 0) (r : Outcome)
      → Ensures by_id P r
      → ((t : Search) → P t → Q (leave id t))
      → Ensures by_id Q (finish id r)
  Ensures-finish id P Q (found c) h f = h
  Ensures-finish id P Q (done t) h f = f t h
  Ensures-finish id P Q out_of_fuel h f = h

  finish-Ensures :
      (id : String) (s : Search)
      → Inv by_id s
      → get id s.states ≡ none
      → (t : Search) → Scanned id (dependencies by_id id) (enter id s) t
      → After id s (leave id t)
  unfolding enter leave
  finish-Ensures id s v fresh t (v', g, all) = (
    leave-Inv by_id id s.current_path t v' g.same_path (λ m. ground (arith, (v.on_path id).1 m))
        v.chain (λ y (m, n, k). all y m n k),
    record {
      same_path = rw g.same_path (drop_last-append s.current_path id);
      keeps = λ x h.
          ground (arith, get-put x id visited t.states, get-put x id visiting s.states, g.keeps x);
      fewer = omega (arith, g.fewer, unmarked-enter-le by_id id s, unmarked-leave-le by_id id t);
    },
    get-put_self id visited t.states,
  )

  pub visit-Ensures : (fuel : ℕ) → VisitOk fuel (visit by_id fuel)
  unfolding visit
  visit-Ensures zero id s r =
      absurd (omega (arith, unmarked-enter by_id id s r.member r.fresh, r.room))
  visit-Ensures (suc fuel) id s r =
      Ensures-finish id _ _ _
        (scan-Ensures (visit by_id fuel) fuel id s.current_path (visit-Ensures fuel)
          (dependencies by_id id) (enter id s) (enter-Inv by_id id s r.inv r.fresh r.linked)
          (enter_path id s) (λ d m. m)
          (omega (arith, unmarked-enter by_id id s r.member r.fresh, r.room)))
        (finish-Ensures id s r.inv r.fresh)
