-- ===== src/Graph/Cycle/Traverse.antt =====
-- What one call of `visit` does: the invariant of the marks, the bound on the depth, and the
-- order in which the nodes are finished.
use background_jobs.Prelude.{
  ℕ, ◌≤◌, ◌<◌, String, Bool, true, false, none, some, List, [], ◌∷◌, ◌++◌, Map, get, put, length,
  In, filter, keys, get-put, In-append, ◌≡◌, ◌↔◌, refl, arith, In-keys_iff,
}
use background_jobs.Graph.{DependencyNode, known, Edge}
use background_jobs.Graph.Cycle.{
  Mark, visiting, visited, Search, Outcome, found, done, out_of_fuel, enter, leave, and_then,
}
use background_jobs.Graph.Cycle.Chains.{drop_last-append, Chain, IsCycle}

abbrev pub unmarked_in : Map Mark → String → Bool
unmarked_in states k = elim (get k states) [ none ↦ true | some _ ↦ false ]

abbrev pub Visited : Search → String → Type 0
Visited s x = get x s.states ≡ some visited

module _ (by_id : Map DependencyNode) where
  -- The nodes without a mark: each call of `visit` takes one of them.
  abbrev pub unmarked : Search → ℕ
  unmarked s = length (filter (unmarked_in s.states) (keys by_id))

  -- Each node comes after those that it depends on.
  abbrev pub Ordered : List String → Type 0
  Ordered [] = Unit
  Ordered (x ∷ xs) = (¬ In x xs) × ((y : String) → Edge by_id x y → In y xs) × Ordered xs

  pub record Inv (s : Search) : Type 0 where
    pub chain : Chain by_id s.current_path
    pub on_path : (x : String) → (get x s.states ≡ some visiting) ↔ In x s.current_path
    pub order : List String
    pub ordered : Ordered order
    pub finished : (x : String) → Visited s x ↔ In x order

  pub record Grows (s t : Search) : Type 0 where
    pub same_path : t.current_path ≡ s.current_path
    pub keeps : (x : String) → Visited s x → Visited t x
    pub fewer : unmarked t ≤ unmarked s

  abbrev pub Ensures : (Search → Type 0) → Outcome → Type 0
  Ensures P (found c) = IsCycle by_id c
  Ensures P (done t) = P t
  Ensures P out_of_fuel = ⊥

  pub Grows-refl : (s : Search) → Grows s s
  Grows-refl s = record { same_path = refl; keeps = λ x h. h; fewer = omega arith }

  pub Grows-trans : {s t u : Search} → Grows s t → Grows t u → Grows s u
  Grows-trans g h = record {
    same_path = ground arith;
    keeps = λ x v. h.keeps x (g.keeps x v);
    fewer = omega arith;
  }

  pub Ensures-map :
      (P Q : Search → Type 0) (r : Outcome) → Ensures P r → ((t : Search) → P t → Q t) → Ensures Q r
  Ensures-map P Q (found c) h f = h
  Ensures-map P Q (done t) h f = f t h
  Ensures-map P Q out_of_fuel h f = h

  pub Ensures-and_then :
      (P Q : Search → Type 0) (r : Outcome) (k : Search → Outcome)
      → Ensures P r
      → ((t : Search) → P t → Ensures Q (k t))
      → Ensures Q (and_then r k)
  Ensures-and_then P Q (found c) k h f = h
  Ensures-and_then P Q (done t) k h f = f t h
  Ensures-and_then P Q out_of_fuel k h f = h

-- A mark at one more node.
filter-put-le :
    (x : String) (m : Mark) (st : Map Mark) (ks : List String)
    → length (filter (unmarked_in (put x m st)) ks) ≤ length (filter (unmarked_in st) ks)
filter-put-le x m st [] = omega arith
filter-put-le x m st (k ∷ ks) = ground (arith, filter-put-le x m st ks, get-put k x m st)

filter-put-lt :
    (x : String) (m : Mark) (st : Map Mark) (ks : List String)
    → In x ks
    → get x st ≡ none
    → length (filter (unmarked_in (put x m st)) ks) < length (filter (unmarked_in st) ks)
filter-put-lt x m st [] h e = absurd h
filter-put-lt x m st (k ∷ ks) h e =
    ground (arith, filter-put-le x m st ks, filter-put-lt x m st ks, get-put k x m st)

module _ (by_id : Map DependencyNode) where
  pub unmarked-enter :
      (id : String) (s : Search)
      → known by_id id ≡ true
      → get id s.states ≡ none
      → unmarked by_id (enter id s) < unmarked by_id s
  unfolding enter
  unmarked-enter id s h e =
      filter-put-lt id visiting s.states (keys by_id) ((In-keys_iff id by_id).1 (ground arith)) e

  pub unmarked-enter-le :
      (id : String) (s : Search) → unmarked by_id (enter id s) ≤ unmarked by_id s
  unfolding enter
  unmarked-enter-le id s = filter-put-le id visiting s.states (keys by_id)

  pub unmarked-leave-le :
      (id : String) (s : Search) → unmarked by_id (leave id s) ≤ unmarked by_id s
  unfolding leave
  unmarked-leave-le id s = filter-put-le id visited s.states (keys by_id)

  pub enter-Inv :
      (id : String) (s : Search)
      → Inv by_id s
      → get id s.states ≡ none
      → Chain by_id (s.current_path ++ id ∷ [])
      → Inv by_id (enter id s)
  unfolding enter
  enter-Inv id s v e c = record {
    chain = c;
    on_path = λ x.
        ground (
          arith,
          get-put x id visiting s.states,
          v.on_path x,
          In-append x s.current_path (id ∷ []),
        );
    order = v.order;
    ordered = v.ordered;
    finished = λ x. ground (arith, get-put x id visiting s.states, v.finished x, v.finished id);
  }

  pub leave-Inv :
      (id : String) (p : List String) (t : Search)
      → Inv by_id t
      → t.current_path ≡ p ++ id ∷ []
      → ¬ In id p
      → Chain by_id p
      → ((y : String) → Edge by_id id y → Visited t y)
      → Inv by_id (leave id t)
  unfolding leave
  leave-Inv id p t v e new c all_done = record {
    chain = rw (e, drop_last-append p id) c;
    on_path = λ x.
        rw (e, drop_last-append p id)
          (ground (arith, get-put x id visited t.states, v.on_path x, In-append x p (id ∷ [])));
    order = id ∷ v.order;
    ordered = (
      λ m. ground (arith, (v.finished id).1 m, (v.on_path id).1, In-append id p (id ∷ [])),
      λ y edge. (v.finished y).0 (all_done y edge),
      v.ordered,
    );
    finished = λ x. ground (arith, get-put x id visited t.states, v.finished x);
  }
