-- ===== src/Graph/Cycle/Answers.antt =====
-- What findDependencyCycle answers: a cycle that is there, or none when the graph has none.
use mathlib.Core.List.{foldl}
use background_jobs.Prelude.{
  ℕ, ◌≤◌, ◌+◌, String, true, none, List, [], ◌∷◌, Map, get, put, length, In, keys, In-keys-put,
  length-keys-put, ◌≡◌, ◌∙◌, ap, subst, ◌⊎◌, ◌↔◌, refl, sym, inl, inr, ⊎_elim, arith,
  length-filter-le, In-keys_iff,
}
use background_jobs.Graph.{DependencyNode, nodes_by_id, known, Edge}
use background_jobs.Graph.Cycle.{
  Search, Outcome, found, done, out_of_fuel, and_then, visit, visit_all, start, Answer, cycle,
  acyclic, exhausted, to_answer, find_dependency_cycle,
}
use background_jobs.Graph.Cycle.Chains.{IsCycle, Walk, one, more}
use background_jobs.Graph.Cycle.Traverse.{
  Visited, unmarked, unmarked_in, Inv, Ordered, Grows, Ensures, Grows-refl, Grows-trans,
  Ensures-map, Ensures-and_then,
}
use background_jobs.Graph.Cycle.Visit.{Ready, After, visit-Ensures, Mark-cases}

abbrev pub IsNode : List DependencyNode → String → Type 0
IsNode nodes x = (n : DependencyNode) × In n nodes × (x ≡ n.id)

-- The map has as keys the ids of the nodes.
length-keys-fold :
    (ns : List DependencyNode) (m : Map DependencyNode)
    → length (keys (foldl (λ m n. put n.id n m) m ns)) ≤ length (keys m) + length ns
length-keys-fold [] m = omega arith
length-keys-fold (n ∷ ns) m =
    omega (arith, length-keys-fold ns (put n.id n m), length-keys-put n.id n m)

In-keys-fold :
    (ns : List DependencyNode) (m : Map DependencyNode) (x : String)
    → In x (keys (foldl (λ m n. put n.id n m) m ns)) ↔ (In x (keys m) ⊎ IsNode ns x)
In-keys-fold [] m x = (inl, ⊎_elim (λ h. h) (λ (n, m, e). absurd m))
In-keys-fold (n ∷ ns) m x = (
  λ h.
      ⊎_elim (λ a. ⊎_elim (λ e. inr (n, inl refl, e)) inl ((In-keys-put x n.id n m).0 a))
        (λ (k, i, e). inr (k, inr i, e)) ((In-keys-fold ns (put n.id n m) x).0 h),
  ⊎_elim (λ a. (In-keys-fold ns (put n.id n m) x).1 (inl ((In-keys-put x n.id n m).1 (inr a))))
      (λ (k, i, e).
        ⊎_elim
          (λ q.
            (In-keys-fold ns (put n.id n m) x).1
              (inl ((In-keys-put x n.id n m).1 (inl (ground arith)))))
          (λ r. (In-keys-fold ns (put n.id n m) x).1 (inr (k, r, e))) i),
)

pub known_iff :
    (nodes : List DependencyNode) (x : String)
    → (known (nodes_by_id nodes) x ≡ true) ↔ IsNode nodes x
unfolding nodes_by_id
known_iff nodes x = (
  λ h.
      ⊎_elim (λ n. absurd n) (λ i. i)
        ((In-keys-fold nodes [] x).0 ((In-keys_iff x (nodes_by_id nodes)).1 (ground arith))),
  λ i. ground (arith, (In-keys_iff x (nodes_by_id nodes)).0 ((In-keys-fold nodes [] x).1 (inr i))),
)

module _ (by_id : Map DependencyNode) where
  abbrev Between : Search → Type 0
  Between s = Inv by_id s × (s.current_path ≡ [])

  abbrev AllDone : List DependencyNode → Search → Search → Type 0
  AllDone ns s t = Between t × Grows by_id s t × ((x : String) → IsNode ns x → Visited t x)

  -- Between two calls no node is being visited.
  not_visiting : (s : Search) (x : String) → Between s → (get x s.states ≡ none) ⊎ Visited s x
  not_visiting s x (v, e) = elim (Mark-cases (get x s.states)) [
    | inl n ↦ inl n
    | inr (inl m) ↦ absurd (rw e at ((v.on_path x).0 m))
    | inr (inr m) ↦ inr m
  ]

  AllDone-more :
      (n : DependencyNode) (ns : List DependencyNode) (s t u : Search)
      → Grows by_id s t
      → Visited t n.id
      → AllDone ns t u
      → AllDone (n ∷ ns) s u
  AllDone-more n ns s t u g seen (b, g', all) = (
    b,
    Grows-trans by_id g g',
    λ x (k, m, e).
        ⊎_elim
          (λ q.
            subst (Visited u) (sym (e ∙ ap (λ (j : DependencyNode). j.id) q)) (g'.keeps n.id seen))
          (λ r. all x (k, r, e)) m,
  )

  visit_all_fresh :
      (fuel : ℕ) (n : DependencyNode) (ns : List DependencyNode) (s : Search)
      → get n.id s.states ≡ none
      → visit_all by_id fuel (n ∷ ns) s
        ≡ and_then (visit by_id fuel n.id s) (λ t. visit_all by_id fuel ns t)
  unfolding visit_all
  visit_all_fresh fuel n ns s m = ground arith

  visit_all-Visited :
      (fuel : ℕ) (n : DependencyNode) (ns : List DependencyNode) (s : Search)
      → Visited s n.id
      → visit_all by_id fuel (n ∷ ns) s ≡ visit_all by_id fuel ns s
  unfolding visit_all
  visit_all-Visited fuel n ns s m = ground arith

  ready :
      (fuel : ℕ) (id : String) (s : Search)
      → Between s
      → known by_id id ≡ true
      → get id s.states ≡ none
      → unmarked by_id s ≤ fuel
      → Ready by_id fuel id s
  ready fuel id s (v, e) k m room = record {
    inv = v;
    member = k;
    fresh = m;
    linked = rw e (tt, tt);
    room = room;
  }

  visit_all-Ensures :
      (fuel : ℕ) (ns : List DependencyNode) (s : Search)
      → Between s
      → ((x : String) → IsNode ns x → known by_id x ≡ true)
      → unmarked by_id s ≤ fuel
      → Ensures by_id (AllDone ns s) (visit_all by_id fuel ns s)
  unfolding visit_all
  visit_all-Ensures fuel [] s b sub room = (b, Grows-refl by_id s, λ x (n, m, e). absurd m)
  visit_all-Ensures fuel (n ∷ ns) s b sub room =
      let here : IsNode (n ∷ ns) n.id = (n, inl refl, refl) in
      let later : (x : String) → IsNode ns x → known by_id x ≡ true =
        λ x (k, m, e). sub x (k, inr m, e) in
      elim (not_visiting s n.id b) [
        | inl m ↦ rw (visit_all_fresh fuel n ns s m) (
            Ensures-and_then by_id (After by_id n.id s) _ _ _
              (visit-Ensures by_id fuel n.id s (ready fuel n.id s b (sub n.id here) m room))
              (λ t (v, g, seen).
                Ensures-map by_id (AllDone ns t) (AllDone (n ∷ ns) s) (visit_all by_id fuel ns t)
                  (visit_all-Ensures fuel ns t (v, g.same_path ∙ b.1) later
                    (omega (arith, g.fewer)))
                  (λ u. AllDone-more n ns s t u g seen)))
        | inr m ↦ rw (visit_all-Visited fuel n ns s m) (
            Ensures-map by_id (AllDone ns s) (AllDone (n ∷ ns) s) (visit_all by_id fuel ns s)
              (visit_all-Ensures fuel ns s b later room)
              (λ u. AllDone-more n ns s s u (Grows-refl by_id s) m))
      ]

  -- With a full order there is no closed walk.
  stays : (r : List String) → Ordered by_id r → (x y : String) → In x r → Edge by_id x y → In y r
  stays [] o x y m e = absurd m
  stays (a ∷ r) o x y (inl q) e = inr (o.1 y (rw q at e))
  stays (a ∷ r) o x y (inr m) e = inr (stays r o.2 x y m e)

  stays-Walk :
      (r : List String) → Ordered by_id r → {x y : String} → In x r → Walk by_id x y → In y r
  stays-Walk r o m (one e) = stays r o _ _ m e
  stays-Walk r o m (more e w) = stays-Walk r o (stays r o _ _ m e) w

  after_first :
      (r : List String)
      → Ordered by_id r
      → {x y : String} → ((z : String) → Edge by_id x z → In z r)
      → Walk by_id x y
      → In y r
  after_first r o h (one e) = h _ e
  after_first r o h (more e w) = stays-Walk r o (h _ e) w

  no_closed-Walk : (r : List String) → Ordered by_id r → (x : String) → In x r → ¬ Walk by_id x x
  no_closed-Walk [] o x m w = m
  no_closed-Walk (a ∷ r) o x (inl q) w =
      o.0 (after_first r o.2 (o.1) (subst (λ z. Walk by_id z z) q w))
  no_closed-Walk (a ∷ r) o x (inr m) w = no_closed-Walk r o.2 x m w

  target_known : {x y : String} → Walk by_id x y → known by_id y ≡ true
  target_known (one e) = e.2
  target_known (more e w) = target_known w

abbrev pub Says : List DependencyNode → Answer → Type 0
Says nodes (cycle c) = IsCycle (nodes_by_id nodes) c
Says nodes acyclic = (x : String) → ¬ Walk (nodes_by_id nodes) x x
Says nodes exhausted = ⊥

Says-to_answer :
    (nodes : List DependencyNode) (r : Outcome)
    → Ensures (nodes_by_id nodes) (AllDone (nodes_by_id nodes) nodes start) r
    → Says nodes (to_answer r)
Says-to_answer nodes (found c) h = h
Says-to_answer nodes (done t) ((v, e), g, all) = λ x w.
    no_closed-Walk (nodes_by_id nodes) v.order v.ordered x
      ((v.finished x).0 (all x ((known_iff nodes x).0 (target_known (nodes_by_id nodes) w)))) w
Says-to_answer nodes out_of_fuel h = h

start-Inv : (by_id : Map DependencyNode) → Inv by_id start
unfolding get
start-Inv by_id = record {
  chain = tt;
  on_path = λ x. ground arith;
  order = [];
  ordered = tt;
  finished = λ x. ground arith;
}

enough_fuel : (nodes : List DependencyNode) → unmarked (nodes_by_id nodes) start ≤ length nodes
unfolding nodes_by_id
enough_fuel nodes =
    omega (
      arith,
      length-filter-le (unmarked_in []) (keys (nodes_by_id nodes)),
      length-keys-fold nodes [],
    )

-- The search always answers: with a closed path along dependency edges, or with "acyclic" only if
-- no walk along such edges leads from a node back to itself.
pub find_dependency_cycle_correct :
    (nodes : List DependencyNode) → Says nodes (find_dependency_cycle nodes)
unfolding find_dependency_cycle
find_dependency_cycle_correct nodes = Says-to_answer nodes _ (
    visit_all-Ensures (nodes_by_id nodes) (length nodes) nodes start
      (start-Inv (nodes_by_id nodes), refl) (λ x. (known_iff nodes x).1) (enough_fuel nodes))
