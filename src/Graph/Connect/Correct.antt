-- ===== src/Graph/Connect/Correct.antt =====
-- What each verdict of canConnectDependency means for the graph with the new edge.
use mathlib.Core.List.{foldl}
use mathlib.Core.Option
use background_jobs.Prelude.{
  ap, ⊎_elim, String, true, false, none, some, List, [], ◌∷◌, ◌++◌, Map, map, any, any_iff,
  any_of_In, get, put, get-put, has, has_iff, has-false_iff, ◌==◌, In, In-append, ◌≡◌, ◌≢◌, ◌⊎◌,
  ◌↔◌, refl, sym, subst, inl, inr, arith, Bool-cases, Option-cases, String_discrete,
}
use background_jobs.Graph.{DependencyNode, nodes_by_id, known, dependencies, Edge}
use background_jobs.Graph.Cycle.{Answer, cycle, acyclic, exhausted, find_dependency_cycle}
use background_jobs.Graph.Cycle.Chains.{IsCycle, Chain, Walk, one, more}
use background_jobs.Graph.Cycle.Answers.{Says, find_dependency_cycle_correct, IsNode, known_iff}
use background_jobs.Graph.Closure.Correct.{get-nodes_by_id}
use background_jobs.Graph.Connect.{
  Verdict, valid, invalid, undecided, self, duplicate, cyclic, missing, find_node, connect,
  can_connect_dependency, verdict,
}

module _ (source target : String) where
  -- Looking a node up commutes with the update, which keeps the ids.
  get-connect :
      (ns : List DependencyNode) (m m' : Map DependencyNode) (x : String)
      → ((z : String) → get z m' ≡ Option.map (connect source target) (get z m))
      → get x (foldl (λ m n. put n.id n m) m' (map (connect source target) ns))
        ≡ Option.map (connect source target) (get x (foldl (λ m n. put n.id n m) m ns))
  get-connect [] m m' x h = h x
  get-connect (n ∷ ns) m m' x h = get-connect ns (put n.id n m) _ x (λ z. ground (
    arith,
    h z,
    get-put z n.id n m,
    get-put z (connect source target n).id (connect source target n) m',
  ))

Walk-of_Chain :
    (by_id : Map DependencyNode) (x z : String) (mid : List String)
    → Chain by_id (x ∷ (mid ++ z ∷ []))
    → Walk by_id x z
Walk-of_Chain by_id x z [] h = one h.0
Walk-of_Chain by_id x z (y ∷ mid) h = more h.0 (Walk-of_Chain by_id y z mid h.1)

IsCycle-Walk :
    (by_id : Map DependencyNode) (c : List String) → IsCycle by_id c → (x : String) × Walk by_id x x
IsCycle-Walk by_id c (x, mid, e, h) = (x, Walk-of_Chain by_id x x mid (subst (Chain by_id) e h))

find_node-some :
    (id : String) (ns : List DependencyNode) (n : DependencyNode)
    → find_node id ns ≡ some n
    → In n ns × (n.id ≡ id)
unfolding find_node
find_node-some id [] n h = cc
find_node-some id (k ∷ ns) n h = ground (arith, find_node-some id ns n)

-- The first of the nodes with the id.
abbrev pub FirstNode : List DependencyNode → String → DependencyNode → Type 0
FirstNode nodes id n =
    (before : List DependencyNode) × (after : List DependencyNode) × (nodes ≡ before ++ n ∷ after)
    × (n.id ≡ id)
    × ((k : DependencyNode) → In k before → k.id ≢ id)

find_node-FirstNode :
    (id : String) (ns : List DependencyNode) (n : DependencyNode)
    → find_node id ns ≡ some n
    → FirstNode ns id n
unfolding find_node
find_node-FirstNode id [] n h = cc
find_node-FirstNode id (k ∷ ns) n h = elim (Bool-cases (k.id == id)) [
  | inl e ↦
      let q : k ≡ n = ground arith in
      ([], ns, ap (λ x. x ∷ ns) q, subst (λ x. x.id ≡ id) q (ground arith), λ j m. absurd m)
  | inr e ↦
      let (before, after, shape, same, others) = find_node-FirstNode id ns n (ground arith) in
      (
        k ∷ before,
        after,
        ap (λ t. k ∷ t) shape,
        same,
        λ j m. ⊎_elim (λ q. subst (λ x. x.id ≢ id) (sym q) (ground arith)) (others j) m,
      )
]

find_node-none : (id : String) (ns : List DependencyNode) → find_node id ns ≡ none → ¬ IsNode ns id
unfolding find_node
find_node-none id [] h (n, m, e) = m
find_node-none id (k ∷ ns) h (n, inl q, e) = ground arith
find_node-none id (k ∷ ns) h (n, inr m, e) = find_node-none id ns (ground arith) (n, m, e)

module _ (nodes : List DependencyNode) (source target : String) where
  -- The edges of the graph, and the new one.
  abbrev pub EdgeWith : String → String → Type 0
  EdgeWith x y = Edge (nodes_by_id nodes) x y ⊎ ((x ≡ target) × (y ≡ source))

  -- Walks of one edge or more in the graph with the new edge.
  pub data WalkWith : String → String → Type 0 where
    final : {x y : String} → EdgeWith x y → WalkWith x y
    onward : {x y z : String} → EdgeWith x y → WalkWith y z → WalkWith x z

  abbrev pub updated : List DependencyNode
  updated = map (connect source target) nodes

  abbrev SameEdges : Type 0
  SameEdges = (x y : String) → Edge (nodes_by_id updated) x y ↔ EdgeWith x y

  get-updated :
      (x : String)
      → get x (nodes_by_id updated) ≡ Option.map (connect source target) (get x (nodes_by_id nodes))
  unfolding nodes_by_id get
  get-updated x = get-connect source target nodes [] [] x (λ z. refl)

  known-updated : (x : String) → known (nodes_by_id updated) x ≡ known (nodes_by_id nodes) x
  known-updated x = ground (arith, get-updated x)

  In-dependencies-updated :
      (x y : String)
      → known (nodes_by_id nodes) target ≡ true
      → In y (dependencies (nodes_by_id updated) x)
        ↔ (In y (dependencies (nodes_by_id nodes) x) ⊎ ((x ≡ target) × (y ≡ source)))
  In-dependencies-updated x y kt = elim (Option-cases (get x (nodes_by_id nodes))) [
    | inl e ↦ ground (arith, get-updated x, e)
    | inr (n, e) ↦ ground (
      arith,
      get-updated x,
      e,
      (get-nodes_by_id nodes x n e).1,
      In-append y n.depends_on (source ∷ []),
    )
  ]

  edges-updated :
      source ≢ target
      → known (nodes_by_id nodes) source ≡ true
      → known (nodes_by_id nodes) target ≡ true
      → SameEdges
  edges-updated ne ks kt x y =
      ground (arith, In-dependencies-updated x y kt, known-updated x, known-updated y)

  module _ (same : SameEdges) where
    to_walk : {x y : String} → WalkWith x y → Walk (nodes_by_id updated) x y
    to_walk (final e) = one ((same _ _).1 e)
    to_walk (onward e w) = more ((same _ _).1 e) (to_walk w)

    of_Walk : {x y : String} → Walk (nodes_by_id updated) x y → WalkWith x y
    of_Walk (one e) = final ((same _ _).0 e)
    of_Walk (more e w) = onward ((same _ _).0 e) (of_Walk w)

  -- The meaning of a verdict.
  abbrev pub Means : Verdict → Type 0
  Means (valid result) =
      (source ≢ target)
      × IsNode nodes source
      × ((n : DependencyNode) × FirstNode nodes target n × (¬ In source n.depends_on))
      × ((x y : String) → Edge (nodes_by_id result) x y ↔ EdgeWith x y)
      × ((x : String) → ¬ WalkWith x x)
  Means (invalid self) = source ≡ target
  Means (invalid missing) = (source ≢ target) × ((¬ IsNode nodes source) ⊎ (¬ IsNode nodes target))
  Means (invalid duplicate) =
      (source ≢ target)
      × ((n : DependencyNode) × In n nodes × (n.id ≡ target) × In source n.depends_on)
  Means (invalid cyclic) = (source ≢ target) × ((x : String) × WalkWith x x)
  Means undecided = ⊥

  verdict-Means :
      (a : Answer)
      → source ≢ target
      → IsNode nodes source
      → ((n : DependencyNode) × FirstNode nodes target n × (¬ In source n.depends_on))
      → SameEdges
      → Says updated a
      → Means (verdict updated a)
  verdict-Means (cycle c) ne s t same h =
      let (x, w) = IsCycle-Walk (nodes_by_id updated) c h in (ne, (x, of_Walk same w))
  verdict-Means acyclic ne s t same h = (ne, s, t, same, λ x w. h x (to_walk same w))
  verdict-Means exhausted ne s t same h = h

  is_source : any (λ (n : DependencyNode). n.id == source) nodes ≡ true → IsNode nodes source
  is_source h =
      let (n, m, e) = any_iff (λ (n : DependencyNode). n.id == source) nodes h in
      (n, m, ground arith)

  not_source : any (λ (n : DependencyNode). n.id == source) nodes ≡ false → ¬ IsNode nodes source
  not_source h (n, m, e) =
      ground (arith, any_of_In (λ (k : DependencyNode). k.id == source) nodes n m)

-- The answer of the function means what it says of the graph: an accepted edge joins two different
-- nodes, the first node with the target's id does not have the source as a dependency yet, no walk is
-- closed, and the result has the old edges and that one; each refusal names a fault that is there; and
-- the answer is never "undecided".
pub can_connect_dependency_correct :
    (nodes : List DependencyNode) (source target : String)
    → Means nodes source target (can_connect_dependency nodes source target)
unfolding can_connect_dependency
can_connect_dependency_correct nodes source target = elim (String_discrete source target) [
  | yes e ↦ says (invalid self) (ground arith) e
  | no ne ↦ elim (Option-cases (find_node target nodes)) [
    | inl f ↦ says (invalid missing) (ground arith) (ne, inr (find_node-none target nodes f))
    | inr (t, f) ↦
        let (m, q) = find_node-some target nodes t f in
        elim (Bool-cases (any (λ (n : DependencyNode). n.id == source) nodes)) [
          | inr a ↦
              says (invalid missing) (ground arith) (ne, inl (not_source nodes source target a))
          | inl a ↦ elim (Bool-cases (has source t.depends_on)) [
            | inl d ↦
                says (invalid duplicate) (ground arith)
                  (ne, (t, m, q, (has_iff source t.depends_on).0 d))
            | inr d ↦
                let s = is_source nodes source target a in
                let here : IsNode nodes target = (t, m, sym q) in
                says
                  (verdict (updated nodes source target)
                    (find_dependency_cycle (updated nodes source target)))
                  (ground arith)
                  (verdict-Means nodes source target _ ne s
                    (
                      t,
                      find_node-FirstNode target nodes t f,
                      (has-false_iff source t.depends_on).0 d,
                    )
                    (edges-updated nodes source target ne ((known_iff nodes source).1 s)
                      ((known_iff nodes target).1 here))
                    (find_dependency_cycle_correct (updated nodes source target)))
          ]
        ]
  ]
]
  where
    says :
        (v : Verdict)
        → can_connect_dependency nodes source target ≡ v
        → Means nodes source target v
        → Means nodes source target (can_connect_dependency nodes source target)
    says v e h = subst (Means nodes source target) (sym e) h
