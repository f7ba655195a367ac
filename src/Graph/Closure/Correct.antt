-- ===== src/Graph/Closure/Correct.antt =====
-- dependencyClosure and dependentClosure against reachability.
use mathlib.Core.List.{foldl}
use background_jobs.Prelude.{
  String, Bool, true, some, List, [], ◌∷◌, ◌++◌, Map, get, put, get-put, In, In-append, ◌≡◌, ◌⊎◌,
  ◌↔◌, refl, inl, inr, ⊎_elim, arith, ap, ◌∙◌, subst, sym, Bool-cases, Option-cases,
}
use background_jobs.Graph.{DependencyNode, nodes_by_id, known, dependencies}
use background_jobs.Graph.Closure.{
  mentioned, dependency_closure, list_at, add_dependents, dependents_from, dependents_of, present,
  dependent_closure,
}
use background_jobs.Graph.Closure.Reach.{Reach, here, step, visit_reaches}

In-get-fold :
    (ns : List DependencyNode) (m : Map DependencyNode) (x : String) (n : DependencyNode)
    → get x (foldl (λ m n. put n.id n m) m ns) ≡ some n
    → (get x m ≡ some n) ⊎ (In n ns × (n.id ≡ x))
In-get-fold [] m x n h = inl h
In-get-fold (k ∷ ns) m x n h =
    ⊎_elim (λ e. ground (arith, e, get-put x k.id k m)) (λ (i, q). inr (inr i, q))
      (In-get-fold ns (put k.id k m) x n h)

pub get-nodes_by_id :
    (nodes : List DependencyNode) (x : String) (n : DependencyNode)
    → get x (nodes_by_id nodes) ≡ some n
    → In n nodes × (n.id ≡ x)
unfolding nodes_by_id get
get-nodes_by_id nodes x n h = ⊎_elim (λ e. cc) (λ i. i) (In-get-fold nodes [] x n h)

id_mentioned :
    (nodes : List DependencyNode) (n : DependencyNode) → In n nodes → In n.id (mentioned nodes)
id_mentioned [] n m = absurd m
id_mentioned (k ∷ ns) n (inl e) = inl (ap (λ (j : DependencyNode). j.id) e)
id_mentioned (k ∷ ns) n (inr m) =
    inr ((In-append n.id k.depends_on (mentioned ns)).1 (inr (id_mentioned ns n m)))

dependency_mentioned :
    (nodes : List DependencyNode) (n : DependencyNode) (d : String)
    → In n nodes
    → In d n.depends_on
    → In d (mentioned nodes)
dependency_mentioned [] n d m h = absurd m
dependency_mentioned (k ∷ ns) n d (inl e) h = inr (
    (In-append d k.depends_on (mentioned ns)).1
      (inl (subst (λ (j : DependencyNode). In d j.depends_on) e h)))
dependency_mentioned (k ∷ ns) n d (inr m) h =
    inr ((In-append d k.depends_on (mentioned ns)).1 (inr (dependency_mentioned ns n d m h)))

known_mentioned :
    (nodes : List DependencyNode) (x : String)
    → known (nodes_by_id nodes) x ≡ true
    → In x (mentioned nodes)
known_mentioned nodes x h = elim (Option-cases (get x (nodes_by_id nodes))) [
  | inl e ↦ ground arith
  | inr (n, e) ↦
      let (m, q) = get-nodes_by_id nodes x n e in
      subst (λ z. In z (mentioned nodes)) q (id_mentioned nodes n m)
]

dependencies-mentioned :
    (nodes : List DependencyNode) (x y : String)
    → In y (dependencies (nodes_by_id nodes) x)
    → In y (mentioned nodes)
dependencies-mentioned nodes x y h = elim (Option-cases (get x (nodes_by_id nodes))) [
  | inl e ↦ ground arith
  | inr (n, e) ↦
      let d : dependencies (nodes_by_id nodes) x ≡ n.depends_on = ground arith in
      dependency_mentioned nodes n y (get-nodes_by_id nodes x n e).0 (subst (In y) d h)
]

-- For a node of the graph the result is a set that holds exactly what it depends on, directly or
-- not, and itself; for any other id it is empty.
pub dependency_closure_correct :
    (nodes : List DependencyNode) (selected : String)
    → (c : List String) × (dependency_closure nodes selected ≡ some c)
      × ((x : String)
          → In x c ↔ (
              (known (nodes_by_id nodes) selected ≡ true)
              × Reach (dependencies (nodes_by_id nodes)) selected x))
unfolding dependency_closure
dependency_closure_correct nodes selected = elim (Bool-cases (known (nodes_by_id nodes) selected)) [
  | inl k ↦
      let (c, e, r) =
        visit_reaches (dependencies (nodes_by_id nodes)) (mentioned nodes)
          (λ x y _. dependencies-mentioned nodes x y) selected (known_mentioned nodes selected k) in
      (c, ground arith, λ x. (λ h. (k, (r x).0 h), λ (_, w). (r x).1 w))
  | inr k ↦ ([], ground arith, λ x. (λ n. absurd n, λ (h, _). ground arith))
]

-- `n` depends on `x` directly.
abbrev pub Names : List DependencyNode → String → String → Type 0
Names nodes x y = (n : DependencyNode) × In n nodes × (y ≡ n.id) × In x n.depends_on

In-list_at-put :
    (x y k id : String) (m : Map (List String))
    → In y (list_at x (put k (list_at k m ++ id ∷ []) m))
      ↔ (In y (list_at x m) ⊎ ((y ≡ id) × (x ≡ k)))
In-list_at-put x y k id m =
    ground (arith, get-put x k (list_at k m ++ id ∷ []) m, In-append y (list_at k m) (id ∷ []))

In-add_dependents :
    (x y id : String) (ds : List String) (m : Map (List String))
    → In y (list_at x (add_dependents id ds m)) ↔ (In y (list_at x m) ⊎ ((y ≡ id) × In x ds))
unfolding add_dependents
In-add_dependents x y id [] m = (inl, ⊎_elim (λ h. h) (λ (_, n). absurd n))
In-add_dependents x y id (d ∷ ds) m =
    let next = put d (list_at d m ++ id ∷ []) m in
    ground (arith, In-add_dependents x y id ds next, In-list_at-put x y d id m)

list_at-put_same :
    (x k : String) (m : Map (List String)) → list_at x (put k (list_at k m) m) ≡ list_at x m
list_at-put_same x k m = ground (arith, get-put x k (list_at k m) m)

Names-head :
    (x y : String) (k n : DependencyNode)
    → k ≡ n
    → y ≡ k.id
    → In x k.depends_on
    → (y ≡ n.id) × In x n.depends_on
Names-head x y k n q e j =
    (e ∙ ap (λ (i : DependencyNode). i.id) q, subst (λ (i : DependencyNode). In x i.depends_on) q j)

In-dependents_from :
    (x y : String) (ns : List DependencyNode) (m : Map (List String))
    → In y (list_at x (dependents_from ns m)) ↔ (In y (list_at x m) ⊎ Names ns x y)
unfolding dependents_from
In-dependents_from x y [] m = (inl, ⊎_elim (λ h. h) (λ (_, n, _, _). absurd n))
In-dependents_from x y (n ∷ ns) m =
    let first = put n.id (list_at n.id m) m in
    let rest = add_dependents n.id n.depends_on first in
    let same : list_at x first ≡ list_at x m = list_at-put_same x n.id m in
    let added = In-add_dependents x y n.id n.depends_on first in
    (
      λ h.
          ⊎_elim
            (λ a.
              ⊎_elim (λ b. inl (subst (In y) same b)) (λ (e, i). inr (n, inl refl, e, i))
                (added.0 a))
            (λ (k, i, e, j). inr (k, inr i, e, j)) ((In-dependents_from x y ns rest).0 h),
      λ h. (In-dependents_from x y ns rest).1 (
          ⊎_elim (λ a. inl (added.1 (inl (subst (In y) (sym same) a))))
            (λ (k, i, e, j).
              ⊎_elim (λ q. inl (added.1 (inr (Names-head x y k n q e j)))) (λ r. inr (k, r, e, j))
                i)
            h),
    )

present-add_dependents :
    (x id : String) (ds : List String) (m : Map (List String))
    → present x (add_dependents id ds m) ≡ true
    → (present x m ≡ true) ⊎ In x ds
unfolding add_dependents
present-add_dependents x id [] m h = inl h
present-add_dependents x id (d ∷ ds) m h =
    let next = put d (list_at d m ++ id ∷ []) m in
    ground (arith, present-add_dependents x id ds next h, get-put x d (list_at d m ++ id ∷ []) m)

present-dependents_from :
    (x : String) (ns : List DependencyNode) (m : Map (List String))
    → present x (dependents_from ns m) ≡ true
    → (present x m ≡ true) ⊎ In x (mentioned ns)
unfolding dependents_from
present-dependents_from x [] m h = inl h
present-dependents_from x (n ∷ ns) m h =
    let first = put n.id (list_at n.id m) m in
    let rest = add_dependents n.id n.depends_on first in
    ground (
      arith,
      present-dependents_from x ns rest h,
      present-add_dependents x n.id n.depends_on first,
      get-put x n.id (list_at n.id m) m,
      In-append x n.depends_on (mentioned ns),
    )

-- The next ids of a search through the dependents.
abbrev pub dependents : List DependencyNode → String → List String
dependents nodes id = list_at id (dependents_of nodes)

pub In-dependents :
    (nodes : List DependencyNode) (x y : String) → In y (dependents nodes x) ↔ Names nodes x y
unfolding dependents_of get
In-dependents nodes x y = (
  λ h. ⊎_elim (λ n. absurd n) (λ i. i) ((In-dependents_from x y nodes []).0 h),
  λ i. (In-dependents_from x y nodes []).1 (inr i),
)

-- The graph names `x`: it is the id of a node or a dependency of one.
abbrev pub Named : List DependencyNode → String → Type 0
Named nodes x = (n : DependencyNode) × In n nodes × ((n.id ≡ x) ⊎ In x n.depends_on)

abbrev is_mentioned : List DependencyNode → String → Bool
is_mentioned nodes id = present id (dependents_of nodes)

add_dependents-present :
    (x id : String) (ds : List String) (m : Map (List String))
    → (present x m ≡ true) ⊎ In x ds
    → present x (add_dependents id ds m) ≡ true
unfolding add_dependents
add_dependents-present x id [] m h = ⊎_elim (λ p. p) (λ n. absurd n) h
add_dependents-present x id (d ∷ ds) m h =
    let next = put d (list_at d m ++ id ∷ []) m in
    ground (arith, add_dependents-present x id ds next, get-put x d (list_at d m ++ id ∷ []) m)

dependents_from-present :
    (x : String) (ns : List DependencyNode) (m : Map (List String))
    → (present x m ≡ true) ⊎ Named ns x
    → present x (dependents_from ns m) ≡ true
unfolding dependents_from
dependents_from-present x [] m h = ⊎_elim (λ p. p) (λ (n, i, _). absurd i) h
dependents_from-present x (n ∷ ns) m h =
    let first = put n.id (list_at n.id m) m in
    let rest = add_dependents n.id n.depends_on first in
    let kept : (present x first ≡ true) ⊎ In x n.depends_on → present x rest ≡ true =
      add_dependents-present x n.id n.depends_on first in
    let next : (present x rest ≡ true) ⊎ Named ns x → present x (dependents_from ns rest) ≡ true =
      dependents_from-present x ns rest in
    ⊎_elim (λ p. next (inl (kept (inl (ground (arith, get-put x n.id (list_at n.id m) m))))))
      (λ (k, i, e).
        ⊎_elim
          (λ q.
            let here : (n.id ≡ x) ⊎ In x n.depends_on =
              subst (λ (z : DependencyNode). (z.id ≡ x) ⊎ In x z.depends_on) q e in
            next (
              inl (
                kept (
                  ⊎_elim (λ r. inl (ground (arith, get-put x n.id (list_at n.id m) m))) inr here))))
          (λ r. next (inr (k, r, e))) i)
      h

mentioned-Named :
    (nodes : List DependencyNode) (x : String) → In x (mentioned nodes) → Named nodes x
mentioned-Named [] x m = absurd m
mentioned-Named (n ∷ ns) x (inl e) = (n, inl refl, inl (sym e))
mentioned-Named (n ∷ ns) x (inr m) =
    ⊎_elim (λ d. (n, inl refl, inr d))
      (λ r. let (k, i, e) = mentioned-Named ns x r in (k, inr i, e))
      ((In-append x n.depends_on (mentioned ns)).0 m)

Named-mentioned :
    (nodes : List DependencyNode) (x : String) → Named nodes x → is_mentioned nodes x ≡ true
unfolding dependents_of
Named-mentioned nodes x h = dependents_from-present x nodes [] (inr h)

present_mentioned :
    (nodes : List DependencyNode) (x : String)
    → is_mentioned nodes x ≡ true
    → In x (mentioned nodes)
unfolding dependents_of get
present_mentioned nodes x h = ⊎_elim (λ e. cc) (λ i. i) (present-dependents_from x nodes [] h)

-- `y` is `x` or depends on it, directly or not.
pub data Affected (nodes : List DependencyNode) : String → String → Type 0 where
  itself : {x : String} → Affected nodes x x
  via : {x y z : String} → Names nodes x y → Affected nodes y z → Affected nodes x z

Affected-of_Reach :
    (nodes : List DependencyNode) {x y : String} → Reach (dependents nodes) x y → Affected nodes x y
Affected-of_Reach nodes here = itself
Affected-of_Reach nodes (step m r) = via ((In-dependents nodes _ _).0 m) (Affected-of_Reach nodes r)

Reach-of_Affected :
    (nodes : List DependencyNode) {x y : String} → Affected nodes x y → Reach (dependents nodes) x y
Reach-of_Affected nodes itself = here
Reach-of_Affected nodes (via n a) = step ((In-dependents nodes _ _).1 n) (Reach-of_Affected nodes a)

-- For an id that the graph names the result is a set that holds exactly that id and the nodes that
-- depend on it, directly or not; for any other id it is empty.
pub dependent_closure_correct :
    (nodes : List DependencyNode) (selected : String)
    → (c : List String) × (dependent_closure nodes selected ≡ some c)
      × ((x : String) → In x c ↔ (Named nodes selected × Affected nodes selected x))
unfolding dependent_closure
dependent_closure_correct nodes selected = elim (Bool-cases (is_mentioned nodes selected)) [
  | inl k ↦
      let (c, e, r) =
        visit_reaches (dependents nodes) (mentioned nodes)
          (λ x y _ h.
            let (n, m, q, _) = (In-dependents nodes x y).0 h in
            subst (λ z. In z (mentioned nodes)) (sym q) (id_mentioned nodes n m))
          selected (present_mentioned nodes selected k) in
      (
        c,
        ground arith,
        λ x. (
          λ h. (
            mentioned-Named nodes selected (present_mentioned nodes selected k),
            Affected-of_Reach nodes ((r x).0 h),
          ),
          λ (_, a). (r x).1 (Reach-of_Affected nodes a),
        ),
      )
  | inr k ↦ (
    [],
    ground arith,
    λ x. (λ n. absurd n, λ (h, _). absurd (ground (arith, Named-mentioned nodes selected h))),
  )
]
