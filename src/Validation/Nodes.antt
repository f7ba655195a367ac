-- ===== src/Validation/Nodes.antt =====
-- The nodes that the validator builds of the steps: their ids are distinct, and if it finds no issue
-- their dependencies are ids of other nodes.
use background_jobs.Prelude.{
  ℕ, ◌+◌, String, Bool, true, false, Option, some, List, [], ◌∷◌, ◌++◌, map, has, has_iff,
  has-false_iff, In, In-append, Distinct, ◌≡◌, refl, sym, ap, subst, ◌∙◌, inl, inr, ⊎_elim, arith,
  Bool-cases, Option-cases, if◌then◌else◌, ◌==◌,
}
use background_jobs.Json.{Json, null, boolean, number, string, array, object}
use background_jobs.Platform.{Platform}
use background_jobs.Graph.{DependencyNode}
use background_jobs.Validation.{FieldPath, issue, unless, at}
use background_jobs.Validation.Silence.{append_silent, unless_silent}
use background_jobs.Validation.Steps.{
  json_node, dependency_ids, nodes_from, validate_dependency_list, is_own_id,
}

abbrev pub id_of : DependencyNode → String
id_of n = n.id

item_silent :
    (blank again own known : Bool) (path : FieldPath)
    → (if blank
        then issue path "INVALID_DEPENDENCY"
        else if again
        then issue path "DUPLICATE_DEPENDENCY"
        else if own
        then issue path "SELF_DEPENDENCY"
        else unless known path "MISSING_DEPENDENCY")
      ≡ []
    → (blank ≡ false) × (again ≡ false) × (own ≡ false) × (known ≡ true)
item_silent true again own known path h = absurd (ground arith)
item_silent false true own known path h = absurd (ground arith)
item_silent false false true known path h = absurd (ground arith)
item_silent false false false known path h =
    (refl, refl, refl, unless_silent known path "MISSING_DEPENDENCY" h)

module _ (js : Platform) where
  nodes_from-nil :
      (met : List String) (nodes : List DependencyNode)
      → nodes_from js met [] ≡ some nodes
      → nodes ≡ []
  unfolding nodes_from
  nodes_from-nil met nodes h = ground arith

  -- What it takes for the first step to have its node.
  record Headed (met : List String) (s : Json) (ss : List Json) (nodes : List DependencyNode)
      : Type 0 where
    head : DependencyNode
    tail : List DependencyNode
    of_step : json_node js s ≡ some head
    is_new : has head.id met ≡ false
    of_steps : nodes_from js (met ++ head.id ∷ []) ss ≡ some tail
    shape : nodes ≡ head ∷ tail

  nodes_from-Headed :
      (met : List String) (s : Json) (ss : List Json) (nodes : List DependencyNode)
      → nodes_from js met (s ∷ ss) ≡ some nodes
      → Headed met s ss nodes
  unfolding nodes_from
  nodes_from-Headed met s ss nodes h = elim (Option-cases (json_node js s)) [
    | inl e ↦ absurd (ground arith)
    | inr (n, e) ↦ elim (Bool-cases (has n.id met)) [
      | inl old ↦ absurd (ground arith)
      | inr new ↦ elim (Option-cases (nodes_from js (met ++ n.id ∷ []) ss)) [
        | inl q ↦ absurd (ground arith)
        | inr (ns, q) ↦ record {
          head = n;
          tail = ns;
          of_step = e;
          is_new = new;
          of_steps = q;
          shape = ground arith;
        }
      ]
    ]
  ]

  -- Each node is that of a step.
  pub nodes_from-steps :
      (met : List String) (steps : List Json) (nodes : List DependencyNode)
      → nodes_from js met steps ≡ some nodes
      → (n : DependencyNode) → In n nodes
      → (s : Json) × In s steps × (json_node js s ≡ some n)
  nodes_from-steps met [] nodes h n m = absurd (subst (In n) (nodes_from-nil met nodes h) m)
  nodes_from-steps met (s ∷ ss) nodes h n m =
      let v = nodes_from-Headed met s ss nodes h in
      ⊎_elim (λ e. (s, inl refl, v.of_step ∙ ap some (sym e)))
        (λ k.
          let (t, i, q) = nodes_from-steps (met ++ v.head.id ∷ []) ss v.tail v.of_steps n k in
          (t, inr i, q))
        (subst (In n) v.shape m)

  -- Each step has its node.
  pub nodes_from-each :
      (met : List String) (steps : List Json) (nodes : List DependencyNode)
      → nodes_from js met steps ≡ some nodes
      → (s : Json) → In s steps
      → (n : DependencyNode) × In n nodes × (json_node js s ≡ some n)
  nodes_from-each met [] nodes h s m = absurd m
  nodes_from-each met (x ∷ xs) nodes h s m =
      let v = nodes_from-Headed met x xs nodes h in
      let back : (n : DependencyNode) → In n (v.head ∷ v.tail) → In n nodes =
        λ n. subst (In n) (sym v.shape) in
      ⊎_elim
        (λ e. (
          v.head,
          back v.head (inl refl),
          subst (λ z. json_node js z ≡ some v.head) (sym e) v.of_step,
        ))
        (λ k.
          let (n, i, q) = nodes_from-each (met ++ v.head.id ∷ []) xs v.tail v.of_steps s k in
          (n, back n (inr i), q))
        m

  pub nodes_from-Distinct :
      (met : List String) (steps : List Json) (nodes : List DependencyNode)
      → nodes_from js met steps ≡ some nodes
      → Distinct (map id_of nodes) × ((x : String) → In x (map id_of nodes) → ¬ In x met)
  nodes_from-Distinct met [] nodes h =
      let e = nodes_from-nil met nodes h in
      subst (λ ns. Distinct (map id_of ns) × ((x : String) → In x (map id_of ns) → ¬ In x met))
        (sym e) (tt, λ x m. absurd m)
  nodes_from-Distinct met (s ∷ ss) nodes h =
      let v = nodes_from-Headed met s ss nodes h in
      let (d, f) = nodes_from-Distinct (met ++ v.head.id ∷ []) ss v.tail v.of_steps in
      subst (λ ns. Distinct (map id_of ns) × ((x : String) → In x (map id_of ns) → ¬ In x met))
        (sym v.shape)
        (
          ((λ m. f v.head.id m ((In-append v.head.id met (v.head.id ∷ [])).1 (inr (inl refl)))), d),
          λ x m k.
              ⊎_elim (λ e. (has-false_iff v.head.id met).0 v.is_new (subst (λ y. In y met) e k))
                (λ r. f x r ((In-append x met (v.head.id ∷ [])).1 (inl k))) m,
        )

  -- A list of dependencies without an issue names known ids other than the step's own.
  pub dependency_list_silent :
      (ids : List String) (own : Option Json) (path : FieldPath) (i : ℕ) (met : List String)
      (ds : List Json)
      → validate_dependency_list js ids own path i met ds ≡ []
      → (d : String) → In d (dependency_ids js ds)
      → In d ids × (is_own_id own d ≡ false)
  unfolding validate_dependency_list
  dependency_list_silent ids own path i met [] h d m = absurd m
  dependency_list_silent ids own path i met (string t ∷ ds) h d m =
      let (here, later) =
        append_silent _ (validate_dependency_list js ids own path (i + 1) _ ds) h in
      let (text, again, other, known) =
        item_silent (js.trim t == "") (has (js.trim t) met) (is_own_id own (js.trim t))
          (has (js.trim t) ids) (path ++ at i ∷ []) here in
      let q : dependency_ids js (string t ∷ ds) ≡ js.trim t ∷ dependency_ids js ds = ground arith in
      ⊎_elim
        (λ e. (
          subst (λ x. In x ids) (sym e) ((has_iff (js.trim t) ids).0 known),
          subst (λ x. is_own_id own x ≡ false) (sym e) other,
        ))
        (λ k. dependency_list_silent ids own path (i + 1) _ ds later d k) (subst (In d) q m)
  dependency_list_silent ids own path i met (null ∷ ds) h d m = absurd (ground arith)
  dependency_list_silent ids own path i met (boolean _ ∷ ds) h d m = absurd (ground arith)
  dependency_list_silent ids own path i met (number _ ∷ ds) h d m = absurd (ground arith)
  dependency_list_silent ids own path i met (array _ ∷ ds) h d m = absurd (ground arith)
  dependency_list_silent ids own path i met (object _ ∷ ds) h d m = absurd (ground arith)

  -- All entries of such a list are texts, and each of them, trimmed, is an id of the node.
  pub dependency_list_texts :
      (ids : List String) (own : Option Json) (path : FieldPath) (i : ℕ) (met : List String)
      (ds : List Json)
      → validate_dependency_list js ids own path i met ds ≡ []
      → (d : Json) → In d ds
      → (t : String) × (d ≡ string t) × In (js.trim t) (dependency_ids js ds)
  unfolding validate_dependency_list
  dependency_list_texts ids own path i met [] h d m = absurd m
  dependency_list_texts ids own path i met (string t ∷ ds) h d m =
      let (here, later) =
        append_silent _ (validate_dependency_list js ids own path (i + 1) _ ds) h in
      let (text, again, other, known) =
        item_silent (js.trim t == "") (has (js.trim t) met) (is_own_id own (js.trim t))
          (has (js.trim t) ids) (path ++ at i ∷ []) here in
      let q : dependency_ids js (string t ∷ ds) ≡ js.trim t ∷ dependency_ids js ds = ground arith in
      ⊎_elim (λ e. (t, e, subst (In (js.trim t)) (sym q) (inl refl)))
        (λ k.
          let (u, e, r) = dependency_list_texts ids own path (i + 1) _ ds later d k in
          (u, e, subst (In (js.trim u)) (sym q) (inr r)))
        m
  dependency_list_texts ids own path i met (null ∷ ds) h d m = absurd (ground arith)
  dependency_list_texts ids own path i met (boolean _ ∷ ds) h d m = absurd (ground arith)
  dependency_list_texts ids own path i met (number _ ∷ ds) h d m = absurd (ground arith)
  dependency_list_texts ids own path i met (array _ ∷ ds) h d m = absurd (ground arith)
  dependency_list_texts ids own path i met (object _ ∷ ds) h d m = absurd (ground arith)
