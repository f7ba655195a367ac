-- ===== src/Validation/Dependencies.antt =====
-- The dependencies of steps as they are written in a definition, and the graph of them that
-- buildDependencyNodes of src/utils/jobValidator.ts builds.
use mathlib.Core.List.{foldl}
use background_jobs.Prelude.{
  String, true, Option, some, List, [], ◌∷◌, Map, map, get, put, get-put_self, get-put_ne, In,
  In-map, Distinct, ◌≡◌, ◌≢◌, ◌⊎◌, sym, ap, subst, ◌∙◌, inl, inr, ⊎_elim, arith, String_discrete,
}
use background_jobs.Json.{Json}
use background_jobs.Platform.{Platform}
use background_jobs.Graph.{DependencyNode, nodes_by_id, known, dependencies, Edge}
use background_jobs.Graph.Closure.Correct.{get-nodes_by_id}
use background_jobs.Graph.Cycle.Chains.{Walk, one, more}
use background_jobs.Registry.{Plugin}
use background_jobs.Validation.Parameters.{PluginValidator}
use background_jobs.Validation.Steps.{build_dependency_nodes}
use background_jobs.Validation.Walk.{step_id}
use background_jobs.Validation.Nodes.{id_of, nodes_from-each}
use background_jobs.Validation.Sound.{Needs, SoundSteps}

fold_known :
    (ns : List DependencyNode) (m : Map DependencyNode) (x : String)
    → ((k : DependencyNode) × (get x m ≡ some k)) ⊎ In x (map id_of ns)
    → (k : DependencyNode) × (get x (foldl (λ m n. put n.id n m) m ns) ≡ some k)
fold_known [] m x h = ⊎_elim (λ k. k) (λ n. absurd n) h
fold_known (n ∷ ns) m x h = elim (String_discrete x n.id) [
  | yes e ↦
      fold_known ns (put n.id n m) x
        (inl (n, subst (λ z. get z (put n.id n m) ≡ some n) (sym e) (get-put_self n.id n m)))
  | no d ↦ fold_known ns (put n.id n m) x (
      ⊎_elim (λ (k, e). inl (k, get-put_ne x n.id n m (λ q. d (sym q)) ∙ e))
        (⊎_elim (λ e. absurd (d e)) inr) h)
]

same_node :
    (ns : List DependencyNode) (a b : DependencyNode)
    → Distinct (map id_of ns)
    → In a ns
    → In b ns
    → a.id ≡ b.id
    → a ≡ b
same_node [] a b d m n e = absurd m
same_node (x ∷ ns) a b d (inl p) (inl q) e = p ∙ sym q
same_node (x ∷ ns) a b d (inl p) (inr n) e =
    absurd (d.0 (subst (λ z. In z (map id_of ns)) (sym e ∙ ap id_of p) (In-map id_of b ns n)))
same_node (x ∷ ns) a b d (inr m) (inl q) e =
    absurd (d.0 (subst (λ z. In z (map id_of ns)) (e ∙ ap id_of q) (In-map id_of a ns m)))
same_node (x ∷ ns) a b d (inr m) (inr n) e = same_node ns a b d.1 m n e

-- With distinct ids each node is found under its own.
get-nodes_by_id_self :
    (nodes : List DependencyNode) (n : DependencyNode)
    → Distinct (map id_of nodes)
    → In n nodes
    → get n.id (nodes_by_id nodes) ≡ some n
unfolding nodes_by_id
get-nodes_by_id_self nodes n d m =
    let (k, e) = fold_known nodes [] n.id (inr (In-map id_of n nodes m)) in
    let (i, q) = get-nodes_by_id nodes n.id k e in e ∙ ap some (same_node nodes k n d i m q)

some_node : {a b : DependencyNode} → some a ≡ some b → a ≡ b
some_node {a} {b} e = ground arith

module _ (js : Platform) where
  -- A step with the first ID has a text in DEPENDS_ON that, trimmed, is the second.
  abbrev pub DependsOn : List Json → String → String → Type 0
  DependsOn steps x y =
      (s : Json) × In s steps × (step_id js s ≡ x) × (t : String) × Needs s t × (js.trim t ≡ y)

  -- A step depends on another, directly or not.
  pub data DependsOnAll (steps : List Json) : String → String → Type 0 where
    directly : {x y : String} → DependsOn steps x y → DependsOnAll steps x y
    through :
        {x y z : String} → DependsOn steps x y → DependsOnAll steps y z → DependsOnAll steps x z

module _ (js : Platform) (plugins : Map (Plugin (Option PluginValidator))) (steps : List Json)
    (sound : SoundSteps js plugins steps)
    (other : (s : Json) (t : String) → In s steps → Needs s t → js.trim t ≢ step_id js s) where
  node_at :
      (s : Json) (m : In s steps)
      → get (step_id js s) (nodes_by_id sound.nodes) ≡ some (sound.linked s m).node
  unfolding build_dependency_nodes
  node_at s m =
      let (n, i, e) = nodes_from-each js [] steps sound.nodes sound.built s m in
      let h = sound.linked s m in
      let q : n ≡ h.node = some_node (sym e ∙ h.of_step) in
      subst (λ z. get z (nodes_by_id sound.nodes) ≡ some h.node) h.same_id
        (get-nodes_by_id_self sound.nodes h.node
          (subst Distinct (sym sound.node_ids) sound.distinct_ids)
          (subst (λ z. In z sound.nodes) q i))

  known_id : (x : String) → In x (map (step_id js) steps) → known (nodes_by_id sound.nodes) x ≡ true
  unfolding nodes_by_id
  known_id x m =
      let (k, e) = fold_known sound.nodes [] x (inr (subst (In x) (sym sound.node_ids) m)) in
      ground arith

  DependsOn-Edge : (x y : String) → DependsOn js steps x y → Edge (nodes_by_id sound.nodes) x y
  DependsOn-Edge x y (s, m, e, t, n, q) =
      let h = sound.linked s m in
      let at_x : get x (nodes_by_id sound.nodes) ≡ some h.node =
        subst (λ z. get z (nodes_by_id sound.nodes) ≡ some h.node) e (node_at s m) in
      let same : dependencies (nodes_by_id sound.nodes) x ≡ h.node.depends_on = ground arith in
      let d : In y h.node.depends_on = subst (λ z. In z h.node.depends_on) q (h.needed t n) in
      (subst (In y) (sym same) d, λ r. other s t m n (q ∙ r ∙ sym e), known_id y (h.known_ids y d))

  DependsOnAll-Walk :
      (x y : String) → DependsOnAll js steps x y → Walk (nodes_by_id sound.nodes) x y
  DependsOnAll-Walk x y (directly e) = one (DependsOn-Edge x y e)
  DependsOnAll-Walk x y (through {y = z} e w) =
      more (DependsOn-Edge x z e) (DependsOnAll-Walk z y w)

  -- Steps without an issue do not depend on themselves, directly or not.
  pub DependsOnAll-irreflexive : (x : String) → ¬ DependsOnAll js steps x x
  DependsOnAll-irreflexive x w = sound.no_cycle x (DependsOnAll-Walk x x w)
