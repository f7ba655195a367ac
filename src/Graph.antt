-- ===== src/Graph.antt =====
-- src/utils/jobGraph.ts: the nodes of a dependency graph and the map from ids to nodes.
pub mod Cycle
pub mod Closure
pub mod Connect
use mathlib.Core.List.{foldl}
use background_jobs.Prelude.{
  String, Bool, true, false, Option, none, some, List, [], Map, get, put, In, ◌≡◌, ◌≢◌,
}

pub record DependencyNode : Type 0 where
  pub id : String
  pub depends_on : List String

-- `new Map(nodes.map(node => [node.id, node]))`: of two nodes with one id the later one counts.
unfoldable pub nodes_by_id : List DependencyNode → Map DependencyNode
nodes_by_id = foldl (λ m n. put n.id n m) []

-- `nodesById.has(id)`
abbrev pub known : Map DependencyNode → String → Bool
known by_id id = elim (get id by_id) [ none ↦ false | some _ ↦ true ]

-- `nodesById.get(id)?.dependsOn ?? []`
abbrev pub dependencies : Map DependencyNode → String → List String
dependencies by_id id = elim (get id by_id) [ none ↦ [] | some n ↦ n.depends_on ]

-- The edges that the search for cycles follows: to nodes of the graph, loops left aside.
abbrev pub Edge : Map DependencyNode → String → String → Type 0
Edge by_id x y = In y (dependencies by_id x) × (y ≢ x) × (known by_id y ≡ true)
