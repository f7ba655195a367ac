-- ===== src/Graph/Connect.antt =====
-- canConnectDependency of src/utils/jobGraph.ts: may the edge "target depends on source" be added?
pub mod Correct
use background_jobs.Prelude.{
  String, Bool, true, false, Option, none, some, List, [], ◌∷◌, ◌++◌, map, any, has, if◌then◌else◌,
  ◌==◌, not, ◌||◌,
}
use background_jobs.Graph.{DependencyNode}
use background_jobs.Graph.Cycle.{Answer, cycle, acyclic, exhausted, find_dependency_cycle}

pub data Reason : Type 0 where
  self duplicate cyclic missing : Reason

pub data Verdict : Type 0 where
  valid : List DependencyNode → Verdict
  invalid : Reason → Verdict
  undecided : Verdict

-- `nodes.find(node => node.id === id)`
unfoldable pub find_node : String → List DependencyNode → Option DependencyNode
find_node id [] = none
find_node id (n ∷ ns) = if n.id == id then some n else find_node id ns

abbrev pub connect : String → String → DependencyNode → DependencyNode
connect source target n =
    if n.id == target then record n { depends_on = n.depends_on ++ source ∷ [] } else n

abbrev pub verdict : List DependencyNode → Answer → Verdict
verdict updated (cycle _) = invalid cyclic
verdict updated acyclic = valid updated
verdict updated exhausted = undecided

abbrev check_duplicate : List DependencyNode → String → String → DependencyNode → Verdict
check_duplicate nodes source target t =
    if has source t.depends_on
    then invalid duplicate
    else verdict (map (connect source target) nodes)
        (find_dependency_cycle (map (connect source target) nodes))

unfoldable pub can_connect_dependency : List DependencyNode → String → String → Verdict
unfolding find_node
can_connect_dependency nodes source target =
    if source == target then invalid self else elim (find_node target nodes) [
      | none ↦ invalid missing
      | some t ↦
          if not (any (λ n. n.id == source) nodes)
          then invalid missing
          else check_duplicate nodes source target t
    ]
