-- ===== src/Tests/Graphs.antt =====
-- src/utils/jobGraph.ts on small graphs.
use background_jobs.Prelude.{
  get, put, has, String_discrete, String, some, List, [], ◌∷◌, In, ◌≡◌, ◌↔◌, true, refl,
}
use background_jobs.Graph.{DependencyNode, nodes_by_id, known, dependencies}
use background_jobs.Graph.Cycle.{find_dependency_cycle, acyclic, cycle}
use background_jobs.Graph.Cycle.Answers.{Says, find_dependency_cycle_correct}
use background_jobs.Graph.Closure.{dependency_closure, dependent_closure}
use background_jobs.Graph.Closure.Reach.{Reach}
use background_jobs.Graph.Closure.Correct.{
  Named, Affected, dependency_closure_correct, dependent_closure_correct,
}
use background_jobs.Graph.Connect.{can_connect_dependency, cyclic, invalid}
use background_jobs.Graph.Connect.Correct.{Means, can_connect_dependency_correct}

abbrev load : DependencyNode
load = record { id = "load"; depends_on = [] }

abbrev check : DependencyNode
check = record { id = "check"; depends_on = "load" ∷ [] }

abbrev store : DependencyNode
store = record { id = "store"; depends_on = "check" ∷ "load" ∷ [] }

abbrev pipeline : List DependencyNode
pipeline = load ∷ check ∷ store ∷ []

find_dependency_cycle_example : Says pipeline (find_dependency_cycle pipeline)
find_dependency_cycle_example = find_dependency_cycle_correct pipeline

can_connect_dependency_example :
    Means pipeline "store" "load" (can_connect_dependency pipeline "store" "load")
can_connect_dependency_example = can_connect_dependency_correct pipeline "store" "load"

dependency_closure_example :
    (c : List String) × (dependency_closure pipeline "store" ≡ some c)
    × ((x : String)
        → In x c ↔ (
            (known (nodes_by_id pipeline) "store" ≡ true)
            × Reach (dependencies (nodes_by_id pipeline)) "store" x))
dependency_closure_example = dependency_closure_correct pipeline "store"

dependent_closure_example :
    (c : List String) × (dependent_closure pipeline "load" ≡ some c)
    × ((x : String) → In x c ↔ (Named pipeline "load" × Affected pipeline "load" x))
dependent_closure_example = dependent_closure_correct pipeline "load"

-- A graph with a cycle: the path that is found is closed.
abbrev loops : List DependencyNode
loops = record { id = "load"; depends_on = "store" ∷ [] } ∷ check ∷ store ∷ []

finds_cycle : find_dependency_cycle loops ≡ cycle ("load" ∷ "store" ∷ "check" ∷ "load" ∷ [])
unfolding find_dependency_cycle get put String_discrete
finds_cycle = refl

finds_none : find_dependency_cycle pipeline ≡ acyclic
unfolding find_dependency_cycle get put String_discrete
finds_none = refl

refuses_cycle : can_connect_dependency pipeline "store" "load" ≡ invalid cyclic
unfolding can_connect_dependency find_dependency_cycle get put has String_discrete
refuses_cycle = refl
