-- ===== src/Graph/Cycle.antt =====
-- findDependencyCycle of src/utils/jobGraph.ts: a depth-first search with marks and a current path.
pub mod Chains
pub mod Traverse
pub mod Visit
pub mod Answers
use background_jobs.Prelude.{
  ℕ, zero, suc, String, Bool, true, false, ◌||◌, not, Option, none, some, List, [], ◌∷◌, ◌++◌, Map,
  get, put, length, if◌then◌else◌, ◌==◌,
}
use background_jobs.Graph.{DependencyNode, nodes_by_id, known, dependencies}

pub data Mark : Type 0 where
  visiting visited : Mark

pub record Search : Type 0 where
  pub states : Map Mark
  pub current_path : List String

pub data Outcome : Type 0 where
  found : List String → Outcome
  done : Search → Outcome
  out_of_fuel : Outcome

-- `path.slice(path.lastIndexOf(id))`, where `id` stands in the path.
pub from_last : String → List String → Option (List String)
from_last id [] = none
from_last id (x ∷ xs) = elim (from_last id xs) [
  | some t ↦ some t
  | none ↦ if x == id then some (x ∷ xs) else none
]

-- `path.slice(-1)`, which the code would take if `lastIndexOf` gave -1.
pub last_one : List String → List String
last_one [] = []
last_one (x ∷ []) = x ∷ []
last_one (x ∷ y ∷ xs) = last_one (y ∷ xs)

-- `[...currentPath.slice(currentPath.lastIndexOf(id)), id]`
pub cycle_from : String → List String → List String
cycle_from id path = elim (from_last id path) [
  | some t ↦ t ++ id ∷ []
  | none ↦ last_one path ++ id ∷ []
]

-- `path.pop()`
pub drop_last : List String → List String
drop_last [] = []
drop_last (x ∷ []) = []
drop_last (x ∷ y ∷ xs) = x ∷ drop_last (y ∷ xs)

pub enter : String → Search → Search
enter id s = record { states = put id visiting s.states; current_path = s.current_path ++ id ∷ [] }

pub leave : String → Search → Search
leave id s = record { states = put id visited s.states; current_path = drop_last s.current_path }

abbrev pub finish : String → Outcome → Outcome
finish id (done t) = done (leave id t)
finish id (found c) = found c
finish id out_of_fuel = out_of_fuel

abbrev pub and_then : Outcome → (Search → Outcome) → Outcome
and_then (done t) k = k t
and_then (found c) k = found c
and_then out_of_fuel k = out_of_fuel

module _ (by_id : Map DependencyNode) where
  -- The loop over the dependencies of `id`; `visit` is the recursive call.
  pub scan : (String → Search → Outcome) → String → List String → Search → Outcome
  scan visit id [] s = done s
  scan visit id (d ∷ ds) s = elim (d == id || not (known by_id d)) [
    | true ↦ scan visit id ds s
    | false ↦ elim (get d s.states) [
      | some visiting ↦ found (cycle_from d s.current_path)
      | some visited ↦ scan visit id ds s
      | none ↦ and_then (visit d s) (λ t. scan visit id ds t)
    ]
  ]

  pub visit : ℕ → String → Search → Outcome
  visit zero id s = out_of_fuel
  visit (suc fuel) id s = finish id (scan (visit fuel) id (dependencies by_id id) (enter id s))

  -- The loop over all nodes.
  pub visit_all : ℕ → List DependencyNode → Search → Outcome
  visit_all fuel [] s = done s
  visit_all fuel (n ∷ ns) s = elim (get n.id s.states) [
    | some _ ↦ visit_all fuel ns s
    | none ↦ and_then (visit fuel n.id s) (λ t. visit_all fuel ns t)
  ]

abbrev pub start : Search
start = record { states = []; current_path = [] }

pub data Answer : Type 0 where
  cycle : List String → Answer
  acyclic : Answer
  exhausted : Answer

abbrev pub to_answer : Outcome → Answer
to_answer (found c) = cycle c
to_answer (done _) = acyclic
to_answer out_of_fuel = exhausted

-- A call of `visit` marks a node that had no mark, so the calls are nested at most as deep as there
-- are nodes.
unfoldable pub find_dependency_cycle : List DependencyNode → Answer
unfolding visit_all visit scan nodes_by_id cycle_from from_last enter leave drop_last last_one
find_dependency_cycle nodes = to_answer (visit_all (nodes_by_id nodes) (length nodes) nodes start)
