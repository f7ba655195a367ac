-- ===== src/Graph/Closure.antt =====
-- dependencyClosure and dependentClosure of src/utils/jobGraph.ts. Both contain one recursive
-- `visit`, over another map of neighbours.
pub mod Reach
pub mod Correct
use mathlib.Core.List.{foldl}
use background_jobs.Prelude.{
  ℕ, zero, suc, ◌+◌, String, Bool, true, false, Option, none, some, List, [], ◌∷◌, ◌++◌, Map, get,
  put, has, length,
}
use background_jobs.Graph.{DependencyNode, nodes_by_id, known, dependencies}

-- The closure so far, in the order of `add`; `none` when the fuel ran out.
module _ (next : String → List String) where
  -- `for (const neighbour of …) visit(neighbour)`, with `visit` the recursive call.
  pub visit_each :
      (String → List String → Option (List String))
      → List String
      → List String
      → Option (List String)
  visit_each visit [] closure = some closure
  visit_each visit (d ∷ ds) closure = elim (visit d closure) [
    | none ↦ none
    | some c ↦ visit_each visit ds c
  ]

  pub visit : ℕ → String → List String → Option (List String)
  visit zero id closure = elim (has id closure) [ true ↦ some closure | false ↦ none ]
  visit (suc fuel) id closure = elim (has id closure) [
    | true ↦ some closure
    | false ↦ visit_each (visit fuel) (next id) (closure ++ id ∷ [])
  ]

-- The ids that a search can meet: those of the nodes and those that the nodes name.
abbrev pub mentioned : List DependencyNode → List String
mentioned [] = []
mentioned (n ∷ ns) = n.id ∷ (n.depends_on ++ mentioned ns)

unfoldable pub dependency_closure : List DependencyNode → String → Option (List String)
unfolding visit visit_each nodes_by_id
dependency_closure nodes selected = elim (known (nodes_by_id nodes) selected) [
  | false ↦ some []
  | true ↦ visit (dependencies (nodes_by_id nodes)) (length (mentioned nodes)) selected []
]

-- `map.get(key) ?? []`
abbrev pub list_at : String → Map (List String) → List String
list_at k m = elim (get k m) [ none ↦ [] | some l ↦ l ]

pub add_dependents : String → List String → Map (List String) → Map (List String)
add_dependents id [] m = m
add_dependents id (d ∷ ds) m = add_dependents id ds (put d (list_at d m ++ id ∷ []) m)

pub dependents_from : List DependencyNode → Map (List String) → Map (List String)
dependents_from [] m = m
dependents_from (n ∷ ns) m =
    dependents_from ns (add_dependents n.id n.depends_on (put n.id (list_at n.id m) m))

pub dependents_of : List DependencyNode → Map (List String)
unfolding dependents_from add_dependents
dependents_of nodes = dependents_from nodes []

abbrev pub present {ℓ} : {V : Type ℓ} → String → Map V → Bool
present k m = elim (get k m) [ none ↦ false | some _ ↦ true ]

unfoldable pub dependent_closure : List DependencyNode → String → Option (List String)
unfolding visit visit_each dependents_of
dependent_closure nodes selected = elim (present selected (dependents_of nodes)) [
  | false ↦ some []
  | true ↦ visit (λ id. list_at id (dependents_of nodes)) (length (mentioned nodes)) selected []
]
