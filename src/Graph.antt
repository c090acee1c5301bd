-- ===== src/Graph.antt =====
-- compiler/passes/src/common/graph/mod.rs: the directed graph of the struct, call and import
-- dependencies, and its depth-first post-order. A node is the index of an interned symbol.
pub mod Edges
pub mod Depth
pub mod Dfs
pub mod Cycle
pub mod Order
pub mod Tests
use aleotiktacto.Prelude.{
  ℕ, zero, suc, Bool, true, false, Option, none, some, List, [], ◌∷◌, ◌++◌, ◌==◌, if◌then◌else◌,
  length, reverse,
}
use aleotiktacto.IndexSet.{contains, insert, pop, get}

pub record DiGraph : Type 0 where
  pub nodes : List ℕ
  pub edges : List (ℕ × List ℕ)

-- `DiGraph::new`
pub new : List ℕ → DiGraph
new ns = record { nodes = ns; edges = [] }

-- `edges.entry(from).or_default()` followed by `insert(to)` on the entry.
pub add_entry : ℕ → ℕ → List (ℕ × List ℕ) → List (ℕ × List ℕ)
add_entry from to [] = (from, to ∷ []) ∷ []
add_entry from to ((j, cs) ∷ m) =
    if j == from then (j, insert to cs) ∷ m else (j, cs) ∷ add_entry from to m

pub add_edge : DiGraph → ℕ → ℕ → DiGraph
unfolding add_entry insert
add_edge g from to = record {
  nodes = insert to (insert from g.nodes);
  edges = add_entry from to g.edges;
}

pub contains_node : DiGraph → ℕ → Bool
contains_node g node = contains g.nodes node

-- What a search returns with the two sets that it mutates: `found child`, or `None`.
-- `out_of_fuel` is not a result of the source.
pub data Search : Type 0 where
  found : ℕ → List ℕ → List ℕ → Search
  done : List ℕ → List ℕ → Search
  out_of_fuel : Search

-- The early return of a found cycle, and what follows a search that found none.
pub resume : Search → (List ℕ → List ℕ → Search) → Search
resume (found c d f) k = found c d f
resume (done d f) k = k d f
resume out_of_fuel k = out_of_fuel

-- The loop over the outgoing edges. `explore` is the recursive call.
pub visit_children : (ℕ → List ℕ → List ℕ → Search) → List ℕ → List ℕ → List ℕ → Search
unfolding resume
visit_children explore [] discovered finished = done discovered finished
visit_children explore (child ∷ rest) discovered finished = elim (contains discovered child) [
  | true ↦ found child discovered finished
  | false ↦ elim (contains finished child) [
    | true ↦ visit_children explore rest discovered finished
    | false ↦ resume (explore child discovered finished) (visit_children explore rest)
  ]
]

-- `self.edges.get(&node)`; a node with no entry has no outgoing edge.
pub children : DiGraph → ℕ → List ℕ
children g node = elim (get g.edges node) [ none ↦ [] | some cs ↦ cs ]

-- The fuel bounds the depth of the recursion.
pub contains_cycle_from : DiGraph → ℕ → ℕ → List ℕ → List ℕ → Search
unfolding visit_children children resume insert pop
contains_cycle_from g zero node discovered finished = out_of_fuel
contains_cycle_from g (suc fuel) node discovered finished =
    resume
      (visit_children (contains_cycle_from g fuel) (children g node) (insert node discovered)
        finished)
      (λ d f. done (pop d) (insert node f))

-- The `while let Some(next) = discovered.pop()` loop: the first list is what is popped, in order.
pub backtrack : ℕ → List ℕ → List ℕ → List ℕ
backtrack node [] path = path
backtrack node (next ∷ rest) path =
    if next == node then path ++ next ∷ [] else backtrack node rest (path ++ next ∷ [])

pub data PostOrder : Type 0 where
  ok : List ℕ → PostOrder
  cycle_detected : List ℕ → PostOrder
  no_fuel : PostOrder

-- The loop of `post_order` over the nodes; each search starts with an empty `discovered`.
pub search_nodes : DiGraph → ℕ → List ℕ → List ℕ → PostOrder
unfolding contains_cycle_from backtrack
search_nodes g fuel [] finished = ok finished
search_nodes g fuel (node ∷ rest) finished = elim (contains finished node) [
  | true ↦ search_nodes g fuel rest finished
  | false ↦ elim (contains_cycle_from g fuel node [] finished) [
    | found c d f ↦ cycle_detected (reverse (backtrack c (reverse d) (c ∷ [])))
    | done d f ↦ search_nodes g fuel rest f
    | out_of_fuel ↦ no_fuel
  ]
]

pub post_order : DiGraph → PostOrder
unfolding search_nodes
post_order g = search_nodes g (length g.nodes) g.nodes []
