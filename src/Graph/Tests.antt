-- ===== src/Graph/Tests.antt =====
-- The unit tests of compiler/passes/src/common/graph/mod.rs, and the theorems at their graphs.
use aleotiktacto.Prelude.{List, [], ◌∷◌, ◌≡◌, refl, ◌⊎◌, ◌↔◌, ℕ}
use aleotiktacto.Graph.{DiGraph, new, add_edge, post_order, ok, cycle_detected}
use aleotiktacto.Graph.Edges.{
  Edge, IsWellFormed, IsCycle, new-IsWellFormed, add_edge-IsWellFormed, Edge-add_edge,
}
use aleotiktacto.Graph.Order.{IsAnswer, post_order-IsAnswer, post_order_acyclic}

abbrev diamond : DiGraph
diamond = add_edge (add_edge (add_edge (add_edge (add_edge (new []) 1 2) 1 3) 2 4) 3 4) 4 5

abbrev looped : DiGraph
looped = add_edge (add_edge (add_edge (add_edge (new []) 1 2) 2 3) 2 4) 4 1

post_order-diamond : post_order diamond ≡ ok (5 ∷ 4 ∷ 2 ∷ 3 ∷ 1 ∷ [])
unfolding post_order new add_edge
post_order-diamond = refl

post_order-looped : post_order looped ≡ cycle_detected (1 ∷ 2 ∷ 4 ∷ 1 ∷ [])
unfolding post_order new add_edge
post_order-looped = refl

post_order_unconnected : post_order (new (1 ∷ 2 ∷ 3 ∷ 4 ∷ 5 ∷ [])) ≡ ok (1 ∷ 2 ∷ 3 ∷ 4 ∷ 5 ∷ [])
unfolding post_order new
post_order_unconnected = refl

new-nil-IsWellFormed : IsWellFormed (new [])
new-nil-IsWellFormed = new-IsWellFormed [] tt

diamond-IsWellFormed : IsWellFormed diamond
diamond-IsWellFormed = add_edge-IsWellFormed _ 4 5 (
    add_edge-IsWellFormed _ 3 4 (
      add_edge-IsWellFormed _ 2 4
        (add_edge-IsWellFormed _ 1 3 (add_edge-IsWellFormed _ 1 2 new-nil-IsWellFormed))))

add_edge-IsWellFormed_example : IsWellFormed (add_edge (new []) 1 2)
add_edge-IsWellFormed_example = add_edge-IsWellFormed (new []) 1 2 new-nil-IsWellFormed

Edge-add_edge_example :
    Edge (add_edge (new []) 1 2) 1 2 ↔ (Edge (new []) 1 2 ⊎ (◌≡◌ {A = ℕ} 1 1) × (◌≡◌ {A = ℕ} 2 2))
Edge-add_edge_example = Edge-add_edge (new []) 1 2 1 2

post_order-IsAnswer_example : IsAnswer diamond (post_order diamond)
post_order-IsAnswer_example = post_order-IsAnswer diamond diamond-IsWellFormed

post_order_acyclic_example :
    ((order : List ℕ) × (post_order diamond ≡ ok order))
    ↔ ((path : List ℕ) → ¬ IsCycle diamond path)
post_order_acyclic_example = post_order_acyclic diamond diamond-IsWellFormed
