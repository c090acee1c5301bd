-- ===== src/Graph/Edges.antt =====
-- The edge relation of a graph, the graphs that `new` and `add_edge` build, and walks.
use aleotiktacto.Prelude.{
  ℕ, ◌≡◌, ◌⊎◌, true, ◌||◌, ◌&&◌, List, [], ◌∷◌, ◌++◌, arith, ◌==◌, ◌↔◌, none, some,
}
use aleotiktacto.IndexSet.{contains, insert, get}
use aleotiktacto.IndexSet.Laws.{contains-insert, Nodup, Nodup-insert}
use aleotiktacto.Graph.{DiGraph, new, add_entry, add_edge, children}

abbrev pub Edge : DiGraph → ℕ → ℕ → Type 0
Edge g u v = contains (children g u) v ≡ true

-- Every endpoint of an edge is a node, and no node is listed twice.
pub record IsWellFormed (g : DiGraph) : Type 0 where
  pub nodup : Nodup g.nodes
  pub source : (u v : ℕ) → Edge g u v → contains g.nodes u ≡ true
  pub target : (u v : ℕ) → Edge g u v → contains g.nodes v ≡ true

-- Consecutive members of the list are joined by edges.
abbrev pub IsWalk : DiGraph → List ℕ → Type 0
IsWalk g [] = Unit {0}
IsWalk g (x ∷ []) = Unit {0}
IsWalk g (x ∷ y ∷ r) = Edge g x y × IsWalk g (y ∷ r)

-- A walk of at least one edge that ends where it begins.
abbrev pub IsCycle : DiGraph → List ℕ → Type 0
IsCycle g path = (c : ℕ) × (inner : List ℕ) × (path ≡ c ∷ inner ++ c ∷ []) × IsWalk g path

targets : List (ℕ × List ℕ) → ℕ → List ℕ
targets m u = elim (get m u) [ none ↦ [] | some cs ↦ cs ]

targets-add_entry :
    (from to : ℕ) (m : List (ℕ × List ℕ)) (u v : ℕ)
    → contains (targets (add_entry from to m) u) v
      ≡ (contains (targets m u) v || (from == u && to == v))
unfolding targets add_entry
targets-add_entry from to [] u v = ground arith
targets-add_entry from to ((j, cs) ∷ m) u v =
    ground (arith, contains-insert to cs v, targets-add_entry from to m u v)

pub Edge-new : (ns : List ℕ) (u v : ℕ) → ¬ Edge (new ns) u v
unfolding new children
Edge-new ns u v h = ground arith

-- `add_edge` adds that edge and no other.
pub Edge-add_edge :
    (g : DiGraph) (from to u v : ℕ)
    → Edge (add_edge g from to) u v ↔ (Edge g u v ⊎ (from ≡ u) × (to ≡ v))
unfolding add_edge children targets
Edge-add_edge g from to u v = ground (arith, targets-add_entry from to g.edges u v)

-- The graphs of the compiler are well formed.
pub new-IsWellFormed : (ns : List ℕ) → Nodup ns → IsWellFormed (new ns)
unfolding new children
new-IsWellFormed ns n = record {
  nodup = n;
  source = λ u v e. absurd (Edge-new ns u v e);
  target = λ u v e. absurd (Edge-new ns u v e);
}

contains-nodes :
    (g : DiGraph) (from to a : ℕ)
    → contains (add_edge g from to).nodes a ≡ (contains g.nodes a || from == a || to == a)
unfolding add_edge
contains-nodes g from to a =
    ground (arith, contains-insert from g.nodes a, contains-insert to (insert from g.nodes) a)

-- `add_edge` keeps a graph well formed.
pub add_edge-IsWellFormed :
    (g : DiGraph) (from to : ℕ) → IsWellFormed g → IsWellFormed (add_edge g from to)
add_edge-IsWellFormed g from to w = record {
  nodup = unfold add_edge in Nodup-insert to _ (Nodup-insert from g.nodes w.nodup);
  source = λ u v e.
      ground (arith, Edge-add_edge g from to u v, contains-nodes g from to u, w.source u v);
  target = λ u v e.
      ground (arith, Edge-add_edge g from to u v, contains-nodes g from to v, w.target u v);
}
