-- ===== src/Graph/Order.antt =====
-- `post_order` gives a topological order, or a cycle; it gives an order exactly when there is none.
use aleotiktacto.Prelude.{
  ℕ, ◌≤◌, ◌<◌, ◌≡◌, refl, ◌⊎◌, ◌↔◌, inl, inr, true, false, List, [], ◌∷◌, ◌++◌, arith, Bool-cases,
  length, reverse,
}
use aleotiktacto.IndexSet.{contains, index_of}
use aleotiktacto.IndexSet.Laws.{Nodup}
use aleotiktacto.Graph.{
  DiGraph, Search, found, done, out_of_fuel, contains_cycle_from, backtrack, PostOrder, ok,
  cycle_detected, no_fuel, search_nodes, post_order,
}
use aleotiktacto.Graph.Edges.{Edge, IsWellFormed, IsWalk, IsCycle}
use aleotiktacto.Graph.Depth.{unvisited}
use aleotiktacto.Graph.Dfs.{IsFinished, Explored, Ends, Extends, contains_cycle_from-Ends, cons_all}
use aleotiktacto.Graph.Cycle.{backtrack-IsFound}

-- The nodes of the graph, each once, the target of an edge before its source.
pub record IsTopological (g : DiGraph) (order : List ℕ) : Type 0 where
  pub nodup : Nodup order
  pub members : (a : ℕ) → contains order a ≡ contains g.nodes a
  pub ordered : (u v : ℕ) → Edge g u v → index_of order v < index_of order u

-- The answer that `post_order` promises.
abbrev pub IsAnswer : DiGraph → PostOrder → Type 0
IsAnswer g (ok order) = IsTopological g order
IsAnswer g (cycle_detected path) = IsCycle g path
IsAnswer g no_fuel = ⊥

unvisited-nil-le : (xs : List ℕ) → unvisited xs [] ≤ length xs
unvisited-nil-le [] = omega arith
unvisited-nil-le (x ∷ xs) = omega (arith, unvisited-nil-le xs)

-- What the loop over the nodes `ns` gives.
abbrev Collected : DiGraph → List ℕ → List ℕ → PostOrder → Type 0
Collected g f ns (ok order) =
    IsFinished g order
    × Extends f order
    × ((c : ℕ) → contains ns c ≡ true → contains order c ≡ true)
Collected g f ns (cycle_detected path) = IsCycle g path
Collected g f ns no_fuel = ⊥

Collected-cons :
    (g : DiGraph) (f f' : List ℕ) (n : ℕ) (ns : List ℕ) (r : PostOrder)
    → Extends f f'
    → contains f' n ≡ true
    → Collected g f' ns r
    → Collected g f (n ∷ ns) r
Collected-cons g f f' n ns (ok order) ext here h =
    (h.0, (λ a m. h.1 a (ext a m)), cons_all n ns order (h.1 n here) h.2)
Collected-cons g f f' n ns (cycle_detected path) ext here h = h
Collected-cons g f f' n ns no_fuel ext here h = absurd h

-- The part of the loop's body after a search.
after : DiGraph → ℕ → List ℕ → Search → PostOrder
after g fuel rest (found c d f) = cycle_detected (reverse (backtrack c (reverse d) (c ∷ [])))
after g fuel rest (done d f) = search_nodes g fuel rest f
after g fuel rest out_of_fuel = no_fuel

search_nodes_unseen :
    (g : DiGraph) (fuel n : ℕ) (ns f : List ℕ)
    → contains f n ≡ false
    → search_nodes g fuel (n ∷ ns) f ≡ after g fuel ns (contains_cycle_from g fuel n [] f)
unfolding search_nodes after
search_nodes_unseen g fuel n ns f h = ground arith

search_nodes_seen :
    (g : DiGraph) (fuel n : ℕ) (ns f : List ℕ)
    → contains f n ≡ true
    → search_nodes g fuel (n ∷ ns) f ≡ search_nodes g fuel ns f
unfolding search_nodes
search_nodes_seen g fuel n ns f h = ground arith

after-Collected :
    (g : DiGraph) (fuel n : ℕ) (ns f : List ℕ) (s : Search)
    → Ends g [] (Explored g f n) s
    → ((f' : List ℕ) → IsFinished g f' → Collected g f' ns (search_nodes g fuel ns f'))
    → Collected g f (n ∷ ns) (after g fuel ns s)
unfolding after
after-Collected g fuel n ns f (found c d f') e next = backtrack-IsFound g c d e
after-Collected g fuel n ns f (done d f') e next =
    Collected-cons g f f' n ns (search_nodes g fuel ns f') e.1.1 e.1.2 (next f' e.1.0)
after-Collected g fuel n ns f out_of_fuel e next = absurd e

search_nodes-Collected :
    (g : DiGraph) (fuel : ℕ) (ns f : List ℕ)
    → IsWellFormed g
    → length g.nodes ≤ fuel
    → ((c : ℕ) → contains ns c ≡ true → contains g.nodes c ≡ true)
    → IsFinished g f
    → Collected g f ns (search_nodes g fuel ns f)
search_nodes-Collected g fuel [] f wf enough within fin =
    unfold search_nodes in (fin, (λ a h. h), λ c h. ground arith)
search_nodes-Collected g fuel (n ∷ ns) f wf enough within fin =
    let next = λ (f' : List ℕ) (fin' : IsFinished g f').
      search_nodes-Collected g fuel ns f' wf enough (λ c h. within c (ground arith)) fin' in
    elim (Bool-cases (contains f n)) [
      | inl old ↦
          rw (search_nodes_seen g fuel n ns f old)
            (Collected-cons g f f n ns (search_nodes g fuel ns f) (λ a h. h) old (next f fin))
      | inr new ↦ rw (search_nodes_unseen g fuel n ns f new) (
          after-Collected g fuel n ns f (contains_cycle_from g fuel n [] f)
            (contains_cycle_from-Ends g fuel n [] f wf (within n (ground arith)) refl
              (omega (arith, unvisited-nil-le g.nodes)) tt fin)
            next)
    ]

IsFinished-nil : (g : DiGraph) → IsFinished g []
IsFinished-nil g = record {
  nodup = tt;
  within = λ a h. ground arith;
  closed = λ u v h e. ground arith;
  ordered = λ u v h e. ground arith;
}

answer : (g : DiGraph) (r : PostOrder) → IsWellFormed g → Collected g [] g.nodes r → IsAnswer g r
answer g (ok order) wf h = record {
  nodup = h.0.nodup;
  members = λ a.
      ground (
        arith,
        h.2 a,
        h.0.within a,
        Bool-cases (contains order a),
        Bool-cases (contains g.nodes a),
      );
  ordered = λ u v e. h.0.ordered u v (h.2 u (wf.source u v e)) e;
}
answer g (cycle_detected path) wf h = h
answer g no_fuel wf h = absurd h

-- On a well-formed graph `post_order` ends within its fuel. It returns either all nodes of the
-- graph, each once, with the target of every edge before its source, or a path that begins and
-- ends at one node and follows edges of the graph.
pub post_order-IsAnswer : (g : DiGraph) → IsWellFormed g → IsAnswer g (post_order g)
unfolding post_order
post_order-IsAnswer g wf = answer g _ wf (
    search_nodes-Collected g (length g.nodes) g.nodes [] wf (omega arith) (λ c h. h)
      (IsFinished-nil g))

-- Along a walk the position in a topological order falls.
index_of-walk :
    (g : DiGraph) (order : List ℕ) (x c : ℕ) (inner : List ℕ)
    → IsTopological g order
    → IsWalk g (x ∷ inner ++ c ∷ [])
    → index_of order c < index_of order x
index_of-walk g order x c [] t walk = t.ordered x c walk.0
index_of-walk g order x c (y ∷ inner) t walk =
    omega (arith, t.ordered x y walk.0, index_of-walk g order y c inner t walk.1)

acyclic : (g : DiGraph) (order path : List ℕ) → IsTopological g order → ¬ IsCycle g path
acyclic g order path t (c, inner, e, walk) =
    absurd (omega (arith, index_of-walk g order c c inner t (rw e at walk)))

PostOrder-cases :
    (g : DiGraph) (r : PostOrder)
    → IsAnswer g r
    → ((order : List ℕ) × (r ≡ ok order) × IsTopological g order)
      ⊎ ((path : List ℕ) × (r ≡ cycle_detected path) × IsCycle g path)
PostOrder-cases g (ok order) h = inl (order, refl, h)
PostOrder-cases g (cycle_detected path) h = inr (path, refl, h)
PostOrder-cases g no_fuel h = absurd h

-- On a well-formed graph `post_order` returns an order exactly when the graph has no cycle.
pub post_order_acyclic :
    (g : DiGraph)
    → IsWellFormed g
    → ((order : List ℕ) × (post_order g ≡ ok order)) ↔ ((path : List ℕ) → ¬ IsCycle g path)
post_order_acyclic g wf = (
  (λ (order, e) path. acyclic g order path (rw e at (post_order-IsAnswer g wf))),
  λ none_cyclic. elim (PostOrder-cases g (post_order g) (post_order-IsAnswer g wf)) [
    | inl (order, e, t) ↦ (order, e)
    | inr (path, e, c) ↦ absurd (none_cyclic path c)
  ],
)
