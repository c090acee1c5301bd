-- ===== src/Graph/Cycle.antt =====
-- The path that `post_order` reports is a cycle.
use aleotiktacto.Prelude.{
  ℕ, ◌≡◌, refl, ap, ◌∙◌, inl, inr, true, List, [], ◌∷◌, ◌++◌, arith, ◌==◌, Bool-cases, reverse,
  ==_iff,
}
use aleotiktacto.IndexSet.{contains}
use aleotiktacto.IndexSet.Laws.{reverse-concat, contains-reverse}
use aleotiktacto.Graph.{DiGraph, backtrack}
use aleotiktacto.Graph.Edges.{Edge, IsWalk, IsCycle}
use aleotiktacto.Graph.Dfs.{Trail, IsFound}

IsCycle-close :
    (g : DiGraph) (c x y : ℕ) (r w p : List ℕ)
    → x ≡ c
    → reverse p ≡ y ∷ r
    → y ∷ r ≡ w ++ c ∷ []
    → Edge g x y
    → IsWalk g (y ∷ r)
    → IsCycle g (reverse (p ++ x ∷ []))
IsCycle-close g c x y r w p same rev last edge walk =
    let shape = reverse-concat p x ∙ ap (λ t. x ∷ t) rev in
    (c, w, rw shape (rw (same, last)), rw shape (edge, walk))

backtrack-IsCycle :
    (g : DiGraph) (c y : ℕ) (s r w p : List ℕ)
    → reverse p ≡ y ∷ r
    → y ∷ r ≡ w ++ c ∷ []
    → IsWalk g (y ∷ r)
    → Trail g y s
    → contains s c ≡ true
    → IsCycle g (reverse (backtrack c s p))
unfolding backtrack
backtrack-IsCycle g c y [] r w p rev last walk trail m = cc
backtrack-IsCycle g c y (x ∷ s) r w p rev last walk trail m = elim (Bool-cases (x == c)) [
  | inl same ↦ rw same (IsCycle-close g c x y r w p ((==_iff x c).0 same) rev last trail.0 walk)
  | inr other ↦ rw other (
      backtrack-IsCycle g c x s (y ∷ r) (x ∷ w) (p ++ x ∷ [])
        (reverse-concat p x ∙ ap (λ t. x ∷ t) rev) (ap (λ t. x ∷ t) last) (trail.0, walk) trail.1
        (ground arith))
]

pub backtrack-IsFound :
    (g : DiGraph) (c : ℕ) (d : List ℕ)
    → IsFound g c d
    → IsCycle g (reverse (backtrack c (reverse d) (c ∷ [])))
backtrack-IsFound g c d found =
    backtrack-IsCycle g c c (reverse d) [] [] (c ∷ []) refl refl tt found.0
      (contains-reverse d c ∙ found.1)
