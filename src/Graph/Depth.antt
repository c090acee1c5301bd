-- ===== src/Graph/Depth.antt =====
-- The recursion of `contains_cycle_from` is no deeper than the number of nodes.
use aleotiktacto.Prelude.{
  ℕ, suc, ◌≤◌, ◌<◌, ◌≡◌, true, false, List, [], ◌∷◌, ◌++◌, arith, if◌then◌else◌,
}
use aleotiktacto.IndexSet.{contains}
use aleotiktacto.IndexSet.Laws.{contains-concat}

-- The nodes that are not on the path of the search.
abbrev pub unvisited : List ℕ → List ℕ → ℕ
unvisited [] d = 0
unvisited (x ∷ xs) d = if contains d x then unvisited xs d else suc (unvisited xs d)

pub unvisited-concat-le : (xs d : List ℕ) (a : ℕ) → unvisited xs (d ++ a ∷ []) ≤ unvisited xs d
unvisited-concat-le [] d a = omega arith
unvisited-concat-le (x ∷ xs) d a = ground (arith, contains-concat d a x, unvisited-concat-le xs d a)

pub unvisited-concat-lt :
    (xs d : List ℕ) (a : ℕ)
    → contains xs a ≡ true
    → contains d a ≡ false
    → unvisited xs (d ++ a ∷ []) < unvisited xs d
unvisited-concat-lt [] d a h k = ground arith
unvisited-concat-lt (x ∷ xs) d a h k =
    ground (arith, contains-concat d a x, unvisited-concat-lt xs d a, unvisited-concat-le xs d a)
