-- ===== src/Interner/Tests.antt =====
-- The interner on a concrete set.
use aleotiktacto.Prelude.{ℕ, ◌≡◌, ◌++◌, refl, some, List, [], ◌∷◌, codes, arith}
use aleotiktacto.Interner.{get, intern, get_index_of, intern_at, symbol}
use aleotiktacto.Interner.Laws.{get-intern}

abbrev names : List (List ℕ)
names = codes "abs" ∷ codes "add" ∷ []

new_symbol : intern names (codes "main") ≡ (2, names ++ codes "main" ∷ [])
unfolding intern get_index_of intern_at symbol
new_symbol = refl

get-intern_example :
    (get (intern names (codes "add")).1 (intern names (codes "add")).0 ≡ some (codes "add"))
    × ((old : ℕ) (t : List ℕ)
        → get names old ≡ some t
        → get (intern names (codes "add")).1 old ≡ some t)
get-intern_example = get-intern names (codes "add") (omega arith)
