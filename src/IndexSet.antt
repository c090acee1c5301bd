-- ===== src/IndexSet.antt =====
-- The indexmap crate's `IndexSet` and `IndexMap`, as the compiler uses them: a set is the list of
-- its members in insertion order, a map the list of its entries in insertion order.
pub mod Laws
pub mod Entries
use aleotiktacto.Prelude.{
  ℕ, suc, Bool, false, ◌||◌, Option, none, some, List, [], ◌∷◌, ◌++◌, ◌==◌, if◌then◌else◌,
}

-- `IndexSet::contains`
abbrev pub contains : List ℕ → ℕ → Bool
contains [] a = false
contains (x ∷ xs) a = x == a || contains xs a

-- `IndexSet::insert`: a member keeps its position.
unfoldable pub insert : ℕ → List ℕ → List ℕ
insert a xs = if contains xs a then xs else xs ++ a ∷ []

-- What `IndexSet::pop` leaves: the set without the member that was inserted last.
unfoldable pub pop : List ℕ → List ℕ
pop [] = []
pop (x ∷ []) = []
pop (x ∷ y ∷ xs) = x ∷ pop (y ∷ xs)

-- `IndexSet::get_index_of`, or the length where the value is no member.
abbrev pub index_of : List ℕ → ℕ → ℕ
index_of [] a = 0
index_of (x ∷ xs) a = if x == a then 0 else suc (index_of xs a)

module _ {ℓ} {V : Type ℓ} where
  -- `IndexMap::get`
  abbrev pub get : List (ℕ × V) → ℕ → Option V
  get [] k = none
  get ((j, v) ∷ m) k = if j == k then some v else get m k

  -- `IndexMap::insert`: an entry keeps its position and gets the new value.
  unfoldable pub put : ℕ → V → List (ℕ × V) → List (ℕ × V)
  put k v [] = (k, v) ∷ []
  put k v ((j, w) ∷ m) = if j == k then (j, v) ∷ m else (j, w) ∷ put k v m
