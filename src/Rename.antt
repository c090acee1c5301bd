-- ===== src/Rename.antt =====
-- compiler/passes/src/common/rename_table/mod.rs: the new names of variables in nested scopes, with
-- the scopes of compiler/passes/src/static_single_assignment/static_single_assigner.rs.
pub mod Laws
pub mod Tests
use aleotiktacto.Prelude.{ℕ, Option, none, some, List, [], ◌∷◌, map}
use aleotiktacto.IndexSet.{get, put}
use aleotiktacto.SymbolTable.{first}

-- The fields `names` and `ids`.
pub record Renamed : Type 0 where
  pub names : List (ℕ × ℕ)
  pub ids : List (ℕ × ℕ)

-- A table without a parent, or with one.
pub data RenameTable : Type 0 where
  outermost : Renamed → RenameTable
  nested : RenameTable → Renamed → RenameTable

abbrev pub empty : Renamed
empty = record { names = []; ids = [] }

unfoldable pub new : Option RenameTable → RenameTable
new none = outermost empty
new (some parent) = nested parent empty

abbrev pub renamed : RenameTable → Renamed
renamed (outermost r) = r
renamed (nested parent r) = r

unfoldable pub local_names : RenameTable → List ℕ
local_names t = map (λ entry. entry.0) (renamed t).names

unfoldable pub add_entry : ℕ → ℕ → ℕ → Renamed → Renamed
add_entry symbol new_symbol id r = record {
  names = put symbol new_symbol r.names;
  ids = put new_symbol id r.ids;
}

unfoldable pub update : ℕ → ℕ → ℕ → RenameTable → RenameTable
update symbol new_symbol id (outermost r) = outermost (add_entry symbol new_symbol id r)
update symbol new_symbol id (nested parent r) = nested parent (add_entry symbol new_symbol id r)

unfoldable pub lookup : RenameTable → ℕ → Option ℕ
lookup (outermost r) symbol = get r.names symbol
lookup (nested parent r) symbol = first (get r.names symbol) (lookup parent symbol)

unfoldable pub lookup_id : RenameTable → ℕ → Option ℕ
lookup_id (outermost r) symbol = get r.ids symbol
lookup_id (nested parent r) symbol = first (get r.ids symbol) (lookup_id parent symbol)

-- `StaticSingleAssigner::push` on its rename table.
unfoldable pub push : RenameTable → RenameTable
push t = new (some t)

-- `StaticSingleAssigner::pop`: the table that it returns, and the one that it leaves.
unfoldable pub pop : RenameTable → RenameTable × RenameTable
pop (outermost r) = (outermost r, new none)
pop (nested parent r) = (nested parent r, parent)
