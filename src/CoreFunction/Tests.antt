-- ===== src/CoreFunction/Tests.antt =====
-- The core functions of compiler/ast/src/functions/core_function.rs at concrete symbols.
use aleotiktacto.Prelude.{◌≡◌, ◌↔◌, refl, none, some}
use aleotiktacto.Sym
use aleotiktacto.CoreFunction.{CoreFunction}
use aleotiktacto.CoreFunction.Names.{names}
use aleotiktacto.CoreFunction.Symbols.{from_symbols}
use aleotiktacto.CoreFunction.Laws.{from_symbols_lem}

from_symbols_unknown : from_symbols Sym.mapping Sym.hash_to_i8 ≡ none
unfolding from_symbols
from_symbols_unknown = refl

from_symbols_lem_example :
    (from_symbols Sym.mapping Sym.set ≡ some CoreFunction.mapping_set)
    ↔ (names CoreFunction.mapping_set ≡ (Sym.mapping, Sym.set))
from_symbols_lem_example = from_symbols_lem Sym.mapping Sym.set CoreFunction.mapping_set
