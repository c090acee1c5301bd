-- ===== src/TypeChecker/Validity/Tests.antt =====
-- Scopes and declared types of compiler/passes/src/type_checking/checker.rs at concrete tables.
use aleotiktacto.Prelude.{◌≡◌, refl, none, some, false, []}
use aleotiktacto.Ast.{Ty, TyList, u8, default_span}
use aleotiktacto.SymbolTable.{
  SymbolTable, table, no_parent, nil, cons, Entries, default, lookup_scope_by_index, scope_at,
}
use aleotiktacto.TypeChecker.{TypeChecker}
use aleotiktacto.TypeChecker.Declared.{assert_type_is_valid}
use aleotiktacto.TypeChecker.Scopes.{IsEntered, enter_scope, exit_scope-enter_scope}
use aleotiktacto.TypeChecker.Validity.{Run, IsTrue}
use aleotiktacto.TypeChecker.Validity.Types.{IsValid, assert_type_is_valid_lem}

abbrev empty : Entries
empty = record { functions = []; structs = []; variables = []; scope_index = 0 }

-- A table with one sub-scope.
abbrev outer : SymbolTable
outer = table no_parent (record empty { scope_index = 1 }) (cons default nil)

exit_scope-enter_scope_example :
    (u : SymbolTable) × ((enter_scope outer 0 ≡ some u) × IsEntered outer 0 empty u)
unfolding lookup_scope_by_index scope_at
exit_scope-enter_scope_example = exit_scope-enter_scope outer 0 empty nil refl

abbrev checker : TypeChecker
checker = record {
  symbol_table = default;
  type_table = [];
  struct_graph = record { nodes = []; edges = [] };
  call_graph = record { nodes = []; edges = [] };
  errors = [];
  function = none;
  variant = none;
  has_return = false;
  has_finalize = false;
  is_finalize = false;
  is_imported = false;
  is_return = false;
}

-- `[(u8, u8); 3]`, an array of tuples
abbrev array_of_tuples : Ty
array_of_tuples =
    Ty.array (Ty.tuple (TyList.cons (Ty.integer u8) (TyList.cons (Ty.integer u8) TyList.nil))) 3

assert_type_is_valid_lem_example :
    Run
      (assert_type_is_valid 32 array_of_tuples default_span)
      IsTrue
      (IsValid default 32 array_of_tuples)
      checker
assert_type_is_valid_lem_example = assert_type_is_valid_lem 32 array_of_tuples default_span checker
