-- ===== src/SymbolTable/Tests.antt =====
-- Tests of compiler/passes/src/common/symbol_table/mod.rs, and its theorems at concrete tables.
use aleotiktacto.Prelude.{ℕ, none, some, [], ◌≡◌, ◌↔◌, refl, ◌<◌, ◌||◌}
use aleotiktacto.IndexSet.{put}
use aleotiktacto.Ast.{default_span, Ty}
use aleotiktacto.Ast.Functions.{Variant, FunctionHeader}
use aleotiktacto.SymbolTable.{
  SymbolTable, table, no_parent, parent, nil, cons, default, VariableType, VariableSymbol, ok, err,
  shadowed_variable, shadowed_function, check_shadowing, check_entries, first, insert_variable,
  insert_fn, checked, add_variable, add_function, take_index, new_function_symbol, push,
  lookup_variable, insert_block, lookup_scope_by_index,
}
use aleotiktacto.SymbolTable.Lookups.{IsFree, check_shadowing_lem}
use aleotiktacto.SymbolTable.Inserts.{
  Either, HasVariable, HasFunction, IsWellFormed, count, insert_variable-HasVariable,
  insert_fn-HasFunction, insert_block-IsWellFormed,
}
use aleotiktacto.Constants.{is_some}
use aleotiktacto.SymbolTable.Presence.{
  variable_in_local_scope, variable_in_parent_scope, lookup_variable_lem,
}

abbrev field_variable : VariableSymbol
field_variable = record { type_ = Ty.field; span = default_span; declaration = VariableType.mut }

abbrev header : FunctionHeader
header = record {
  variant = Variant.standard;
  input = [];
  output_type = Ty.boolean;
  finalize = none;
  span = default_span;
}

-- The function 3 with its scope, and the variable 7.
abbrev outer : SymbolTable
outer =
    table no_parent
      (record {
        functions = put 3 (new_function_symbol 0 header) [];
        structs = [];
        variables = put 7 field_variable [];
        scope_index = 1;
      })
      (cons default nil)

abbrev inner : SymbolTable
inner =
    table (parent outer) (record { functions = []; structs = []; variables = []; scope_index = 0 })
      nil

inserts :
    (insert_fn 3 header default
      ≡ ok (
          table no_parent
            (record {
              functions = put 3 (new_function_symbol 0 header) [];
              structs = [];
              variables = [];
              scope_index = 1;
            })
            (cons default nil)))
    × (insert_variable 7 field_variable inner ≡ err (shadowed_variable 7 default_span))
    × (insert_variable 3 field_variable inner ≡ err (shadowed_function 3 default_span))
    × (lookup_variable inner 7 ≡ some field_variable)
unfolding insert_fn insert_variable check_shadowing check_entries first checked add_function
    add_variable take_index new_function_symbol push put lookup_variable
inserts = (refl, refl, refl, refl)

check_shadowing_lem_example : (check_shadowing inner 5 default_span ≡ ok tt) ↔ IsFree inner 5
check_shadowing_lem_example = check_shadowing_lem inner 5 default_span

insert_variable-HasVariable_example :
    Either
      (λ t. IsFree inner 5 × HasVariable inner 5 field_variable t)
      (¬ IsFree inner 5)
      (insert_variable 5 field_variable inner)
insert_variable-HasVariable_example = insert_variable-HasVariable inner 5 field_variable

default-IsWellFormed : IsWellFormed default
unfolding count
default-IsWellFormed = (refl, λ x f h. cc)

insert_fn-HasFunction_example :
    Either
      (λ t. IsFree default 3 × HasFunction default 3 header t)
      (¬ IsFree default 3)
      (insert_fn 3 header default)
insert_fn-HasFunction_example = insert_fn-HasFunction default 3 header default-IsWellFormed

insert_block-IsWellFormed_example :
    IsWellFormed (insert_block default).1
    × (lookup_scope_by_index (insert_block default).1 (insert_block default).0 ≡ some default)
    × ((i : ℕ)
        → i < (insert_block default).0
        → lookup_scope_by_index (insert_block default).1 i ≡ lookup_scope_by_index default i)
insert_block-IsWellFormed_example = insert_block-IsWellFormed default default-IsWellFormed

lookup_variable_lem_example :
    is_some (lookup_variable outer 7)
    ≡ (variable_in_local_scope outer 7 || variable_in_parent_scope outer 7)
lookup_variable_lem_example = lookup_variable_lem outer 7
