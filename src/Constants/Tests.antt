-- ===== src/Constants/Tests.antt =====
-- The constants of compiler/passes/src/common/constant_propagation_table/mod.rs at concrete tables.
use aleotiktacto.Prelude.{ℕ, [], ◌∷◌, ◌≡◌, ◌≢◌, ◌||◌, some}
use aleotiktacto.Ast.{Expression, default_span}
use aleotiktacto.Constants.{
  ConstantTable, scope, ParentConstants, SubScopes, is_some, insert_constant, lookup_constant,
  constant_in_local_scope, constant_in_parent_scope,
}
use aleotiktacto.Constants.Laws.{lookup_constant-insert_constant, lookup_constant_lem}

abbrev unit : ℕ → Expression
unit id = Expression.unit (record { span = default_span; id = id })

-- A scope inside one that knows the constant 7.
abbrev inner : ConstantTable
inner =
    scope
      (ParentConstants.parent (scope ParentConstants.no_parent ((7, unit 1) ∷ []) 1 SubScopes.nil))
      [] 0 SubScopes.nil

lookup_constant-insert_constant_example :
    (lookup_constant (insert_constant 7 (unit 2) inner) 7 ≡ some (unit 2))
    × ((x : ℕ)
        → x ≢ 7
        → lookup_constant (insert_constant 7 (unit 2) inner) x ≡ lookup_constant inner x)
lookup_constant-insert_constant_example = lookup_constant-insert_constant 7 (unit 2) inner

lookup_constant_lem_example :
    is_some (lookup_constant inner 7)
    ≡ (constant_in_local_scope inner 7 || constant_in_parent_scope inner 7)
lookup_constant_lem_example = lookup_constant_lem inner 7
