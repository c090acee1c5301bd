-- ===== src/Constants.antt =====
-- compiler/passes/src/common/constant_propagation_table/mod.rs: the known constants of nested scopes.
pub mod Laws
pub mod Tests
use aleotiktacto.Prelude.{
  ℕ, zero, suc, ◌+◌, Bool, true, false, Option, none, some, List, [], if◌then◌else◌,
}
use aleotiktacto.IndexSet.{get, put}
use aleotiktacto.Ast.{Expression}

mutual
  pub data ConstantTable : Type 0 where
    scope : ParentConstants → List (ℕ × Expression) → ℕ → SubScopes → ConstantTable

  -- `Option<Box<ConstantPropagationTable>>`
  pub data ParentConstants : Type 0 where
    no_parent : ParentConstants
    parent : ConstantTable → ParentConstants

  -- `Vec<RefCell<ConstantPropagationTable>>`
  pub data SubScopes : Type 0 where
    nil : SubScopes
    cons : ConstantTable → SubScopes → SubScopes

abbrev pub no_constants : ConstantTable
no_constants = scope ParentConstants.no_parent [] 0 SubScopes.nil

-- `contains_key`
abbrev pub is_some : {A : Type 0} → Option A → Bool
is_some none = false
is_some (some a) = true

-- `scopes.push` and `scopes.get`
unfoldable pub push_scope : SubScopes → ConstantTable → SubScopes
push_scope SubScopes.nil t = SubScopes.cons t SubScopes.nil
push_scope (SubScopes.cons s ss) t = SubScopes.cons s (push_scope ss t)

unfoldable pub get_scope : SubScopes → ℕ → Option ConstantTable
get_scope SubScopes.nil i = none
get_scope (SubScopes.cons s ss) zero = some s
get_scope (SubScopes.cons s ss) (suc i) = get_scope ss i

-- `scope_index`, with the table after it.
unfoldable pub next_scope_index : ConstantTable → ℕ × ConstantTable
next_scope_index (scope p c i s) = (i, scope p c (i + 1) s)

unfoldable pub insert_constant : ℕ → Expression → ConstantTable → ConstantTable
insert_constant symbol expr (scope p c i s) = scope p (put symbol expr c) i s

unfoldable pub insert_constant_block : ConstantTable → ℕ × ConstantTable
insert_constant_block (scope p c i s) = next_scope_index (scope p c i (push_scope s no_constants))

unfoldable pub push_fn_scope : ConstantTable → ConstantTable
push_fn_scope (scope p c i s) = scope p c i (push_scope s no_constants)

unfoldable pub insert_fn_scope : ConstantTable → ConstantTable
insert_fn_scope t = push_fn_scope ((next_scope_index t).1)

-- `if let Some(constant) = found { Some(constant) } else ..`
unfoldable pub found_or : {A : Type 0} → Option A → Option A → Option A
found_or (some a) rest = some a
found_or none rest = rest

unfoldable mutual
  pub lookup_constant : ConstantTable → ℕ → Option Expression
  lookup_constant (scope p c i s) symbol = found_or (get c symbol) (lookup_constant_parent p symbol)

  pub lookup_constant_parent : ParentConstants → ℕ → Option Expression
  lookup_constant_parent ParentConstants.no_parent symbol = none
  lookup_constant_parent (ParentConstants.parent t) symbol = lookup_constant t symbol

unfoldable pub constant_in_local_scope : ConstantTable → ℕ → Bool
constant_in_local_scope (scope p c i s) symbol = is_some (get c symbol)

unfoldable mutual
  pub constant_in_parent_scope : ConstantTable → ℕ → Bool
  constant_in_parent_scope (scope p c i s) symbol = constant_in_parent p symbol

  pub constant_in_parent : ParentConstants → ℕ → Bool
  constant_in_parent ParentConstants.no_parent symbol = false
  constant_in_parent (ParentConstants.parent (scope p c i s)) symbol =
      let rest = constant_in_parent p symbol in if is_some (get c symbol) then true else rest

unfoldable pub constant_scope_by_index : ConstantTable → ℕ → Option ConstantTable
constant_scope_by_index (scope p c i s) index = get_scope s index
