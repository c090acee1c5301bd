-- ===== src/SymbolTable.antt =====
-- compiler/passes/src/common/symbol_table: the nested scopes of functions, structs and variables.
-- The conversions to JSON are left out.
pub mod Lookups
pub mod Inserts
pub mod Presence
pub mod Tests
use aleotiktacto.Prelude.{
  ℕ, zero, suc, ◌+◌, Bool, Option, none, some, List, [], ◌∷◌, ◌==◌, if◌then◌else◌,
}
use aleotiktacto.IndexSet.{get, put}
use aleotiktacto.Ast.{Span, Ty}
use aleotiktacto.Ast.Functions.{Mode, Variant, Input, FinalizeHeader, FunctionHeader, Struct}

-- variable_symbol.rs
pub data VariableType : Type 0 where
  const mut : VariableType
  input : Mode → VariableType

pub record VariableSymbol : Type 0 where
  pub type_ : Ty
  pub span : Span
  pub declaration : VariableType

-- function_symbol.rs; `FinalizeData` is `FinalizeHeader`.
pub record FunctionSymbol : Type 0 where
  pub id : ℕ
  pub output_type : Ty
  pub variant : Variant
  pub span : Span
  pub input : List Input
  pub finalize : Option FinalizeHeader

unfoldable pub new_function_symbol : ℕ → FunctionHeader → FunctionSymbol
new_function_symbol id func = record {
  id = id;
  output_type = func.output_type;
  variant = func.variant;
  span = func.span;
  input = func.input;
  finalize = func.finalize;
}

-- The entries of one scope.
pub record Entries : Type 0 where
  pub functions : List (ℕ × FunctionSymbol)
  pub structs : List (ℕ × Struct)
  pub variables : List (ℕ × VariableSymbol)
  pub scope_index : ℕ

mutual
  pub data SymbolTable : Type 0 where
    table : Parent → Entries → Scopes → SymbolTable

  -- `Option<Box<SymbolTable>>`
  pub data Parent : Type 0 where
    no_parent : Parent
    parent : SymbolTable → Parent

  -- `Vec<RefCell<SymbolTable>>`
  pub data Scopes : Type 0 where
    nil : Scopes
    cons : SymbolTable → Scopes → Scopes

abbrev pub entries : SymbolTable → Entries
entries (table p e s) = e

abbrev pub scopes : SymbolTable → Scopes
scopes (table p e s) = s

-- `Default::default()`
abbrev pub default : SymbolTable
default =
    table no_parent (record { functions = []; structs = []; variables = []; scope_index = 0 }) nil

-- `Vec::push` and `Vec::get`
unfoldable pub push : Scopes → SymbolTable → Scopes
push nil t = cons t nil
push (cons s ss) t = cons s (push ss t)

unfoldable pub scope_at : Scopes → ℕ → Option SymbolTable
scope_at nil i = none
scope_at (cons s ss) zero = some s
scope_at (cons s ss) (suc i) = scope_at ss i

-- The errors of `AstError` that the symbol table makes.
pub data ShadowError : Type 0 where
  shadowed_variable shadowed_function shadowed_record shadowed_struct : ℕ → Span → ShadowError

pub data Result (A : Type 0) : Type 0 where
  ok : A → Result A
  err : ShadowError → Result A

-- The first three tests of `check_shadowing`, before the rest.
unfoldable pub check_entries :
    Option VariableSymbol
    → Option FunctionSymbol
    → Option Struct
    → ℕ
    → Span
    → Result (Unit {0})
    → Result (Unit {0})
check_entries (some v) f struct symbol span rest = err (shadowed_variable symbol span)
check_entries none (some f) struct symbol span rest = err (shadowed_function symbol span)
check_entries none none (some existing) symbol span rest =
    err (if existing.is_record then shadowed_record symbol span else shadowed_struct symbol span)
check_entries none none none symbol span rest = rest

unfoldable mutual
  pub check_shadowing : SymbolTable → ℕ → Span → Result (Unit {0})
  check_shadowing (table p e s) symbol span =
      check_entries (get e.variables symbol) (get e.functions symbol) (get e.structs symbol) symbol
        span (check_shadowing_parent p symbol span)

  pub check_shadowing_parent : Parent → ℕ → Span → Result (Unit {0})
  check_shadowing_parent no_parent symbol span = ok tt
  check_shadowing_parent (parent t) symbol span = check_shadowing t symbol span

-- `scope_index`, with the table after it.
unfoldable pub take_index : SymbolTable → ℕ × SymbolTable
take_index (table p e s) = (e.scope_index, table p (record e { scope_index = e.scope_index + 1 }) s)

-- `check_shadowing(symbol, span)?` before the rest.
unfoldable pub checked : Result (Unit {0}) → SymbolTable → Result SymbolTable
checked (ok u) t = ok t
checked (err e) t = err e

unfoldable pub add_function : ℕ → FunctionSymbol → SymbolTable → SymbolTable
add_function symbol f (table p e s) =
    table p (record e { functions = put symbol f e.functions }) (push s default)

unfoldable pub insert_fn : ℕ → FunctionHeader → SymbolTable → Result SymbolTable
insert_fn symbol insert t =
    let taken = take_index t in
    checked (check_shadowing t symbol insert.span)
      (add_function symbol (new_function_symbol taken.0 insert) taken.1)

unfoldable pub add_struct : ℕ → Struct → SymbolTable → SymbolTable
add_struct symbol struct (table p e s) =
    table p (record e { structs = put symbol struct e.structs }) s

unfoldable pub insert_struct : ℕ → Struct → SymbolTable → Result SymbolTable
insert_struct symbol insert t =
    checked (check_shadowing t symbol insert.info.span) (add_struct symbol insert t)

unfoldable pub add_variable : ℕ → VariableSymbol → SymbolTable → SymbolTable
add_variable symbol v (table p e s) = table p (record e { variables = put symbol v e.variables }) s

unfoldable pub insert_variable : ℕ → VariableSymbol → SymbolTable → Result SymbolTable
insert_variable symbol insert t =
    checked (check_shadowing t symbol insert.span) (add_variable symbol insert t)

-- `scopes.push(..)` and the index taken then.
unfoldable pub insert_block : SymbolTable → ℕ × SymbolTable
insert_block (table p e s) = take_index (table p e (push s default))

-- `if let Some(x) = found { Some(x) } else ..`
unfoldable pub first : {A : Type 0} → Option A → Option A → Option A
first (some a) rest = some a
first none rest = rest

unfoldable mutual
  pub lookup_variable : SymbolTable → ℕ → Option VariableSymbol
  lookup_variable (table p e s) symbol =
      first (get e.variables symbol) (lookup_variable_parent p symbol)

  pub lookup_variable_parent : Parent → ℕ → Option VariableSymbol
  lookup_variable_parent no_parent symbol = none
  lookup_variable_parent (parent t) symbol = lookup_variable t symbol

unfoldable mutual
  pub lookup_fn_symbol : SymbolTable → ℕ → Option FunctionSymbol
  lookup_fn_symbol (table p e s) symbol =
      first (get e.functions symbol) (lookup_fn_symbol_parent p symbol)

  pub lookup_fn_symbol_parent : Parent → ℕ → Option FunctionSymbol
  lookup_fn_symbol_parent no_parent symbol = none
  lookup_fn_symbol_parent (parent t) symbol = lookup_fn_symbol t symbol

unfoldable mutual
  pub lookup_struct : SymbolTable → ℕ → Option Struct
  lookup_struct (table p e s) symbol = first (get e.structs symbol) (lookup_struct_parent p symbol)

  pub lookup_struct_parent : Parent → ℕ → Option Struct
  lookup_struct_parent no_parent symbol = none
  lookup_struct_parent (parent t) symbol = lookup_struct t symbol

unfoldable pub lookup_fn_scope : SymbolTable → ℕ → Option SymbolTable
lookup_fn_scope t symbol = elim (lookup_fn_symbol t symbol) [
  | none ↦ none
  | some func ↦ scope_at (scopes t) func.id
]

unfoldable pub lookup_scope_by_index : SymbolTable → ℕ → Option SymbolTable
lookup_scope_by_index t index = scope_at (scopes t) index
