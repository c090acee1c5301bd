-- ===== src/SymbolTable/Lookups.antt =====
-- The test for shadowing of compiler/passes/src/common/symbol_table/mod.rs and the lookups there.
use aleotiktacto.Prelude.{ℕ, Option, none, some, ◌≡◌, ◌↔◌, refl}
use aleotiktacto.IndexSet.{get}
use aleotiktacto.Ast.{Span}
use aleotiktacto.Ast.Functions.{Struct}
use aleotiktacto.SymbolTable.{
  SymbolTable, Parent, table, no_parent, parent, Result, ok, check_shadowing, check_entries, first,
  VariableSymbol, FunctionSymbol, check_shadowing_parent, lookup_variable, lookup_variable_parent,
  lookup_fn_symbol, lookup_fn_symbol_parent, lookup_struct, lookup_struct_parent,
}

-- No variable, function or struct of that name is found.
abbrev pub IsFree : SymbolTable → ℕ → Type 0
IsFree t symbol =
    (lookup_variable t symbol ≡ none)
    × (lookup_fn_symbol t symbol ≡ none)
    × (lookup_struct t symbol ≡ none)

abbrev pub IsFreeParent : Parent → ℕ → Type 0
IsFreeParent p symbol =
    (lookup_variable_parent p symbol ≡ none)
    × (lookup_fn_symbol_parent p symbol ≡ none)
    × (lookup_struct_parent p symbol ≡ none)

check_entries-free :
    (v : Option VariableSymbol) (f : Option FunctionSymbol) (st : Option Struct) (symbol : ℕ)
    (span : Span) (a : Option VariableSymbol) (b : Option FunctionSymbol) (c : Option Struct)
    {r : Result (Unit {0})}
    → ((a ≡ none) × (b ≡ none) × (c ≡ none) → r ≡ ok tt)
    → (first v a ≡ none) × (first f b ≡ none) × (first st c ≡ none)
    → check_entries v f st symbol span r ≡ ok tt
unfolding check_entries first
check_entries-free (some v) f st symbol span a b c k h = let clash = h.0 in cc
check_entries-free none (some f) st symbol span a b c k h = let clash = h.1 in cc
check_entries-free none none (some st) symbol span a b c k h = let clash = h.2 in cc
check_entries-free none none none symbol span a b c k h = k h

check_entries-ok :
    (v : Option VariableSymbol) (f : Option FunctionSymbol) (st : Option Struct) (symbol : ℕ)
    (span : Span) (a : Option VariableSymbol) (b : Option FunctionSymbol) (c : Option Struct)
    {r : Result (Unit {0})}
    → (r ≡ ok tt → (a ≡ none) × (b ≡ none) × (c ≡ none))
    → check_entries v f st symbol span r ≡ ok tt
    → (first v a ≡ none) × (first f b ≡ none) × (first st c ≡ none)
unfolding check_entries first
check_entries-ok (some v) f st symbol span a b c k h = (cc, cc, cc)
check_entries-ok none (some f) st symbol span a b c k h = (cc, cc, cc)
check_entries-ok none none (some st) symbol span a b c k h = (cc, cc, cc)
check_entries-ok none none none symbol span a b c k h = k h

mutual
  unfolding check_shadowing lookup_variable lookup_fn_symbol lookup_struct

  IsFree-check_shadowing :
      (t : SymbolTable) (symbol : ℕ) (span : Span)
      → IsFree t symbol
      → check_shadowing t symbol span ≡ ok tt
  IsFree-check_shadowing (table p e s) symbol span h =
      check_entries-free (get e.variables symbol) (get e.functions symbol) (get e.structs symbol)
        symbol span (lookup_variable_parent p symbol) (lookup_fn_symbol_parent p symbol)
        (lookup_struct_parent p symbol) (IsFreeParent-check_shadowing_parent p symbol span) h

  IsFreeParent-check_shadowing_parent :
      (p : Parent) (symbol : ℕ) (span : Span)
      → IsFreeParent p symbol
      → check_shadowing_parent p symbol span ≡ ok tt
  IsFreeParent-check_shadowing_parent no_parent symbol span h = refl
  IsFreeParent-check_shadowing_parent (parent t) symbol span h =
      IsFree-check_shadowing t symbol span h

mutual
  unfolding check_shadowing lookup_variable lookup_fn_symbol lookup_struct

  check_shadowing-IsFree :
      (t : SymbolTable) (symbol : ℕ) (span : Span)
      → check_shadowing t symbol span ≡ ok tt
      → IsFree t symbol
  check_shadowing-IsFree (table p e s) symbol span h =
      check_entries-ok (get e.variables symbol) (get e.functions symbol) (get e.structs symbol)
        symbol span (lookup_variable_parent p symbol) (lookup_fn_symbol_parent p symbol)
        (lookup_struct_parent p symbol) (check_shadowing_parent-IsFreeParent p symbol span) h

  check_shadowing_parent-IsFreeParent :
      (p : Parent) (symbol : ℕ) (span : Span)
      → check_shadowing_parent p symbol span ≡ ok tt
      → IsFreeParent p symbol
  check_shadowing_parent-IsFreeParent no_parent symbol span h = (refl, refl, refl)
  check_shadowing_parent-IsFreeParent (parent t) symbol span h =
      check_shadowing-IsFree t symbol span h

-- The test succeeds exactly where none of the three lookups finds the name, in the scope or in a
-- scope around it.
pub check_shadowing_lem :
    (t : SymbolTable) (symbol : ℕ) (span : Span)
    → (check_shadowing t symbol span ≡ ok tt) ↔ IsFree t symbol
check_shadowing_lem t symbol span =
    (check_shadowing-IsFree t symbol span, IsFree-check_shadowing t symbol span)
