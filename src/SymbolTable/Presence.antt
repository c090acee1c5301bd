-- ===== src/SymbolTable/Presence.antt =====
-- compiler/passes/src/common/symbol_table/mod.rs: whether a variable is in the local scope or in a scope
-- around it.
use aleotiktacto.Prelude.{
  ℕ, Bool, true, false, ◌||◌, Option, none, some, ◌≡◌, refl, ◌∙◌, if◌then◌else◌,
}
use aleotiktacto.IndexSet.{get}
use aleotiktacto.Constants.{is_some}
use aleotiktacto.SymbolTable.{
  SymbolTable, table, Parent, no_parent, parent, first, lookup_variable, lookup_variable_parent,
}

unfoldable pub variable_in_local_scope : SymbolTable → ℕ → Bool
variable_in_local_scope (table p e s) symbol = is_some (get e.variables symbol)

unfoldable mutual
  pub variable_in_parent_scope : SymbolTable → ℕ → Bool
  variable_in_parent_scope (table p e s) symbol = variable_in_parent p symbol

  pub variable_in_parent : Parent → ℕ → Bool
  variable_in_parent no_parent symbol = false
  variable_in_parent (parent (table p e s)) symbol =
      let rest = variable_in_parent p symbol in
      if is_some (get e.variables symbol) then true else rest

is_some-first :
    {A : Type 0} (a b : Option A) (r : Bool)
    → is_some b ≡ r
    → is_some (first a b) ≡ (is_some a || r)
unfolding first
is_some-first none b r h = h
is_some-first (some a) b r h = refl

if-|| : (a b : Bool) → (a || b) ≡ (if a then true else b)
if-|| true b = refl
if-|| false b = refl

in_parent :
    (p : Parent) (symbol : ℕ)
    → is_some (lookup_variable_parent p symbol) ≡ variable_in_parent p symbol
unfolding lookup_variable variable_in_parent
in_parent no_parent symbol = refl
in_parent (parent (table p e s)) symbol =
    is_some-first (get e.variables symbol) _ _ (in_parent p symbol)
    ∙ if-|| (is_some (get e.variables symbol)) _

-- A variable is found exactly where it is in the local scope or in a parent scope.
pub lookup_variable_lem :
    (t : SymbolTable) (symbol : ℕ)
    → is_some (lookup_variable t symbol)
      ≡ (variable_in_local_scope t symbol || variable_in_parent_scope t symbol)
unfolding lookup_variable variable_in_local_scope variable_in_parent_scope
lookup_variable_lem (table p e s) symbol =
    is_some-first (get e.variables symbol) _ _ (in_parent p symbol)
