-- ===== src/Constants/Laws.antt =====
-- Insertions and lookups of compiler/passes/src/common/constant_propagation_table/mod.rs.
use aleotiktacto.Prelude.{
  ℕ, Bool, true, false, ◌||◌, Option, none, some, ◌≡◌, ◌≢◌, refl, ◌∙◌, if◌then◌else◌,
}
use aleotiktacto.IndexSet.{get}
use aleotiktacto.IndexSet.Entries.{get-put, get-put_other}
use aleotiktacto.Ast.{Expression}
use aleotiktacto.Constants.{
  ConstantTable, scope, ParentConstants, is_some, insert_constant, found_or, lookup_constant,
  lookup_constant_parent, constant_in_local_scope, constant_in_parent_scope, constant_in_parent,
}

-- An inserted constant is looked up as its expression, whatever the scopes around have, and the
-- lookups of all other symbols are unchanged.
pub lookup_constant-insert_constant :
    (symbol : ℕ) (expr : Expression) (t : ConstantTable)
    → (lookup_constant (insert_constant symbol expr t) symbol ≡ some expr)
      × ((x : ℕ)
          → x ≢ symbol
          → lookup_constant (insert_constant symbol expr t) x ≡ lookup_constant t x)
unfolding lookup_constant insert_constant found_or
lookup_constant-insert_constant symbol expr (scope p c i s) =
    (rw (get-put symbol expr c) refl, λ x ne. rw (get-put_other symbol expr c x ne) refl)

is_some-found_or :
    {A : Type 0} (a b : Option A) (r : Bool)
    → is_some b ≡ r
    → is_some (found_or a b) ≡ (if is_some a then true else r)
unfolding found_or
is_some-found_or none b r h = h
is_some-found_or (some a) b r h = refl

in_parent :
    (p : ParentConstants) (symbol : ℕ)
    → is_some (lookup_constant_parent p symbol) ≡ constant_in_parent p symbol
unfolding lookup_constant constant_in_parent
in_parent ParentConstants.no_parent symbol = refl
in_parent (ParentConstants.parent (scope p c i s)) symbol =
    is_some-found_or (get c symbol) _ _ (in_parent p symbol)

-- A constant is found exactly where it is in the local scope or in a parent scope.
pub lookup_constant_lem :
    (t : ConstantTable) (symbol : ℕ)
    → is_some (lookup_constant t symbol)
      ≡ (constant_in_local_scope t symbol || constant_in_parent_scope t symbol)
unfolding lookup_constant constant_in_local_scope constant_in_parent_scope
lookup_constant_lem (scope p c i s) symbol =
    is_some-found_or (get c symbol) _ _ (in_parent p symbol) ∙ either (is_some (get c symbol)) _
  where
    either : (a b : Bool) → (if a then true else b) ≡ (a || b)
    either true b = refl
    either false b = refl
