-- ===== src/TypeChecker/Scopes.antt =====
-- The scopes that the type checker of compiler/passes/src/type_checking/checker.rs enters and leaves, on
-- its symbol table. `none` is the panic of an `unwrap`.
use aleotiktacto.Prelude.{ℕ, zero, suc, Option, none, some, ◌≡◌, refl, sym, ap, ◌∙◌, some-injective}
use aleotiktacto.IndexSet.{get}
use aleotiktacto.SymbolTable.{
  SymbolTable, table, Parent, no_parent, parent, Scopes, nil, cons, Entries, default, scope_at,
  lookup_scope_by_index, insert_block, lookup_variable, first,
}

-- What a swap with the sub-scope at the index leaves in its place.
unfoldable pub replace_scope : Scopes → ℕ → SymbolTable → Scopes
replace_scope nil i t = nil
replace_scope (cons s ss) zero t = cons t ss
replace_scope (cons s ss) (suc i) t = cons s (replace_scope ss i t)

abbrev pub set_scope : SymbolTable → ℕ → SymbolTable → SymbolTable
set_scope (table p e s) i t = table p e (replace_scope s i t)

abbrev pub set_parent : Parent → SymbolTable → SymbolTable
set_parent p (table q e s) = table p e s

unfoldable pub enter_scope : SymbolTable → ℕ → Option SymbolTable
enter_scope previous index = elim (lookup_scope_by_index previous index) [
  | none ↦ none
  | some scope ↦ some (set_parent (parent (set_scope previous index default)) scope)
]

unfoldable pub create_child_scope : SymbolTable → Option (ℕ × SymbolTable)
create_child_scope t =
    let (scope_index, t') = insert_block t in
    elim (enter_scope t' scope_index) [ none ↦ none | some u ↦ some (scope_index, u) ]

-- The current scope, without its parent, is put back in its place.
unfoldable pub put_back : SymbolTable → ℕ → SymbolTable → Option SymbolTable
put_back previous index scope = elim (lookup_scope_by_index previous index) [
  | none ↦ none
  | some hole ↦ some (set_scope previous index scope)
]

unfoldable pub exit_scope : SymbolTable → ℕ → Option SymbolTable
exit_scope (table no_parent e s) index = none
exit_scope (table (parent previous) e s) index = put_back previous index (table no_parent e s)

scope_at-replace_scope :
    (s : Scopes) (i : ℕ) (x t : SymbolTable)
    → scope_at s i ≡ some x
    → scope_at (replace_scope s i t) i ≡ some t
unfolding scope_at replace_scope
scope_at-replace_scope nil i x t h = absurd cc
scope_at-replace_scope (cons s ss) zero x t h = refl
scope_at-replace_scope (cons s ss) (suc i) x t h = scope_at-replace_scope ss i x t h

replace_scope-replace_scope :
    (s : Scopes) (i : ℕ) (t u : SymbolTable)
    → replace_scope (replace_scope s i t) i u ≡ replace_scope s i u
unfolding replace_scope
replace_scope-replace_scope nil i t u = refl
replace_scope-replace_scope (cons s ss) zero t u = refl
replace_scope-replace_scope (cons s ss) (suc i) t u =
    ap (cons s) (replace_scope-replace_scope ss i t u)

replace_scope_same :
    (s : Scopes) (i : ℕ) (x : SymbolTable) → scope_at s i ≡ some x → replace_scope s i x ≡ s
unfolding scope_at replace_scope
replace_scope_same nil i x h = refl
replace_scope_same (cons s ss) zero x h = ap (λ y. cons y ss) (sym (some-injective _ _ h))
replace_scope_same (cons s ss) (suc i) x h = ap (cons s) (replace_scope_same ss i x h)

put_back_found :
    (t : SymbolTable) (i : ℕ) (u x : SymbolTable)
    → lookup_scope_by_index t i ≡ some x
    → put_back t i u ≡ some (set_scope t i u)
unfolding put_back
put_back_found t i u x h = rw (h, put_back) refl

-- What entering the sub-scope at the index of a table gives.
abbrev pub IsEntered : SymbolTable → ℕ → Entries → SymbolTable → Type 0
IsEntered t i e u =
    ((x : ℕ) → lookup_variable u x ≡ first (get e.variables x) (lookup_variable t x))
    × ((e' : Entries) (s' : Scopes)
        → exit_scope (table (parent (set_scope t i default)) e' s') i
          ≡ some (set_scope t i (table no_parent e' s')))
    × (exit_scope u i ≡ some t)

entered :
    (t : SymbolTable) (i : ℕ) (e : Entries) (s : Scopes)
    → lookup_scope_by_index t i ≡ some (table no_parent e s)
    → IsEntered t i e (table (parent (set_scope t i default)) e s)
unfolding lookup_variable exit_scope put_back lookup_scope_by_index
entered (table p f ss) i e s h =
    (λ x. refl, back, back e s ∙ ap (λ z. some (table p f z)) (replace_scope_same ss i _ h))
  where
    back :
        (e' : Entries) (s' : Scopes)
        → exit_scope (table (parent (table p f (replace_scope ss i default))) e' s') i
          ≡ some (table p f (replace_scope ss i (table no_parent e' s')))
    back e' s' =
        put_back_found (table p f (replace_scope ss i default)) i _ default
          (scope_at-replace_scope ss i (table no_parent e s) default h)
        ∙ (ap (λ z. some (table p f z))
            (replace_scope-replace_scope ss i default (table no_parent e' s')))

-- Where a table has a sub-scope without a parent at an index, entering it gives a table that looks a
-- variable up in the sub-scope and then in the table; leaving that puts the sub-scope, with whatever
-- entries and sub-scopes it has then, in its place; and leaving it unchanged gives the first table back.
pub exit_scope-enter_scope :
    (t : SymbolTable) (i : ℕ) (e : Entries) (s : Scopes)
    → lookup_scope_by_index t i ≡ some (table no_parent e s)
    → (u : SymbolTable) × ((enter_scope t i ≡ some u) × IsEntered t i e u)
unfolding enter_scope
exit_scope-enter_scope t i e s h =
    (table (parent (set_scope t i default)) e s, (rw (h, enter_scope) refl, entered t i e s h))
