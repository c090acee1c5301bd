-- ===== src/SymbolTable/Inserts.antt =====
-- The insertions of compiler/passes/src/common/symbol_table/mod.rs.
use aleotiktacto.Prelude.{
  ℕ, zero, suc, ◌+◌, ◌<◌, false, some, List, ◌≡◌, ◌≢◌, ◌==◌, refl, sym, ap, ◌∙◌, subst, Bool-cases,
  inl, inr, some-injective, arith, ==_iff,
}
use aleotiktacto.IndexSet.{get, put}
use aleotiktacto.IndexSet.Entries.{get-put, get-put_other}
use aleotiktacto.Ast.{Span}
use aleotiktacto.Ast.Functions.{FunctionHeader}
use aleotiktacto.SymbolTable.{
  SymbolTable, Scopes, table, nil, cons, entries, scopes, default, push, scope_at, ShadowError,
  Result, ok, err, check_shadowing, first, VariableSymbol, FunctionSymbol, new_function_symbol,
  take_index, checked, add_function, add_variable, insert_fn, insert_variable, insert_block,
  lookup_variable, lookup_fn_symbol, lookup_struct, lookup_fn_scope, lookup_scope_by_index,
}
use aleotiktacto.SymbolTable.Lookups.{IsFree, check_shadowing_lem}

ok-ne-err : {x : ShadowError} → Result.ok tt ≢ err x
ok-ne-err h = cc

-- `p` of the table that an insertion returns, and `q` where it returns an error.
abbrev pub Either : (SymbolTable → Type 0) → Type 0 → Result SymbolTable → Type 0
Either p q (ok t) = p t
Either p q (err e) = q

checked-Either :
    (t : SymbolTable) (symbol : ℕ) (span : Span) (t' : SymbolTable) (p : SymbolTable → Type 0)
    → (IsFree t symbol → p t')
    → Either p (¬ IsFree t symbol) (checked (check_shadowing t symbol span) t')
unfolding checked
checked-Either t symbol span t' p h = outcome (check_shadowing t symbol span) refl
  where
    outcome :
        (r : Result (Unit {0}))
        → check_shadowing t symbol span ≡ r
        → Either p (¬ IsFree t symbol) (checked r t')
    outcome (ok tt) e = h ((check_shadowing_lem t symbol span).0 e)
    outcome (err x) e = λ free. ok-ne-err (sym ((check_shadowing_lem t symbol span).1 free) ∙ e)

-- What inserting a variable does where the name is free.
abbrev pub HasVariable : SymbolTable → ℕ → VariableSymbol → SymbolTable → Type 0
HasVariable t symbol v t' =
    (lookup_variable t' symbol ≡ some v)
    × ((x : ℕ) → x ≢ symbol → lookup_variable t' x ≡ lookup_variable t x)
    × ((x : ℕ) → lookup_fn_symbol t' x ≡ lookup_fn_symbol t x)
    × ((x : ℕ) → lookup_struct t' x ≡ lookup_struct t x)
    × ((x : ℕ) → lookup_fn_scope t' x ≡ lookup_fn_scope t x)
    × ((i : ℕ) → lookup_scope_by_index t' i ≡ lookup_scope_by_index t i)
    × ((entries t').scope_index ≡ (entries t).scope_index)

add_variable-HasVariable :
    (t : SymbolTable) (symbol : ℕ) (v : VariableSymbol)
    → HasVariable t symbol v (add_variable symbol v t)
unfolding add_variable lookup_variable lookup_fn_symbol lookup_struct first lookup_fn_scope
    lookup_scope_by_index
add_variable-HasVariable (table p e s) symbol v = (
  rw (get-put symbol v e.variables) refl,
  (λ x ne. rw (get-put_other symbol v e.variables x ne) refl),
  (λ x. refl),
  (λ x. refl),
  (λ x. refl),
  (λ i. refl),
  refl,
)

-- A variable is inserted exactly where no variable, function or struct of its name is found. Then
-- the name is looked up as that variable; the lookups of other variables, of functions, structs,
-- scopes of functions and scopes by their index, and the next index, are as before.
pub insert_variable-HasVariable :
    (t : SymbolTable) (symbol : ℕ) (v : VariableSymbol)
    → Either
        (λ t'. IsFree t symbol × HasVariable t symbol v t')
        (¬ IsFree t symbol)
        (insert_variable symbol v t)
unfolding insert_variable
insert_variable-HasVariable t symbol v =
    checked-Either t symbol v.span (add_variable symbol v t)
      (λ t'. IsFree t symbol × HasVariable t symbol v t')
      (λ free. (free, add_variable-HasVariable t symbol v))

unfoldable pub count : Scopes → ℕ
count nil = 0
count (cons s ss) = suc (count ss)

-- The scope index counts the sub-scopes, and the id of every function of the scope is one of theirs.
abbrev pub IsWellFormed : SymbolTable → Type 0
IsWellFormed (table p e s) =
    (e.scope_index ≡ count s)
    × ((symbol : ℕ) (f : FunctionSymbol) → get e.functions symbol ≡ some f → f.id < count s)

count-push : (s : Scopes) (t : SymbolTable) → count (push s t) ≡ suc (count s)
unfolding count push
count-push nil t = refl
count-push (cons s ss) t = ap suc (count-push ss t)

pub scope_at-total :
    (s : Scopes) (i : ℕ) → i < count s → (t : SymbolTable) × (scope_at s i ≡ some t)
unfolding count scope_at
scope_at-total nil i h = absurd (omega arith)
scope_at-total (cons s ss) zero h = (s, refl)
scope_at-total (cons s ss) (suc i) h = scope_at-total ss i (omega arith)

scope_at-push : (s : Scopes) (t : SymbolTable) → scope_at (push s t) (count s) ≡ some t
unfolding count scope_at push
scope_at-push nil t = refl
scope_at-push (cons s ss) t = scope_at-push ss t

scope_at-push_before :
    (s : Scopes) (t : SymbolTable) (i : ℕ) → i < count s → scope_at (push s t) i ≡ scope_at s i
unfolding count scope_at push
scope_at-push_before nil t i h = absurd (omega arith)
scope_at-push_before (cons s ss) t zero h = refl
scope_at-push_before (cons s ss) t (suc i) h = scope_at-push_before ss t i (omega arith)

-- What inserting a function does where the name is free.
abbrev pub HasFunction : SymbolTable → ℕ → FunctionHeader → SymbolTable → Type 0
HasFunction t symbol f t' =
    IsWellFormed t'
    × (lookup_fn_symbol t' symbol ≡ some (new_function_symbol (entries t).scope_index f))
    × (lookup_fn_scope t' symbol ≡ some default)
    × ((x : ℕ) → x ≢ symbol → lookup_fn_symbol t' x ≡ lookup_fn_symbol t x)
    × ((x : ℕ) → lookup_variable t' x ≡ lookup_variable t x)

ne-of : (a b : ℕ) → (a == b) ≡ false → a ≢ b
ne-of a b h e = ground arith

add_function-ids :
    (fs : List (ℕ × FunctionSymbol)) (n symbol : ℕ) (f : FunctionHeader)
    → ((x : ℕ) (g : FunctionSymbol) → get fs x ≡ some g → g.id < n)
    → (x : ℕ) (g : FunctionSymbol) → get (put symbol (new_function_symbol n f) fs) x ≡ some g
    → g.id < suc n
unfolding new_function_symbol
add_function-ids fs n symbol f ids x g h = elim (Bool-cases (x == symbol)) [
  | inl e ↦
      subst (λ k. k.id < suc n)
        (some-injective _ _ (
          sym (get-put symbol (new_function_symbol n f) fs)
          ∙ ap (get (put symbol (new_function_symbol n f) fs)) (sym ((==_iff x symbol).0 e))
          ∙ h))
        (omega arith)
  | inr e ↦
      let old =
        ids x g (
          sym (get-put_other symbol (new_function_symbol n f) fs x (λ q. ne-of x symbol e q))
          ∙ h) in
      omega arith
]

found_scope :
    (t : SymbolTable) (symbol : ℕ) (f : FunctionSymbol)
    → lookup_fn_symbol t symbol ≡ some f
    → lookup_fn_scope t symbol ≡ scope_at (scopes t) f.id
unfolding lookup_fn_scope
found_scope t symbol f e = rw (e, lookup_fn_scope) refl

add_function-HasFunction :
    (t : SymbolTable) (symbol : ℕ) (f : FunctionHeader)
    → IsWellFormed t
    → HasFunction t symbol f
        (add_function symbol (new_function_symbol (take_index t).0 f) (take_index t).1)
unfolding add_function take_index lookup_variable lookup_fn_symbol new_function_symbol first
add_function-HasFunction (table p e s) symbol f h = (
  (
    rw (count-push s default) (omega (arith, h.0)),
    λ x g q. rw (count-push s default) (
        subst (λ n. g.id < suc n) h.0
          (add_function-ids e.functions e.scope_index symbol f
            (λ y k r. subst (λ n. k.id < n) (sym h.0) (h.1 y k r)) x g q)),
  ),
  rw (get-put symbol (new_function_symbol e.scope_index f) e.functions) refl,
  found_scope
        (add_function symbol (new_function_symbol (take_index (table p e s)).0 f)
          (take_index (table p e s)).1)
        symbol (new_function_symbol e.scope_index f)
        (rw (get-put symbol (new_function_symbol e.scope_index f) e.functions) refl)
      ∙ ap (scope_at (push s default)) h.0
      ∙ scope_at-push s default,
  (λ x ne. rw (get-put_other symbol (new_function_symbol e.scope_index f) e.functions x ne) refl),
  (λ x. refl),
)

-- A function is inserted exactly where no variable, function or struct of its name is found. Then
-- the name is looked up as that function, its scope is a new, empty one, all other lookups of
-- functions and all lookups of variables are as before, and the table is still well formed: its
-- scope index counts the sub-scopes and the id of every function is that of a sub-scope.
pub insert_fn-HasFunction :
    (t : SymbolTable) (symbol : ℕ) (f : FunctionHeader)
    → IsWellFormed t
    → Either
        (λ t'. IsFree t symbol × HasFunction t symbol f t')
        (¬ IsFree t symbol)
        (insert_fn symbol f t)
unfolding insert_fn
insert_fn-HasFunction t symbol f h =
    checked-Either t symbol f.span
      (add_function symbol (new_function_symbol (take_index t).0 f) (take_index t).1)
      (λ t'. IsFree t symbol × HasFunction t symbol f t')
      (λ free. (free, add_function-HasFunction t symbol f h))

-- A new block's scope is empty and is found under the index that is returned; the sub-scopes before
-- it are found as before, and a well-formed table stays well formed.
pub insert_block-IsWellFormed :
    (t : SymbolTable)
    → IsWellFormed t
    → IsWellFormed (insert_block t).1
      × (lookup_scope_by_index (insert_block t).1 (insert_block t).0 ≡ some default)
      × ((i : ℕ)
          → i < (insert_block t).0
          → lookup_scope_by_index (insert_block t).1 i ≡ lookup_scope_by_index t i)
unfolding insert_block take_index lookup_scope_by_index
insert_block-IsWellFormed (table p e s) h = (
  (
    rw (count-push s default) (ap (λ n. n + 1) h.0 ∙ omega arith),
    λ x f q. rw (count-push s default) (let old = h.1 x f q in omega arith),
  ),
  ap (scope_at (push s default)) h.0 ∙ scope_at-push s default,
  λ i lt. scope_at-push_before s default i (omega (arith, h.0)),
)
