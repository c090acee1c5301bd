-- ===== src/DeadCode/Marks.antt =====
-- The variables that the dead code eliminator marks as used when it keeps a part of a statement.
use aleotiktacto.Prelude.{
  ℕ, Bool, true, false, ◌||◌, some, List, [], ◌∷◌, ◌++◌, ◌≡◌, refl, ap, ◌∙◌, if◌then◌else◌,
  Bool-cases, inl, inr, arith,
}
use aleotiktacto.IndexSet.{contains, insert}
use aleotiktacto.IndexSet.Laws.{contains-insert}
use aleotiktacto.Ast.{
  NodeBuilder, NodeInfo, Identifier, Ty, Expression, AccessExpression, Expressions, AssertVariant,
  MaybeExpressions,
}
use aleotiktacto.DeadCode.{
  DeadCodeEliminator, M, pure, ◌>>=◌, ◌>>◌, set_necessary, is_mapping_update, mark_mapping_update,
  reconstruct_expression, reconstruct_expressions, reconstruct_access,
}
use aleotiktacto.DeadCode.Bodies.{
  necessarily, reconstruct_variant, reconstruct_values, reconstruct_finalize_arguments,
}
use aleotiktacto.DeadCode.Vars.{
  vars, all_vars, IsPlain, ArePlain, mark, mark_one, bind, both_marked,
  reconstruct_expression-IsPlain, reconstruct_expressions-ArePlain,
}
use aleotiktacto.DeadCode.Meaning.{IsValue, IsPlainVariant, finalize_list}

abbrev pub state : NodeBuilder → List ℕ → Bool → DeadCodeEliminator
state b used n = record { node_builder = b; used_variables = used; is_necessary = n }

-- The set with all of the list inserted.
unfoldable pub inserted : List ℕ → List ℕ → List ℕ
inserted [] used = used
inserted (x ∷ xs) used = inserted xs (insert x used)

pub contains-inserted :
    (xs used : List ℕ) (a : ℕ) → contains (inserted xs used) a ≡ (contains used a || contains xs a)
unfolding inserted
contains-inserted [] used a = ground arith
contains-inserted (x ∷ xs) used a =
    contains-inserted xs (insert x used) a ∙ rw (contains-insert x used a) (ground arith)

pub mark_lem :
    (xs : List ℕ) (b : NodeBuilder) (used : List ℕ) (n : Bool)
    → mark xs (state b used n) ≡ state b (if n then inserted xs used else used) n
unfolding mark mark_one inserted
mark_lem [] b used true = refl
mark_lem [] b used false = refl
mark_lem (x ∷ xs) b used true = mark_lem xs b (insert x used) true
mark_lem (x ∷ xs) b used false = mark_lem xs b used false

-- What `necessarily` does with a part that is kept.
pub necessarily_lem :
    {A : Type 0} (m : M A) (a : A) (xs : List ℕ) (b : NodeBuilder) (used : List ℕ) (n : Bool)
    → m (state b used true) ≡ some (a, mark xs (state b used true))
    → necessarily m (state b used n) ≡ some (a, state b (inserted xs used) false)
unfolding necessarily
necessarily_lem m a xs b used n h = bind m _ h (rw (mark_lem xs b used true) refl)

mark_mapping_update_lem :
    (ty : Ty) (name : Identifier) (b : NodeBuilder) (used : List ℕ) (n : Bool)
    → mark_mapping_update ty name (state b used n)
      ≡ some (tt, state b used (n || is_mapping_update ty name))
unfolding mark_mapping_update
mark_mapping_update_lem ty name b used true = elim (Bool-cases (is_mapping_update ty name)) [
  | inl h ↦ rw h refl
  | inr h ↦ rw h refl
]
mark_mapping_update_lem ty name b used false = elim (Bool-cases (is_mapping_update ty name)) [
  | inl h ↦ rw h refl
  | inr h ↦ rw h refl
]

-- The call of an associated function is kept and the flag is unset behind it. Its variables are
-- marked exactly where the flag was set or the function updates a mapping.
pub associated_function_lem :
    (ty : Ty) (name : Identifier) (arguments : Expressions) (info : NodeInfo) (b : NodeBuilder)
    (used : List ℕ) (n : Bool)
    → ArePlain arguments
    → reconstruct_expression
        (Expression.access (AccessExpression.associated_function ty name arguments info))
        (state b used n)
      ≡ some (
        Expression.access (AccessExpression.associated_function ty name arguments info),
        state b
            (if n || is_mapping_update ty name then inserted (all_vars arguments) used else used)
            false,
      )
unfolding reconstruct_expression
associated_function_lem ty name arguments info b used n h =
    bind (reconstruct_access (AccessExpression.associated_function ty name arguments info)) _
      (bind (mark_mapping_update ty name) _ (mark_mapping_update_lem ty name b used n) (
        bind (reconstruct_expressions arguments) _
          (reconstruct_expressions-ArePlain arguments h
            (state b used (n || is_mapping_update ty name)))
          (ap
            (set_necessary false
              >> pure (AccessExpression.associated_function ty name arguments info))
            (mark_lem (all_vars arguments) b used (n || is_mapping_update ty name)))))
      refl

pub value_lem :
    (e : Expression)
    → IsValue e
    → (b : NodeBuilder) (used : List ℕ) (n : Bool)
    → necessarily (reconstruct_expression e) (state b used n)
      ≡ some (e, state b (inserted (vars e) used) false)
unfolding IsValue vars necessarily
value_lem (Expression.access (AccessExpression.associated_function ty name arguments info)) h b used
      n =
    bind
      (reconstruct_expression
        (Expression.access (AccessExpression.associated_function ty name arguments info)))
      _ (associated_function_lem ty name arguments info b used true h) refl
value_lem e h b used n =
    necessarily_lem (reconstruct_expression e) e (vars e) b used n
      (reconstruct_expression-IsPlain e h (state b used true))

-- The variables of an assertion and of a return statement.
unfoldable pub variant_vars : AssertVariant → List ℕ
variant_vars (AssertVariant.assert e) = vars e
variant_vars (AssertVariant.assert_eq left right) = vars left ++ vars right
variant_vars (AssertVariant.assert_neq left right) = vars left ++ vars right

both_plain :
    {B : Type 0} (f : Expression → Expression → B) (left right : Expression)
    → IsPlain left
    → IsPlain right
    → (s : DeadCodeEliminator)
    → (reconstruct_expression left >>= λ l. reconstruct_expression right >>= λ r. pure (f l r)) s
      ≡ some (f left right, mark (vars left ++ vars right) s)
both_plain f left right hl hr s =
    bind (reconstruct_expression left) _ (reconstruct_expression-IsPlain left hl s) (
      bind (reconstruct_expression right) _
        (reconstruct_expression-IsPlain right hr (mark (vars left) s))
        (both_marked _ (vars left) (vars right) s))

reconstruct_variant-IsPlain :
    (v : AssertVariant)
    → IsPlainVariant v
    → (s : DeadCodeEliminator) → reconstruct_variant v s ≡ some (v, mark (variant_vars v) s)
unfolding reconstruct_variant IsPlainVariant variant_vars
reconstruct_variant-IsPlain (AssertVariant.assert e) h s =
    bind (reconstruct_expression e) _ (reconstruct_expression-IsPlain e h s) refl
reconstruct_variant-IsPlain (AssertVariant.assert_eq left right) h s =
    both_plain AssertVariant.assert_eq left right h.0 h.1 s
reconstruct_variant-IsPlain (AssertVariant.assert_neq left right) h s =
    both_plain AssertVariant.assert_neq left right h.0 h.1 s

pub variant_lem :
    (v : AssertVariant)
    → IsPlainVariant v
    → (b : NodeBuilder) (used : List ℕ) (n : Bool)
    → necessarily (reconstruct_variant v) (state b used n)
      ≡ some (v, state b (inserted (variant_vars v) used) false)
variant_lem v h b used n =
    necessarily_lem (reconstruct_variant v) v (variant_vars v) b used n
      (reconstruct_variant-IsPlain v h (state b used true))

finalize_arguments-ArePlain :
    (arguments : MaybeExpressions)
    → ArePlain (finalize_list arguments)
    → (s : DeadCodeEliminator)
    → reconstruct_finalize_arguments arguments s
      ≡ some (arguments, mark (all_vars (finalize_list arguments)) s)
unfolding reconstruct_finalize_arguments mark all_vars
finalize_arguments-ArePlain MaybeExpressions.absent h s = refl
finalize_arguments-ArePlain (MaybeExpressions.present arguments) h s =
    bind (reconstruct_expressions arguments) _ (reconstruct_expressions-ArePlain arguments h s) refl

pub values_lem :
    (e : Expression) (arguments : MaybeExpressions)
    → IsPlain e
    → ArePlain (finalize_list arguments)
    → (b : NodeBuilder) (used : List ℕ) (n : Bool)
    → necessarily (reconstruct_values e arguments) (state b used n)
      ≡ some (
        (e, arguments),
        state b (inserted (vars e ++ all_vars (finalize_list arguments)) used) false,
      )
unfolding reconstruct_values
values_lem e arguments he ha b used n =
    necessarily_lem (reconstruct_values e arguments) (e, arguments)
      (vars e ++ all_vars (finalize_list arguments)) b used n
      (bind (reconstruct_expression e) _ (reconstruct_expression-IsPlain e he (state b used true)) (
        bind (reconstruct_finalize_arguments arguments) _
          (finalize_arguments-ArePlain arguments ha (mark (vars e) (state b used true)))
          (both_marked _ (vars e) (all_vars (finalize_list arguments)) (state b used true))))
