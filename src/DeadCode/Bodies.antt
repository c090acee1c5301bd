-- ===== src/DeadCode/Bodies.antt =====
-- The statements, blocks and functions of compiler/passes/src/dead_code_elimination:
-- eliminate_statement.rs and eliminate_program.rs.
use aleotiktacto.Prelude.{ℕ, Bool, true, false, Option, none, some, List, [], if◌then◌else◌}
use aleotiktacto.IndexSet.{contains}
use aleotiktacto.Ast.{
  NodeInfo, default_span, Expression, AccessExpression, Expressions, AssertVariant, Statement,
  Statements, MaybeExpressions, Block, dummy, next_id,
}
use aleotiktacto.DeadCode.{
  M, pure, ◌>>=◌, ◌>>◌, unreachable, set_necessary, reconstruct_expression, reconstruct_expressions,
}

-- `is_necessary` set before the traversal of an expression and unset behind it.
unfoldable pub necessarily : {A : Type 0} → M A → M A
necessarily m = do set_necessary true; a ← m; set_necessary false; pure a

unfoldable pub reconstruct_variant : AssertVariant → M AssertVariant
reconstruct_variant (AssertVariant.assert e) = do
  e' ← reconstruct_expression e
  pure (AssertVariant.assert e')
reconstruct_variant (AssertVariant.assert_eq left right) = do
  left' ← reconstruct_expression left
  right' ← reconstruct_expression right
  pure (AssertVariant.assert_eq left' right')
reconstruct_variant (AssertVariant.assert_neq left right) = do
  left' ← reconstruct_expression left
  right' ← reconstruct_expression right
  pure (AssertVariant.assert_neq left' right')

unfoldable pub reconstruct_assert : AssertVariant → NodeInfo → M Statement
reconstruct_assert variant info = do
  variant' ← necessarily (reconstruct_variant variant)
  pure (Statement.assert variant' info)

-- `elements.iter().map(..).any(..)`, which stops at the first used symbol; `none` is the
-- `unreachable!` of an element that is no identifier.
unfoldable pub any_used : List ℕ → Expressions → Option Bool
any_used used Expressions.nil = some false
any_used used (Expressions.cons (Expression.identifier x) es) =
    if contains used x.name then some true else any_used used es
any_used used (Expressions.cons _ es) = none

unfoldable pub lhs_is_used : List ℕ → Expression → Option Bool
lhs_is_used used (Expression.identifier x) = some (contains used x.name)
lhs_is_used used (Expression.tuple elements info) = any_used used elements
lhs_is_used used _ = none

-- `Statement::dummy(Default::default(), self.node_builder.next_id())`
unfoldable pub eliminate : M Statement
eliminate s =
    let taken = next_id s.node_builder in
    some (dummy default_span taken.0, record s { node_builder = taken.1 })

unfoldable pub finish_assign : Bool → Expression → Expression → NodeInfo → M Statement
finish_assign true place value info = do
  value' ← necessarily (reconstruct_expression value)
  pure (Statement.assign place value' info)
finish_assign false place value info = eliminate

unfoldable pub reconstruct_assign : Expression → Expression → NodeInfo → M Statement
reconstruct_assign place value info s = elim (lhs_is_used s.used_variables place) [
  | none ↦ none
  | some used ↦ finish_assign used place value info s
]

unfoldable pub reconstruct_expression_statement : Expression → NodeInfo → M Statement
reconstruct_expression_statement (Expression.call function arguments external i) info = do
  e ← necessarily (reconstruct_expression (Expression.call function arguments external i))
  pure (Statement.expression e info)
reconstruct_expression_statement
      (Expression.access (AccessExpression.associated_function ty name arguments i)) info =
    do
      e ←
          reconstruct_expression
            (Expression.access (AccessExpression.associated_function ty name arguments i))
      pure (Statement.expression e info)
reconstruct_expression_statement _ info = eliminate

unfoldable pub reconstruct_finalize_arguments : MaybeExpressions → M MaybeExpressions
reconstruct_finalize_arguments MaybeExpressions.absent = pure MaybeExpressions.absent
reconstruct_finalize_arguments (MaybeExpressions.present arguments) = do
  arguments' ← reconstruct_expressions arguments
  pure (MaybeExpressions.present arguments')

unfoldable pub reconstruct_values :
    Expression → MaybeExpressions → M (Expression × MaybeExpressions)
reconstruct_values expression finalize_arguments = do
  expression' ← reconstruct_expression expression
  finalize_arguments' ← reconstruct_finalize_arguments finalize_arguments
  pure (expression', finalize_arguments')

unfoldable pub reconstruct_return : Expression → MaybeExpressions → NodeInfo → M Statement
reconstruct_return expression finalize_arguments info = do
  values ← necessarily (reconstruct_values expression finalize_arguments)
  pure (Statement.return values.0 values.1 info)

unfoldable mutual
  pub reconstruct_statement : Statement → M Statement
  reconstruct_statement (Statement.assert variant info) = reconstruct_assert variant info
  reconstruct_statement (Statement.assign place value info) = reconstruct_assign place value info
  reconstruct_statement (Statement.block statements info) = do
    statements' ← reconstruct_statements statements
    pure (Statement.block statements' info)
  reconstruct_statement (Statement.conditional condition then_ then_info otherwise info) =
      unreachable
  reconstruct_statement (Statement.console variant info) = unreachable
  reconstruct_statement (Statement.const place type_ value info) = do
    value' ← reconstruct_expression value
    pure (Statement.const place type_ value' info)
  reconstruct_statement (Statement.definition declaration_type place type_ value info) = unreachable
  reconstruct_statement (Statement.expression e info) = reconstruct_expression_statement e info
  reconstruct_statement
        (Statement.iteration variable type_ start stop inclusive statements block_info info) =
      unreachable
  reconstruct_statement (Statement.return expression finalize_arguments info) =
      reconstruct_return expression finalize_arguments info

  -- The statements of a block, the last one first.
  pub reconstruct_statements : Statements → M Statements
  reconstruct_statements Statements.nil = pure Statements.nil
  reconstruct_statements (Statements.cons statement rest) = do
    rest' ← reconstruct_statements rest
    statement' ← reconstruct_statement statement
    pure (Statements.cons statement' rest')

unfoldable pub reconstruct_block : Block → M Block
reconstruct_block block = do
  statements ← reconstruct_statements block.statements
  pure (record { statements = statements; info = block.info })

-- A function and its finalize block; `header` stands for the fields that the pass keeps.
pub record Finalize (H : Type 0) : Type 0 where
  pub header : H
  pub block : Block

pub record Function (H F : Type 0) : Type 0 where
  pub header : H
  pub block : Block
  pub finalize : Option (Finalize F)

-- `self.used_variables.clear(); self.is_necessary = false;`
unfoldable pub reset : M (Unit {0})
reset s =
    some (tt, record { node_builder = s.node_builder; used_variables = []; is_necessary = false })

unfoldable pub reconstruct_finalize : {F : Type 0} → Option (Finalize F) → M (Option (Finalize F))
reconstruct_finalize none = pure none
reconstruct_finalize (some finalize) = do
  reset
  block ← reconstruct_block finalize.block
  pure (some (record { header = finalize.header; block = block }))

unfoldable pub reconstruct_function : {H F : Type 0} → Function H F → M (Function H F)
reconstruct_function input = do
  reset
  block ← reconstruct_block input.block
  finalize ← reconstruct_finalize input.finalize
  pure (record { header = input.header; block = block; finalize = finalize })
