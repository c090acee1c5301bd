-- ===== src/Parser/Expressions.antt =====
-- compiler/parser/src/parser/expression.rs: unary, cast and ternary expressions, and expressions as
-- a whole. The fuel bounds the nesting of expressions and each loop.
use aleotiktacto.Prelude.{ℕ, zero, suc, Bool, true, false, List, [], ◌∷◌}
use aleotiktacto.Ast.{Span, NodeInfo, UnaryOperation, GroupLiteral, Literal, Expression}
use aleotiktacto.Token.{Token}
use aleotiktacto.TypeChecker.Nodes.{span_of}
use aleotiktacto.Parser.{
  Outcome, ok, err, panic, out_of_fuel, M, pure, panics, ◌>>=◌, ◌>>◌, eat, eat_any, expect, node_at,
  join, unreachable,
}
use aleotiktacto.Parser.Types.{parse_primitive_type}
use aleotiktacto.Parser.Binary.{parse_boolean_or_expression}
use aleotiktacto.Parser.Primary.{parse_primary_expression}
use aleotiktacto.Parser.Postfix.{parse_postfix_expression}

-- The operators with their spans, the last one first.
abbrev pub UnaryOps : Type 0
UnaryOps = List (UnaryOperation × Span)

unfoldable pub unary_op : Token → M UnaryOperation
unary_op Token.not = pure UnaryOperation.not
unary_op Token.sub = pure UnaryOperation.negate
unary_op _ = panics unreachable

-- One round of the loop over the operators; `again` is the loop behind it.
unfoldable pub unary_round : (UnaryOps → M UnaryOps) → UnaryOps → Bool → M UnaryOps
unary_round again ops false c = pure ops c
unary_round again ops true c =
    (unary_op c.prev_token.token >>= λ op. again ((op, c.prev_token.span) ∷ ops)) c

unfoldable pub unary_ops : ℕ → UnaryOps → M UnaryOps
unary_ops zero ops c = out_of_fuel
unary_ops (suc fuel) ops c =
    (eat_any (Token.not ∷ Token.sub ∷ []) >>= unary_round (unary_ops fuel) ops) c

unfoldable pub from_op : Span → NodeInfo → NodeInfo
from_op op_span info = record info { span = join op_span info.span }

-- The last negation and a number are a negative number.
unfoldable pub negated : UnaryOps → Expression → UnaryOps × Expression
negated ((UnaryOperation.negate, op_span) ∷ ops) (Expression.literal (Literal.integer t s info)) =
    (ops, Expression.literal (Literal.integer t (b'-' ∷ s) (from_op op_span info)))
negated ((UnaryOperation.negate, op_span) ∷ ops) (Expression.literal (Literal.field s info)) =
    (ops, Expression.literal (Literal.field (b'-' ∷ s) (from_op op_span info)))
negated ((UnaryOperation.negate, op_span) ∷ ops)
      (Expression.literal (Literal.group (GroupLiteral.single s) info)) =
    (
      ops,
      Expression.literal (Literal.group (GroupLiteral.single (b'-' ∷ s)) (from_op op_span info)),
    )
negated ((UnaryOperation.negate, op_span) ∷ ops)
      (Expression.literal (Literal.group (GroupLiteral.affine x y) info)) =
    (ops, Expression.literal (Literal.group (GroupLiteral.affine x y) info))
negated ((UnaryOperation.negate, op_span) ∷ ops) (Expression.literal (Literal.scalar s info)) =
    (ops, Expression.literal (Literal.scalar (b'-' ∷ s) (from_op op_span info)))
negated ops inner = (ops, inner)

-- The operations in reverse order.
unfoldable pub apply_ops : UnaryOps → Expression → M Expression
apply_ops [] inner = pure inner
apply_ops ((op, op_span) ∷ ops) inner = do
  info ← node_at (join op_span (span_of inner))
  apply_ops ops (Expression.unary inner op info)

unfoldable pub parse_unary_expression : ℕ → M Expression → M Expression
parse_unary_expression fuel parse_postfix = do
  ops ← unary_ops fuel []
  inner ← parse_postfix
  apply_ops (negated ops inner).0 (negated ops inner).1

unfoldable pub cast_if : Expression → Bool → M Expression
cast_if expr false = pure expr
cast_if expr true = do
  t ← parse_primitive_type
  info ← node_at (join (span_of expr) t.1)
  pure (Expression.cast expr t.0 info)

unfoldable pub parse_cast_expression : M Expression → M Expression
parse_cast_expression parse_unary = do expr ← parse_unary; b ← eat Token.as_; cast_if expr b

unfoldable pub ternary_if : M Expression → Expression → Bool → M Expression
ternary_if parse_expression expr false = pure expr
ternary_if parse_expression expr true = do
  if_true ← parse_expression
  expect Token.colon
  if_false ← parse_expression
  info ← node_at (join (span_of expr) (span_of if_false))
  pure (Expression.ternary expr if_true if_false info)

-- The result with the flag as it was before.
unfoldable pub restore : Bool → Outcome Expression → Outcome Expression
restore prior (ok e c) = ok e (record c { disallow = prior })
restore prior (err e c) = err e (record c { disallow = prior })
restore prior (panic p) = panic p
restore prior out_of_fuel = out_of_fuel

module _ (is_address : List ℕ → Bool) where
  -- An operand of the binary operators; `parse_expression` is the parser of the expressions within.
  unfoldable pub operand : ℕ → M Expression → M Expression
  operand fuel parse_expression = parse_cast_expression (
      parse_unary_expression fuel (
        parse_postfix_expression fuel parse_expression
          (parse_primary_expression is_address fuel parse_expression)))

  unfoldable pub conditional : ℕ → M Expression → M Expression
  conditional fuel parse_expression = do
    expr ← parse_boolean_or_expression fuel (operand fuel parse_expression)
    b ← eat Token.question
    ternary_if parse_expression expr b

  unfoldable pub parse_expression : ℕ → M Expression
  parse_expression zero c = out_of_fuel
  parse_expression (suc fuel) c =
      restore c.disallow
        (conditional (suc fuel) (parse_expression fuel) (record c { disallow = false }))

  unfoldable pub parse_conditional_expression : ℕ → M Expression
  parse_conditional_expression zero c = out_of_fuel
  parse_conditional_expression (suc fuel) c = conditional (suc fuel) (parse_expression fuel) c
