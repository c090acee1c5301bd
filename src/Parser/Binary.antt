-- ===== src/Parser/Binary.antt =====
-- compiler/parser/src/parser/expression.rs: the binary operators, from the loosest to the tightest.
-- Each method takes the parser of its operands.
use aleotiktacto.Prelude.{ℕ, zero, suc, Bool, true, false, Option, none, some, List, [], ◌∷◌}
use aleotiktacto.Ast.{BinaryOperation, Expression}
use aleotiktacto.Token.{Token}
use aleotiktacto.TypeChecker.Nodes.{span_of}
use aleotiktacto.Parser.{out_of_fuel, M, pure, panics, ◌>>=◌, eat_any, node_at, join, unreachable}

unfoldable pub bin_expr : Expression → Expression → BinaryOperation → M Expression
bin_expr left right op = do
  info ← node_at (join (span_of left) (span_of right))
  pure (Expression.binary left right op info)

unfoldable pub bin_op : Token → Option BinaryOperation
bin_op Token.eq = some BinaryOperation.eq
bin_op Token.not_eq = some BinaryOperation.neq
bin_op Token.lt = some BinaryOperation.lt
bin_op Token.lt_eq = some BinaryOperation.lte
bin_op Token.gt = some BinaryOperation.gt
bin_op Token.gt_eq = some BinaryOperation.gte
bin_op Token.add = some BinaryOperation.add
bin_op Token.sub = some BinaryOperation.sub
bin_op Token.mul = some BinaryOperation.mul
bin_op Token.div = some BinaryOperation.div
bin_op Token.rem = some BinaryOperation.rem
bin_op Token.or = some BinaryOperation.or
bin_op Token.and = some BinaryOperation.and
bin_op Token.bit_or = some BinaryOperation.bitwise_or
bin_op Token.bit_and = some BinaryOperation.bitwise_and
bin_op Token.pow = some BinaryOperation.pow
bin_op Token.shl = some BinaryOperation.shl
bin_op Token.shr = some BinaryOperation.shr
bin_op Token.bit_xor = some BinaryOperation.xor
bin_op _ = none

unfoldable pub known_op : Option BinaryOperation → M (Option BinaryOperation)
known_op none = panics unreachable
known_op (some op) = pure (some op)

unfoldable pub eaten_op : Bool → M (Option BinaryOperation)
eaten_op false c = pure none c
eaten_op true c = known_op (bin_op c.prev_token.token) c

unfoldable pub eat_bin_op : List Token → M (Option BinaryOperation)
eat_bin_op tokens = eat_any tokens >>= eaten_op

-- One round of the loop of `parse_bin_expr` with the expression so far; `again` is the loop behind
-- it.
unfoldable pub bin_round :
    M Expression → (Expression → M Expression) → Expression → Option BinaryOperation → M Expression
bin_round f again expr none = pure expr
bin_round f again expr (some op) = do right ← f; e ← bin_expr expr right op; again e

unfoldable pub bin_loop : ℕ → List Token → M Expression → Expression → M Expression
bin_loop zero tokens f expr c = out_of_fuel
bin_loop (suc fuel) tokens f expr c =
    (eat_bin_op tokens >>= bin_round f (bin_loop fuel tokens f) expr) c

unfoldable pub parse_bin_expr : ℕ → List Token → M Expression → M Expression
parse_bin_expr fuel tokens f = f >>= bin_loop fuel tokens f

-- A comparison: at most one operator.
unfoldable pub compared : M Expression → Expression → Option BinaryOperation → M Expression
compared f expr none = pure expr
compared f expr (some op) = do right ← f; bin_expr expr right op

unfoldable pub parse_comparison : List Token → M Expression → M Expression
parse_comparison tokens f = do expr ← f; op ← eat_bin_op tokens; compared f expr op

module _ (fuel : ℕ) (parse_cast_expression : M Expression) where
  unfoldable pub parse_exponential_expression : M Expression
  parse_exponential_expression = parse_bin_expr fuel (Token.pow ∷ []) parse_cast_expression

  unfoldable pub parse_multiplicative_expression : M Expression
  parse_multiplicative_expression =
      parse_bin_expr fuel (Token.mul ∷ Token.div ∷ Token.rem ∷ []) parse_exponential_expression

  unfoldable pub parse_additive_expression : M Expression
  parse_additive_expression =
      parse_bin_expr fuel (Token.add ∷ Token.sub ∷ []) parse_multiplicative_expression

  unfoldable pub parse_shift_expression : M Expression
  parse_shift_expression =
      parse_bin_expr fuel (Token.shl ∷ Token.shr ∷ []) parse_additive_expression

  unfoldable pub parse_bitwise_and_expression : M Expression
  parse_bitwise_and_expression = parse_bin_expr fuel (Token.bit_and ∷ []) parse_shift_expression

  unfoldable pub parse_bitwise_inclusive_or_expression : M Expression
  parse_bitwise_inclusive_or_expression =
      parse_bin_expr fuel (Token.bit_or ∷ []) parse_bitwise_and_expression

  unfoldable pub parse_bitwise_exclusive_or_expression : M Expression
  parse_bitwise_exclusive_or_expression =
      parse_bin_expr fuel (Token.bit_xor ∷ []) parse_bitwise_inclusive_or_expression

  unfoldable pub parse_ordering_expression : M Expression
  parse_ordering_expression =
      parse_comparison (Token.lt ∷ Token.lt_eq ∷ Token.gt ∷ Token.gt_eq ∷ [])
        parse_bitwise_exclusive_or_expression

  unfoldable pub parse_equality_expression : M Expression
  parse_equality_expression =
      parse_comparison (Token.eq ∷ Token.not_eq ∷ []) parse_ordering_expression

  unfoldable pub parse_boolean_and_expression : M Expression
  parse_boolean_and_expression = parse_bin_expr fuel (Token.and ∷ []) parse_equality_expression

  unfoldable pub parse_boolean_or_expression : M Expression
  parse_boolean_or_expression = parse_bin_expr fuel (Token.or ∷ []) parse_boolean_and_expression
