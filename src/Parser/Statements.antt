-- ===== src/Parser/Statements.antt =====
-- compiler/parser/src/parser/statement.rs: statements. `parse_expression` and
-- `parse_conditional_expression` are the parsers of the expressions within.
use aleotiktacto.Prelude.{
  ℕ, Bool, true, false, not, Option, none, some, List, [], ◌∷◌, ◌==◌, if◌then◌else◌,
}
use aleotiktacto.Ast.{
  Span, NodeInfo, Identifier, Ty, BinaryOperation, Expression, AssertVariant, DeclarationType,
  MaybeExpressions, Statement, MaybeStatement, Statements,
}
use aleotiktacto.Token.{Token}
use aleotiktacto.TypeChecker.Nodes.{span_of}
use aleotiktacto.Sym
use aleotiktacto.Parser.{
  Outcome, unreachable, unexpected_statement, console_statements_are_not_yet_supported,
  finalize_statements_are_deprecated, M, pure, fail, panics, ◌>>=◌, ◌>>◌, get_context, check, eat,
  eat_any, expect, expect_any, expect_identifier, emit_if, emit_warning, node_at, next_id, join,
}
use aleotiktacto.Parser.Lists.{parse_list, always, parse_paren_comma_list, brace}
use aleotiktacto.Parser.Types.{parse_type}
use aleotiktacto.Parser.Primary.{to_expressions}
use aleotiktacto.Parser.Places.{set_id, statement_span}

abbrev pub assign_tokens : List Token
assign_tokens =
    Token.assign ∷ Token.add_assign ∷ Token.sub_assign ∷ Token.mul_assign ∷ Token.div_assign
    ∷ Token.rem_assign ∷ Token.pow_assign ∷ Token.or_assign ∷ Token.and_assign
    ∷ Token.bit_and_assign ∷ Token.bit_or_assign ∷ Token.shr_assign ∷ Token.shl_assign
    ∷ Token.bit_xor_assign ∷ []

-- The operation of an assignment; a plain one has none.
unfoldable pub assign_op : Token → M (Option BinaryOperation)
assign_op Token.assign = pure none
assign_op Token.add_assign = pure (some BinaryOperation.add)
assign_op Token.sub_assign = pure (some BinaryOperation.sub)
assign_op Token.mul_assign = pure (some BinaryOperation.mul)
assign_op Token.div_assign = pure (some BinaryOperation.div)
assign_op Token.rem_assign = pure (some BinaryOperation.rem)
assign_op Token.pow_assign = pure (some BinaryOperation.pow)
assign_op Token.or_assign = pure (some BinaryOperation.or)
assign_op Token.and_assign = pure (some BinaryOperation.and)
assign_op Token.bit_and_assign = pure (some BinaryOperation.bitwise_and)
assign_op Token.bit_or_assign = pure (some BinaryOperation.bitwise_or)
assign_op Token.bit_xor_assign = pure (some BinaryOperation.xor)
assign_op Token.shr_assign = pure (some BinaryOperation.shr)
assign_op Token.shl_assign = pure (some BinaryOperation.shl)
assign_op _ = panics unreachable

unfoldable pub is_block_or_conditional : Statement → Bool
is_block_or_conditional (Statement.block ss info) = true
is_block_or_conditional (Statement.conditional c ss then_info next info) = true
is_block_or_conditional _ = false

-- The value of an assignment with an operator, whose left operand is the place with a number of its
-- own.
unfoldable pub assigned : Option BinaryOperation → Expression → Expression → Span → M Expression
assigned none left value span = pure value
assigned (some op) left value span =
    node_at span >>= λ info. pure (Expression.binary left value op info)

-- A call of `increment` or `decrement`.
unfoldable pub is_deprecated : Expression → Option ℕ
is_deprecated (Expression.call (Expression.identifier i) args external info) =
    if i.name == Sym.decrement
    then some Sym.decrement
    else if i.name == Sym.increment
    then some Sym.increment
    else none
is_deprecated _ = none

unfoldable pub warn : Option ℕ → Span → M (Unit {0})
warn none span = pure tt
warn (some symbol) span = emit_warning symbol span

abbrev pub to_statements : List Statement → Statements
to_statements [] = Statements.nil
to_statements (s ∷ ss) = Statements.cons s (to_statements ss)

-- A block: its statements and its node.
abbrev pub ParsedBlock : Type 0
ParsedBlock = Statements × NodeInfo

unfoldable pub set_disallow : Bool → M (Unit {0})
set_disallow b c = Outcome.ok tt (record c { disallow = b })

-- `p` with no struct expressions, behind which they are allowed.
unfoldable pub without_structs : {A : Type 0} → M A → M A
without_structs p = do set_disallow true; a ← p; set_disallow false; pure a

module _ (fuel : ℕ) (parse_expression : M Expression) where
  unfoldable pub two_expressions : M (Expression × Expression)
  two_expressions = do
    left ← parse_expression
    expect Token.comma
    right ← parse_expression
    pure (left, right)

  unfoldable pub assert_variant : Bool → Bool → Bool → M AssertVariant
  assert_variant true false false = parse_expression >>= λ e. pure (AssertVariant.assert e)
  assert_variant false true false = two_expressions >>= λ p. pure (AssertVariant.assert_eq p.0 p.1)
  assert_variant false false true = two_expressions >>= λ p. pure (AssertVariant.assert_neq p.0 p.1)
  assert_variant _ _ _ = panics unreachable

  unfoldable pub parse_assert_statement : M Statement
  parse_assert_statement c =
      (do
        span ← expect_any (Token.assert ∷ Token.assert_eq ∷ Token.assert_neq ∷ [])
        expect Token.left_paren
        variant ←
            assert_variant (check Token.assert c) (check Token.assert_eq c)
              (check Token.assert_neq c)
        expect Token.right_paren
        expect Token.semicolon
        info ← node_at span
        pure (Statement.assert variant info))
        c

  unfoldable pub assignment : Expression → Option BinaryOperation → M Statement
  assignment place operation = do
    value ← parse_expression
    expect Token.semicolon
    id ← next_id
    value' ← assigned operation (set_id id place) value (join (span_of place) (span_of value))
    info ← node_at (join (span_of place) (span_of value))
    pure (Statement.assign place value' info)

  unfoldable pub assign_or_expression : Expression → Bool → M Statement
  assign_or_expression place true c = (assign_op c.prev_token.token >>= assignment place) c
  assign_or_expression place false c =
      (do
        warn (is_deprecated place) (span_of place)
        end ← expect Token.semicolon
        info ← node_at (join (span_of place) end)
        pure (Statement.expression place info))
        c

  unfoldable pub parse_assign_statement : M Statement
  parse_assign_statement = do
    place ← parse_expression
    b ← eat_any assign_tokens
    assign_or_expression place b

  -- The value of a return statement whose next token is `t`.
  unfoldable pub returned : Token → M Expression
  returned Token.semicolon c = (node_at c.token.span >>= λ info. pure (Expression.unit info)) c
  returned Token.then_ c = (node_at c.token.span >>= λ info. pure (Expression.unit info)) c
  returned _ c = parse_expression c

  unfoldable pub finalize_arguments : Token → M MaybeExpressions
  finalize_arguments Token.semicolon = pure (MaybeExpressions.present (to_expressions []))
  finalize_arguments Token.left_paren = do
    p ← parse_paren_comma_list fuel parse_expression
    pure (MaybeExpressions.present (to_expressions p.list))
  finalize_arguments _ = do
    e ← parse_expression
    pure (MaybeExpressions.present (to_expressions (e ∷ [])))

  unfoldable pub finalized : Token → M MaybeExpressions
  finalized Token.then_ = do
    expect Token.then_
    expect Token.finalize
    c ← get_context
    finalize_arguments c.token.token
  finalized _ = pure MaybeExpressions.absent

  unfoldable pub parse_return_statement : M Statement
  parse_return_statement = do
    start ← expect Token.return
    c ← get_context
    expression ← returned c.token.token
    c' ← get_context
    args ← finalized c'.token.token
    end ← expect Token.semicolon
    info ← node_at (join start end)
    pure (Statement.return expression args info)

  -- `IDENT: TYPE`, of file.rs.
  unfoldable pub parse_typed_ident : M (Identifier × Ty)
  parse_typed_ident = do
    name ← expect_identifier
    expect Token.colon
    t ← parse_type fuel
    pure (name, t.0)

  unfoldable pub parse_const_declaration_statement : M Statement
  parse_const_declaration_statement = do
    span ← expect Token.const
    p ← parse_typed_ident
    expect Token.assign
    value ← parse_expression
    expect Token.semicolon
    info ← node_at (join span (span_of value))
    pure (Statement.const p.0 p.1 value info)

  unfoldable pub parse_definition_statement : M Statement
  parse_definition_statement = do
    span ← expect Token.let_
    place ← parse_expression
    expect Token.colon
    t ← parse_type fuel
    expect Token.assign
    value ← parse_expression
    expect Token.semicolon
    info ← node_at (join span (span_of value))
    pure (Statement.definition DeclarationType.let_ place t.0 value info)

module _ (fuel : ℕ) (parse_statement : M Statement) where
  unfoldable pub parse_block : M ParsedBlock
  parse_block = do
    p ← parse_list fuel brace none (always parse_statement)
    info ← node_at p.span
    pure (to_statements p.list, info)

  -- What stands behind `else`, with its span.
  unfoldable pub else_if : Bool → Span → M (MaybeStatement × Span)
  else_if false span = pure (MaybeStatement.absent, span)
  else_if true span = do
    s ← parse_statement
    emit_if (not (is_block_or_conditional s)) (unexpected_statement s (statement_span s))
    pure (MaybeStatement.present s, statement_span s)

module _ (fuel : ℕ) (parse_expression parse_conditional_expression : M Expression)
    (parse_statement : M Statement) where
  unfoldable pub parse_conditional_statement : M Statement
  parse_conditional_statement = do
    start ← expect Token.if_
    expr ← without_structs parse_conditional_expression
    body ← parse_block fuel parse_statement
    b ← eat Token.else_
    next ← else_if fuel parse_statement b body.1.span
    info ← node_at (join start next.1)
    pure (Statement.conditional expr body.0 body.1 next.0 info)

  unfoldable pub parse_loop_statement : M Statement
  parse_loop_statement = do
    start_span ← expect Token.for
    ident ← expect_identifier
    expect Token.colon
    t ← parse_type fuel
    expect Token.in_
    start ← parse_expression
    expect Token.dot_dot
    stop ← without_structs parse_conditional_expression
    block ← parse_block fuel parse_statement
    info ← node_at (join start_span block.1.span)
    pure (Statement.iteration ident t.0 start stop false block.0 block.1 info)

  -- The statement that begins with a token.
  unfoldable pub statement_at : Token → M Statement
  statement_at Token.return = parse_return_statement fuel parse_expression
  statement_at Token.if_ = parse_conditional_statement
  statement_at Token.for = parse_loop_statement
  statement_at Token.assert = parse_assert_statement fuel parse_expression
  statement_at Token.assert_eq = parse_assert_statement fuel parse_expression
  statement_at Token.assert_neq = parse_assert_statement fuel parse_expression
  statement_at Token.let_ = parse_definition_statement fuel parse_expression
  statement_at Token.const = parse_const_declaration_statement fuel parse_expression
  statement_at Token.left_curly =
      parse_block fuel parse_statement >>= λ b. pure (Statement.block b.0 b.1)
  statement_at Token.console =
      get_context >>= λ c. fail (console_statements_are_not_yet_supported c.token.span)
  statement_at Token.finalize =
      get_context >>= λ c. fail (finalize_statements_are_deprecated c.token.span)
  statement_at _ = parse_assign_statement fuel parse_expression
