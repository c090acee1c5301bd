-- ===== src/Parser/Postfix.antt =====
-- compiler/parser/src/parser/expression.rs: what follows a primary expression.
use aleotiktacto.Prelude.{ℕ, zero, suc, Bool, true, false, ◌||◌, not, codes, if◌then◌else◌}
use aleotiktacto.Ast.{Identifier, Ty, Expression, AccessExpression, MaybeExpression}
use aleotiktacto.Token.{Token}
use aleotiktacto.TypeChecker.Nodes.{span_of}
use aleotiktacto.Parser.{
  ParserContext, Shown, out_of_fuel, M, pure, fail, ◌>>=◌, ◌>>◌, check, is_integer, eat, expect,
  emit_if, node_at, join, expect_identifier, invalid_associated_access, unexpected,
}
use aleotiktacto.Parser.Numbers.{eat_whole_number}
use aleotiktacto.Parser.Lists.{Parsed, parse_paren_comma_list}
use aleotiktacto.Parser.Primary.{to_expressions}
use aleotiktacto.Parser.Methods.{method_call}

abbrev pub is_identifier : Expression → Bool
is_identifier (Expression.identifier i) = true
is_identifier _ = false

module _ (fuel : ℕ) (parse_expression : M Expression) where
  -- The arguments of a call, with their span.
  unfoldable pub arguments : M (Parsed Expression)
  arguments = parse_paren_comma_list fuel parse_expression

  unfoldable pub parse_method_call_expression : Expression → Identifier → M Expression
  parse_method_call_expression receiver method = do
    p ← arguments
    method_call p.list (record {
      receiver = receiver;
      method = method;
      args = p.list;
      span = join (span_of receiver) p.span;
    })

  unfoldable pub associated_function : Expression → Identifier → Identifier → M Expression
  associated_function module_name ident member_name = do
    p ← arguments
    info ← node_at (join (span_of module_name) p.span)
    pure (
        Expression.access (
          AccessExpression.associated_function (Ty.identifier ident) member_name
            (to_expressions p.list) info))

  unfoldable pub associated_member : Expression → Identifier → Identifier → M Expression
  associated_member module_name ident member_name c =
      if check Token.left_paren c
      then associated_function module_name ident member_name c
      else (node_at (join (span_of module_name) member_name.info.span) >>= λ info. pure (
            Expression.access
              (AccessExpression.associated_constant (Ty.identifier ident) member_name info)))
          c

  unfoldable pub parse_associated_access_expression : Expression → M Expression
  parse_associated_access_expression (Expression.identifier ident) =
      expect_identifier >>= associated_member (Expression.identifier ident) ident
  parse_associated_access_expression module_name =
      fail (invalid_associated_access module_name (span_of module_name))

  -- `expr` is the expression so far. Behind a dot and a number:
  unfoldable pub tuple_access : Expression → M Expression
  tuple_access expr = do
    index ← eat_whole_number
    info ← node_at index.1
    pure (Expression.access (AccessExpression.tuple_access expr index.0 info))

  -- Behind a dot and `leo`: a call of another program's function.
  unfoldable pub external_call : Expression → M Expression
  external_call expr = do
    eat Token.div
    name ← expect_identifier
    p ← arguments
    info ← node_at (join (span_of expr) p.span)
    pure (
        Expression.call (Expression.identifier name) (to_expressions p.list)
          (MaybeExpression.present expr) info)

  unfoldable pub method_or_member : Expression → Identifier → M Expression
  method_or_member expr name c =
      if check Token.left_paren c
      then parse_method_call_expression expr name c
      else (node_at (join (span_of expr) name.info.span) >>= λ info.
            pure (Expression.access (AccessExpression.member_access expr name info)))
          c

  unfoldable pub leo_or_name : Bool → Expression → M Expression
  leo_or_name true expr = external_call expr
  leo_or_name false expr = expect_identifier >>= method_or_member expr

  unfoldable pub after_dot : Expression → M Expression
  after_dot expr c =
      if is_integer c.token.token
      then tuple_access expr c
      else (eat Token.leo >>= λ b. leo_or_name b expr) c

  unfoldable pub array_access : Expression → M Expression
  array_access expr = do
    index ← parse_expression
    span ← expect Token.right_square
    info ← node_at (join (span_of expr) span)
    pure (Expression.access (AccessExpression.array_access expr index info))

  unfoldable pub call : Expression → M Expression
  call expr = do
    emit_if (not (is_identifier expr))
        (unexpected (Shown.expression expr) (Shown.text (codes "an identifier")) (span_of expr))
    p ← arguments
    info ← node_at (join (span_of expr) p.span)
    pure (Expression.call expr (to_expressions p.list) MaybeExpression.absent info)

  -- The branches of the loop's body, in order.
  unfoldable pub call_or_done : Expression → M Expression
  call_or_done expr c = if check Token.left_paren c then call expr c else pure expr c

  unfoldable pub square_or : Bool → Expression → M Expression
  square_or true expr = array_access expr
  square_or false expr = call_or_done expr

  unfoldable pub colons_or : Bool → Expression → M Expression
  colons_or true expr = parse_associated_access_expression expr
  colons_or false expr = eat Token.left_square >>= λ b. square_or b expr

  unfoldable pub dot_or : Bool → Expression → M Expression
  dot_or true expr = after_dot expr
  dot_or false expr = eat Token.double_colon >>= λ b. colons_or b expr

  unfoldable pub postfix_step : Expression → M Expression
  postfix_step expr = eat Token.dot >>= λ b. dot_or b expr

-- Whether the loop goes on.
unfoldable pub goes_on : ParserContext → Bool
goes_on c = check Token.dot c || check Token.left_square c

unfoldable pub loop_if : (Expression → M Expression) → Expression → M Expression
loop_if again expr c = if goes_on c then again expr c else pure expr c

unfoldable pub postfix_loop : ℕ → (Expression → M Expression) → Expression → M Expression
postfix_loop zero step expr c = out_of_fuel
postfix_loop (suc fuel) step expr c = (step expr >>= loop_if (postfix_loop fuel step)) c

unfoldable pub parse_postfix_expression : ℕ → M Expression → M Expression → M Expression
parse_postfix_expression fuel parse_expression parse_primary_expression =
    parse_primary_expression >>= postfix_loop fuel (postfix_step fuel parse_expression)
