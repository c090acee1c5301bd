-- ===== src/Parser/Primary.antt =====
-- compiler/parser/src/parser/expression.rs: primary expressions. `parse_expression` is the parser of
-- the expressions within, and `is_address` is `str::parse::<Address<Testnet3>>` of snarkVM.
use aleotiktacto.Prelude.{
  ℕ, Bool, true, false, ◌&&◌, not, Option, none, some, List, [], ◌∷◌, codes, if◌then◌else◌,
}
use aleotiktacto.Ast.{
  Span, Identifier, GroupLiteral, Literal, Expression, Expressions, MaybeExpression, Members,
  default_span,
}
use aleotiktacto.Token.{Token, token_eq, any_eq, display, keyword_to_symbol}
use aleotiktacto.TypeChecker.Nodes.{span_of}
use aleotiktacto.Sym
use aleotiktacto.Parser.{
  M, pure, fail, panics, ◌>>=◌, ◌>>◌, check, bump, eat, eat_any, emit_if, node_at, next_id, join,
  intern, as_str, expect_identifier, unexpected_str, unreachable,
  tuple_must_have_at_least_two_elements, array_must_have_at_least_one_element, invalid_address_lit,
  implicit_values_not_allowed,
}
use aleotiktacto.Parser.Lists.{
  parse_list, always, parse_paren_comma_list, parse_bracket_comma_list, brace,
}
use aleotiktacto.Parser.Types.{type_tokens, token_to_int_type, integer_type}
use aleotiktacto.Parser.Groups.{eat_group_partial, assert_no_whitespace}

abbrev pub int_types : List Token
int_types =
    Token.i8 ∷ Token.i16 ∷ Token.i32 ∷ Token.i64 ∷ Token.i128 ∷ Token.u8 ∷ Token.u16 ∷ Token.u32
    ∷ Token.u64 ∷ Token.u128 ∷ Token.field ∷ Token.group ∷ Token.scalar ∷ []

abbrev pub to_expressions : List Expression → Expressions
to_expressions [] = Expressions.nil
to_expressions (e ∷ es) = Expressions.cons e (to_expressions es)

-- What the list of a tuple expression stands for.
unfoldable pub tuple_expression : List Expression → Bool → Span → M Expression
tuple_expression [] trailing span = node_at span >>= λ info. pure (Expression.unit info)
tuple_expression (e ∷ []) trailing span =
    if trailing
    then fail (tuple_must_have_at_least_two_elements (codes "expression") span)
    else pure e
tuple_expression (d ∷ e ∷ es) trailing span =
    node_at span >>= λ info. pure (Expression.tuple (to_expressions (d ∷ e ∷ es)) info)

unfoldable pub array_expression : List Expression → Span → M Expression
array_expression [] span = fail (array_must_have_at_least_one_element (codes "expression") span)
array_expression (e ∷ es) span =
    node_at span >>= λ info. pure (Expression.array (to_expressions (e ∷ es)) info)

-- The literal of a number with the suffix that was eaten.
unfoldable pub suffixed : Token → List ℕ → Span → Span → M Expression
suffixed Token.field value span suffix_span = do
  assert_no_whitespace span suffix_span value (codes "field")
  info ← node_at (join span suffix_span)
  pure (Expression.literal (Literal.field value info))
suffixed Token.group value span suffix_span = do
  assert_no_whitespace span suffix_span value (codes "group")
  info ← node_at (join span suffix_span)
  pure (Expression.literal (Literal.group (GroupLiteral.single value) info))
suffixed Token.scalar value span suffix_span = do
  assert_no_whitespace span suffix_span value (codes "scalar")
  info ← node_at (join span suffix_span)
  pure (Expression.literal (Literal.scalar value info))
suffixed suffix value span suffix_span = do
  assert_no_whitespace span suffix_span value (display suffix)
  int_ty ← integer_type (token_to_int_type suffix)
  info ← node_at (join span suffix_span)
  pure (Expression.literal (Literal.integer int_ty value info))

-- A number; `suffix_span` is the span of the token behind it.
unfoldable pub suffixed_if : Bool → List ℕ → Span → Span → M Expression
suffixed_if true value span suffix_span c = suffixed c.prev_token.token value span suffix_span c
suffixed_if false value span suffix_span c = fail (implicit_values_not_allowed value span) c

unfoldable pub number_literal : List ℕ → Span → M Expression
number_literal value span c = (eat_any int_types >>= λ b. suffixed_if b value span c.token.span) c

-- An identifier expression.
unfoldable pub named : ℕ → Span → M Expression
named name span =
    node_at span >>= λ info. pure (Expression.identifier (record { name = name; info = info }))

-- The name of a type as an identifier.
unfoldable pub type_name : Option (List ℕ) → Span → M Expression
type_name none span = panics unreachable
type_name (some s) span = intern s >>= λ name. named name span

-- The name of a member; a `_` was eaten in front of it in the first case.
unfoldable pub member_name : Bool → M Identifier
member_name true = do
  identifier_without_underscore ← expect_identifier
  text ← as_str identifier_without_underscore.name
  name ← intern (b'_' ∷ text)
  id ← next_id
  pure (record { name = name; info = record { span = default_span; id = id } })
member_name false = expect_identifier

unfoldable pub eat_underscore : M Bool
eat_underscore c = if c.allow_identifier_underscores then eat Token.underscore c else pure false c

abbrev to_members : List (Members → Members) → Members
to_members [] = Members.end
to_members (m ∷ ms) = m (to_members ms)

module _ (parse_expression : M Expression) where
  unfoldable pub member_value : Bool → Identifier → M (MaybeExpression × Span)
  member_value true identifier = do
    expression ← parse_expression
    pure (MaybeExpression.present expression, join identifier.info.span (span_of expression))
  member_value false identifier = pure (MaybeExpression.absent, identifier.info.span)

  -- An initializer, as the list of members that it stands in front of.
  unfoldable pub parse_struct_member : M (Members → Members)
  parse_struct_member = do
    underscore ← eat_underscore
    identifier ← member_name underscore
    colon ← eat Token.colon
    value ← member_value colon identifier
    info ← node_at value.1
    pure (Members.initializer identifier value.0 info)

module _ (is_address : List ℕ → Bool) (fuel : ℕ) (parse_expression : M Expression) where
  unfoldable pub tuple_or : Option Expression → M Expression
  tuple_or (some e) = pure e
  tuple_or none = do
    p ← parse_paren_comma_list fuel parse_expression
    tuple_expression p.list p.trailing p.span

  unfoldable pub parse_tuple_expression : M Expression
  parse_tuple_expression = eat_group_partial >>= tuple_or

  unfoldable pub parse_array_expression : M Expression
  parse_array_expression = do
    p ← parse_bracket_comma_list fuel parse_expression
    array_expression p.list p.span

  unfoldable pub parse_struct_init_expression : Identifier → M Expression
  parse_struct_init_expression identifier = do
    p ← parse_list fuel brace (some Token.comma) (always (parse_struct_member parse_expression))
    info ← node_at (join identifier.info.span p.span)
    pure (Expression.struct identifier (to_members p.list) info)

  unfoldable pub identifier_or_struct : Identifier → M Expression
  identifier_or_struct ident c =
      if not c.disallow && check Token.left_curly c
      then parse_struct_init_expression ident c
      else pure (Expression.identifier ident) c

  -- The expression of a token that was bumped, with its span.
  unfoldable pub primary : Token → Span → M Expression
  primary (Token.integer value) span = number_literal value span
  primary Token.true_ span =
      node_at span >>= λ info. pure (Expression.literal (Literal.boolean true info))
  primary Token.false_ span =
      node_at span >>= λ info. pure (Expression.literal (Literal.boolean false info))
  primary (Token.address_lit s) span = do
    emit_if (not (is_address s)) (invalid_address_lit s span)
    info ← node_at span
    pure (Expression.literal (Literal.address s info))
  primary (Token.static_string s) span =
      node_at span >>= λ info. pure (Expression.literal (Literal.string s info))
  primary (Token.identifier s) span = do
    name ← intern s
    info ← node_at span
    identifier_or_struct (record { name = name; info = info })
  primary Token.self_lower span = named Sym.self_lower span
  primary Token.block span = named Sym.block span
  primary t span =
      if any_eq type_tokens t
      then type_name (keyword_to_symbol t) span
      else fail (unexpected_str t (codes "expression") span)

  unfoldable pub parse_primary_expression : M Expression
  parse_primary_expression c =
      if token_eq c.token.token Token.left_paren
      then parse_tuple_expression c
      else if token_eq c.token.token Token.left_square
      then parse_array_expression c
      else (bump >> primary c.token.token c.token.span) c
