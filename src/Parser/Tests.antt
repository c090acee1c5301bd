-- ===== src/Parser/Tests.antt =====
-- Runs of the parser, and the theorems at concrete contexts.
use aleotiktacto.Prelude.{ℕ, ◌≡◌, refl, Bool, true, false, List, [], ◌∷◌, codes, arith}
use aleotiktacto.Ast.{
  Statement, NodeInfo, BinaryOperation, Expression, Literal, GroupLiteral, GroupCoordinate,
}
use aleotiktacto.Token.{Token, any_eq, token_eq, discriminant, payload}
use aleotiktacto.Tokenizer.{SpannedToken}
use aleotiktacto.Interner
use aleotiktacto.Parser.{ParserContext, Outcome, ok, err, panic, not_usize, M, is_eof}
use aleotiktacto.Parser.Expressions.{operand, parse_expression}
use aleotiktacto.Parser.Binary.{parse_boolean_or_expression}
use aleotiktacto.Parser.Blocks.{parse_statement}
use aleotiktacto.Parser.Total.Blocks.{parse_statement-Moves}
use aleotiktacto.Parser.Moves.{Moves}
use aleotiktacto.Parser.Total.Expressions.{parse_expression-Moves}
use aleotiktacto.Parser.Grammar.{Derives, disjunction}
use aleotiktacto.Parser.Grammar.Levels.{parse_boolean_or_expression-Derives}

abbrev any_address : List ℕ → Bool
any_address s = true

abbrev at : Token → ℕ → ℕ → SpannedToken
at t lo hi = record { token = t; span = record { lo = lo; hi = hi } }

abbrev names : List (List ℕ)
names = codes "a" ∷ codes "b" ∷ codes "c" ∷ []

-- A context in front of the tokens, with the next number of a node.
abbrev before : SpannedToken → SpannedToken → List SpannedToken → ℕ → ParserContext
before prev t ts ids = record {
  tokens = ts;
  token = t;
  prev_token = prev;
  disallow = false;
  allow_identifier_underscores = false;
  ids = ids;
  interned = names;
  errors = [];
  warnings = [];
}

abbrev end : List SpannedToken
end = at Token.semicolon 9 10 ∷ []

abbrev c_name : SpannedToken
c_name = at (Token.identifier (codes "c")) 8 9

-- a + b * c;
abbrev sum_context : ParserContext
sum_context =
    before (at Token.question 0 0) (at (Token.identifier (codes "a")) 0 1)
      (at Token.add 2 3 ∷ at (Token.identifier (codes "b")) 4 5 ∷ at Token.mul 6 7 ∷ c_name ∷ end) 0

abbrev behind_sum : ParserContext
behind_sum = before c_name (at Token.semicolon 9 10) [] 5

abbrev node : ℕ → ℕ → ℕ → NodeInfo
node lo hi id = record { span = record { lo = lo; hi = hi }; id = id }

abbrev name_at : ℕ → NodeInfo → Expression
name_at name info = Expression.identifier (record { name = name; info = info })

abbrev sum : Expression
sum =
    Expression.binary (name_at 0 (node 0 1 0))
      (Expression.binary (name_at 1 (node 4 5 1)) (name_at 2 (node 8 9 2)) BinaryOperation.mul
        (node 4 9 3))
      BinaryOperation.add (node 0 9 4)

-- The methods at the fuel of the tests, with all that they call.
parse : ParserContext → Outcome Expression
unfolding aleotiktacto.Parser.pure aleotiktacto.Parser.and_then aleotiktacto.Parser.◌>>=◌
    aleotiktacto.Parser.fail aleotiktacto.Parser.panics aleotiktacto.Parser.get_context
    aleotiktacto.Parser.is_eof aleotiktacto.Parser.next_token aleotiktacto.Parser.advanced
    aleotiktacto.Parser.bump aleotiktacto.Parser.check aleotiktacto.Parser.is_integer
    aleotiktacto.Parser.bump_if aleotiktacto.Parser.eat aleotiktacto.Parser.ahead
    aleotiktacto.Parser.emit_err aleotiktacto.Parser.emit_warning aleotiktacto.Parser.emit_if
    aleotiktacto.Parser.has_next aleotiktacto.Parser.next_id aleotiktacto.Parser.node_at
    aleotiktacto.Parser.intern aleotiktacto.Parser.known_text aleotiktacto.Parser.as_str
    aleotiktacto.Parser.mk_ident_prev aleotiktacto.Parser.eat_name
    aleotiktacto.Parser.eat_identifier aleotiktacto.Parser.ok_or
    aleotiktacto.Parser.expect_identifier aleotiktacto.Parser.eat_any aleotiktacto.Parser.eaten_or
    aleotiktacto.Parser.expect aleotiktacto.Parser.expect_any aleotiktacto.Parser.join
    aleotiktacto.Parser.Numbers.digits aleotiktacto.Parser.Numbers.parse_usize
    aleotiktacto.Parser.Numbers.non_negative aleotiktacto.Parser.Numbers.contains_underscore
    aleotiktacto.Parser.Numbers.leading_zero aleotiktacto.Parser.Numbers.if_whole
    aleotiktacto.Parser.Numbers.whole_number aleotiktacto.Parser.Numbers.eat_whole_number
    aleotiktacto.Parser.Lists.open_token aleotiktacto.Parser.Lists.close_token
    aleotiktacto.Parser.Lists.eat_separator aleotiktacto.Parser.Lists.push
    aleotiktacto.Parser.Lists.next_round aleotiktacto.Parser.Lists.element
    aleotiktacto.Parser.Lists.elements aleotiktacto.Parser.Lists.parse_list
    aleotiktacto.Parser.Lists.always aleotiktacto.Parser.Lists.parse_paren_comma_list
    aleotiktacto.Parser.Lists.parse_bracket_comma_list aleotiktacto.Parser.Types.token_to_int_type
    aleotiktacto.Parser.Types.integer_type aleotiktacto.Parser.Types.primitive_type
    aleotiktacto.Parser.Types.parse_primitive_type aleotiktacto.Parser.Types.tuple_type
    aleotiktacto.Parser.Types.parse_array_type aleotiktacto.Parser.Types.parse_tuple_type
    aleotiktacto.Parser.Types.type_behind aleotiktacto.Parser.Types.parse_type
    aleotiktacto.Parser.Binary.bin_expr aleotiktacto.Parser.Binary.bin_op
    aleotiktacto.Parser.Binary.known_op aleotiktacto.Parser.Binary.eaten_op
    aleotiktacto.Parser.Binary.eat_bin_op aleotiktacto.Parser.Binary.bin_round
    aleotiktacto.Parser.Binary.bin_loop aleotiktacto.Parser.Binary.parse_bin_expr
    aleotiktacto.Parser.Binary.compared aleotiktacto.Parser.Binary.parse_comparison
    aleotiktacto.Parser.Binary.parse_exponential_expression
    aleotiktacto.Parser.Binary.parse_multiplicative_expression
    aleotiktacto.Parser.Binary.parse_additive_expression
    aleotiktacto.Parser.Binary.parse_shift_expression
    aleotiktacto.Parser.Binary.parse_bitwise_and_expression
    aleotiktacto.Parser.Binary.parse_bitwise_inclusive_or_expression
    aleotiktacto.Parser.Binary.parse_bitwise_exclusive_or_expression
    aleotiktacto.Parser.Binary.parse_ordering_expression
    aleotiktacto.Parser.Binary.parse_equality_expression
    aleotiktacto.Parser.Binary.parse_boolean_and_expression
    aleotiktacto.Parser.Binary.parse_boolean_or_expression aleotiktacto.Parser.Groups.sign_low_or
    aleotiktacto.Parser.Groups.coordinate aleotiktacto.Parser.Groups.peek_group_coordinate
    aleotiktacto.Parser.Groups.check_ahead aleotiktacto.Parser.Groups.group_ahead
    aleotiktacto.Parser.Groups.bumps aleotiktacto.Parser.Groups.assert_no_whitespace
    aleotiktacto.Parser.Groups.display_coordinate aleotiktacto.Parser.Groups.eat_group
    aleotiktacto.Parser.Groups.eat_group_partial aleotiktacto.Parser.Primary.tuple_expression
    aleotiktacto.Parser.Primary.array_expression aleotiktacto.Parser.Primary.suffixed
    aleotiktacto.Parser.Primary.suffixed_if aleotiktacto.Parser.Primary.number_literal
    aleotiktacto.Parser.Primary.named aleotiktacto.Parser.Primary.type_name
    aleotiktacto.Parser.Primary.member_name aleotiktacto.Parser.Primary.eat_underscore
    aleotiktacto.Parser.Primary.member_value aleotiktacto.Parser.Primary.parse_struct_member
    aleotiktacto.Parser.Primary.tuple_or aleotiktacto.Parser.Primary.parse_tuple_expression
    aleotiktacto.Parser.Primary.parse_array_expression
    aleotiktacto.Parser.Primary.parse_struct_init_expression
    aleotiktacto.Parser.Primary.identifier_or_struct aleotiktacto.Parser.Primary.primary
    aleotiktacto.Parser.Primary.parse_primary_expression
    aleotiktacto.Parser.Methods.unary_from_symbol aleotiktacto.Parser.Methods.binary_from_symbol
    aleotiktacto.Parser.Methods.mapping_arity aleotiktacto.Parser.Methods.is_signature_verify
    aleotiktacto.Parser.Methods.invalid_call aleotiktacto.Parser.Methods.core_call
    aleotiktacto.Parser.Methods.mapping_call_if aleotiktacto.Parser.Methods.mapping_call
    aleotiktacto.Parser.Methods.unary_call aleotiktacto.Parser.Methods.binary_call
    aleotiktacto.Parser.Methods.verify_call aleotiktacto.Parser.Methods.method_call
    aleotiktacto.Parser.Postfix.arguments aleotiktacto.Parser.Postfix.parse_method_call_expression
    aleotiktacto.Parser.Postfix.associated_function aleotiktacto.Parser.Postfix.associated_member
    aleotiktacto.Parser.Postfix.parse_associated_access_expression
    aleotiktacto.Parser.Postfix.tuple_access aleotiktacto.Parser.Postfix.external_call
    aleotiktacto.Parser.Postfix.method_or_member aleotiktacto.Parser.Postfix.leo_or_name
    aleotiktacto.Parser.Postfix.after_dot aleotiktacto.Parser.Postfix.array_access
    aleotiktacto.Parser.Postfix.call aleotiktacto.Parser.Postfix.call_or_done
    aleotiktacto.Parser.Postfix.square_or aleotiktacto.Parser.Postfix.colons_or
    aleotiktacto.Parser.Postfix.dot_or aleotiktacto.Parser.Postfix.postfix_step
    aleotiktacto.Parser.Postfix.goes_on aleotiktacto.Parser.Postfix.loop_if
    aleotiktacto.Parser.Postfix.postfix_loop aleotiktacto.Parser.Postfix.parse_postfix_expression
    aleotiktacto.Parser.Expressions.unary_op aleotiktacto.Parser.Expressions.unary_round
    aleotiktacto.Parser.Expressions.unary_ops aleotiktacto.Parser.Expressions.from_op
    aleotiktacto.Parser.Expressions.negated aleotiktacto.Parser.Expressions.apply_ops
    aleotiktacto.Parser.Expressions.parse_unary_expression aleotiktacto.Parser.Expressions.cast_if
    aleotiktacto.Parser.Expressions.parse_cast_expression aleotiktacto.Parser.Expressions.ternary_if
    aleotiktacto.Parser.Expressions.restore aleotiktacto.Parser.Expressions.operand
    aleotiktacto.Parser.Expressions.conditional aleotiktacto.Parser.Expressions.parse_expression
    aleotiktacto.Parser.Expressions.parse_conditional_expression token_eq any_eq discriminant
    payload aleotiktacto.Interner.intern aleotiktacto.Interner.get_index_of
    aleotiktacto.Interner.intern_at aleotiktacto.Interner.symbol
parse c = parse_expression any_address 9 c

operators : ParserContext → Outcome Expression
unfolding parse
operators c =
    parse_boolean_or_expression 7 (operand any_address 7 (parse_expression any_address 6)) c

sum_parsed : parse sum_context ≡ ok sum behind_sum
unfolding parse
sum_parsed = refl

sum_levels : operators sum_context ≡ ok sum behind_sum
unfolding operators
sum_levels = refl

parse_boolean_or_expression-Derives_example :
    Derives
      (operand any_address 7 (parse_expression any_address 6))
      disjunction
      sum_context
      sum
      behind_sum
    × any_eq (Token.or ∷ []) Token.semicolon ≡ false
unfolding operators
parse_boolean_or_expression-Derives_example =
    parse_boolean_or_expression-Derives 7 (operand any_address 7 (parse_expression any_address 6))
      sum_context sum behind_sum sum_levels

parse_expression-Moves_example :
    Moves false 1 sum_context (parse_expression any_address 7 sum_context)
unfolding is_eof
parse_expression-Moves_example = parse_expression-Moves any_address 7 sum_context refl (omega arith)

-- A minus before an affine group literal is dropped: -(1, 2)group;
abbrev point_context : ParserContext
point_context =
    before (at Token.question 0 0) (at Token.sub 0 1)
      (at Token.left_paren 1 2
        ∷ at (Token.integer (codes "1")) 2 3
        ∷ at Token.comma 3 4
        ∷ at (Token.integer (codes "2")) 4 5
        ∷ at Token.right_paren 5 6
        ∷ at Token.group 6 11
        ∷ end)
      0

point_parsed :
    parse point_context
    ≡ ok
        (Expression.literal (
          Literal.group
            (GroupLiteral.affine
              (GroupCoordinate.number (codes "1") (record { lo = 2; hi = 3 }))
              (GroupCoordinate.number (codes "2") (record { lo = 4; hi = 5 })))
            (node 1 11 0)))
        (before (at Token.group 6 11) (at Token.semicolon 9 10) [] 1)
unfolding parse
point_parsed = refl

-- An index that is no 64-bit number: a.18446744073709551616;
abbrev index_context : ParserContext
index_context =
    before (at Token.question 0 0) (at (Token.identifier (codes "a")) 0 1)
      (at Token.dot 1 2 ∷ at (Token.integer (codes "18446744073709551616")) 2 22 ∷ end) 0

index_panics : parse index_context ≡ panic (not_usize (codes "18446744073709551616"))
unfolding parse
index_panics = refl

-- a += b;
abbrev assign_context : ParserContext
assign_context =
    before (at Token.question 0 0) (at (Token.identifier (codes "a")) 0 1)
      (at Token.add_assign 2 4
        ∷ at (Token.identifier (codes "b")) 5 6
        ∷ at Token.semicolon 6 7
        ∷ [])
      0

statement : ParserContext → Outcome Statement
unfolding parse aleotiktacto.Parser.Places.with_id aleotiktacto.Parser.Places.literal_with_id
    aleotiktacto.Parser.Places.access_with_id aleotiktacto.Parser.Places.set_id
    aleotiktacto.Parser.Places.statement_span aleotiktacto.Parser.Statements.assign_op
    aleotiktacto.Parser.Statements.is_block_or_conditional aleotiktacto.Parser.Statements.assigned
    aleotiktacto.Parser.Statements.is_deprecated aleotiktacto.Parser.Statements.warn
    aleotiktacto.Parser.Statements.set_disallow aleotiktacto.Parser.Statements.without_structs
    aleotiktacto.Parser.Statements.two_expressions aleotiktacto.Parser.Statements.assert_variant
    aleotiktacto.Parser.Statements.parse_assert_statement aleotiktacto.Parser.Statements.assignment
    aleotiktacto.Parser.Statements.assign_or_expression
    aleotiktacto.Parser.Statements.parse_assign_statement aleotiktacto.Parser.Statements.returned
    aleotiktacto.Parser.Statements.finalize_arguments aleotiktacto.Parser.Statements.finalized
    aleotiktacto.Parser.Statements.parse_return_statement
    aleotiktacto.Parser.Statements.parse_typed_ident
    aleotiktacto.Parser.Statements.parse_const_declaration_statement
    aleotiktacto.Parser.Statements.parse_definition_statement
    aleotiktacto.Parser.Statements.parse_block aleotiktacto.Parser.Statements.else_if
    aleotiktacto.Parser.Statements.parse_conditional_statement
    aleotiktacto.Parser.Statements.parse_loop_statement aleotiktacto.Parser.Statements.statement_at
    aleotiktacto.Parser.Blocks.parse_statement
statement c = parse_statement any_address 9 c

assign_parsed :
    statement assign_context
    ≡ ok
        (Statement.assign
          (name_at 0 (node 0 1 0))
          (Expression.binary
            (name_at 0 (node 0 1 2))
            (name_at 1 (node 5 6 1))
            BinaryOperation.add
            (node 0 6 3))
          (node 0 6 4))
        (before (at Token.semicolon 6 7) (at Token.eof 6 7) [] 5)
unfolding statement
assign_parsed = refl

parse_statement-Moves_example :
    Moves false 1 assign_context (parse_statement any_address 9 assign_context)
unfolding is_eof
parse_statement-Moves_example =
    parse_statement-Moves any_address 9 assign_context refl refl (omega arith)
