-- ===== src/Parser/Grammar/Levels.antt =====
-- compiler/parser/src/parser/expression.rs: the levels of the binary operators, from the tightest to the
-- loosest.
use aleotiktacto.Prelude.{ℕ, ◌≡◌, refl, subst, some-injective, true, false, some, [], ◌∷◌}
use aleotiktacto.Ast.{BinaryOperation, Expression}
use aleotiktacto.Token.{Token, any_eq, token_eq, discriminant, payload}
use aleotiktacto.Parser.{ParserContext, ok, M}
use aleotiktacto.Parser.Binary.{
  bin_op, parse_exponential_expression, parse_multiplicative_expression, parse_additive_expression,
  parse_shift_expression, parse_bitwise_and_expression, parse_bitwise_inclusive_or_expression,
  parse_bitwise_exclusive_or_expression, parse_ordering_expression, parse_equality_expression,
  parse_boolean_and_expression, parse_boolean_or_expression,
}
use aleotiktacto.Parser.Grammar.{
  Level, disjunction, conjunction, equality, ordering, exclusive_or, inclusive_or, bitwise_and,
  shift, additive, multiplicative, exponential, operand, Rule, or_rule, and_rule, eq_rule, neq_rule,
  lt_rule, lte_rule, gt_rule, gte_rule, xor_rule, bitwise_or_rule, bitwise_and_rule, shl_rule,
  shr_rule, add_rule, sub_rule, mul_rule, div_rule, rem_rule, pow_rule, Derives, parsed,
}
use aleotiktacto.Parser.Grammar.Sound.{parse_bin_expr-Derives, parse_comparison-Derives}

-- At each level the tokens that are looked for stand for the operators of the grammar.
exponential-Rule :
    (t : Token) (op : BinaryOperation)
    → any_eq (Token.pow ∷ []) t ≡ true
    → bin_op t ≡ some op
    → Rule exponential t op
unfolding any_eq token_eq discriminant payload bin_op
exponential-Rule Token.pow op a b =
    subst (Rule exponential Token.pow) (some-injective _ _ b) pow_rule
exponential-Rule _ op a b = absurd (cc)

multiplicative-Rule :
    (t : Token) (op : BinaryOperation)
    → any_eq (Token.mul ∷ Token.div ∷ Token.rem ∷ []) t ≡ true
    → bin_op t ≡ some op
    → Rule multiplicative t op
unfolding any_eq token_eq discriminant payload bin_op
multiplicative-Rule Token.mul op a b =
    subst (Rule multiplicative Token.mul) (some-injective _ _ b) mul_rule
multiplicative-Rule Token.div op a b =
    subst (Rule multiplicative Token.div) (some-injective _ _ b) div_rule
multiplicative-Rule Token.rem op a b =
    subst (Rule multiplicative Token.rem) (some-injective _ _ b) rem_rule
multiplicative-Rule _ op a b = absurd (cc)

additive-Rule :
    (t : Token) (op : BinaryOperation)
    → any_eq (Token.add ∷ Token.sub ∷ []) t ≡ true
    → bin_op t ≡ some op
    → Rule additive t op
unfolding any_eq token_eq discriminant payload bin_op
additive-Rule Token.add op a b = subst (Rule additive Token.add) (some-injective _ _ b) add_rule
additive-Rule Token.sub op a b = subst (Rule additive Token.sub) (some-injective _ _ b) sub_rule
additive-Rule _ op a b = absurd (cc)

shift-Rule :
    (t : Token) (op : BinaryOperation)
    → any_eq (Token.shl ∷ Token.shr ∷ []) t ≡ true
    → bin_op t ≡ some op
    → Rule shift t op
unfolding any_eq token_eq discriminant payload bin_op
shift-Rule Token.shl op a b = subst (Rule shift Token.shl) (some-injective _ _ b) shl_rule
shift-Rule Token.shr op a b = subst (Rule shift Token.shr) (some-injective _ _ b) shr_rule
shift-Rule _ op a b = absurd (cc)

bitwise_and-Rule :
    (t : Token) (op : BinaryOperation)
    → any_eq (Token.bit_and ∷ []) t ≡ true
    → bin_op t ≡ some op
    → Rule bitwise_and t op
unfolding any_eq token_eq discriminant payload bin_op
bitwise_and-Rule Token.bit_and op a b =
    subst (Rule bitwise_and Token.bit_and) (some-injective _ _ b) bitwise_and_rule
bitwise_and-Rule _ op a b = absurd (cc)

inclusive_or-Rule :
    (t : Token) (op : BinaryOperation)
    → any_eq (Token.bit_or ∷ []) t ≡ true
    → bin_op t ≡ some op
    → Rule inclusive_or t op
unfolding any_eq token_eq discriminant payload bin_op
inclusive_or-Rule Token.bit_or op a b =
    subst (Rule inclusive_or Token.bit_or) (some-injective _ _ b) bitwise_or_rule
inclusive_or-Rule _ op a b = absurd (cc)

exclusive_or-Rule :
    (t : Token) (op : BinaryOperation)
    → any_eq (Token.bit_xor ∷ []) t ≡ true
    → bin_op t ≡ some op
    → Rule exclusive_or t op
unfolding any_eq token_eq discriminant payload bin_op
exclusive_or-Rule Token.bit_xor op a b =
    subst (Rule exclusive_or Token.bit_xor) (some-injective _ _ b) xor_rule
exclusive_or-Rule _ op a b = absurd (cc)

ordering-Rule :
    (t : Token) (op : BinaryOperation)
    → any_eq (Token.lt ∷ Token.lt_eq ∷ Token.gt ∷ Token.gt_eq ∷ []) t ≡ true
    → bin_op t ≡ some op
    → Rule ordering t op
unfolding any_eq token_eq discriminant payload bin_op
ordering-Rule Token.lt op a b = subst (Rule ordering Token.lt) (some-injective _ _ b) lt_rule
ordering-Rule Token.lt_eq op a b = subst (Rule ordering Token.lt_eq) (some-injective _ _ b) lte_rule
ordering-Rule Token.gt op a b = subst (Rule ordering Token.gt) (some-injective _ _ b) gt_rule
ordering-Rule Token.gt_eq op a b = subst (Rule ordering Token.gt_eq) (some-injective _ _ b) gte_rule
ordering-Rule _ op a b = absurd (cc)

equality-Rule :
    (t : Token) (op : BinaryOperation)
    → any_eq (Token.eq ∷ Token.not_eq ∷ []) t ≡ true
    → bin_op t ≡ some op
    → Rule equality t op
unfolding any_eq token_eq discriminant payload bin_op
equality-Rule Token.eq op a b = subst (Rule equality Token.eq) (some-injective _ _ b) eq_rule
equality-Rule Token.not_eq op a b =
    subst (Rule equality Token.not_eq) (some-injective _ _ b) neq_rule
equality-Rule _ op a b = absurd (cc)

conjunction-Rule :
    (t : Token) (op : BinaryOperation)
    → any_eq (Token.and ∷ []) t ≡ true
    → bin_op t ≡ some op
    → Rule conjunction t op
unfolding any_eq token_eq discriminant payload bin_op
conjunction-Rule Token.and op a b =
    subst (Rule conjunction Token.and) (some-injective _ _ b) and_rule
conjunction-Rule _ op a b = absurd (cc)

disjunction-Rule :
    (t : Token) (op : BinaryOperation)
    → any_eq (Token.or ∷ []) t ≡ true
    → bin_op t ≡ some op
    → Rule disjunction t op
unfolding any_eq token_eq discriminant payload bin_op
disjunction-Rule Token.or op a b = subst (Rule disjunction Token.or) (some-injective _ _ b) or_rule
disjunction-Rule _ op a b = absurd (cc)

abbrev Returns : M Expression → M Expression → Level → Type 0
Returns p m l =
    (c : ParserContext) (e : Expression) (c' : ParserContext) → m c ≡ ok e c' → Derives p l c e c'

module _ (fuel : ℕ) (p : M Expression) where
  operand-Returns : Returns p p operand
  operand-Returns c e c' h = parsed h

  exponential-Returns : Returns p (parse_exponential_expression fuel p) exponential
  unfolding parse_exponential_expression
  exponential-Returns c e c' h =
      (parse_bin_expr-Derives p exponential (Token.pow ∷ []) _ exponential-Rule operand-Returns fuel
        c e c' refl h).0

  multiplicative-Returns : Returns p (parse_multiplicative_expression fuel p) multiplicative
  unfolding parse_multiplicative_expression
  multiplicative-Returns c e c' h =
      (parse_bin_expr-Derives p multiplicative (Token.mul ∷ Token.div ∷ Token.rem ∷ []) _
        multiplicative-Rule exponential-Returns fuel c e c' refl h).0

  additive-Returns : Returns p (parse_additive_expression fuel p) additive
  unfolding parse_additive_expression
  additive-Returns c e c' h =
      (parse_bin_expr-Derives p additive (Token.add ∷ Token.sub ∷ []) _ additive-Rule
        multiplicative-Returns fuel c e c' refl h).0

  shift-Returns : Returns p (parse_shift_expression fuel p) shift
  unfolding parse_shift_expression
  shift-Returns c e c' h =
      (parse_bin_expr-Derives p shift (Token.shl ∷ Token.shr ∷ []) _ shift-Rule additive-Returns
        fuel c e c' refl h).0

  bitwise_and-Returns : Returns p (parse_bitwise_and_expression fuel p) bitwise_and
  unfolding parse_bitwise_and_expression
  bitwise_and-Returns c e c' h =
      (parse_bin_expr-Derives p bitwise_and (Token.bit_and ∷ []) _ bitwise_and-Rule shift-Returns
        fuel c e c' refl h).0

  inclusive_or-Returns : Returns p (parse_bitwise_inclusive_or_expression fuel p) inclusive_or
  unfolding parse_bitwise_inclusive_or_expression
  inclusive_or-Returns c e c' h =
      (parse_bin_expr-Derives p inclusive_or (Token.bit_or ∷ []) _ inclusive_or-Rule
        bitwise_and-Returns fuel c e c' refl h).0

  exclusive_or-Returns : Returns p (parse_bitwise_exclusive_or_expression fuel p) exclusive_or
  unfolding parse_bitwise_exclusive_or_expression
  exclusive_or-Returns c e c' h =
      (parse_bin_expr-Derives p exclusive_or (Token.bit_xor ∷ []) _ exclusive_or-Rule
        inclusive_or-Returns fuel c e c' refl h).0

  ordering-Returns : Returns p (parse_ordering_expression fuel p) ordering
  unfolding parse_ordering_expression
  ordering-Returns c e c' h =
      parse_comparison-Derives p ordering (Token.lt ∷ Token.lt_eq ∷ Token.gt ∷ Token.gt_eq ∷ []) _
        ordering-Rule exclusive_or-Returns c e c' refl h

  equality-Returns : Returns p (parse_equality_expression fuel p) equality
  unfolding parse_equality_expression
  equality-Returns c e c' h =
      parse_comparison-Derives p equality (Token.eq ∷ Token.not_eq ∷ []) _ equality-Rule
        ordering-Returns c e c' refl h

  conjunction-Returns : Returns p (parse_boolean_and_expression fuel p) conjunction
  unfolding parse_boolean_and_expression
  conjunction-Returns c e c' h =
      (parse_bin_expr-Derives p conjunction (Token.and ∷ []) _ conjunction-Rule equality-Returns
        fuel c e c' refl h).0

  -- Where the binary operators are parsed and an expression is returned, the grammar derives that
  -- expression from the tokens that were taken, and the token behind it is no `||`.
  pub parse_boolean_or_expression-Derives :
      (c : ParserContext) (e : Expression) (c' : ParserContext)
      → parse_boolean_or_expression fuel p c ≡ ok e c'
      → Derives p disjunction c e c' × any_eq (Token.or ∷ []) c'.token.token ≡ false
  unfolding parse_boolean_or_expression
  parse_boolean_or_expression-Derives c e c' h =
      parse_bin_expr-Derives p disjunction (Token.or ∷ []) _ disjunction-Rule conjunction-Returns
        fuel c e c' refl h
