-- ===== src/Parser/Total/Binary.antt =====
-- compiler/parser/src/parser/expression.rs: the binary operators answer where their operands do.
use aleotiktacto.Prelude.{
  ℕ, zero, suc, ◌≤◌, ◌≡◌, ◌≢◌, refl, Bool, true, Option, none, some, List, [], ◌∷◌, arith,
  Option-cases, inl, inr,
}
use aleotiktacto.Ast.{BinaryOperation, Expression}
use aleotiktacto.Token.{Token, any_eq, token_eq, discriminant, payload}
use aleotiktacto.Parser.{M, pure, ◌>>=◌, and_then, eat_any, is_eof}
use aleotiktacto.Parser.Binary.{
  bin_expr, bin_op, known_op, eaten_op, eat_bin_op, bin_round, bin_loop, parse_bin_expr, compared,
  parse_comparison, parse_exponential_expression, parse_multiplicative_expression,
  parse_additive_expression, parse_shift_expression, parse_bitwise_and_expression,
  parse_bitwise_inclusive_or_expression, parse_bitwise_exclusive_or_expression,
  parse_ordering_expression, parse_equality_expression, parse_boolean_and_expression,
  parse_boolean_or_expression,
}
use aleotiktacto.Parser.Moves.{
  Parses, Parses-pure, Parses-assoc, first, then_any, Parses-drop, Parses-less,
}
use aleotiktacto.Parser.Tokens.{no_eof, eat_any-bind}
use aleotiktacto.Parser.Reads.{Parses-node}

-- Tokens that all stand for binary operators.
record AreOps (tokens : List Token) : Type 0 where
  not_end : no_eof tokens ≡ true
  known : (t : Token) → any_eq tokens t ≡ true → bin_op t ≢ none

module _ {d : Bool} where
  Parses-bin_expr :
      {n : ℕ} (left right : Expression) (op : BinaryOperation)
      → Parses d n 0 (bin_expr left right op)
  unfolding bin_expr
  Parses-bin_expr left right op = Parses-node _ _

  Parses-known_op : {n : ℕ} (o : Option BinaryOperation) → o ≢ none → Parses d n 0 (known_op o)
  unfolding known_op
  Parses-known_op none h = absurd (h refl)
  Parses-known_op (some op) h = Parses-pure _

  module _ {tokens : List Token} (ops : AreOps tokens) where
    -- An operator eaten, and what follows in either case.
    eat_bin_op-bind :
        {n : ℕ} (g : Option BinaryOperation → M Expression)
        → ((op : BinaryOperation) → Parses d n 0 (g (some op)))
        → Parses d (suc n) 0 (g none)
        → Parses d (suc n) 0 (eat_bin_op tokens >>= g)
    unfolding eat_bin_op eaten_op ◌>>=◌ and_then pure known_op
    eat_bin_op-bind g h h' = Parses-assoc (eat_any tokens) eaten_op g (
        eat_any-bind _ tokens ops.not_end
          (λ c t ready lt. elim (Option-cases (bin_op c.prev_token.token)) [
            | inl e ↦ absurd (ops.known _ t e)
            | inr (op, e) ↦ rw e ((h op).apply c ready lt)
          ])
          (record { apply = λ c ready lt. h'.apply c ready lt }) (omega arith) (omega arith))

    module _ {f : M Expression} where
      Parses-bin_loop :
          (fuel n : ℕ) (expr : Expression)
          → n ≤ fuel
          → Parses d n 1 f
          → Parses d n 0 (bin_loop fuel tokens f expr)
      unfolding bin_loop bin_round
      Parses-bin_loop fuel zero expr le h = record { apply = λ c ready lt. absurd (omega arith) }
      Parses-bin_loop zero (suc n) expr le h = absurd (omega arith)
      Parses-bin_loop (suc fuel) (suc n) expr le h = record {
        apply =
            (eat_bin_op-bind _
              (λ op. first (Parses-drop (Parses-less h)) λ right.
                first (Parses-bin_expr expr right op)
                  λ e. Parses-bin_loop fuel n e (omega arith) (Parses-less h))
              (Parses-pure expr)).apply;
      }

      Parses-parse_bin_expr :
          {fuel n : ℕ}
          → suc n ≤ fuel
          → Parses d (suc n) 1 f
          → Parses d (suc n) 1 (parse_bin_expr fuel tokens f)
      unfolding parse_bin_expr
      Parses-parse_bin_expr {fuel} {n} le h =
          then_any h λ expr. Parses-bin_loop fuel (suc n) expr le h

      Parses-parse_comparison :
          {n : ℕ} → Parses d (suc n) 1 f → Parses d (suc n) 1 (parse_comparison tokens f)
      unfolding parse_comparison compared
      Parses-parse_comparison h = then_any h λ expr.
          eat_bin_op-bind _
            (λ op. first (Parses-drop (Parses-less h)) λ right. Parses-bin_expr expr right op)
            (Parses-pure expr)

-- The lists of operators that the levels name.
or-known : (t : Token) → any_eq (Token.or ∷ []) t ≡ true → bin_op t ≢ none
unfolding any_eq token_eq discriminant payload bin_op
or-known Token.or h = cc
or-known _ h = absurd (cc)

or-AreOps : AreOps (Token.or ∷ [])
unfolding is_eof
or-AreOps = record { not_end = refl; known = or-known }

and-known : (t : Token) → any_eq (Token.and ∷ []) t ≡ true → bin_op t ≢ none
unfolding any_eq token_eq discriminant payload bin_op
and-known Token.and h = cc
and-known _ h = absurd (cc)

and-AreOps : AreOps (Token.and ∷ [])
unfolding is_eof
and-AreOps = record { not_end = refl; known = and-known }

equality-known : (t : Token) → any_eq (Token.eq ∷ Token.not_eq ∷ []) t ≡ true → bin_op t ≢ none
unfolding any_eq token_eq discriminant payload bin_op
equality-known Token.eq h = cc
equality-known Token.not_eq h = cc
equality-known _ h = absurd (cc)

equality-AreOps : AreOps (Token.eq ∷ Token.not_eq ∷ [])
unfolding is_eof
equality-AreOps = record { not_end = refl; known = equality-known }

ordering-known :
    (t : Token)
    → any_eq (Token.lt ∷ Token.lt_eq ∷ Token.gt ∷ Token.gt_eq ∷ []) t ≡ true
    → bin_op t ≢ none
unfolding any_eq token_eq discriminant payload bin_op
ordering-known Token.lt h = cc
ordering-known Token.lt_eq h = cc
ordering-known Token.gt h = cc
ordering-known Token.gt_eq h = cc
ordering-known _ h = absurd (cc)

ordering-AreOps : AreOps (Token.lt ∷ Token.lt_eq ∷ Token.gt ∷ Token.gt_eq ∷ [])
unfolding is_eof
ordering-AreOps = record { not_end = refl; known = ordering-known }

bit_xor-known : (t : Token) → any_eq (Token.bit_xor ∷ []) t ≡ true → bin_op t ≢ none
unfolding any_eq token_eq discriminant payload bin_op
bit_xor-known Token.bit_xor h = cc
bit_xor-known _ h = absurd (cc)

bit_xor-AreOps : AreOps (Token.bit_xor ∷ [])
unfolding is_eof
bit_xor-AreOps = record { not_end = refl; known = bit_xor-known }

bit_or-known : (t : Token) → any_eq (Token.bit_or ∷ []) t ≡ true → bin_op t ≢ none
unfolding any_eq token_eq discriminant payload bin_op
bit_or-known Token.bit_or h = cc
bit_or-known _ h = absurd (cc)

bit_or-AreOps : AreOps (Token.bit_or ∷ [])
unfolding is_eof
bit_or-AreOps = record { not_end = refl; known = bit_or-known }

bit_and-known : (t : Token) → any_eq (Token.bit_and ∷ []) t ≡ true → bin_op t ≢ none
unfolding any_eq token_eq discriminant payload bin_op
bit_and-known Token.bit_and h = cc
bit_and-known _ h = absurd (cc)

bit_and-AreOps : AreOps (Token.bit_and ∷ [])
unfolding is_eof
bit_and-AreOps = record { not_end = refl; known = bit_and-known }

shift-known : (t : Token) → any_eq (Token.shl ∷ Token.shr ∷ []) t ≡ true → bin_op t ≢ none
unfolding any_eq token_eq discriminant payload bin_op
shift-known Token.shl h = cc
shift-known Token.shr h = cc
shift-known _ h = absurd (cc)

shift-AreOps : AreOps (Token.shl ∷ Token.shr ∷ [])
unfolding is_eof
shift-AreOps = record { not_end = refl; known = shift-known }

additive-known : (t : Token) → any_eq (Token.add ∷ Token.sub ∷ []) t ≡ true → bin_op t ≢ none
unfolding any_eq token_eq discriminant payload bin_op
additive-known Token.add h = cc
additive-known Token.sub h = cc
additive-known _ h = absurd (cc)

additive-AreOps : AreOps (Token.add ∷ Token.sub ∷ [])
unfolding is_eof
additive-AreOps = record { not_end = refl; known = additive-known }

multiplicative-known :
    (t : Token) → any_eq (Token.mul ∷ Token.div ∷ Token.rem ∷ []) t ≡ true → bin_op t ≢ none
unfolding any_eq token_eq discriminant payload bin_op
multiplicative-known Token.mul h = cc
multiplicative-known Token.div h = cc
multiplicative-known Token.rem h = cc
multiplicative-known _ h = absurd (cc)

multiplicative-AreOps : AreOps (Token.mul ∷ Token.div ∷ Token.rem ∷ [])
unfolding is_eof
multiplicative-AreOps = record { not_end = refl; known = multiplicative-known }

pow-known : (t : Token) → any_eq (Token.pow ∷ []) t ≡ true → bin_op t ≢ none
unfolding any_eq token_eq discriminant payload bin_op
pow-known Token.pow h = cc
pow-known _ h = absurd (cc)

pow-AreOps : AreOps (Token.pow ∷ [])
unfolding is_eof
pow-AreOps = record { not_end = refl; known = pow-known }

-- Each level on top of the one below it.
module _ {d : Bool} {n : ℕ} {p : M Expression} (h : Parses d (suc n) 1 p) where
  exponential : Parses d (suc n) 1 (parse_exponential_expression (suc n) p)
  unfolding parse_exponential_expression
  exponential = Parses-parse_bin_expr pow-AreOps (omega arith) h

  multiplicative : Parses d (suc n) 1 (parse_multiplicative_expression (suc n) p)
  unfolding parse_multiplicative_expression
  multiplicative = Parses-parse_bin_expr multiplicative-AreOps (omega arith) exponential

  additive : Parses d (suc n) 1 (parse_additive_expression (suc n) p)
  unfolding parse_additive_expression
  additive = Parses-parse_bin_expr additive-AreOps (omega arith) multiplicative

  shift : Parses d (suc n) 1 (parse_shift_expression (suc n) p)
  unfolding parse_shift_expression
  shift = Parses-parse_bin_expr shift-AreOps (omega arith) additive

  bitwise_and : Parses d (suc n) 1 (parse_bitwise_and_expression (suc n) p)
  unfolding parse_bitwise_and_expression
  bitwise_and = Parses-parse_bin_expr bit_and-AreOps (omega arith) shift

  bitwise_inclusive_or : Parses d (suc n) 1 (parse_bitwise_inclusive_or_expression (suc n) p)
  unfolding parse_bitwise_inclusive_or_expression
  bitwise_inclusive_or = Parses-parse_bin_expr bit_or-AreOps (omega arith) bitwise_and

  bitwise_exclusive_or : Parses d (suc n) 1 (parse_bitwise_exclusive_or_expression (suc n) p)
  unfolding parse_bitwise_exclusive_or_expression
  bitwise_exclusive_or = Parses-parse_bin_expr bit_xor-AreOps (omega arith) bitwise_inclusive_or

  ordering : Parses d (suc n) 1 (parse_ordering_expression (suc n) p)
  unfolding parse_ordering_expression
  ordering = Parses-parse_comparison ordering-AreOps bitwise_exclusive_or

  equality : Parses d (suc n) 1 (parse_equality_expression (suc n) p)
  unfolding parse_equality_expression
  equality = Parses-parse_comparison equality-AreOps ordering

  boolean_and : Parses d (suc n) 1 (parse_boolean_and_expression (suc n) p)
  unfolding parse_boolean_and_expression
  boolean_and = Parses-parse_bin_expr and-AreOps (omega arith) equality

  pub boolean_or : Parses d (suc n) 1 (parse_boolean_or_expression (suc n) p)
  unfolding parse_boolean_or_expression
  boolean_or = Parses-parse_bin_expr or-AreOps (omega arith) boolean_and
