-- ===== src/Parser/Total/Expressions.antt =====
-- compiler/parser/src/parser/expression.rs: an expression is parsed with fuel for the tokens that are
-- left.
use aleotiktacto.Prelude.{
  ℕ, zero, suc, ◌≤◌, ◌<◌, ◌≡◌, refl, Bool, true, false, List, [], ◌∷◌, arith,
}
use aleotiktacto.Ast.{Expression}
use aleotiktacto.Token.{Token, any_eq, token_eq, discriminant, payload}
use aleotiktacto.Parser.{ParserContext, Outcome, M, is_eof}
use aleotiktacto.Parser.Expressions.{
  UnaryOps, unary_op, unary_round, unary_ops, apply_ops, parse_unary_expression, cast_if,
  parse_cast_expression, ternary_if, restore, operand, conditional, parse_expression,
  parse_conditional_expression,
}
use aleotiktacto.Parser.Moves.{
  size, Moves, takes, fails, stops, Parses, Parses-pure, Parses-bind, first, then_any, Parses-drop,
  later,
}
use aleotiktacto.Parser.Tokens.{eat_any-bind}
use aleotiktacto.Parser.Reads.{Parses-node, Parses-node_at, Parses-eat, Parses-expect}
use aleotiktacto.Parser.Total.{Parses-parse_primitive_type}
use aleotiktacto.Parser.Total.Binary.{boolean_or}
use aleotiktacto.Parser.Total.Primary.{Parses-parse_primary_expression}
use aleotiktacto.Parser.Total.Postfix.{Parses-parse_postfix_expression}

module _ {d : Bool} where
  Parses-unary_op :
      {n : ℕ} (t : Token) → any_eq (Token.not ∷ Token.sub ∷ []) t ≡ true → Parses d n 0 (unary_op t)
  unfolding any_eq token_eq discriminant payload unary_op
  Parses-unary_op Token.not h = Parses-pure _
  Parses-unary_op Token.sub h = Parses-pure _
  Parses-unary_op _ h = absurd (cc)

  Parses-unary_ops : (fuel n : ℕ) (ops : UnaryOps) → n ≤ fuel → Parses d n 0 (unary_ops fuel ops)
  unfolding unary_ops unary_round is_eof
  Parses-unary_ops fuel zero ops le = record { apply = λ c ready lt. absurd (omega arith) }
  Parses-unary_ops zero (suc n) ops le = absurd (omega arith)
  Parses-unary_ops (suc fuel) (suc n) ops le = record {
    apply =
        (eat_any-bind (unary_round (unary_ops fuel) ops) (Token.not ∷ Token.sub ∷ []) {n' = n} refl
          (λ c h ready lt.
            (first (Parses-unary_op c.prev_token.token h)
                λ op. Parses-unary_ops fuel n _ (omega arith)).apply
              c ready lt)
          (record { apply = (Parses-pure ops).apply }) (omega arith) (omega arith)).apply;
  }

  Parses-apply_ops : {n : ℕ} (ops : UnaryOps) (e : Expression) → Parses d n 0 (apply_ops ops e)
  unfolding apply_ops
  Parses-apply_ops [] e = Parses-pure e
  Parses-apply_ops (op ∷ ops) e = first (Parses-node_at _) λ i. Parses-apply_ops ops _

  Parses-cast_if : {n : ℕ} (e : Expression) (b : Bool) → Parses d n 0 (cast_if e b)
  unfolding cast_if
  Parses-cast_if e false = Parses-pure e
  Parses-cast_if e true = first (Parses-drop Parses-parse_primitive_type) λ t. Parses-node _ _

  module _ {n : ℕ} {p : M Expression} where
    Parses-parse_unary_expression :
        Parses d (suc n) 1 p → Parses d (suc n) 1 (parse_unary_expression (suc n) p)
    unfolding parse_unary_expression
    Parses-parse_unary_expression h =
        first (Parses-unary_ops (suc n) (suc n) [] (omega arith))
          λ ops. then_any h λ e. Parses-apply_ops _ _

    Parses-parse_cast_expression : Parses d n 1 p → Parses d n 1 (parse_cast_expression p)
    unfolding parse_cast_expression is_eof
    Parses-parse_cast_expression h =
        then_any h λ e. first (Parses-eat Token.as_ refl) λ b. Parses-cast_if e b

    Parses-ternary_if :
        Parses d n 1 p → (e : Expression) (b : Bool) → Parses d n 0 (ternary_if p e b)
    unfolding ternary_if is_eof
    Parses-ternary_if h e false = Parses-pure e
    Parses-ternary_if h e true = first (Parses-drop h) λ x.
        first (Parses-drop (Parses-expect Token.colon refl))
          λ s. first (Parses-drop h) λ y. Parses-node _ _

  Parses-restore :
      {k : ℕ} {c : ParserContext} {r : Outcome Expression} (prior : Bool)
      → prior ≡ d
      → Moves false k c r
      → Moves d k c (restore prior r)
  unfolding restore
  Parses-restore prior e (takes ready le) =
      takes (record { not_past = ready.not_past; flag = e }) le
  Parses-restore prior e fails = fails
  Parses-restore prior e (stops p) = stops p

module _ (is_address : List ℕ → Bool) where
  Parses-conditional :
      {d : Bool} {n : ℕ} {p : M Expression}
      → Parses d n 1 p
      → Parses d (suc n) 1 (conditional is_address (suc n) p)
  unfolding conditional operand is_eof
  Parses-conditional h =
      Parses-bind
        (boolean_or (
          Parses-parse_cast_expression (
            Parses-parse_unary_expression
              (Parses-parse_postfix_expression h (Parses-parse_primary_expression is_address h)))))
        (λ e. first (Parses-eat Token.question refl) λ b. Parses-ternary_if h e b) (omega arith)
        (omega arith)

  pub Parses-parse_expression :
      (fuel : ℕ) (d : Bool) → Parses d fuel 1 (parse_expression is_address fuel)
  unfolding parse_expression
  Parses-parse_expression zero d = record { apply = λ c ready lt. absurd (omega arith) }
  Parses-parse_expression (suc fuel) d = record {
    apply = λ c ready lt. Parses-restore c.disallow ready.flag (
        moved c (
          (Parses-conditional (Parses-parse_expression fuel false)).apply
            (record c { disallow = false }) (record { not_past = ready.not_past; flag = refl })
            lt));
  }
    where
      moved :
          (c : ParserContext) {r : Outcome Expression}
          → Moves false 1 (record c { disallow = false }) r
          → Moves false 1 c r
      moved c h = later 0 1 h (omega arith) (omega arith)

  pub Parses-parse_conditional_expression :
      (fuel : ℕ) (d : Bool) → Parses d fuel 1 (parse_conditional_expression is_address fuel)
  unfolding parse_conditional_expression
  Parses-parse_conditional_expression zero d = record { apply = λ c ready lt. absurd (omega arith) }
  Parses-parse_conditional_expression (suc fuel) d = record {
    apply = (Parses-conditional (Parses-parse_expression fuel d)).apply;
  }

  -- From a context that has not read the end, and with more fuel than tokens are left, an expression
  -- is parsed, an error returned, or the parser panics, then on a number that is no `usize` or on a
  -- symbol that the interner does not hold. An expression takes a token or more, the context behind
  -- it has not read the end either, and its `disallow_struct_construction` is as it was before.
  pub parse_expression-Moves :
      (fuel : ℕ) (c : ParserContext)
      → is_eof c.prev_token.token ≡ false
      → size c < fuel
      → Moves c.disallow 1 c (parse_expression is_address fuel c)
  parse_expression-Moves fuel c h lt =
      (Parses-parse_expression fuel c.disallow).apply c (record { not_past = h; flag = refl }) lt
