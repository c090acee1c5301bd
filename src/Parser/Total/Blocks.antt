-- ===== src/Parser/Total/Blocks.antt =====
-- compiler/parser/src/parser/statement.rs: a statement is parsed with fuel for the tokens that are left.
use aleotiktacto.Prelude.{ℕ, zero, suc, ◌<◌, ◌≡◌, refl, Bool, true, false, none, List, arith}
use aleotiktacto.Ast.{Span, Expression, Statement}
use aleotiktacto.Token.{Token, token_eq, discriminant, payload}
use aleotiktacto.Parser.{ParserContext, M, is_eof, check}
use aleotiktacto.Parser.Lists.{brace}
use aleotiktacto.Parser.Statements.{
  assert_variant, parse_assert_statement, parse_block, else_if, parse_conditional_statement,
  parse_loop_statement, statement_at,
}
use aleotiktacto.Parser.Blocks.{parse_statement}
use aleotiktacto.Parser.Moves.{
  size, Ready, Moves, Parses, Parses-pure, Parses-fail, Parses-bind, first, then_any, Parses-drop,
}
use aleotiktacto.Parser.Reads.{
  Parses-get_context, Parses-node, Parses-node_at, Parses-emit_if, Parses-eat, Parses-expect,
  Parses-expect_identifier,
}
use aleotiktacto.Parser.Total.{Parses-parse_list, Parses-always, Parses-parse_type}
use aleotiktacto.Parser.Total.Expressions.{
  Parses-parse_expression, Parses-parse_conditional_expression,
}
use aleotiktacto.Parser.Total.Statements.{
  Parses-without_structs, Parses-two_expressions, Parses-asserts, Parses-parse_assign_statement,
  Parses-parse_return_statement, Parses-const, Parses-definition,
}

module _ {d : Bool} {n : ℕ} {s : M Statement} (h : Parses d n 1 s) where
  Parses-parse_block : Parses d (suc n) 1 (parse_block (suc n) s)
  unfolding parse_block
  Parses-parse_block =
      then_any (Parses-parse_list brace none tt (omega arith) (Parses-always h))
        λ l. first (Parses-node_at _) λ i. Parses-pure _

  Parses-else_if : (b : Bool) (span : Span) → Parses d n 0 (else_if (suc n) s b span)
  unfolding else_if
  Parses-else_if false span = Parses-pure _
  Parses-else_if true span =
      first (Parses-drop h) λ t. first (Parses-emit_if _ _) λ u. Parses-pure _

module _ {n : ℕ} {p q : M Expression} {s : M Statement} (hp : Parses false (suc n) 1 p)
    (hq : Parses true (suc n) 1 q) (hs : Parses false n 1 s) where
  Parses-conditional_statement : Parses false (suc n) 1 (parse_conditional_statement (suc n) p q s)
  unfolding parse_conditional_statement is_eof
  Parses-conditional_statement = then_any (Parses-expect Token.if_ refl) λ start.
      first (Parses-drop (Parses-without_structs hq)) λ e. Parses-drop (
        Parses-bind (Parses-parse_block hs)
          (λ body.
            first (Parses-eat Token.else_ refl)
              λ b. first (Parses-else_if hs b _) λ next. Parses-node _ _)
          (omega arith) (omega arith))

  Parses-loop_statement : Parses false (suc n) 1 (parse_loop_statement (suc n) p q s)
  unfolding parse_loop_statement is_eof
  Parses-loop_statement = then_any (Parses-expect Token.for refl) λ start.
      first (Parses-drop Parses-expect_identifier) λ i.
        first (Parses-drop (Parses-expect Token.colon refl)) λ s1.
          first (Parses-drop (Parses-parse_type (suc n))) λ t.
            first (Parses-drop (Parses-expect Token.in_ refl)) λ s2. first (Parses-drop hp) λ a.
              first (Parses-drop (Parses-expect Token.dot_dot refl)) λ s3.
                first (Parses-drop (Parses-without_structs hq))
                  λ b. Parses-drop (then_any (Parses-parse_block hs) λ body. Parses-node _ _)

  assert-Moves :
      (c : ParserContext)
      → Ready false c
      → size c < suc n
      → c.token.token ≡ Token.assert
      → Moves false 1 c (parse_assert_statement (suc n) p c)
  unfolding check token_eq discriminant payload assert_variant
  assert-Moves c ready lt e =
      Parses-asserts hp true false false (first (Parses-drop hp) λ x. Parses-pure _) c ready lt
        (rw e refl) (rw e refl) (rw e refl)

  assert_eq-Moves :
      (c : ParserContext)
      → Ready false c
      → size c < suc n
      → c.token.token ≡ Token.assert_eq
      → Moves false 1 c (parse_assert_statement (suc n) p c)
  unfolding check token_eq discriminant payload assert_variant
  assert_eq-Moves c ready lt e =
      Parses-asserts hp false true false (first (Parses-two_expressions hp) λ x. Parses-pure _) c
        ready lt (rw e refl) (rw e refl) (rw e refl)

  assert_neq-Moves :
      (c : ParserContext)
      → Ready false c
      → size c < suc n
      → c.token.token ≡ Token.assert_neq
      → Moves false 1 c (parse_assert_statement (suc n) p c)
  unfolding check token_eq discriminant payload assert_variant
  assert_neq-Moves c ready lt e =
      Parses-asserts hp false false true (first (Parses-two_expressions hp) λ x. Parses-pure _) c
        ready lt (rw e refl) (rw e refl) (rw e refl)

  statement_at-Moves :
      (t : Token) (c : ParserContext)
      → Ready false c
      → size c < suc n
      → c.token.token ≡ t
      → Moves false 1 c (statement_at (suc n) p q s t c)
  unfolding statement_at
  statement_at-Moves Token.return c ready lt e = (Parses-parse_return_statement hp).apply c ready lt
  statement_at-Moves Token.if_ c ready lt e = Parses-conditional_statement.apply c ready lt
  statement_at-Moves Token.for c ready lt e = Parses-loop_statement.apply c ready lt
  statement_at-Moves Token.assert c ready lt e = assert-Moves c ready lt e
  statement_at-Moves Token.assert_eq c ready lt e = assert_eq-Moves c ready lt e
  statement_at-Moves Token.assert_neq c ready lt e = assert_neq-Moves c ready lt e
  statement_at-Moves Token.let_ c ready lt e = (Parses-definition hp).apply c ready lt
  statement_at-Moves Token.const c ready lt e = (Parses-const hp).apply c ready lt
  statement_at-Moves Token.left_curly c ready lt e =
      (then_any (Parses-parse_block hs) λ b. Parses-pure _).apply c ready lt
  statement_at-Moves Token.console c ready lt e =
      (first Parses-get_context λ x. Parses-fail _).apply c ready lt
  statement_at-Moves Token.finalize c ready lt e =
      (first Parses-get_context λ x. Parses-fail _).apply c ready lt
  statement_at-Moves _ c ready lt e = (Parses-parse_assign_statement hp).apply c ready lt

module _ (is_address : List ℕ → Bool) where
  Parses-parse_statement : (fuel : ℕ) → Parses false fuel 1 (parse_statement is_address fuel)
  unfolding parse_statement
  Parses-parse_statement zero = record { apply = λ c ready lt. absurd (omega arith) }
  Parses-parse_statement (suc fuel) = record {
    apply = λ c ready lt.
        statement_at-Moves (Parses-parse_expression is_address (suc fuel) false)
          (Parses-parse_conditional_expression is_address (suc fuel) true)
          (Parses-parse_statement fuel) c.token.token c ready lt refl;
  }

  -- From a context that has not read the end and in which struct expressions are allowed, and with more
  -- fuel than tokens are left, a statement is parsed, an error returned, or the parser panics, then on a
  -- number that is no `usize` or on a symbol that the interner does not hold. A statement takes a token or
  -- more, the context behind it has not read the end either, and struct expressions are allowed there.
  pub parse_statement-Moves :
      (fuel : ℕ) (c : ParserContext)
      → is_eof c.prev_token.token ≡ false
      → c.disallow ≡ false
      → size c < fuel
      → Moves false 1 c (parse_statement is_address fuel c)
  parse_statement-Moves fuel c h flag lt =
      (Parses-parse_statement fuel).apply c (record { not_past = h; flag = flag }) lt
