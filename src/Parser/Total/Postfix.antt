-- ===== src/Parser/Total/Postfix.antt =====
-- compiler/parser/src/parser/expression.rs: what follows a primary expression is read to its end.
use aleotiktacto.Prelude.{
  ℕ, zero, suc, ◌≤◌, ◌<◌, ◌≡◌, refl, Bool, true, false, ◌||◌, Option, none, some, List, [], ◌∷◌,
  length, ◌==◌, arith,
}
use aleotiktacto.Ast.{Identifier, UnaryOperation, BinaryOperation, Expression}
use aleotiktacto.Token.{Token}
use aleotiktacto.Parser.{ParserContext, M, pure, ◌>>=◌, is_eof, is_integer, check, eat, advanced}
use aleotiktacto.Parser.Methods.{
  MethodCall, invalid_call, core_call, mapping_call_if, mapping_call, unary_call, binary_call,
  verify_call, method_call,
}
use aleotiktacto.Parser.Postfix.{
  arguments, parse_method_call_expression, associated_function, associated_member,
  parse_associated_access_expression, tuple_access, external_call, method_or_member, leo_or_name,
  after_dot, array_access, call, call_or_done, square_or, colons_or, dot_or, postfix_step, goes_on,
  loop_if, postfix_loop, parse_postfix_expression,
}
use aleotiktacto.Parser.Moves.{
  size, Ready, Moves, takes, Parses, Parses-pure, Parses-fail, Parses-bind, first, then_any,
  Parses-drop, Parses-less, Parses-if, Moves-if, Moves-and_then, later,
}
use aleotiktacto.Parser.Tokens.{bump_if-Moves, token_eq-is_eof}
use aleotiktacto.Parser.Reads.{
  Parses-node, Parses-node_at, Parses-emit_err, Parses-emit_if, Parses-eat, Parses-expect,
  Parses-expect_identifier, Parses-eat_whole_number,
}
use aleotiktacto.Parser.Total.{Parses-parse_paren_comma_list}

module _ {d : Bool} {n : ℕ} where
  Parses-invalid_call : (m : MethodCall) → Parses d n 0 (invalid_call m)
  unfolding invalid_call
  Parses-invalid_call m = first (Parses-emit_err _) λ u. Parses-node _ _

  Parses-core_call : (s : ℕ) (m : MethodCall) → Parses d n 0 (core_call s m)
  unfolding core_call
  Parses-core_call s m = first (Parses-node_at _) λ i. Parses-node _ _

  Parses-mapping_call_if : (o : Option ℕ) (m : MethodCall) → Parses d n 0 (mapping_call_if o m)
  unfolding mapping_call_if
  Parses-mapping_call_if none m = Parses-invalid_call m
  Parses-mapping_call_if (some k) m =
      Parses-if (k == length m.args) (Parses-core_call _ m) (Parses-invalid_call m)

  Parses-mapping_call : (m : MethodCall) → Parses d n 0 (mapping_call m)
  unfolding mapping_call
  Parses-mapping_call m = Parses-mapping_call_if _ m

  Parses-unary_call : (o : Option UnaryOperation) (m : MethodCall) → Parses d n 0 (unary_call o m)
  unfolding unary_call
  Parses-unary_call none m = Parses-mapping_call m
  Parses-unary_call (some op) m = Parses-node _ _

  Parses-binary_call :
      (o : Option BinaryOperation) (e : Expression) (m : MethodCall)
      → Parses d n 0 (binary_call o e m)
  unfolding binary_call
  Parses-binary_call none e m = Parses-mapping_call m
  Parses-binary_call (some op) e m = Parses-node _ _

  Parses-verify_call : (b : Bool) (m : MethodCall) → Parses d n 0 (verify_call b m)
  unfolding verify_call
  Parses-verify_call true m = Parses-core_call _ m
  Parses-verify_call false m = Parses-mapping_call m

  Parses-method_call : (es : List Expression) (m : MethodCall) → Parses d n 0 (method_call es m)
  unfolding method_call
  Parses-method_call [] m = Parses-unary_call _ m
  Parses-method_call (x ∷ []) m = Parses-binary_call _ x m
  Parses-method_call (x ∷ y ∷ []) m = Parses-verify_call _ m
  Parses-method_call (x ∷ y ∷ z ∷ es) m = Parses-mapping_call m

module _ {d : Bool} {n : ℕ} {p : M Expression} (h : Parses d n 1 p) where
  Parses-arguments : Parses d (suc n) 1 (arguments (suc n) p)
  unfolding arguments
  Parses-arguments = Parses-parse_paren_comma_list (omega arith) h

  Parses-method :
      (e : Expression) (m : Identifier) → Parses d n 0 (parse_method_call_expression (suc n) p e m)
  unfolding parse_method_call_expression
  Parses-method e m =
      Parses-drop (Parses-less (then_any Parses-arguments λ q. Parses-method_call _ _))

  Parses-associated :
      (e : Expression) → Parses d n 0 (parse_associated_access_expression (suc n) p e)
  unfolding parse_associated_access_expression associated_member associated_function
  Parses-associated (Expression.identifier i) = first (Parses-drop Parses-expect_identifier) λ name.
      record {
        apply = λ c ready lt.
            Moves-if (check Token.left_paren c)
              (λ e.
                (Parses-drop (Parses-less (then_any Parses-arguments λ q. Parses-node _ _))).apply c
                  ready lt)
              (λ e. (Parses-node _ _).apply c ready lt);
      }
  Parses-associated _ = Parses-fail _

  Parses-external_call : (e : Expression) → Parses d n 0 (external_call (suc n) p e)
  unfolding external_call is_eof
  Parses-external_call e = first (Parses-eat Token.div refl) λ b.
      first (Parses-drop Parses-expect_identifier)
        λ name. Parses-drop (Parses-less (then_any Parses-arguments λ q. Parses-node _ _))

  Parses-method_or_member :
      (e : Expression) (name : Identifier) → Parses d n 0 (method_or_member (suc n) p e name)
  unfolding method_or_member
  Parses-method_or_member e name = record {
    apply = λ c ready lt.
        Moves-if (check Token.left_paren c) (λ t. (Parses-method e name).apply c ready lt)
          (λ t. (Parses-node _ _).apply c ready lt);
  }

  Parses-leo_or_name : (b : Bool) (e : Expression) → Parses d n 0 (leo_or_name (suc n) p b e)
  unfolding leo_or_name
  Parses-leo_or_name true e = Parses-external_call e
  Parses-leo_or_name false e =
      first (Parses-drop Parses-expect_identifier) λ name. Parses-method_or_member e name

  Parses-after_dot : (e : Expression) → Parses d n 0 (after_dot (suc n) p e)
  unfolding after_dot tuple_access is_eof
  Parses-after_dot e = record {
    apply = λ c ready lt.
        Moves-if (is_integer c.token.token)
          (λ t. (first (Parses-drop Parses-eat_whole_number) λ i. Parses-node _ _).apply c ready lt)
          (λ t. (first (Parses-eat Token.leo refl) λ b. Parses-leo_or_name b e).apply c ready lt);
  }

  Parses-array_access : (e : Expression) → Parses d n 0 (array_access (suc n) p e)
  unfolding array_access is_eof
  Parses-array_access e =
      first (Parses-drop h)
        λ index. first (Parses-drop (Parses-expect Token.right_square refl)) λ s. Parses-node _ _

  Parses-call_or_done : (e : Expression) → Parses d (suc n) 0 (call_or_done (suc n) p e)
  unfolding call_or_done call
  Parses-call_or_done e = record {
    apply = λ c ready lt.
        Moves-if (check Token.left_paren c)
          (λ t.
            (first (Parses-emit_if _ _)
                λ u. Parses-drop (then_any Parses-arguments λ q. Parses-node _ _)).apply
              c ready lt)
          (λ t. (Parses-pure e).apply c ready lt);
  }

  -- One round takes a token where the loop has gone on to it.
  postfix_step-Moves :
      (k : ℕ) (e : Expression) (c : ParserContext)
      → Ready d c
      → size c < suc n
      → k ≤ 1
      → (check Token.dot c ≡ false → check Token.left_square c ≡ false → k ≤ 0)
      → Moves d k c (postfix_step (suc n) p e c)
  unfolding postfix_step dot_or colons_or square_or eat ◌>>=◌ is_eof
  postfix_step-Moves k e c ready lt le starts =
      bump_if-Moves _ (check Token.dot c) c ready (before_end Token.dot refl) le
        (λ t ready' moved. (Parses-after_dot e).apply (advanced c) ready' (omega arith))
        λ no_dot.
          bump_if-Moves _ (check Token.double_colon c) c ready (before_end Token.double_colon refl)
            le (λ t ready' moved. (Parses-associated e).apply (advanced c) ready' (omega arith))
            λ f.
              bump_if-Moves _ (check Token.left_square c) c ready
                (before_end Token.left_square refl) le
                (λ t ready' moved. (Parses-array_access e).apply (advanced c) ready' (omega arith))
                λ no_square.
                  later 0 0 ((Parses-call_or_done e).apply c ready lt) (omega arith)
                    (starts no_dot no_square)
    where
      before_end :
          (tok : Token) → is_eof tok ≡ false → check tok c ≡ true → is_eof c.token.token ≡ false
      before_end tok h t = token_eq-is_eof c.token.token tok (unfold check in t) h

  -- The loop ends where its fuel is not less than the tokens that are left.
  postfix_loop-Moves :
      (fuel m : ℕ) (e : Expression) (c : ParserContext)
      → m ≤ fuel
      → m ≤ suc n
      → Ready d c
      → size c < m
      → goes_on c ≡ true
      → Moves d 0 c (postfix_loop fuel (postfix_step (suc n) p) e c)
  unfolding postfix_loop loop_if goes_on ◌>>=◌ pure
  postfix_loop-Moves fuel zero e c le le' ready lt on = absurd (omega arith)
  postfix_loop-Moves zero (suc m) e c le le' ready lt on = absurd (omega arith)
  postfix_loop-Moves (suc fuel) (suc m) e c le le' ready lt on =
      Moves-and_then _
        (postfix_step-Moves 1 e c ready (omega arith) (omega arith)
          (λ s t. absurd (let wrong = rw (s, t) at on in cc)))
        (λ e' c' ready' moved.
          Moves-if (check Token.dot c' || check Token.left_square c')
            (postfix_loop-Moves fuel m e' c' (omega arith) (omega arith) ready' (omega arith))
            (λ t. takes ready' (omega arith)))
        (omega arith)

  Parses-postfix_loop :
      (e : Expression) → Parses d n 0 (postfix_loop (suc n) (postfix_step (suc n) p) e)
  unfolding postfix_loop loop_if ◌>>=◌ pure
  Parses-postfix_loop e = record {
    apply = λ c ready lt.
        Moves-and_then _
          (postfix_step-Moves 0 e c ready (omega arith) (omega arith) (λ s t. omega arith))
          (λ e' c' ready' moved.
            Moves-if (goes_on c')
              (postfix_loop-Moves n n e' c' (omega arith) (omega arith) ready' (omega arith))
              (λ t. takes ready' (omega arith)))
          (omega arith);
  }

  pub Parses-parse_postfix_expression :
      {q : M Expression}
      → Parses d (suc n) 1 q
      → Parses d (suc n) 1 (parse_postfix_expression (suc n) p q)
  unfolding parse_postfix_expression
  Parses-parse_postfix_expression h' =
      Parses-bind h' Parses-postfix_loop (omega arith) (omega arith)
