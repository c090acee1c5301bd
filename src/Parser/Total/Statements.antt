-- ===== src/Parser/Total/Statements.antt =====
-- compiler/parser/src/parser/statement.rs: statements answer, and take a token where they succeed.
use aleotiktacto.Prelude.{
  ℕ, suc, ◌<◌, ◌≡◌, refl, Bool, true, false, Option, none, some, [], ◌∷◌, arith,
}
use aleotiktacto.Ast.{Span, BinaryOperation, Expression}
use aleotiktacto.Token.{Token, any_eq, token_eq, discriminant, payload}
use aleotiktacto.Parser.{ParserContext, Outcome, M, pure, ◌>>=◌, and_then, is_eof, check}
use aleotiktacto.Parser.Statements.{
  assign_tokens, assign_op, assigned, warn, set_disallow, without_structs, two_expressions,
  assert_variant, parse_assert_statement, assignment, assign_or_expression, parse_assign_statement,
  returned, finalize_arguments, finalized, parse_return_statement, parse_typed_ident,
  parse_const_declaration_statement, parse_definition_statement,
}
use aleotiktacto.Parser.Moves.{
  size, Ready, Moves, takes, fails, stops, Parses, Parses-pure, first, then_any, Parses-drop,
  Parses-less,
}
use aleotiktacto.Parser.Tokens.{eat_any-bind}
use aleotiktacto.Parser.Reads.{
  Parses-get_context, Parses-node, Parses-next_id, Parses-emit_warning, Parses-expect,
  Parses-expect_identifier, expect_any-bind,
}
use aleotiktacto.Parser.Total.{Parses-parse_paren_comma_list, Parses-parse_type}

module _ {d : Bool} {n : ℕ} where
  Parses-assign_op : (t : Token) → any_eq assign_tokens t ≡ true → Parses d n 0 (assign_op t)
  unfolding any_eq token_eq discriminant payload assign_op
  Parses-assign_op Token.assign h = Parses-pure _
  Parses-assign_op Token.add_assign h = Parses-pure _
  Parses-assign_op Token.sub_assign h = Parses-pure _
  Parses-assign_op Token.mul_assign h = Parses-pure _
  Parses-assign_op Token.div_assign h = Parses-pure _
  Parses-assign_op Token.rem_assign h = Parses-pure _
  Parses-assign_op Token.pow_assign h = Parses-pure _
  Parses-assign_op Token.or_assign h = Parses-pure _
  Parses-assign_op Token.and_assign h = Parses-pure _
  Parses-assign_op Token.bit_and_assign h = Parses-pure _
  Parses-assign_op Token.bit_or_assign h = Parses-pure _
  Parses-assign_op Token.bit_xor_assign h = Parses-pure _
  Parses-assign_op Token.shr_assign h = Parses-pure _
  Parses-assign_op Token.shl_assign h = Parses-pure _
  Parses-assign_op _ h = absurd (cc)

  Parses-assigned :
      (o : Option BinaryOperation) (l v : Expression) (s : Span) → Parses d n 0 (assigned o l v s)
  unfolding assigned
  Parses-assigned none l v s = Parses-pure _
  Parses-assigned (some op) l v s = Parses-node _ _

  Parses-warn : (o : Option ℕ) (s : Span) → Parses d n 0 (warn o s)
  unfolding warn
  Parses-warn none s = Parses-pure _
  Parses-warn (some x) s = Parses-emit_warning x s

-- A method that is run where struct expressions are not allowed.
pub Parses-without_structs :
    {A : Type 0} {n : ℕ} {p : M A} → Parses true n 1 p → Parses false n 1 (without_structs p)
unfolding without_structs set_disallow ◌>>=◌ and_then pure
Parses-without_structs {p} h = record {
  apply = λ c ready lt. reset c _ (
      h.apply (record c { disallow = true }) (record { not_past = ready.not_past; flag = refl })
        lt);
}
  where
    reset :
        {A : Type 0} (c : ParserContext) (r : Outcome A)
        → Moves true 1 (record c { disallow = true }) r
        → Moves false 1 c (and_then r λ a c'. Outcome.ok a (record c' { disallow = false }))
    reset c _ (takes ready le) = takes (record { not_past = ready.not_past; flag = refl }) le
    reset c _ fails = fails
    reset c _ (stops p) = stops p

module _ {d : Bool} {n : ℕ} {p : M Expression} (h : Parses d (suc n) 1 p) where
  pub Parses-two_expressions : Parses d (suc n) 0 (two_expressions (suc n) p)
  unfolding two_expressions is_eof
  Parses-two_expressions = first (Parses-drop h) λ l.
      first (Parses-drop (Parses-expect Token.comma refl))
        λ s. first (Parses-drop h) λ r. Parses-pure _

  -- One of the three tests is met.
  pub Parses-asserts :
      (a b c : Bool)
      → Parses d (suc n) 0 (assert_variant (suc n) p a b c)
      → (x : ParserContext) → Ready d x
      → size x < suc n
      → check Token.assert x ≡ a
      → check Token.assert_eq x ≡ b
      → check Token.assert_neq x ≡ c
      → Moves d 1 x (parse_assert_statement (suc n) p x)
  unfolding parse_assert_statement is_eof
  Parses-asserts a b c v x ready lt e f g =
      rw (e, f, g)
        ((expect_any-bind _ (Token.assert ∷ Token.assert_eq ∷ Token.assert_neq ∷ []) refl
            (λ span c' t ready' lt'.
              (first {n = n} (Parses-drop (Parses-expect Token.left_paren refl)) λ s.
                  first (Parses-less v) λ variant.
                    first (Parses-drop (Parses-expect Token.right_paren refl)) λ s'.
                      first (Parses-drop (Parses-expect Token.semicolon refl))
                        λ s''. Parses-node _ _).apply
                c' ready' lt')).apply
          x ready lt)

  Parses-assignment :
      (e : Expression) (o : Option BinaryOperation) → Parses d n 0 (assignment (suc n) p e o)
  unfolding assignment is_eof
  Parses-assignment e o = first (Parses-drop (Parses-less h)) λ v.
      first (Parses-drop (Parses-expect Token.semicolon refl))
        λ s. first Parses-next_id λ id. first (Parses-assigned o _ v _) λ v'. Parses-node _ _

  pub Parses-parse_assign_statement : Parses d (suc n) 1 (parse_assign_statement (suc n) p)
  unfolding parse_assign_statement assign_or_expression is_eof
  Parses-parse_assign_statement = then_any h λ e.
      eat_any-bind _ assign_tokens {n' = n} refl
        (λ c t ready lt.
          (first (Parses-assign_op c.prev_token.token t) λ o. Parses-assignment e o).apply c ready
            lt)
        (record {
          apply = λ c ready lt.
              (first (Parses-warn _ _) λ u.
                  first (Parses-drop (Parses-expect Token.semicolon refl))
                    λ s. Parses-node _ _).apply
                c ready lt;
        })
        (omega arith) (omega arith)

  Parses-returned : (t : Token) → Parses d (suc n) 0 (returned (suc n) p t)
  unfolding returned
  Parses-returned Token.semicolon = record {
    apply = λ c ready lt. (Parses-node c.token.span Expression.unit).apply c ready lt;
  }
  Parses-returned Token.then_ = record {
    apply = λ c ready lt. (Parses-node c.token.span Expression.unit).apply c ready lt;
  }
  Parses-returned _ = record { apply = (Parses-drop h).apply }

  Parses-finalize_arguments : (t : Token) → Parses d (suc n) 0 (finalize_arguments (suc n) p t)
  unfolding finalize_arguments
  Parses-finalize_arguments Token.semicolon = Parses-pure _
  Parses-finalize_arguments Token.left_paren =
      Parses-drop
        (then_any (Parses-parse_paren_comma_list (omega arith) (Parses-less h)) λ l. Parses-pure _)
  Parses-finalize_arguments _ = first (Parses-drop h) λ e. Parses-pure _

  Parses-finalized : (t : Token) → Parses d (suc n) 0 (finalized (suc n) p t)
  unfolding finalized is_eof
  Parses-finalized Token.then_ = first (Parses-drop (Parses-expect Token.then_ refl)) λ s.
      first (Parses-drop (Parses-expect Token.finalize refl))
        λ s'. first Parses-get_context λ c. Parses-finalize_arguments c.token.token
  Parses-finalized _ = Parses-pure _

  pub Parses-parse_return_statement : Parses d (suc n) 1 (parse_return_statement (suc n) p)
  unfolding parse_return_statement is_eof
  Parses-parse_return_statement = then_any (Parses-expect Token.return refl) λ start.
      first Parses-get_context λ c. first (Parses-returned c.token.token) λ e.
        first Parses-get_context λ c'.
          first (Parses-finalized c'.token.token)
            λ args. first (Parses-drop (Parses-expect Token.semicolon refl)) λ s. Parses-node _ _

  pub Parses-const : Parses d (suc n) 1 (parse_const_declaration_statement (suc n) p)
  unfolding parse_const_declaration_statement parse_typed_ident is_eof
  Parses-const = then_any (Parses-expect Token.const refl) λ s.
      first
        (first (Parses-drop Parses-expect_identifier) λ i.
          first (Parses-drop (Parses-expect Token.colon refl))
            λ s'. first (Parses-drop (Parses-parse_type (suc n))) λ t. Parses-pure _)
        λ q. first (Parses-drop (Parses-expect Token.assign refl)) λ s'.
          first (Parses-drop h)
            λ v. first (Parses-drop (Parses-expect Token.semicolon refl)) λ s''. Parses-node _ _

  pub Parses-definition : Parses d (suc n) 1 (parse_definition_statement (suc n) p)
  unfolding parse_definition_statement is_eof
  Parses-definition = then_any (Parses-expect Token.let_ refl) λ s. first (Parses-drop h) λ place.
      first (Parses-drop (Parses-expect Token.colon refl)) λ s1.
        first (Parses-drop (Parses-parse_type (suc n))) λ t.
          first (Parses-drop (Parses-expect Token.assign refl)) λ s2.
            first (Parses-drop h)
              λ v. first (Parses-drop (Parses-expect Token.semicolon refl)) λ s3. Parses-node _ _
