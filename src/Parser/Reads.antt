-- ===== src/Parser/Reads.antt =====
-- compiler/parser/src/parser/context.rs: how far the methods that expect a token, an identifier or a
-- number go, and those that take nothing.
use aleotiktacto.Prelude.{
  ℕ, suc, ◌+◌, ◌≤◌, ◌<◌, ◌≡◌, refl, Bool, true, false, ◌||◌, Option, none, some, List, [], ◌∷◌,
  arith, Bool-cases, Option-cases, inl, inr, ◌++◌,
}
use aleotiktacto.Ast.{Span, NodeInfo, Identifier}
use aleotiktacto.Interner
use aleotiktacto.Token.{Token, token_eq, any_eq}
use aleotiktacto.Parser.{
  ParserContext, ParserError, Shown, M, pure, and_then, ◌>>=◌, get_context, is_eof, advanced, bump,
  check, bump_if, eat, emit_err, emit_warning, emit_if, next_id, node_at, intern, known_text,
  as_str, mk_ident_prev, eat_name, eat_identifier, ok_or, fail, panics, expect_identifier, eat_any,
  eaten_or, expect, expect_any,
}
use aleotiktacto.Parser.Numbers.{
  parse_usize, non_negative, if_whole, whole_number, eat_whole_number, contains_underscore,
  leading_zero,
}
use aleotiktacto.Parser.Moves.{
  size, Ready, Moves, takes, fails, stops, Parses, Moves-and_then, Parses-pure, Parses-fail, first,
  Parses-less, later,
}
use aleotiktacto.Parser.Tokens.{
  token_eq-is_eof, no_eof, any_eq-is_eof, size-advanced, advanced-Ready, bump-Moves, eat-bind,
}

module _ {d : Bool} where
  module _ {n : ℕ} where
    pub Parses-get_context : Parses d n 0 get_context
    unfolding get_context
    Parses-get_context = record { apply = λ c ready lt. takes ready (omega arith) }

    pub Parses-emit_if : (b : Bool) (e : ParserError) → Parses d n 0 (emit_if b e)
    unfolding emit_if emit_err pure
    Parses-emit_if true e = record { apply = λ c ready lt. takes (same c ready) (omega arith) }
      where
        same : (c : ParserContext) → Ready d c → Ready d (record c { errors = c.errors ++ e ∷ [] })
        same c ready = record { not_past = ready.not_past; flag = ready.flag }
    Parses-emit_if false e = record { apply = λ c ready lt. takes ready (omega arith) }

    pub Parses-emit_err : (e : ParserError) → Parses d n 0 (emit_err e)
    unfolding emit_if
    Parses-emit_err e = Parses-emit_if true e

    pub Parses-emit_warning : (s : ℕ) (span : Span) → Parses d n 0 (emit_warning s span)
    unfolding emit_warning
    Parses-emit_warning s span = record {
      apply = λ c ready lt.
          takes (record { not_past = ready.not_past; flag = ready.flag }) (omega arith);
    }

    pub Parses-next_id : Parses d n 0 next_id
    unfolding next_id
    Parses-next_id = record {
      apply = λ c ready lt.
          takes (record { not_past = ready.not_past; flag = ready.flag }) (omega arith);
    }

    pub Parses-node_at : (span : Span) → Parses d n 0 (node_at span)
    unfolding node_at
    Parses-node_at span = record {
      apply = λ c ready lt.
          takes (record { not_past = ready.not_past; flag = ready.flag }) (omega arith);
    }

    pub Parses-intern : (s : List ℕ) → Parses d n 0 (intern s)
    unfolding intern
    Parses-intern s = record {
      apply = λ c ready lt.
          takes (record { not_past = ready.not_past; flag = ready.flag }) (omega arith);
    }

    pub Parses-as_str : (symbol : ℕ) → Parses d n 0 (as_str symbol)
    unfolding as_str known_text
    Parses-as_str symbol = record {
      apply = λ c ready lt. elim (Option-cases (Interner.get c.interned symbol)) [
        | inl e ↦ rw e (stops e)
        | inr (s, e) ↦ rw e (takes ready (omega arith))
      ];
    }

    pub Parses-node :
        {A : Type 0} (span : Span) (f : NodeInfo → A)
        → Parses d n 0 (node_at span >>= λ i. pure (f i))
    Parses-node span f = first (Parses-node_at span) λ i. Parses-pure (f i)

    Parses-mk_ident_prev : (name : ℕ) → Parses d n 0 (mk_ident_prev name)
    unfolding mk_ident_prev
    Parses-mk_ident_prev name =
        first Parses-get_context λ c. first (Parses-node_at _) λ i. Parses-pure _

    pub Parses-eaten_or : (s : Shown) (b : Bool) → Parses d n 0 (eaten_or s b)
    unfolding eaten_or
    Parses-eaten_or s true = first Parses-get_context λ c. Parses-pure _
    Parses-eaten_or s false = first Parses-get_context λ c. Parses-fail _

    not_eaten : (s : Shown) → Parses d n 1 (eaten_or s false)
    unfolding eaten_or
    not_eaten s = first Parses-get_context λ c. Parses-fail _

    pub Parses-expect : (tok : Token) → is_eof tok ≡ false → Parses d n 1 (expect tok)
    unfolding expect
    Parses-expect tok e =
        eat-bind _ tok e (Parses-eaten_or (Shown.token tok) true) (not_eaten _) (omega arith)
          (omega arith)

    -- `expect_any`, and what is known of the token that was eaten.
    pub expect_any-bind :
        {A : Type 0} (f : Span → M A) (toks : List Token)
        → no_eof toks ≡ true
        → ((span : Span) (c : ParserContext)
            → any_eq toks c.prev_token.token ≡ true
            → Ready d c
            → size c < n
            → Moves d 0 c (f span c))
        → Parses d (suc n) 1 (expect_any toks >>= f)
    unfolding expect_any ◌>>=◌ eaten_or get_context pure fail eat_any and_then bump_if bump advanced
    expect_any-bind f toks e h = record {
      apply = λ c ready lt. elim (Bool-cases (any_eq toks c.token.token)) [
        | inl b ↦
            rw (b, ready.not_past)
              (later 1 0
                (h _ (advanced c) b (advanced-Ready c ready (any_eq-is_eof toks _ e b))
                  (reach c lt (size-advanced c (any_eq-is_eof toks _ e b))))
                (size-advanced c (any_eq-is_eof toks _ e b)) (omega arith))
        | inr b ↦ rw b fails
      ];
    }
      where
        reach :
            (c : ParserContext)
            → size c < suc n
            → size (advanced c) + 1 ≤ size c
            → size (advanced c) < n
        reach c lt h = omega arith

    -- An identifier eaten, and what follows in either case.
    eat_name-Moves :
        {A : Type 0} {k : ℕ} (f : Option Identifier → M A) (t : Token) (c : ParserContext)
        → Ready d c
        → size c < suc n
        → c.token.token ≡ t
        → ((i : Identifier) → Parses d n 0 (f (some i)))
        → Parses d (suc n) k (f none)
        → k ≤ 1
        → Moves d k c (and_then (eat_name t c) f)
    unfolding eat_name ◌>>=◌ and_then bump advanced intern mk_ident_prev get_context node_at pure
        is_eof
    eat_name-Moves {k} f (Token.identifier s) c ready lt e h h' le = rw ready.not_past (
        later 1 0
          ((h _).apply _ record { not_past = rw e refl; flag = ready.flag } (omega (arith, moved)))
          moved (omega arith))
      where
        ready' : Ready d (advanced c)
        ready' = advanced-Ready c ready (rw e refl)

        moved : size (advanced c) + 1 ≤ size c
        moved = size-advanced c (rw e refl)
    eat_name-Moves f _ c ready lt e h h' le = h'.apply c ready lt

    pub eat_identifier-bind :
        {A : Type 0} {k : ℕ} (f : Option Identifier → M A)
        → ((i : Identifier) → Parses d n 0 (f (some i)))
        → Parses d (suc n) k (f none)
        → k ≤ 1
        → Parses d (suc n) k (eat_identifier >>= f)
    unfolding eat_identifier ◌>>=◌
    eat_identifier-bind f h h' le = record {
      apply = λ c ready lt. eat_name-Moves f c.token.token c ready lt refl h h' le;
    }

    Parses-if_whole : (b : Bool) (s : List ℕ) (c : ParserContext) → Parses d n 0 (if_whole b s c)
    unfolding if_whole non_negative panics ◌>>=◌ and_then pure
    Parses-if_whole true s c = Parses-fail _
    Parses-if_whole false s c = elim (Option-cases (parse_usize s)) [
      | inl e ↦ rw e (record { apply = λ c ready lt. stops e })
      | inr (k, e) ↦ rw e (record { apply = λ c ready lt. takes ready (omega arith) })
    ]

    whole_number-Moves :
        (t : Token) (c : ParserContext)
        → Ready d c
        → size c < n
        → c.token.token ≡ t
        → Moves d 1 c (whole_number t c)
    unfolding whole_number ◌>>=◌ is_eof and_then get_context fail
    whole_number-Moves (Token.integer s) c ready lt e =
        Moves-and_then _ (bump-Moves c ready (rw e refl))
          (λ u c' ready' moved.
            (first Parses-get_context
                λ x. Parses-if_whole (leading_zero s || contains_underscore s) s x).apply
              c' ready' (omega arith))
          (omega arith)
    whole_number-Moves _ c ready lt e = fails

    pub Parses-eat_whole_number : Parses d n 1 eat_whole_number
    unfolding eat_whole_number
    Parses-eat_whole_number = record {
      apply = λ c ready lt. whole_number-Moves c.token.token c ready lt refl;
    }

  pub Parses-expect_identifier : {n : ℕ} → Parses d n 1 expect_identifier
  unfolding expect_identifier ok_or
  Parses-expect_identifier = Parses-less (
      first Parses-get_context
        λ c. eat_identifier-bind _ (λ i. Parses-pure i) (Parses-fail _) (omega arith))

  pub Parses-eat : {n : ℕ} (tok : Token) → is_eof tok ≡ false → Parses d n 0 (eat tok)
  unfolding eat check bump_if bump ◌>>=◌ and_then pure
  Parses-eat tok h = record {
    apply = λ c ready lt. elim (Bool-cases (token_eq c.token.token tok)) [
      | inl b ↦
          rw (b, ready.not_past)
            (takes (advanced-Ready c ready (token_eq-is_eof c.token.token tok b h))
              (omega (arith, size-advanced c (token_eq-is_eof c.token.token tok b h))))
      | inr b ↦ rw b (takes ready (omega arith))
    ];
  }
