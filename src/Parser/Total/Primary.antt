-- ===== src/Parser/Total/Primary.antt =====
-- compiler/parser/src/parser/expression.rs: primary expressions answer, and take a token.
use aleotiktacto.Prelude.{
  ℕ, suc, ◌<◌, ◌≡◌, ◌≢◌, refl, Bool, true, false, ◌&&◌, not, Option, none, some, List, [], ◌∷◌,
  if◌then◌else◌, arith, Option-cases, inl, inr,
}
use aleotiktacto.Ast.{Span, Identifier, IntegerType, Expression}
use aleotiktacto.Token.{Token, token_eq, any_eq, discriminant, payload, keyword_to_symbol}
use aleotiktacto.Parser.{ParserContext, M, ◌>>=◌, ◌>>◌, and_then, is_eof, check, bump, fail}
use aleotiktacto.Parser.Lists.{brace}
use aleotiktacto.Parser.Types.{type_tokens, token_to_int_type, integer_type}
use aleotiktacto.Parser.Groups.{assert_no_whitespace}
use aleotiktacto.Parser.Primary.{
  int_types, tuple_expression, array_expression, suffixed, suffixed_if, number_literal, named,
  type_name, tuple_or, parse_tuple_expression, parse_array_expression, member_name, eat_underscore,
  member_value, parse_struct_member, parse_struct_init_expression, identifier_or_struct, primary,
  parse_primary_expression,
}
use aleotiktacto.Parser.Moves.{
  size, Ready, Moves, fails, Parses, Parses-pure, Parses-fail, first, then_any, Parses-drop,
  Parses-less, Parses-if, Moves-if, Moves-and_then,
}
use aleotiktacto.Parser.Tokens.{bump-Moves, eat_any-bind}
use aleotiktacto.Parser.Reads.{
  Parses-node, Parses-node_at, Parses-next_id, Parses-intern, Parses-as_str, Parses-emit_if,
  Parses-eat, Parses-expect_identifier,
}
use aleotiktacto.Parser.Total.{
  Parses-parse_list, Parses-always, Parses-parse_paren_comma_list, Parses-parse_bracket_comma_list,
  Parses-integer_type,
}
use aleotiktacto.Parser.Total.Groups.{Parses-assert_no_whitespace, eat_group_partial-Moves}

type-keyword : (t : Token) → any_eq type_tokens t ≡ true → keyword_to_symbol t ≢ none
unfolding any_eq token_eq discriminant payload keyword_to_symbol
type-keyword Token.address h = cc
type-keyword Token.bool h = cc
type-keyword Token.field h = cc
type-keyword Token.group h = cc
type-keyword Token.scalar h = cc
type-keyword Token.signature h = cc
type-keyword Token.string h = cc
type-keyword Token.i8 h = cc
type-keyword Token.i16 h = cc
type-keyword Token.i32 h = cc
type-keyword Token.i64 h = cc
type-keyword Token.i128 h = cc
type-keyword Token.u8 h = cc
type-keyword Token.u16 h = cc
type-keyword Token.u32 h = cc
type-keyword Token.u64 h = cc
type-keyword Token.u128 h = cc
type-keyword _ h = absurd (cc)

module _ {d : Bool} {n : ℕ} where
  pub Parses-tuple_expression :
      (es : List Expression) (b : Bool) (span : Span) → Parses d n 0 (tuple_expression es b span)
  unfolding tuple_expression
  Parses-tuple_expression [] b span = Parses-node _ _
  Parses-tuple_expression (e ∷ []) b span = Parses-if b (Parses-fail _) (Parses-pure _)
  Parses-tuple_expression (e ∷ e' ∷ es) b span = Parses-node _ _

  Parses-array_expression :
      (es : List Expression) (span : Span) → Parses d n 0 (array_expression es span)
  unfolding array_expression
  Parses-array_expression [] span = Parses-fail _
  Parses-array_expression (e ∷ es) span = Parses-node _ _

  Parses-named : (name : ℕ) (span : Span) → Parses d n 0 (named name span)
  unfolding named
  Parses-named name span = Parses-node _ _

  module _ (value : List ℕ) (span suffix_span : Span) where
    integer_suffix :
        (t : IntegerType) (s : List ℕ) (f : IntegerType → M Expression)
        → ((t : IntegerType) → Parses d n 0 (f t))
        → Parses d n 0
            (assert_no_whitespace span suffix_span value s >> (integer_type (some t) >>= f))
    integer_suffix t s f h =
        first (Parses-assert_no_whitespace _ _ _ _) λ u. first (Parses-integer_type t) h

    Parses-suffixed :
        (t : Token) → any_eq int_types t ≡ true → Parses d n 0 (suffixed t value span suffix_span)
    unfolding any_eq token_eq discriminant payload suffixed token_to_int_type
    Parses-suffixed Token.field h = first (Parses-assert_no_whitespace _ _ _ _) λ u. Parses-node _ _
    Parses-suffixed Token.group h = first (Parses-assert_no_whitespace _ _ _ _) λ u. Parses-node _ _
    Parses-suffixed Token.scalar h =
        first (Parses-assert_no_whitespace _ _ _ _) λ u. Parses-node _ _
    Parses-suffixed Token.i8 h = integer_suffix _ _ _ λ t. Parses-node _ _
    Parses-suffixed Token.i16 h = integer_suffix _ _ _ λ t. Parses-node _ _
    Parses-suffixed Token.i32 h = integer_suffix _ _ _ λ t. Parses-node _ _
    Parses-suffixed Token.i64 h = integer_suffix _ _ _ λ t. Parses-node _ _
    Parses-suffixed Token.i128 h = integer_suffix _ _ _ λ t. Parses-node _ _
    Parses-suffixed Token.u8 h = integer_suffix _ _ _ λ t. Parses-node _ _
    Parses-suffixed Token.u16 h = integer_suffix _ _ _ λ t. Parses-node _ _
    Parses-suffixed Token.u32 h = integer_suffix _ _ _ λ t. Parses-node _ _
    Parses-suffixed Token.u64 h = integer_suffix _ _ _ λ t. Parses-node _ _
    Parses-suffixed Token.u128 h = integer_suffix _ _ _ λ t. Parses-node _ _
    Parses-suffixed _ h = absurd (cc)

  Parses-type_name :
      (t : Token) (span : Span)
      → any_eq type_tokens t ≡ true
      → Parses d n 0 (type_name (keyword_to_symbol t) span)
  unfolding type_name
  Parses-type_name t span h = elim (Option-cases (keyword_to_symbol t)) [
    | inl e ↦ absurd (type-keyword t h e)
    | inr (s, e) ↦ rw e (first (Parses-intern s) λ name. Parses-named name span)
  ]

  Parses-type_or_fail :
      (t : Token) (span : Span) (b : Bool) {m : M Expression}
      → any_eq type_tokens t ≡ b
      → Parses d n 0 m
      → Parses d n 0 (if b then type_name (keyword_to_symbol t) span else m)
  Parses-type_or_fail t span true e h = Parses-type_name t span e
  Parses-type_or_fail t span false e h = h

module _ {d : Bool} {n : ℕ} where
  Parses-number_literal : (value : List ℕ) (span : Span) → Parses d n 0 (number_literal value span)
  unfolding number_literal is_eof suffixed_if fail
  Parses-number_literal value span = record {
    apply = λ c ready lt.
        (eat_any-bind _ int_types {n' = n} refl
            (λ c' h ready' lt'.
              (Parses-suffixed value span c.token.span c'.prev_token.token h).apply c' ready' lt')
            (record { apply = λ c ready lt. fails }) (omega arith) (omega arith)).apply
          c ready lt;
  }

  Parses-member_name : (b : Bool) → Parses d n 1 (member_name b)
  unfolding member_name
  Parses-member_name true = then_any Parses-expect_identifier λ i.
      first (Parses-as_str _)
        λ text. first (Parses-intern _) λ name. first Parses-next_id λ id. Parses-pure _
  Parses-member_name false = Parses-expect_identifier

  Parses-eat_underscore : Parses d n 0 eat_underscore
  unfolding eat_underscore is_eof
  Parses-eat_underscore = record {
    apply = λ c ready lt.
        Moves-if c.allow_identifier_underscores
          (λ e. (Parses-eat Token.underscore refl).apply c ready lt)
          (λ e. (Parses-pure false).apply c ready lt);
  }

  module _ {p : M Expression} (h : Parses d n 1 p) where
    Parses-member_value : (b : Bool) (i : Identifier) → Parses d n 0 (member_value p b i)
    unfolding member_value
    Parses-member_value true i = first (Parses-drop h) λ e. Parses-pure _
    Parses-member_value false i = Parses-pure _

    Parses-parse_struct_member : Parses d n 1 (parse_struct_member p)
    unfolding parse_struct_member is_eof
    Parses-parse_struct_member = first Parses-eat_underscore λ u.
        then_any (Parses-member_name u) λ i.
          first (Parses-eat Token.colon refl)
            λ b. first (Parses-member_value b i) λ v. Parses-node _ _

-- `n` is the fuel of the expressions within.
module _ (is_address : List ℕ → Bool) {d : Bool} {n : ℕ} {p : M Expression}
    (h : Parses d n 1 p) where
  Parses-tuple_or : (o : Option Expression) → Parses d n 0 (tuple_or is_address (suc n) p o)
  unfolding tuple_or
  Parses-tuple_or (some e) = Parses-pure e
  Parses-tuple_or none = Parses-drop (
      Parses-less (
        then_any (Parses-parse_paren_comma_list (omega arith) h)
          λ q. Parses-tuple_expression _ _ _))

  Parses-tuple_none : Parses d (suc n) 1 (tuple_or is_address (suc n) p none)
  unfolding tuple_or
  Parses-tuple_none =
      then_any (Parses-parse_paren_comma_list (omega arith) h) λ q. Parses-tuple_expression _ _ _

  Parses-parse_array_expression : Parses d (suc n) 1 (parse_array_expression is_address (suc n) p)
  unfolding parse_array_expression
  Parses-parse_array_expression =
      then_any (Parses-parse_bracket_comma_list (omega arith) h) λ q. Parses-array_expression _ _

  Parses-struct_init :
      (i : Identifier) → Parses d n 0 (parse_struct_init_expression is_address (suc n) p i)
  unfolding parse_struct_init_expression is_eof
  Parses-struct_init i = Parses-drop (
      Parses-less (
        then_any
          (Parses-parse_list brace (some Token.comma) refl (omega arith)
            (Parses-always (Parses-parse_struct_member h)))
          λ q. Parses-node _ _))

  Parses-identifier_or_struct :
      (i : Identifier) → Parses d n 0 (identifier_or_struct is_address (suc n) p i)
  unfolding identifier_or_struct
  Parses-identifier_or_struct i = record {
    apply = λ c ready lt.
        Moves-if (not c.disallow && check Token.left_curly c)
          (λ e. (Parses-struct_init i).apply c ready lt)
          (λ e. (Parses-pure (Expression.identifier i)).apply c ready lt);
  }

  Parses-primary : (t : Token) (span : Span) → Parses d n 0 (primary is_address (suc n) p t span)
  unfolding primary
  Parses-primary (Token.integer value) span = Parses-number_literal value span
  Parses-primary Token.true_ span = Parses-node _ _
  Parses-primary Token.false_ span = Parses-node _ _
  Parses-primary (Token.address_lit s) span = first (Parses-emit_if _ _) λ u. Parses-node _ _
  Parses-primary (Token.static_string s) span = Parses-node _ _
  Parses-primary (Token.identifier s) span =
      first (Parses-intern s)
        λ name. first (Parses-node_at span) λ info. Parses-identifier_or_struct _
  Parses-primary Token.self_lower span = Parses-named _ _
  Parses-primary Token.block span = Parses-named _ _
  Parses-primary t span = Parses-type_or_fail t span _ refl (Parses-fail _)

  -- At the end the token is read, and the error is returned.
  end-Moves :
      (c : ParserContext)
      → Ready d c
      → (span : Span)
      → Moves d 1 c (and_then (bump c) (λ u. primary is_address (suc n) p Token.eof span))
  unfolding bump and_then primary any_eq token_eq discriminant payload fail
  end-Moves c ready span = rw ready.not_past fails

  bumped-Moves :
      (t : Token) (c : ParserContext)
      → Ready d c
      → size c < suc n
      → c.token.token ≡ t
      → (span : Span) → Moves d 1 c (and_then (bump c) (λ u. primary is_address (suc n) p t span))
  unfolding is_eof
  bumped-Moves Token.eof c ready lt e span = end-Moves c ready span
  bumped-Moves t c ready lt e span =
      Moves-and_then _ (bump-Moves c ready (rw e refl))
        (λ u c' ready' moved. (Parses-primary t span).apply c' ready' (omega arith)) (omega arith)

  -- At `(`, at `[`, and elsewhere.
  pub Parses-parse_primary_expression :
      Parses d (suc n) 1 (parse_primary_expression is_address (suc n) p)
  unfolding parse_primary_expression parse_tuple_expression ◌>>=◌
  Parses-parse_primary_expression = record {
    apply = λ c ready lt.
        Moves-if (token_eq c.token.token Token.left_paren)
          (λ e.
            eat_group_partial-Moves _ c ready (unfold check in e)
              (λ o c' ready' moved. (Parses-tuple_or o).apply c' ready' (omega arith))
              (Parses-tuple_none.apply c ready lt))
          λ e.
            Moves-if (token_eq c.token.token Token.left_square)
              (λ e. Parses-parse_array_expression.apply c ready lt)
              λ e. bumped-Moves c.token.token c ready lt refl c.token.span;
  }
