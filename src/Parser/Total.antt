-- ===== src/Parser/Total.antt =====
-- compiler/parser/src/parser: lists and types answer, and take a token where they succeed.
pub mod Binary
pub mod Groups
pub mod Primary
pub mod Postfix
pub mod Expressions
pub mod Statements
pub mod Blocks
use aleotiktacto.Prelude.{
  ℕ, zero, suc, ◌≤◌, ◌<◌, ◌≡◌, refl, Bool, true, false, Option, none, some, List, [], ◌∷◌,
  if◌then◌else◌, arith,
}
use aleotiktacto.Ast.{Span, Identifier, IntegerType, Ty}
use aleotiktacto.Token.{Token, any_eq, token_eq, discriminant, payload}
use aleotiktacto.Parser.{
  ParserContext, M, pure, ◌>>=◌, ◌>>◌, fail, and_then, get_context, is_eof, check, eat, expect,
  expect_any, eat_identifier,
}
use aleotiktacto.Parser.Lists.{
  Delimiter, parenthesis, brace, bracket, open_token, close_token, Parsed, push, eat_separator,
  next_round, element, elements, parse_list, always, parse_paren_comma_list,
  parse_bracket_comma_list,
}
use aleotiktacto.Parser.Types.{
  type_tokens, token_to_int_type, integer_type, primitive_type, parse_primitive_type, tuple_type,
  parse_array_type, parse_tuple_type, type_behind, parse_type,
}
use aleotiktacto.Parser.Moves.{
  size, Ready, Moves, takes, fails, stops, Parses, Parses-pure, Parses-fail, Parses-bind,
  Parses-weaken, first, then_any, then_less, Parses-drop, Parses-less, Moves-if,
}
use aleotiktacto.Parser.Reads.{
  Parses-expect, Parses-eat, Parses-get_context, Parses-eat_whole_number, eat_identifier-bind,
  expect_any-bind,
}

abbrev pub IsSeparator : Option Token → Type 0
IsSeparator none = Unit {0}
IsSeparator (some sep) = is_eof sep ≡ false

open_token-no_eof : (delimiter : Delimiter) → is_eof (open_token delimiter) ≡ false
unfolding is_eof open_token
open_token-no_eof parenthesis = refl
open_token-no_eof brace = refl
open_token-no_eof bracket = refl

close_token-no_eof : (delimiter : Delimiter) → is_eof (close_token delimiter) ≡ false
unfolding is_eof close_token
close_token-no_eof parenthesis = refl
close_token-no_eof brace = refl
close_token-no_eof bracket = refl

module _ {d : Bool} where
  Parses-eat_separator :
      {n : ℕ} (sep : Option Token) → IsSeparator sep → Parses d n 0 (eat_separator sep)
  unfolding eat_separator
  Parses-eat_separator none h = Parses-pure true
  Parses-eat_separator (some sep) h = Parses-eat sep h

  module _ {A : Type 0} where
    Parses-next_round :
        {n : ℕ} (again : List A → Bool → M (List A × Bool)) (list : List A) (more : Bool)
        → Parses d n 0 (again list true)
        → Parses d n 0 (next_round again list more)
    unfolding next_round
    Parses-next_round again list true h = h
    Parses-next_round again list false h = Parses-pure _

    -- The loop ends where its fuel is not less than the tokens that are left.
    pub Parses-elements :
        (fuel n : ℕ) (close : Token) (sep : Option Token) (inner : M (Option A)) (list : List A)
        (trailing : Bool)
        → IsSeparator sep
        → n ≤ fuel
        → Parses d n 1 inner
        → Parses d n 0 (elements fuel close sep inner list trailing)
    unfolding elements element
    Parses-elements fuel zero close sep inner list trailing h le p = record {
      apply = λ c ready lt. absurd (omega arith);
    }
    Parses-elements zero (suc n) close sep inner list trailing h le p = absurd (omega arith)
    Parses-elements (suc fuel) (suc n) close sep inner list trailing h le p = record {
      apply = λ c ready lt.
          elim (check close c)
            as (λ b. Moves d 0 c (
              if b
              then pure (list, trailing) c
              else element sep inner (elements fuel close sep inner) list c)) [
                | true ↦ (Parses-pure (list, trailing)).apply c ready lt
                | false ↦
                    (Parses-drop (
                        Parses-bind p
                          (λ elem. first (Parses-eat_separator sep h) λ more.
                            Parses-next_round _ _ more (
                              Parses-elements fuel n close sep inner (push list elem) true h
                                (omega arith) (Parses-less p)))
                          (omega arith) (omega arith))).apply
                      c ready lt
              ];
    }

    pub Parses-parse_list :
        {fuel n : ℕ} (delimiter : Delimiter) (sep : Option Token) {inner : M (Option A)}
        → IsSeparator sep
        → n ≤ fuel
        → Parses d n 1 inner
        → Parses d (suc n) 1 (parse_list fuel delimiter sep inner)
    unfolding parse_list
    Parses-parse_list {fuel} {n} delimiter sep {inner} h le p =
        then_less (Parses-expect _ (open_token-no_eof delimiter)) λ open_span.
          first (Parses-elements fuel n _ sep inner [] false h le p) λ r.
            Parses-drop (
              then_any (Parses-expect _ (close_token-no_eof delimiter)) λ close_span. Parses-pure _)

    Parses-always : {n : ℕ} {m : M A} → Parses d n 1 m → Parses d n 1 (always m)
    unfolding always
    Parses-always h = then_any h λ a. Parses-pure _

    pub Parses-parse_paren_comma_list :
        {fuel n : ℕ} {f : M A}
        → n ≤ fuel
        → Parses d n 1 f
        → Parses d (suc n) 1 (parse_paren_comma_list fuel f)
    unfolding parse_paren_comma_list is_eof
    Parses-parse_paren_comma_list le h = Parses-parse_list parenthesis _ refl le (Parses-always h)

    pub Parses-parse_bracket_comma_list :
        {fuel n : ℕ} {f : M A}
        → n ≤ fuel
        → Parses d n 1 f
        → Parses d (suc n) 1 (parse_bracket_comma_list fuel f)
    unfolding parse_bracket_comma_list is_eof
    Parses-parse_bracket_comma_list le h = Parses-parse_list bracket _ refl le (Parses-always h)

  pub Parses-integer_type : {n : ℕ} (t : IntegerType) → Parses d n 0 (integer_type (some t))
  unfolding integer_type
  Parses-integer_type t = Parses-pure t

  int_ty :
      {n : ℕ} (t : IntegerType) → Parses d n 0 (integer_type (some t) >>= λ t. pure (Ty.integer t))
  int_ty t = first (Parses-integer_type t) λ t. Parses-pure _

  Parses-primitive_type :
      {n : ℕ} (t : Token) → any_eq type_tokens t ≡ true → Parses d n 0 (primitive_type t)
  unfolding any_eq token_eq discriminant payload primitive_type token_to_int_type
  Parses-primitive_type Token.address h = Parses-pure _
  Parses-primitive_type Token.bool h = Parses-pure _
  Parses-primitive_type Token.field h = Parses-pure _
  Parses-primitive_type Token.group h = Parses-pure _
  Parses-primitive_type Token.scalar h = Parses-pure _
  Parses-primitive_type Token.signature h = Parses-pure _
  Parses-primitive_type Token.string h = Parses-pure _
  Parses-primitive_type Token.i8 h = int_ty _
  Parses-primitive_type Token.i16 h = int_ty _
  Parses-primitive_type Token.i32 h = int_ty _
  Parses-primitive_type Token.i64 h = int_ty _
  Parses-primitive_type Token.i128 h = int_ty _
  Parses-primitive_type Token.u8 h = int_ty _
  Parses-primitive_type Token.u16 h = int_ty _
  Parses-primitive_type Token.u32 h = int_ty _
  Parses-primitive_type Token.u64 h = int_ty _
  Parses-primitive_type Token.u128 h = int_ty _
  Parses-primitive_type _ h = absurd (cc)

  pub Parses-parse_primitive_type : {n : ℕ} → Parses d n 1 parse_primitive_type
  unfolding parse_primitive_type get_context ◌>>=◌ and_then is_eof
  Parses-parse_primitive_type = Parses-less (
      expect_any-bind _ type_tokens refl (λ span c h ready lt.
        (first (Parses-primitive_type c.prev_token.token h) λ t. Parses-pure _).apply c ready lt))

  Parses-tuple_type :
      {n : ℕ} (ts : List (Ty × Span)) (span : Span) → Parses d n 0 (tuple_type ts span)
  unfolding tuple_type
  Parses-tuple_type [] span = Parses-pure _
  Parses-tuple_type (t ∷ []) span = Parses-fail _
  Parses-tuple_type (t ∷ u ∷ ts) span = Parses-pure _

  module _ {n : ℕ} {p : M (Ty × Span)} (h : Parses d n 1 p) where
    Parses-parse_array_type : Parses d (suc n) 1 (parse_array_type p)
    unfolding parse_array_type is_eof
    Parses-parse_array_type = then_less (Parses-expect _ refl) λ s. Parses-drop (
        then_any h λ t. first (Parses-drop (Parses-expect _ refl)) λ s.
          first (Parses-drop Parses-eat_whole_number) λ n.
            first (Parses-drop (Parses-expect _ refl))
              λ s. first Parses-get_context λ c. Parses-pure _)

    Parses-parse_tuple_type : Parses d (suc n) 1 (parse_tuple_type (suc n) p)
    unfolding parse_tuple_type
    Parses-parse_tuple_type =
        then_any (Parses-parse_paren_comma_list (omega arith) h) λ types. Parses-tuple_type _ _

    Parses-type_behind : Parses d (suc n) 1 (type_behind (suc n) p none)
    unfolding type_behind
    Parses-type_behind = record {
      apply = λ c ready lt.
          Moves-if (token_eq c.token.token Token.left_square)
            (λ e. Parses-parse_array_type.apply c ready lt)
            λ e.
              Moves-if (token_eq c.token.token Token.left_paren)
                (λ e. Parses-parse_tuple_type.apply c ready lt)
                λ e. Parses-parse_primitive_type.apply c ready lt;
    }

  -- A type is parsed with fuel for the tokens that are left.
  pub Parses-parse_type : (fuel : ℕ) → Parses d fuel 1 (parse_type fuel)
  unfolding parse_type type_behind
  Parses-parse_type zero = record { apply = λ c ready lt. absurd (omega arith) }
  Parses-parse_type (suc fuel) =
      eat_identifier-bind _ (λ i. Parses-pure _) (Parses-type_behind (Parses-parse_type fuel))
        (omega arith)
