-- ===== src/Parser/Numbers.antt =====
-- compiler/parser/src/parser/context.rs: whole numbers, which are tuple indices and array lengths.
use aleotiktacto.Prelude.{
  ℕ, ◌+◌, ◌-◌, ◌*◌, ◌^◌, Bool, true, false, ◌&&◌, ◌||◌, Option, none, some, List, [], ◌∷◌, ltb, leb,
  ◌==◌, if◌then◌else◌, codes,
}
use aleotiktacto.Ast.{Span}
use aleotiktacto.Token.{Token}
use aleotiktacto.Parser.{
  ParserContext, Shown, not_usize, tuple_index_must_be_whole_number, unexpected, M, pure, fail,
  panics, ◌>>=◌, ◌>>◌, get_context, bump,
}

-- `usize::from_str` on a text with no sign: the value of the digits, where it is below 2^64.
unfoldable pub digits : ℕ → List ℕ → Option ℕ
digits n [] = some n
digits n (d ∷ s) =
    let rest = digits (10 * n + (d - b'0')) s in
    if leb b'0' d && leb d b'9' && ltb (10 * n + (d - b'0')) (2 ^ 64) then rest else none

unfoldable pub parse_usize : List ℕ → Option ℕ
parse_usize [] = none
parse_usize (d ∷ s) = digits 0 (d ∷ s)

-- `NonNegativeNumber::from`
unfoldable pub non_negative : List ℕ → Option ℕ → M ℕ
non_negative value none = panics (not_usize value)
non_negative value (some n) = pure n

unfoldable pub contains_underscore : List ℕ → Bool
contains_underscore [] = false
contains_underscore (d ∷ s) = d == b'_' || contains_underscore s

unfoldable pub leading_zero : List ℕ → Bool
leading_zero (d ∷ e ∷ s) = d == b'0'
leading_zero _ = false

-- `c` is the context behind the number: the error is made from the token there.
unfoldable pub if_whole : Bool → List ℕ → ParserContext → M (ℕ × Span)
if_whole true value c = fail (tuple_index_must_be_whole_number c.token.token c.token.span)
if_whole false value c = do n ← non_negative value (parse_usize value); pure (n, c.prev_token.span)

unfoldable pub whole_number : Token → M (ℕ × Span)
whole_number (Token.integer value) = do
  bump
  c ← get_context
  if_whole (leading_zero value || contains_underscore value) value c
whole_number tok = do
  c ← get_context
  fail (unexpected (Shown.token tok) (Shown.text (codes "integer literal")) c.token.span)

unfoldable pub eat_whole_number : M (ℕ × Span)
eat_whole_number c = whole_number c.token.token c
