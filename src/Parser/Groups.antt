-- ===== src/Parser/Groups.antt =====
-- compiler/parser/src/parser/expression.rs: affine group literals, which are found by looking ahead.
use aleotiktacto.Prelude.{
  ℕ, zero, suc, Option, none, some, List, [], ◌∷◌, ◌++◌, ◌==◌, codes, if◌then◌else◌,
}
use aleotiktacto.Ast.{Span, GroupCoordinate, GroupLiteral, Literal, Expression}
use aleotiktacto.Token.{Token, token_eq}
use aleotiktacto.Parser.{
  ParserContext, M, pure, fail, panics, ◌>>=◌, ◌>>◌, ahead, bump, check, node_at, join,
  unexpected_whitespace, unreachable,
}

abbrev pub and_also : {A B : Type 0} → Option A → (A → Option B) → Option B
and_also none f = none
and_also (some a) f = f a

-- The coordinate that begins with a token at `dist`, and the distance behind it; `following` is the
-- token behind.
unfoldable pub sign_low_or : ℕ → Token → Span → ℕ × GroupCoordinate
sign_low_or dist (Token.integer value) span =
    (suc (suc dist), GroupCoordinate.number (b'-' ∷ value) span)
sign_low_or dist _ span = (suc dist, GroupCoordinate.sign_low)

unfoldable pub coordinate : ℕ → Token → Span → ParserContext → Option (ℕ × GroupCoordinate)
coordinate dist Token.add span c = some (suc dist, GroupCoordinate.sign_high)
coordinate dist Token.sub span c =
    some (sign_low_or dist (ahead (suc dist) c).token (ahead (suc dist) c).span)
coordinate dist Token.underscore span c = some (suc dist, GroupCoordinate.inferred)
coordinate dist (Token.integer value) span c = some (suc dist, GroupCoordinate.number value span)
coordinate dist _ span c = none

unfoldable pub peek_group_coordinate : ℕ → ParserContext → Option (ℕ × GroupCoordinate)
peek_group_coordinate dist c = coordinate dist (ahead dist c).token (ahead dist c).span c

unfoldable pub check_ahead : ℕ → Token → ParserContext → Option Span
check_ahead d tok c = if token_eq (ahead d c).token tok then some (ahead d c).span else none

-- What was peeked at: the coordinates, how many tokens they take with `(`, `,`, `)` and `group`, and
-- the spans of the last two.
pub record GroupAhead : Type 0 where
  pub x : GroupCoordinate
  pub y : GroupCoordinate
  pub dist : ℕ
  pub right_paren_span : Span
  pub end_span : Span

unfoldable pub group_ahead : ParserContext → Option GroupAhead
group_ahead c = and_also (peek_group_coordinate 1 c) λ p.
    and_also (check_ahead p.0 Token.comma c) λ comma.
      and_also (peek_group_coordinate (suc p.0) c) λ q.
        and_also (check_ahead q.0 Token.right_paren c) λ right.
          and_also (check_ahead (suc q.0) Token.group c) λ end. some (record {
            x = p.1;
            y = q.1;
            dist = suc (suc q.0);
            right_paren_span = right;
            end_span = end;
          })

unfoldable pub bumps : ℕ → M (Unit {0})
bumps zero = pure tt
bumps (suc n) = bump >> bumps n

-- `assert_no_whitespace`
unfoldable pub assert_no_whitespace : Span → Span → List ℕ → List ℕ → M (Unit {0})
assert_no_whitespace left_span right_span left right =
    if left_span.hi == right_span.lo
    then pure tt
    else fail (unexpected_whitespace left right (record { lo = left_span.hi; hi = right_span.lo }))

-- `fmt::Display for GroupCoordinate`
unfoldable pub display_coordinate : GroupCoordinate → List ℕ
display_coordinate (GroupCoordinate.number n span) = n
display_coordinate GroupCoordinate.sign_high = codes "+"
display_coordinate GroupCoordinate.sign_low = codes "-"
display_coordinate GroupCoordinate.inferred = codes "_"

-- What is done behind the peeking, in the context `c`.
unfoldable pub eat_group : Option GroupAhead → ParserContext → M (Option Expression)
eat_group none c = pure none
eat_group (some g) c = do
  info ← node_at (join c.token.span g.end_span)
  bumps g.dist
  assert_no_whitespace g.right_paren_span g.end_span
      (b'(' ∷ (display_coordinate g.x ++ b',' ∷ (display_coordinate g.y ++ b')' ∷ [])))
      (codes "group")
  pure (some (Expression.literal (Literal.group (GroupLiteral.affine g.x g.y) info)))

-- The literal, where there is one; the context is left as it is where there is none.
unfoldable pub eat_group_partial : M (Option Expression)
eat_group_partial c =
    if check Token.left_paren c then eat_group (group_ahead c) c c else panics unreachable c
