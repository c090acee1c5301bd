-- ===== src/Parser.antt =====
-- compiler/parser/src/parser/context.rs: the parser's state, the results of its methods and the
-- methods that read tokens. An error keeps the values that it is made from; its text is left out.
pub mod Numbers
pub mod Start
pub mod Lists
pub mod Types
pub mod Binary
pub mod Groups
pub mod Primary
pub mod Methods
pub mod Postfix
pub mod Expressions
pub mod Places
pub mod Statements
pub mod Blocks
pub mod Moves
pub mod Tokens
pub mod Reads
pub mod Total
pub mod Grammar
pub mod Tests
use aleotiktacto.Prelude.{
  ℕ, zero, suc, ◌+◌, ◌-◌, ◌*◌, ◌^◌, Bool, true, false, ◌&&◌, ◌||◌, not, Option, none, some, List,
  [], ◌∷◌, ◌++◌, reverse, length, get_elem?, ltb, leb, ◌==◌, if◌then◌else◌, codes,
}
use aleotiktacto.Ast.{Span, NodeInfo, Identifier, Expression, Statement, default_span}
use aleotiktacto.Token.{Token, token_eq, any_eq}
use aleotiktacto.Tokenizer.{SpannedToken}
use aleotiktacto.Interner

-- What an error displays.
pub data Shown : Type 0 where
  token : Token → Shown
  tokens : List Token → Shown
  text : List ℕ → Shown
  expression : Expression → Shown

-- The errors of `ParserError` that expressions, statements and programs give, with those of
-- `CompilerError` that imports give.
pub data ParserError : Type 0 where
  unexpected : Shown → Shown → Span → ParserError
  unexpected_str : Token → List ℕ → Span → ParserError
  tuple_index_must_be_whole_number : Token → Span → ParserError
  tuple_must_have_at_least_two_elements array_must_have_at_least_one_element :
      List ℕ → Span → ParserError
  unexpected_whitespace : List ℕ → List ℕ → Span → ParserError
  implicit_values_not_allowed invalid_address_lit : List ℕ → Span → ParserError
  invalid_method_call : Expression → Identifier → ℕ → Span → ParserError
  invalid_associated_access : Expression → Span → ParserError
  console_statements_are_not_yet_supported finalize_statements_are_deprecated : Span → ParserError
  unexpected_statement : Statement → Span → ParserError
  inputs_multiple_variable_modes_specified space_in_annotation invalid_network : Span → ParserError
  only_one_program_scope_is_allowed missing_program_scope leo_imports_only : Span → ParserError

-- `disallow` is `disallow_struct_construction`. The vector `tokens` stands here with its last
-- element first. `ids` is the next number of the node builder, `interned` the set of the session's
-- interner, and `errors` and `warnings` are what the handler has collected; a warning is the symbol
-- that it calls deprecated, with its span.
pub record ParserContext : Type 0 where
  pub tokens : List SpannedToken
  pub token : SpannedToken
  pub prev_token : SpannedToken
  pub disallow : Bool
  pub allow_identifier_underscores : Bool
  pub ids : ℕ
  pub interned : List (List ℕ)
  pub errors : List ParserError
  pub warnings : List (ℕ × Span)

-- Why a method panics: `bump` at the end, `usize::from_str(...).unwrap()` on a text, a branch
-- that the source calls unreachable, or the text of a symbol that the interner does not hold.
pub data Panic : Type 0 where
  past_eof unreachable : Panic
  unknown_symbol : List (List ℕ) → ℕ → Panic
  not_usize : List ℕ → Panic

-- What a method returns. `out_of_fuel` is not a result of the source.
pub data Outcome (A : Type 0) : Type 0 where
  ok : A → ParserContext → Outcome A
  err : ParserError → ParserContext → Outcome A
  panic : Panic → Outcome A
  out_of_fuel : Outcome A

-- A method of the parser.
abbrev pub M : Type 0 → Type 0
M A = ParserContext → Outcome A

unfoldable pub pure : {A : Type 0} → A → M A
pure a c = ok a c

-- The operator `?`.
unfoldable pub and_then : {A B : Type 0} → Outcome A → (A → M B) → Outcome B
and_then (ok a c) f = f a c
and_then (err e c) f = err e c
and_then (panic p) f = panic p
and_then out_of_fuel f = out_of_fuel

infixl 5 ◌>>=◌ ◌>>◌
unfoldable pub ◌>>=◌ : {A B : Type 0} → M A → (A → M B) → M B
◌>>=◌ m f c = and_then (m c) f

abbrev pub ◌>>◌ : {A B : Type 0} → M A → M B → M B
m >> k = m >>= λ _. k

unfoldable pub fail : {A : Type 0} → ParserError → M A
fail e c = err e c

unfoldable pub panics : {A : Type 0} → Panic → M A
panics p c = panic p

-- `self.token`, `self.token.token`, `self.token.span` and the like.
unfoldable pub get_context : M ParserContext
get_context c = ok c c

abbrev pub dummy_eof : SpannedToken
dummy_eof = record { token = Token.eof; span = default_span }

unfoldable pub is_eof : Token → Bool
is_eof Token.eof = true
is_eof _ = false

unfoldable pub next_token : List SpannedToken → Span → SpannedToken
next_token [] span = record { token = Token.eof; span = span }
next_token (t ∷ ts) span = t

abbrev pub popped : List SpannedToken → List SpannedToken
popped [] = []
popped (t ∷ ts) = ts

unfoldable pub advanced : ParserContext → ParserContext
advanced c = record c {
  tokens = popped c.tokens;
  token = next_token c.tokens c.token.span;
  prev_token = c.token;
}

unfoldable pub bump : M (Unit {0})
bump c = if is_eof c.prev_token.token then panic past_eof else ok tt (advanced c)

-- `check`
unfoldable pub check : Token → ParserContext → Bool
check tok c = token_eq c.token.token tok

-- `check_int`, on the current token.
unfoldable pub is_integer : Token → Bool
is_integer (Token.integer value) = true
is_integer _ = false

-- `bump` under a test, which is returned.
unfoldable pub bump_if : Bool → M Bool
bump_if b = if b then bump >> pure true else pure false

unfoldable pub eat : Token → M Bool
eat tok c = bump_if (check tok c) c

-- The token at which `look_ahead` looks.
unfoldable pub ahead : ℕ → ParserContext → SpannedToken
ahead zero c = c.token
ahead (suc dist) c = elim (get_elem? c.tokens dist) [ none ↦ dummy_eof | some t ↦ t ]

unfoldable pub emit_err : ParserError → M (Unit {0})
emit_err e c = ok tt (record c { errors = c.errors ++ e ∷ [] })

unfoldable pub emit_warning : ℕ → Span → M (Unit {0})
emit_warning symbol span c = ok tt (record c { warnings = c.warnings ++ (symbol, span) ∷ [] })

-- An error under a condition.
unfoldable pub emit_if : Bool → ParserError → M (Unit {0})
emit_if b e = if b then emit_err e else pure tt

unfoldable pub has_next : ParserContext → Bool
has_next c = not (is_eof c.token.token)

-- `NodeBuilder::next_id`
unfoldable pub next_id : M ℕ
next_id c = ok c.ids (record c { ids = c.ids + 1 })

-- A node's span with its new number.
unfoldable pub node_at : Span → M NodeInfo
node_at span c = ok (record { span = span; id = c.ids }) (record c { ids = c.ids + 1 })

-- `Symbol::intern`
unfoldable pub intern : List ℕ → M ℕ
intern s c =
    ok (Interner.intern c.interned s).0 (record c { interned = (Interner.intern c.interned s).1 })

unfoldable pub known_text : Option (List ℕ) → ℕ → M (List ℕ)
known_text (some s) symbol c = ok s c
known_text none symbol c = panic (unknown_symbol c.interned symbol)

-- The text of a symbol: `Symbol::as_str`.
unfoldable pub as_str : ℕ → M (List ℕ)
as_str symbol c = known_text (Interner.get c.interned symbol) symbol c

unfoldable pub mk_ident_prev : ℕ → M Identifier
mk_ident_prev name = do
  c ← get_context
  info ← node_at c.prev_token.span
  pure (record { name = name; info = info })

unfoldable pub eat_name : Token → M (Option Identifier)
eat_name (Token.identifier s) = do bump; name ← intern s; i ← mk_ident_prev name; pure (some i)
eat_name _ = pure none

unfoldable pub eat_identifier : M (Option Identifier)
eat_identifier c = eat_name c.token.token c

unfoldable pub ok_or : {A : Type 0} → ParserError → Option A → M A
ok_or e none = fail e
ok_or e (some a) = pure a

-- The error is made from the token at which no identifier was eaten.
unfoldable pub expect_identifier : M Identifier
expect_identifier = do
  c ← get_context
  o ← eat_identifier
  ok_or (unexpected_str c.token.token (codes "identifier") c.token.span) o

unfoldable pub eat_any : List Token → M Bool
eat_any toks c = bump_if (any_eq toks c.token.token) c

-- The span of the token that was eaten, or the error `unexpected` at the current one.
unfoldable pub eaten_or : Shown → Bool → M Span
eaten_or expected true = do c ← get_context; pure c.prev_token.span
eaten_or expected false = do
  c ← get_context
  fail (unexpected (Shown.token c.token.token) expected c.token.span)

unfoldable pub expect : Token → M Span
expect tok = eat tok >>= eaten_or (Shown.token tok)

unfoldable pub expect_any : List Token → M Span
expect_any toks = eat_any toks >>= eaten_or (Shown.tokens toks)

-- `span + span`
unfoldable pub join : Span → Span → Span
join a b = record {
  lo = if ltb b.lo a.lo then b.lo else a.lo;
  hi = if ltb a.hi b.hi then b.hi else a.hi;
}
