-- ===== src/Tokenizer.antt =====
-- compiler/parser/src/tokenizer/mod.rs, with the spans of compiler/span/src/span.rs: a text is
-- broken into tokens with the byte positions at which they stand.
pub mod Tiles
pub mod Print
use aleotiktacto.Prelude.{
  ℕ, zero, suc, ◌+◌, ◌%◌, ◌^◌, Bool, true, false, Option, none, some, List, [], ◌∷◌, length,
}
use aleotiktacto.Chars.{slice_from}
use aleotiktacto.Token.{Token}
use aleotiktacto.Ast.{Span}
use aleotiktacto.Lexer.{LexError, ok, err, eat}

-- `BytePos::from_usize`: `n as u32`.
unfoldable pub from_usize : ℕ → ℕ
from_usize n = n % 2 ^ 32

-- `BytePos + BytePos`, which wraps around in a release build.
unfoldable pub add_pos : ℕ → ℕ → ℕ
add_pos a b = (a + b) % 2 ^ 32

pub record SpannedToken : Type 0 where
  pub token : Token
  pub span : Span

-- What collecting the tokens gives. `panic` is a slice out of range or inside a character;
-- `out_of_fuel` is not a result of the source.
pub data Tokens : Type 0 where
  tokens : List SpannedToken → Tokens
  error : LexError → Tokens
  panic out_of_fuel : Tokens

-- `collect` with one more item in front.
unfoldable pub push_front : SpannedToken → Tokens → Tokens
push_front t (tokens ts) = tokens (t ∷ ts)
push_front t (error e) = error e
push_front t panic = panic
push_front t out_of_fuel = out_of_fuel

-- `Token::WhiteSpace => continue`, or the token is yielded.
unfoldable pub yield_token : Token → Span → Tokens → Tokens
yield_token Token.white_space span rest = rest
yield_token token span rest = push_front (record { token = token; span = span }) rest

-- `tokenize_iter(input, lo)`, collected. Each round eats one token.
unfoldable pub tokenize_iter : ℕ → List ℕ → ℕ → Tokens
tokenize_iter fuel [] lo = tokens []
tokenize_iter zero (c ∷ s) lo = out_of_fuel
tokenize_iter (suc fuel) (c ∷ s) lo = elim (eat (c ∷ s)) [
  | err e ↦ error e
  | ok (token_len, token) ↦ elim (slice_from token_len (c ∷ s)) [
    | none ↦ panic
    | some input ↦
        let span : Span = record { lo = lo; hi = add_pos lo (from_usize token_len) } in
        yield_token token span (tokenize_iter fuel input span.hi)
  ]
]

unfoldable pub tokenize : List ℕ → ℕ → Tokens
tokenize input start_pos = tokenize_iter (length input) input start_pos
