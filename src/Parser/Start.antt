-- ===== src/Parser/Start.antt =====
-- compiler/parser/src/parser/context.rs: the context that a list of tokens is parsed from.
use aleotiktacto.Prelude.{ℕ, Bool, true, false, List, [], ◌∷◌, if◌then◌else◌}
use aleotiktacto.Ast.{default_span}
use aleotiktacto.Token.{Token}
use aleotiktacto.Tokenizer.{SpannedToken}
use aleotiktacto.Interner
use aleotiktacto.Parser.{Outcome, bump}

unfoldable pub is_comment : Token → Bool
is_comment (Token.comment_line s) = true
is_comment (Token.comment_block s) = true
is_comment _ = false

unfoldable pub strip : List SpannedToken → List SpannedToken
strip [] = []
strip (t ∷ ts) = let rest = strip ts in if is_comment t.token then rest else t ∷ rest

-- The strings that the tokenizer interned for these tokens, in order.
unfoldable pub intern_tokens : List SpannedToken → List (List ℕ) → List (List ℕ)
intern_tokens [] set = set
intern_tokens (t ∷ ts) set = elim t.token [
  | Token.identifier s ↦ intern_tokens ts (Interner.intern set s).1
  | _ ↦ intern_tokens ts set
]

-- `ParserContext::new`: `next` and `set` are the node builder's next number and the interner's set
-- before the text was tokenized.
unfoldable pub new : ℕ → List (List ℕ) → List SpannedToken → Outcome (Unit {0})
new next set ts = bump (record {
  tokens = strip ts;
  token = record { token = Token.question; span = default_span };
  prev_token = record { token = Token.question; span = default_span };
  disallow = false;
  allow_identifier_underscores = false;
  ids = next;
  interned = intern_tokens ts set;
  errors = [];
  warnings = [];
})
