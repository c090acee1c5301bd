-- ===== src/Parser/Lists.antt =====
-- compiler/parser/src/parser/context.rs: `parse_list`. A loop takes fuel; each of its rounds eats a
-- token.
use aleotiktacto.Prelude.{
  ℕ, zero, suc, Bool, true, false, Option, none, some, List, [], ◌∷◌, ◌++◌, if◌then◌else◌,
}
use aleotiktacto.Ast.{Span}
use aleotiktacto.Token.{Token}
use aleotiktacto.Parser.{out_of_fuel, M, pure, ◌>>=◌, check, eat, expect, join}

-- `Delimiter` of tokenizer/token.rs
pub data Delimiter : Type 0 where
  parenthesis brace bracket : Delimiter

unfoldable pub open_token : Delimiter → Token
open_token parenthesis = Token.left_paren
open_token brace = Token.left_curly
open_token bracket = Token.left_square

unfoldable pub close_token : Delimiter → Token
close_token parenthesis = Token.right_paren
close_token brace = Token.right_curly
close_token bracket = Token.right_square

-- The elements, whether a separator stood behind the last one, and the span.
pub record Parsed (A : Type 0) : Type 0 where
  pub list : List A
  pub trailing : Bool
  pub span : Span

-- Whether the loop goes on behind an element.
unfoldable pub eat_separator : Option Token → M Bool
eat_separator none = pure true
eat_separator (some sep) = eat sep

module _ {A : Type 0} where
  -- `if let Some(elem) = ... { list.push(elem) }`
  unfoldable pub push : List A → Option A → List A
  push list none = list
  push list (some elem) = list ++ elem ∷ []

  -- One round of the loop with the list so far; `again` is the loop behind it.
  unfoldable pub next_round :
      (List A → Bool → M (List A × Bool)) → List A → Bool → M (List A × Bool)
  next_round again list true = again list true
  next_round again list false = pure (list, false)

  unfoldable pub element :
      Option Token → M (Option A) → (List A → Bool → M (List A × Bool)) → List A → M (List A × Bool)
  element sep inner again list = do
    elem ← inner
    more ← eat_separator sep
    next_round again (push list elem) more

  -- The loop, with the list and `trailing` so far.
  unfoldable pub elements :
      ℕ → Token → Option Token → M (Option A) → List A → Bool → M (List A × Bool)
  elements zero close sep inner list trailing c = out_of_fuel
  elements (suc fuel) close sep inner list trailing c =
      if check close c
      then pure (list, trailing) c
      else element sep inner (elements fuel close sep inner) list c

  unfoldable pub parse_list : ℕ → Delimiter → Option Token → M (Option A) → M (Parsed A)
  parse_list fuel delimiter sep inner = do
    open_span ← expect (open_token delimiter)
    r ← elements fuel (close_token delimiter) sep inner [] false
    close_span ← expect (close_token delimiter)
    pure (record { list = r.0; trailing = r.1; span = join open_span close_span })

  -- `inner.map(Some)`
  unfoldable pub always : M A → M (Option A)
  always inner = inner >>= λ a. pure (some a)

  unfoldable pub parse_paren_comma_list : ℕ → M A → M (Parsed A)
  parse_paren_comma_list fuel f = parse_list fuel parenthesis (some Token.comma) (always f)

  unfoldable pub parse_bracket_comma_list : ℕ → M A → M (Parsed A)
  parse_bracket_comma_list fuel f = parse_list fuel bracket (some Token.comma) (always f)
