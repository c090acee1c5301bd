-- ===== src/Token/Keywords.antt =====
-- Which tokens have a keyword symbol.
use aleotiktacto.Prelude.{none, some, ◌≡◌, refl, ◌||◌, if◌then◌else◌}
use aleotiktacto.Token.{Token, display, is_keyword, token_eq, keyword_to_symbol}

-- A token that `is_keyword` has its own text for its symbol, and so have `block` and `leo`, which
-- are not in the list of keyword tokens; no other token has a symbol.
pub keyword_to_symbol_lem :
    (t : Token)
    → keyword_to_symbol t ≡ (
        if is_keyword t || token_eq t Token.block || token_eq t Token.leo
        then some (display t)
        else none)
unfolding keyword_to_symbol is_keyword display token_eq
keyword_to_symbol_lem Token.true_ = refl
keyword_to_symbol_lem _ = refl
