-- ===== src/Tokenizer/Print.antt =====
-- The tokenizer reads back a printed list of tokens.
use aleotiktacto.Prelude.{
  ℕ, zero, suc, ◌+◌, ◌≤◌, ◌<◌, ◌^◌, ◌≡◌, refl, ap, ◌∙◌, false, List, [], ◌∷◌, ◌++◌, length,
  length-append, arith,
}
use aleotiktacto.Chars.{slice_from, byte_len, len_utf8, is_ascii_whitespace}
use aleotiktacto.Token.{Token, display}
use aleotiktacto.Lexer.{ok, eat}
use aleotiktacto.Lexer.Fronts.{byte_len-append, is_white_space}
use aleotiktacto.Lexer.Print.{IsLexable, eat-display}
use aleotiktacto.Tokenizer.{SpannedToken, tokens, push_front, yield_token, tokenize_iter, tokenize}
use aleotiktacto.Tokenizer.Tiles.{
  slice_from-append, tokenize_iter_ok, hi_lem, yield_token-push_front,
}

-- Each token with a space behind it, as the unit test of the tokenizer writes them.
unfoldable pub spaced : List Token → List ℕ
spaced [] = []
spaced (t ∷ ts) = display t ++ 32 ∷ spaced ts

-- The tokens at their places in that text.
unfoldable pub placed : ℕ → List Token → List SpannedToken
placed lo [] = []
placed lo (t ∷ ts) =
    record { token = t; span = record { lo = lo; hi = lo + byte_len (display t) } }
    ∷ placed (lo + byte_len (display t) + 1) ts

abbrev pub AllLexable : List Token → Type 0
AllLexable [] = Unit {0}
AllLexable (t ∷ ts) = IsLexable t × AllLexable ts

IsLexable-other : (t : Token) → IsLexable t → is_white_space t ≡ false
IsLexable-other Token.white_space h = absurd h
IsLexable-other _ h = refl

-- One round on a token that is not white space.
tokenize_iter_item :
    (fuel : ℕ) (t : Token) (rest : List ℕ) (lo : ℕ)
    → IsLexable t
    → lo + byte_len (display t) < 2 ^ 32
    → tokenize_iter (suc fuel) (display t ++ 32 ∷ rest) lo
      ≡ push_front
          (record { token = t; span = record { lo = lo; hi = lo + byte_len (display t) } })
          (tokenize_iter fuel (32 ∷ rest) (lo + byte_len (display t)))
tokenize_iter_item fuel t rest lo h fits =
    tokenize_iter_ok fuel (display t ++ 32 ∷ rest) lo (byte_len (display t)) t (32 ∷ rest)
      (eat-display t rest h) (slice_from-append (display t) (32 ∷ rest))
    ∙ rw (hi_lem lo (byte_len (display t)) fits)
        (yield_token-push_front t _ _ (IsLexable-other t h))

eat-space : (rest : List ℕ) → eat (32 ∷ rest) ≡ ok (1, Token.white_space)
unfolding eat is_ascii_whitespace
eat-space rest = refl

tokenize_iter_space :
    (fuel : ℕ) (rest : List ℕ) (lo : ℕ)
    → lo + 1 < 2 ^ 32
    → tokenize_iter (suc fuel) (32 ∷ rest) lo ≡ tokenize_iter fuel rest (lo + 1)
unfolding yield_token
tokenize_iter_space fuel rest lo fits =
    tokenize_iter_ok fuel (32 ∷ rest) lo 1 Token.white_space rest (eat-space rest)
      (unfold slice_from len_utf8 in refl)
    ∙ ap (tokenize_iter fuel rest) (hi_lem lo 1 fits)

byte_len-spaced :
    (t : Token) (ts : List Token)
    → byte_len (spaced (t ∷ ts)) ≡ byte_len (display t) + 1 + byte_len (spaced ts)
unfolding spaced byte_len len_utf8
byte_len-spaced t ts = omega (arith, byte_len-append (display t) (32 ∷ spaced ts))

pushed :
    (t : Token) (lo : ℕ) (ts : List Token)
    → push_front
        (record { token = t; span = record { lo = lo; hi = lo + byte_len (display t) } })
        (tokens (placed (lo + byte_len (display t) + 1) ts))
      ≡ tokens (placed lo (t ∷ ts))
unfolding placed push_front
pushed t lo ts = refl

display_pos : (t : Token) → IsLexable t → 0 < length (display t)
unfolding display
display_pos (Token.identifier []) h = cc
display_pos (Token.identifier (c ∷ s)) h = omega arith
display_pos (Token.integer []) h = cc
display_pos (Token.integer (c ∷ s)) h = omega arith
display_pos (Token.address_lit []) h = cc
display_pos (Token.address_lit (c ∷ s)) h = omega arith
display_pos (Token.comment_line s) h = absurd h
display_pos (Token.comment_block s) h = absurd h
display_pos _ h = omega arith

length-spaced :
    (t : Token) (ts : List Token) → IsLexable t → 2 + length (spaced ts) ≤ length (spaced (t ∷ ts))
unfolding spaced
length-spaced t ts h = omega (arith, length-append (display t) (32 ∷ spaced ts), display_pos t h)

-- Both rounds of a token and the space behind it.
tokenize_iter_both :
    (fuel : ℕ) (t : Token) (ts : List Token) (lo : ℕ)
    → IsLexable t
    → lo + byte_len (spaced (t ∷ ts)) < 2 ^ 32
    → tokenize_iter (suc (suc fuel)) (spaced (t ∷ ts)) lo
      ≡ push_front
          (record { token = t; span = record { lo = lo; hi = lo + byte_len (display t) } })
          (tokenize_iter fuel (spaced ts) (lo + byte_len (display t) + 1))
unfolding spaced
tokenize_iter_both fuel t ts lo h fits =
    let bytes = byte_len-spaced t ts in
    tokenize_iter_item (suc fuel) t (spaced ts) lo h (omega arith)
    ∙ ap (push_front _)
        (tokenize_iter_space fuel (spaced ts) (lo + byte_len (display t)) (omega arith))

tokenize_iter-spaced :
    (fuel : ℕ) (ts : List Token) (lo : ℕ)
    → AllLexable ts
    → length (spaced ts) ≤ fuel
    → lo + byte_len (spaced ts) < 2 ^ 32
    → tokenize_iter fuel (spaced ts) lo ≡ tokens (placed lo ts)
tokenize_iter-spaced fuel [] lo h enough fits = unfold tokenize_iter spaced placed in refl
tokenize_iter-spaced zero (t ∷ ts) lo h enough fits = absurd (omega (arith, length-spaced t ts h.0))
tokenize_iter-spaced (suc zero) (t ∷ ts) lo h enough fits =
    absurd (omega (arith, length-spaced t ts h.0))
tokenize_iter-spaced (suc (suc fuel)) (t ∷ ts) lo h enough fits =
    let rest =
      tokenize_iter-spaced fuel ts (lo + byte_len (display t) + 1) h.1
        (omega (arith, length-spaced t ts h.0)) (omega (arith, byte_len-spaced t ts)) in
    tokenize_iter_both fuel t ts lo h.0 fits ∙ ap (push_front _) rest ∙ pushed t lo ts

-- If the text ends below position 2 ^ 32, the tokenizer reads back the tokens of a printed list,
-- in order and each at its place.
pub tokenize-spaced :
    (ts : List Token) (start_pos : ℕ)
    → AllLexable ts
    → start_pos + byte_len (spaced ts) < 2 ^ 32
    → tokenize (spaced ts) start_pos ≡ tokens (placed start_pos ts)
unfolding tokenize
tokenize-spaced ts start_pos h fits =
    tokenize_iter-spaced (length (spaced ts)) ts start_pos h (omega arith) fits
