-- ===== src/Lexer/Print.antt =====
-- `eat` reads back what a token displays.
use aleotiktacto.Prelude.{
  ℕ, ◌+◌, ◌≡◌, refl, ap, ◌∙◌, Bool, true, false, not, ◌&&◌, ◌||◌, none, some, List, [], ◌∷◌, ◌++◌,
  ◌==◌, codes, arith, append_assoc, append-nil,
}
use aleotiktacto.Chars.{
  is_ascii_digit, is_ascii_alphabetic, is_ascii_alphanumeric, is_ascii_whitespace, byte_len,
  len_utf8, take_while, any,
}
use aleotiktacto.Token.{Token, display}
use aleotiktacto.Lexer.{
  ok, eat_identifier, is_identifier_char, is_bidi_override, ensure_no_bidi_override, eat_digits,
  eat_integer, run_arm, find_arm, before_quote, eat_string, eat_slash, keywords, find_keyword,
  starts_with, identifier_token, eat_word, eat, next_is,
}
use aleotiktacto.Lexer.Fronts.{byte_len-append}

abbrev pub all : (ℕ → Bool) → List ℕ → Bool
all p [] = true
all p (c ∷ s) = p c && all p s

abbrev pub is_word : List ℕ → Bool
is_word [] = false
is_word (c ∷ s) = is_ascii_alphabetic c && all is_identifier_char s

abbrev pub is_digit_char : ℕ → Bool
is_digit_char c = is_ascii_digit c || c == b'_'

abbrev pub is_number : List ℕ → Bool
is_number [] = false
is_number (c ∷ s) = is_ascii_digit c && all is_digit_char s

-- The tokens that the lexer makes, but for comments: the string of each has the form that its
-- variant calls for.
abbrev pub IsLexable : Token → Type 0
IsLexable (Token.comment_line s) = ⊥
IsLexable (Token.comment_block s) = ⊥
IsLexable (Token.static_string s) =
    (all (λ c. not (c == b'"')) s ≡ true) × (any is_bidi_override s ≡ false)
IsLexable (Token.identifier s) =
    (is_word s ≡ true) × (starts_with (codes "aleo1") s ≡ false) × (find_keyword s keywords ≡ none)
IsLexable (Token.integer s) = is_number s ≡ true
IsLexable (Token.address_lit s) = (is_word s ≡ true) × (starts_with (codes "aleo1") s ≡ true)
IsLexable Token.white_space = ⊥
IsLexable Token.eof = ⊥
IsLexable _ = Unit {0}

take_while-all :
    (p : ℕ → Bool) (s : List ℕ) (x : ℕ) (rest : List ℕ)
    → all p s ≡ true
    → p x ≡ false
    → take_while p (s ++ x ∷ rest) ≡ s
take_while-all p [] x rest h k = rw k
take_while-all p (c ∷ s) x rest h k = ground (arith, take_while-all p s x rest)

-- A letter chooses the last arm.
eat-letter : (c : ℕ) (s : List ℕ) → is_ascii_alphabetic c ≡ true → eat (c ∷ s) ≡ eat_word (c ∷ s)
unfolding eat is_ascii_whitespace is_ascii_digit is_ascii_alphabetic find_arm
eat-letter c s h = ground arith

space_ends_word : is_identifier_char 32 ≡ false
unfolding is_ascii_alphanumeric
space_ends_word = refl

eat_identifier-word :
    (s rest : List ℕ) → is_word s ≡ true → eat_identifier (s ++ 32 ∷ rest) ≡ some s
unfolding eat_identifier
eat_identifier-word [] rest h = cc
eat_identifier-word (c ∷ s) rest h =
    let kept : is_identifier_char c ≡ true = unfold is_ascii_alphanumeric in ground arith in
    ground (arith, take_while-all is_identifier_char s 32 rest, space_ends_word, kept)

eat-word :
    (s rest : List ℕ)
    → is_word s ≡ true
    → eat (s ++ 32 ∷ rest) ≡ ok (byte_len s, identifier_token s)
eat-word [] rest h = cc
eat-word (c ∷ s) rest h =
    eat-letter c (s ++ 32 ∷ rest) (ground arith)
    ∙ unfold eat_word in rw (eat_identifier-word (c ∷ s) rest h, eat_word)

digits-next_is :
    (s rest : List ℕ) → all is_digit_char s ≡ true → next_is b'x' (s ++ 32 ∷ rest) ≡ false
unfolding is_ascii_digit
digits-next_is [] rest h = refl
digits-next_is (c ∷ s) rest h = ground arith

space_ends_number : is_digit_char 32 ≡ false
unfolding is_ascii_digit
space_ends_number = refl

eat_digits-all :
    (s int rest : List ℕ)
    → all is_digit_char s ≡ true
    → eat_digits int (s ++ 32 ∷ rest) ≡ ok (byte_len (int ++ s), Token.integer (int ++ s))
unfolding eat_digits
eat_digits-all [] int rest h = rw (append-nil, space_ends_number)
eat_digits-all (c ∷ s) int rest h =
    let more = eat_digits-all s (int ++ c ∷ []) rest (ground arith) in
    ground (arith, digits-next_is s rest, more, append_assoc int (c ∷ []) s)

-- A digit chooses the arm of integers.
eat-digit : (c : ℕ) (s : List ℕ) → is_ascii_digit c ≡ true → eat (c ∷ s) ≡ eat_integer (c ∷ s)
unfolding eat is_ascii_whitespace is_ascii_digit
eat-digit c s h = ground arith

eat-number :
    (s rest : List ℕ) → is_number s ≡ true → eat (s ++ 32 ∷ rest) ≡ ok (byte_len s, Token.integer s)
eat-number [] rest h = cc
eat-number (c ∷ s) rest h =
    eat-digit c (s ++ 32 ∷ rest) (ground arith)
    ∙ unfold eat_integer in eat_digits-all (c ∷ s) [] rest (ground arith)

before_quote-all :
    (s rest : List ℕ)
    → all (λ c. not (c == b'"')) s ≡ true
    → before_quote (s ++ b'"' ∷ rest) ≡ some s
unfolding before_quote
before_quote-all [] rest h = refl
before_quote-all (c ∷ s) rest h = ground (arith, before_quote-all s rest)

quoted_length : (s : List ℕ) → byte_len s + 2 ≡ byte_len (b'"' ∷ (s ++ b'"' ∷ []))
unfolding byte_len len_utf8
quoted_length s = omega (arith, byte_len-append s (b'"' ∷ []))

eat-static_string :
    (s rest : List ℕ)
    → IsLexable (Token.static_string s)
    → eat (display (Token.static_string s) ++ 32 ∷ rest)
      ≡ ok (byte_len (display (Token.static_string s)), Token.static_string s)
unfolding eat eat_string display ensure_no_bidi_override is_ascii_whitespace
eat-static_string s rest (clean, safe) = rw (append_assoc s (b'"' ∷ []) (32 ∷ rest)) (
    rw (before_quote-all s (32 ∷ rest) clean, eat_string)
      (rw safe (ap (λ n. ok (n, Token.static_string s)) (quoted_length s))))

-- The variants with no string, but for `WhiteSpace` and `Eof`, whose texts the lexer does not make.
abbrev IsFixed : Token → Type 0
IsFixed (Token.comment_line s) = ⊥
IsFixed (Token.comment_block s) = ⊥
IsFixed (Token.static_string s) = ⊥
IsFixed (Token.identifier s) = ⊥
IsFixed (Token.integer s) = ⊥
IsFixed (Token.address_lit s) = ⊥
IsFixed Token.white_space = ⊥
IsFixed Token.eof = ⊥
IsFixed _ = Unit {0}

eat-fixed :
    (t : Token) (rest : List ℕ)
    → IsFixed t
    → eat (display t ++ 32 ∷ rest) ≡ ok (byte_len (display t), t)
unfolding display byte_len eat eat_word eat_identifier identifier_token eat_slash find_arm run_arm
    find_keyword starts_with is_ascii_whitespace is_ascii_alphanumeric
eat-fixed (Token.comment_line s) rest h = absurd h
eat-fixed (Token.comment_block s) rest h = absurd h
eat-fixed (Token.static_string s) rest h = absurd h
eat-fixed (Token.identifier s) rest h = absurd h
eat-fixed (Token.integer s) rest h = absurd h
eat-fixed (Token.address_lit s) rest h = absurd h
eat-fixed Token.white_space rest h = absurd h
eat-fixed Token.eof rest h = absurd h
eat-fixed _ rest h = refl

-- The text of a token, followed by a space, is read back as the token with the length of the text
-- in bytes, for every token but a comment, white space and the end of the input, where a string
-- holds no quote and no override character, an identifier is a word that is neither a keyword nor
-- an address, an address is a word that starts with `aleo1`, and an integer is made of digits and
-- underscores as the lexer reads them.
pub eat-display :
    (t : Token) (rest : List ℕ)
    → IsLexable t
    → eat (display t ++ 32 ∷ rest) ≡ ok (byte_len (display t), t)
unfolding display
eat-display (Token.identifier s) rest (word, plain, new) =
    eat-word s rest word ∙ unfold identifier_token in rw plain (rw (new, identifier_token))
eat-display (Token.integer s) rest h = eat-number s rest h
eat-display (Token.address_lit s) rest (word, address) =
    eat-word s rest word ∙ unfold identifier_token in rw address
eat-display (Token.static_string s) rest h = eat-static_string s rest h
eat-display (Token.comment_line s) rest h = absurd h
eat-display (Token.comment_block s) rest h = absurd h
eat-display Token.white_space rest h = absurd h
eat-display Token.eof rest h = absurd h
eat-display t rest h = eat-fixed t rest tt
