-- ===== src/Chars.antt =====
-- The standard library's tests and lengths of characters that the lexer uses, on code points.
use aleotiktacto.Prelude.{
  ℕ, zero, suc, ◌+◌, ◌-◌, Bool, false, ◌&&◌, ◌||◌, Option, none, some, List, [], ◌∷◌, ltb, leb,
  ◌==◌, if◌then◌else◌,
}

-- `(lo..=hi).contains(&c)`
abbrev pub between : ℕ → ℕ → ℕ → Bool
between lo hi c = leb lo c && leb c hi

unfoldable pub is_ascii_digit : ℕ → Bool
is_ascii_digit c = between b'0' b'9' c

unfoldable pub is_ascii_alphabetic : ℕ → Bool
is_ascii_alphabetic c = between b'A' b'Z' c || between b'a' b'z' c

unfoldable pub is_ascii_alphanumeric : ℕ → Bool
unfolding is_ascii_alphabetic is_ascii_digit
is_ascii_alphanumeric c = is_ascii_alphabetic c || is_ascii_digit c

-- Space, tab, line feed, form feed and carriage return.
unfoldable pub is_ascii_whitespace : ℕ → Bool
is_ascii_whitespace c = c == 32 || c == 9 || c == 10 || c == 12 || c == 13

-- Unicode's White_Space.
unfoldable pub is_whitespace : ℕ → Bool
is_whitespace c =
    between 9 13 c
    || c == 32
    || c == 0x85
    || c == 0xa0
    || c == 0x1680
    || between 0x2000 0x200a c
    || c == 0x2028
    || c == 0x2029
    || c == 0x202f
    || c == 0x205f
    || c == 0x3000

-- `char::len_utf8`
unfoldable pub len_utf8 : ℕ → ℕ
len_utf8 c = if ltb c 0x80 then 1 else if ltb c 0x800 then 2 else if ltb c 0x10000 then 3 else 4

-- `str::len`, in bytes.
unfoldable pub byte_len : List ℕ → ℕ
unfolding len_utf8
byte_len [] = 0
byte_len (c ∷ s) = len_utf8 c + byte_len s

-- `&s[n..]`; `none` is the panic of an index that is out of range or inside a character.
unfoldable pub slice_from : ℕ → List ℕ → Option (List ℕ)
unfolding len_utf8
slice_from zero s = some s
slice_from (suc n) [] = none
slice_from (suc n) (c ∷ s) =
    if leb (len_utf8 c) (suc n) then slice_from (suc n - len_utf8 c) s else none

module _ (p : ℕ → Bool) where
  -- `take_while(p)`, or what repeated `next_if(p)` yields.
  abbrev pub take_while : List ℕ → List ℕ
  take_while [] = []
  take_while (c ∷ s) = if p c then c ∷ take_while s else []

  -- `any(p)`
  abbrev pub any : List ℕ → Bool
  any [] = false
  any (c ∷ s) = p c || any s
