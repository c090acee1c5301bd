-- ===== src/Lexer/Text.antt =====
-- A token that `eat` returns is the text at the front of its input.
use aleotiktacto.Prelude.{
  ℕ, ◌≡◌, ◌≢◌, refl, inl, inr, Bool, true, some, List, [], ◌∷◌, ◌==◌, codes, equal, equal_iff,
  ==_iff, Bool-cases, Option-cases, arith, subst, some-injective,
}
use aleotiktacto.Chars.{
  is_ascii_digit, is_ascii_alphabetic, is_ascii_alphanumeric, is_ascii_whitespace, byte_len,
  len_utf8, take_while,
}
use aleotiktacto.Token.{Token, display}
use aleotiktacto.Lexer.{
  ok, eat_identifier, is_identifier_char, arms, find_arm, keywords, find_keyword, identifier_token,
  eat_word, eat, starts_with,
}
use aleotiktacto.Lexer.Fronts.{
  Prints, Fronts, Reads, run_arm-Fronts, cons-ne-nil, arms_lem, find_arm-IsArm,
}
use aleotiktacto.Lexer.Bodies.{
  rest_while, take_while-rest, Reads-eat_integer, Reads-eat_string, Reads-eat_slash,
}

abbrev AllKeywords : List (List ℕ × Token) → Type 0
AllKeywords [] = Unit {0}
AllKeywords ((w, t) ∷ r) = Prints t w × AllKeywords r

keywords_lem : AllKeywords keywords
unfolding display
keywords_lem = ground arith

find_keyword-Prints :
    (s : List ℕ) (l : List (List ℕ × Token)) {t : Token}
    → AllKeywords l
    → find_keyword s l ≡ some t
    → Prints t s
unfolding find_keyword
find_keyword-Prints s [] p h = cc
find_keyword-Prints s ((w, u) ∷ l) {t} p h = elim (Bool-cases (equal s w)) [
  | inl e ↦ rw ((equal_iff s w).0 e) (subst (λ x. Prints x w) (some-injective u t (rw e at h)) p.0)
  | inr e ↦ find_keyword-Prints s l p.1 (rw e at h)
]

Prints-identifier_token : (s : List ℕ) → Prints (identifier_token s) s
unfolding identifier_token display
Prints-identifier_token s = elim (Bool-cases (starts_with (codes "aleo1") s)) [
  | inl h ↦ rw h (refl, refl)
  | inr h ↦ rw h (elim (Option-cases (find_keyword s keywords)) [
    | inl e ↦ rw (e, identifier_token) (refl, refl)
    | inr (t, e) ↦ rw (e, identifier_token) (find_keyword-Prints s keywords keywords_lem e)
  ])
]

take_while-ne-nil : (p : ℕ → Bool) (c : ℕ) (s : List ℕ) → p c ≡ true → take_while p (c ∷ s) ≢ []
take_while-ne-nil p c s h e = ground arith

Reads-eat_word : (c : ℕ) (s : List ℕ) → Reads (c ∷ s) (eat_word (c ∷ s))
unfolding eat_word eat_identifier
Reads-eat_word c s = elim (Bool-cases (is_ascii_alphabetic c)) [
  | inl h ↦
      rw (h, eat_word)
        (
          take_while is_identifier_char (c ∷ s),
          rest_while is_identifier_char (c ∷ s),
          take_while-rest is_identifier_char (c ∷ s),
          refl,
          take_while-ne-nil is_identifier_char c s (unfold is_ascii_alphanumeric in rw h),
          inl (Prints-identifier_token (take_while is_identifier_char (c ∷ s))),
        )
  | inr h ↦ rw (h, eat_word) tt
]

pub white_space-byte_len : (c : ℕ) → is_ascii_whitespace c ≡ true → 1 ≡ byte_len (c ∷ [])
unfolding is_ascii_whitespace byte_len len_utf8
white_space-byte_len c h = ground arith

eat-Reads : (input : List ℕ) → Reads input (eat input)
unfolding eat
eat-Reads [] = tt
eat-Reads (c ∷ s) = elim (Bool-cases (is_ascii_whitespace c)) [
  | inl h ↦ rw h (c ∷ [], s, refl, white_space-byte_len c h, cons-ne-nil, inr (c, refl, h, refl))
  | inr h ↦ rw h (elim (Bool-cases (c == b'"')) [
    | inl k ↦ rw k (rw ((==_iff c b'"').0 k) (Reads-eat_string s))
    | inr k ↦ rw k (elim (Bool-cases (is_ascii_digit c)) [
      | inl m ↦ rw m (Reads-eat_integer c s m)
      | inr m ↦ rw m (elim (Bool-cases (c == b'/')) [
        | inl n ↦ rw n (rw ((==_iff c b'/').0 n) (Reads-eat_slash s))
        | inr n ↦ rw n (elim (Option-cases (find_arm c arms)) [
          | inl e ↦ rw (e, eat) (Reads-eat_word c s)
          | inr (a, e) ↦ rw (e, eat) (run_arm-Fronts c a s (find_arm-IsArm c arms arms_lem e))
        ])
      ])
    ])
  ])
]

-- A token that `eat` returns stands for a text, not empty, at the front of the input, and the
-- length returned is the number of bytes of that text. The text is what the token displays, but
-- for white space, which stands for one white-space character.
pub eat-Fronts : (input : List ℕ) (n : ℕ) (t : Token) → eat input ≡ ok (n, t) → Fronts input n t
eat-Fronts input n t h = rw h at (eat-Reads input)
