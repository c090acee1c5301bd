-- ===== src/Lexer/Bodies.antt =====
-- The arms of `eat` for integers, strings and comments.
use aleotiktacto.Prelude.{
  ℕ, ◌≡◌, ◌≢◌, refl, sym, ap, ◌∙◌, inl, inr, Bool, true, false, ◌&&◌, ◌||◌, some, List, [], ◌∷◌,
  ◌++◌, ◌==◌, if◌then◌else◌, codes, Bool-cases, Option-cases, arith, append_assoc,
}
use aleotiktacto.Chars.{is_ascii_digit, byte_len, take_while, any}
use aleotiktacto.Token.{display}
use aleotiktacto.Lexer.{
  Eaten, ensure_no_bidi_override, next_is, eat_digits, eat_integer, advance, before_quote,
  eat_string, line, eat_line_comment, block, finish_block, eat_block_comment, eat_slash,
  is_bidi_override,
}
use aleotiktacto.Lexer.Fronts.{
  Reads, next_is-eq, byte_len-append, front, append-ne-nil, cons-ne-nil,
}

-- Digits and identifiers: what `take_while` leaves.
abbrev pub rest_while : (ℕ → Bool) → List ℕ → List ℕ
rest_while p [] = []
rest_while p (c ∷ s) = if p c then rest_while p s else c ∷ s

pub take_while-rest : (p : ℕ → Bool) (s : List ℕ) → s ≡ take_while p s ++ rest_while p s
take_while-rest p [] = refl
take_while-rest p (c ∷ s) = elim (Bool-cases (p c)) [
  | inl h ↦ rw h (ap (λ t. c ∷ t) (take_while-rest p s))
  | inr h ↦ rw h
]

-- A whole text that was read: `got` before, then the characters of the input.
pub Reads-digits : (int s : List ℕ) → int ≢ [] → Reads (int ++ s) (eat_digits int s)
unfolding eat_digits display
Reads-digits int [] ne = (int, [], refl, refl, ne, inl (refl, refl))
Reads-digits int (c ∷ s) ne = elim (Bool-cases (is_ascii_digit c || c == b'_')) [
  | inl h ↦ rw h (elim (Bool-cases (c == b'0' && next_is b'x' s)) [
    | inl k ↦ rw k tt
    | inr k ↦ rw k (
        rw (append_assoc int (c ∷ []) s) at
          (Reads-digits (int ++ c ∷ []) s (append-ne-nil int c [])))
  ])
  | inr h ↦ rw h (int, c ∷ s, refl, refl, ne, inl (refl, refl))
]

pub Reads-eat_integer :
    (c : ℕ) (s : List ℕ) → is_ascii_digit c ≡ true → Reads (c ∷ s) (eat_integer (c ∷ s))
unfolding eat_integer eat_digits
Reads-eat_integer c s h = rw h (elim (Bool-cases (c == b'0' && next_is b'x' s)) [
  | inl k ↦ rw k tt
  | inr k ↦ rw k (Reads-digits (c ∷ []) s cons-ne-nil)
])

pub Reads-ensure :
    (input string : List ℕ) (k : Eaten)
    → Reads input k
    → Reads input (ensure_no_bidi_override string k)
unfolding ensure_no_bidi_override
Reads-ensure input string k h = elim (Bool-cases (any is_bidi_override string)) [
  | inl e ↦ rw e tt
  | inr e ↦ rw e h
]

pub before_quote-eq :
    (s : List ℕ) {t : List ℕ} → before_quote s ≡ some t → (rest : List ℕ) × (s ≡ t ++ b'"' ∷ rest)
unfolding before_quote
before_quote-eq [] h = cc
before_quote-eq (c ∷ s) {t} h = elim (Bool-cases (c == b'"')) [
  | inl e ↦ (s, ground arith)
  | inr e ↦ elim (Option-cases (before_quote s)) [
    | inl none_left ↦ cc
    | inr (u, found) ↦ let (rest, split) = before_quote-eq s found in (rest, ground arith)
  ]
]

pub Reads-eat_string : (s : List ℕ) → Reads (b'"' ∷ s) (eat_string s)
unfolding eat_string byte_len display
Reads-eat_string s = elim (Option-cases (before_quote s)) [
  | inl e ↦ rw (e, eat_string) tt
  | inr (t, e) ↦
      let (rest, split) = before_quote-eq s e in
      rw (e, eat_string)
        (Reads-ensure _ t _ (
          b'"' ∷ (t ++ b'"' ∷ []),
          rest,
          ap (λ r. b'"' ∷ r) (split ∙ sym (append_assoc t (b'"' ∷ []) rest)),
          omega (arith, byte_len-append t (b'"' ∷ [])),
          cons-ne-nil,
          inl (refl, refl),
        ))
]

pub line-rest : (s : List ℕ) → (rest : List ℕ) × (s ≡ line s ++ rest)
unfolding line
line-rest [] = ([], refl)
line-rest (c ∷ s) =
    let (rest, split) = line-rest s in
    elim (Bool-cases (c == b'\n')) [
      | inl e ↦ (s, rw e)
      | inr e ↦ (rest, rw e (ap (λ t. c ∷ t) split))
    ]

pub line-ne-nil : (c : ℕ) (s : List ℕ) → line (c ∷ s) ≢ []
unfolding line
line-ne-nil c s h = ground arith

pub Reads-eat_line_comment : (c : ℕ) (s : List ℕ) → Reads (c ∷ s) (eat_line_comment (c ∷ s))
unfolding eat_line_comment display
Reads-eat_line_comment c s =
    let (rest, split) = line-rest (c ∷ s) in
    Reads-ensure (c ∷ s) (line (c ∷ s)) _
      (line (c ∷ s), rest, split, refl, line-ne-nil c s, inl (refl, refl))

pub block-rest :
    (comment s : List ℕ)
    → comment ≢ []
    → (rest : List ℕ) × (comment ++ s ≡ (block comment s).0 ++ rest) × ((block comment s).0 ≢ [])
unfolding block
block-rest comment [] ne = ([], refl, ne)
block-rest comment (c ∷ s) ne = elim (Bool-cases (c == b'*' && next_is b'/' s)) [
  | inl e ↦ rw e (
    advance s,
    ap (λ r. comment ++ c ∷ r) (next_is-eq b'/' s (ground arith))
        ∙ sym (append_assoc comment (c ∷ b'/' ∷ []) (advance s)),
    append-ne-nil comment c (b'/' ∷ []),
  )
  | inr e ↦ rw e (
      let (rest, split, ne') = block-rest (comment ++ c ∷ []) s (append-ne-nil comment c []) in
      (rest, sym (append_assoc comment (c ∷ []) s) ∙ split, ne'))
]

pub Reads-finish_block :
    (input : List ℕ) (b : List ℕ × Bool) (rest : List ℕ)
    → input ≡ b.0 ++ rest
    → b.0 ≢ []
    → Reads input (finish_block b)
unfolding finish_block display
Reads-finish_block input (comment, true) rest split ne =
    Reads-ensure input comment _ (comment, rest, split, refl, ne, inl (refl, refl))
Reads-finish_block input (comment, false) rest split ne = Reads-ensure input comment _ tt

pub Reads-eat_block_comment : (s : List ℕ) → Reads (codes "/*" ++ s) (eat_block_comment s)
unfolding eat_block_comment
Reads-eat_block_comment [] = tt
Reads-eat_block_comment (c ∷ s) =
    let (rest, split, ne) = block-rest (codes "/*") (c ∷ s) cons-ne-nil in
    Reads-finish_block _ (block (codes "/*") (c ∷ s)) rest split ne

pub Reads-eat_slash : (s : List ℕ) → Reads (b'/' ∷ s) (eat_slash s)
unfolding eat_slash display byte_len
Reads-eat_slash s = elim (Bool-cases (next_is b'/' s)) [
  | inl h ↦ rw h (rw (next_is-eq b'/' s h) (Reads-eat_line_comment b'/' (b'/' ∷ advance s)))
  | inr h ↦ rw h (elim (Bool-cases (next_is b'*' s)) [
    | inl k ↦ rw k (rw (next_is-eq b'*' s k) (Reads-eat_block_comment (advance s)))
    | inr k ↦ rw k (elim (Bool-cases (next_is b'=' s)) [
      | inl m ↦ rw m (
          front (codes "/=") (advance s) _ ((refl, refl), refl, cons-ne-nil)
            (ap (λ r. b'/' ∷ r) (next_is-eq b'=' s m)))
      | inr m ↦ rw m (front (codes "/") s _ ((refl, refl), refl, cons-ne-nil) refl)
    ])
  ])
]
