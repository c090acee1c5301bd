-- ===== src/Parser/Tokens.antt =====
-- compiler/parser/src/parser/context.rs: how far the methods that read tokens go.
use aleotiktacto.Prelude.{
  ℕ, suc, ◌+◌, ◌≤◌, ◌<◌, ◌≡◌, refl, Bool, true, false, List, [], ◌∷◌, length, ◌==◌, if◌then◌else◌,
  arith, Bool-cases, inl, inr,
}
use aleotiktacto.Ast.{Span}
use aleotiktacto.Token.{Token, discriminant, token_eq, any_eq}
use aleotiktacto.Tokenizer.{SpannedToken}
use aleotiktacto.Parser.{
  ParserContext, M, pure, and_then, ◌>>=◌, is_eof, next_token, popped, advanced, bump, check,
  bump_if, eat, eat_any,
}
use aleotiktacto.Parser.Moves.{size, Ready, Moves, takes, Parses, later}

is_eof-discriminant : (t : Token) → is_eof t ≡ (discriminant t == 104)
unfolding is_eof discriminant
is_eof-discriminant Token.eof = refl
is_eof-discriminant _ = refl

-- A token that equals one that is not the end is not the end.
pub token_eq-is_eof : (s t : Token) → token_eq s t ≡ true → is_eof t ≡ false → is_eof s ≡ false
unfolding token_eq
token_eq-is_eof s t e h = rw (is_eof-discriminant s) (ground (arith, is_eof-discriminant t))

abbrev pub no_eof : List Token → Bool
no_eof [] = true
no_eof (t ∷ ts) = if is_eof t then false else no_eof ts

token_eq-is_eof' : (s t : Token) → token_eq s t ≡ true → is_eof s ≡ false → is_eof t ≡ false
unfolding token_eq
token_eq-is_eof' s t e h = rw (is_eof-discriminant t) (ground (arith, is_eof-discriminant s))

pub any_eq-is_eof :
    (ts : List Token) (t : Token) → no_eof ts ≡ true → any_eq ts t ≡ true → is_eof t ≡ false
unfolding any_eq
any_eq-is_eof [] t h e = cc
any_eq-is_eof (k ∷ ts) t h e = elim (Bool-cases (is_eof k)) [
  | inl p ↦ (let wrong = rw p at h in cc)
  | inr p ↦ elim (Bool-cases (token_eq k t)) [
    | inl q ↦ token_eq-is_eof' k t q p
    | inr q ↦ any_eq-is_eof ts t (rw p at h) (rw q at e)
  ]
]

pub size-advanced :
    (c : ParserContext) → is_eof c.token.token ≡ false → size (advanced c) + 1 ≤ size c
unfolding advanced next_token is_eof
size-advanced c h = rw h (shorter c.tokens c.token.span)
  where
    shorter :
        (ts : List SpannedToken) (span : Span)
        → (if is_eof (next_token ts span).token then 0 else suc (length (popped ts))) + 1
          ≤ suc (length ts)
    shorter [] span = omega arith
    shorter (t ∷ ts) span = elim (Bool-cases (is_eof t.token)) [
      | inl e ↦ rw e (omega arith)
      | inr e ↦ rw e (omega arith)
    ]

module _ {d : Bool} where
  pub advanced-Ready :
      (c : ParserContext) → Ready d c → is_eof c.token.token ≡ false → Ready d (advanced c)
  unfolding advanced
  advanced-Ready c ready h = record { not_past = h; flag = ready.flag }

  pub bump-Moves :
      (c : ParserContext) → Ready d c → is_eof c.token.token ≡ false → Moves d 1 c (bump c)
  unfolding bump
  bump-Moves c ready h = rw ready.not_past (takes (advanced-Ready c ready h) (size-advanced c h))

  module _ {A : Type 0} (f : Bool → M A) where
    -- A token eaten under a test, and what follows in either case.
    pub bump_if-Moves :
        {k : ℕ} (b : Bool) (c : ParserContext)
        → Ready d c
        → (b ≡ true → is_eof c.token.token ≡ false)
        → k ≤ 1
        → (b ≡ true
            → Ready d (advanced c)
            → size (advanced c) + 1 ≤ size c
            → Moves d 0 (advanced c) (f true (advanced c)))
        → (b ≡ false → Moves d k c (f false c))
        → Moves d k c (and_then (bump_if b c) f)
    unfolding bump_if bump and_then ◌>>=◌ pure
    bump_if-Moves true c ready h le g g' =
        rw ready.not_past (later 1 0 (g refl ready' moved) moved (omega arith))
      where
        ready' : Ready d (advanced c)
        ready' = advanced-Ready c ready (h refl)

        moved : size (advanced c) + 1 ≤ size c
        moved = size-advanced c (h refl)
    bump_if-Moves false c ready h le g g' = g' refl

    -- `eat` of a token: what follows has less to read where it was eaten.
    pub eat-bind :
        (tok : Token) {n n' k : ℕ}
        → is_eof tok ≡ false
        → Parses d n' 0 (f true)
        → Parses d n k (f false)
        → n ≤ suc n'
        → k ≤ 1
        → Parses d n k (eat tok >>= f)
    unfolding eat ◌>>=◌ check
    eat-bind tok e h h' le le' = record {
      apply = λ c ready lt.
          bump_if-Moves _ c ready (λ t. token_eq-is_eof c.token.token tok t e) le'
            (λ t ready' moved. h.apply (advanced c) ready' (omega arith))
            (λ t. h'.apply c ready lt);
    }

    -- `eat_any`: what follows a token that was eaten knows that it was one of the list.
    pub eat_any-bind :
        (toks : List Token) {n n' k : ℕ}
        → no_eof toks ≡ true
        → ((c : ParserContext)
            → any_eq toks c.prev_token.token ≡ true
            → Ready d c
            → size c < n'
            → Moves d 0 c (f true c))
        → Parses d n k (f false)
        → n ≤ suc n'
        → k ≤ 1
        → Parses d n k (eat_any toks >>= f)
    unfolding eat_any ◌>>=◌ advanced
    eat_any-bind toks e h h' le le' = record {
      apply = λ c ready lt.
          bump_if-Moves _ c ready (any_eq-is_eof toks c.token.token e) le'
            (λ t ready' moved. h (advanced c) t ready' (omega arith)) (λ t. h'.apply c ready lt);
    }
