-- ===== src/Parser/Total/Groups.antt =====
-- compiler/parser/src/parser/expression.rs: an affine group literal is taken as a whole, or nothing of
-- it is.
use aleotiktacto.Prelude.{
  ℕ, zero, suc, ◌+◌, ◌≤◌, ◌≡◌, refl, subst, Bool, true, false, Option, none, some, some-injective,
  List, [], ◌∷◌, arith, Bool-cases, Option-cases, inl, inr,
}
use aleotiktacto.Ast.{Span, GroupCoordinate, Expression}
use aleotiktacto.Token.{Token, token_eq}
use aleotiktacto.Tokenizer.{SpannedToken}
use aleotiktacto.Parser.{
  ParserContext, M, pure, ◌>>=◌, and_then, is_eof, next_token, advanced, ahead, bump, check,
  node_at,
}
use aleotiktacto.Parser.Groups.{
  sign_low_or, coordinate, peek_group_coordinate, check_ahead, and_also, GroupAhead, group_ahead,
  bumps, assert_no_whitespace, eat_group, eat_group_partial,
}
use aleotiktacto.Parser.Moves.{
  size, Ready, Moves, takes, Parses, later, Parses-pure, Parses-fail, first, Moves-and_then,
  Parses-if,
}
use aleotiktacto.Parser.Tokens.{advanced-Ready, size-advanced, token_eq-is_eof}

-- None of the next `n` tokens is the end.
abbrev pub Full : ℕ → ParserContext → Type 0
Full zero c = Unit {0}
Full (suc n) c = Full n c × is_eof (ahead n c).token ≡ false

Full-first : (n : ℕ) (c : ParserContext) → Full (suc n) c → is_eof c.token.token ≡ false
unfolding ahead
Full-first zero c h = h.1
Full-first (suc n) c h = Full-first n c h.0

ahead-advanced :
    (n : ℕ) (c : ParserContext)
    → is_eof (ahead (suc n) c).token ≡ false
    → is_eof (ahead n (advanced c)).token ≡ false
unfolding ahead advanced next_token is_eof
ahead-advanced n c h = by_tokens n c.tokens refl h
  where
    by_tokens :
        (n : ℕ) (ts : List SpannedToken)
        → c.tokens ≡ ts
        → is_eof (ahead (suc n) c).token ≡ false
        → is_eof (ahead n (advanced c)).token ≡ false
    by_tokens n [] e h = (let wrong = rw e at h in cc)
    by_tokens zero (t ∷ ts) e h = rw e (rw e at h)
    by_tokens (suc n) (t ∷ ts) e h = rw e (rw e at h)

Full-advanced : (n : ℕ) (c : ParserContext) → Full (suc n) c → Full n (advanced c)
Full-advanced zero c h = tt
Full-advanced (suc n) c h = (Full-advanced n c h.0, ahead-advanced n c h.1)

module _ {d : Bool} where
  Moves-bumps : (n : ℕ) (c : ParserContext) → Ready d c → Full n c → Moves d n c (bumps n c)
  unfolding bumps bump pure ◌>>=◌ and_then
  Moves-bumps zero c ready h = takes ready (omega arith)
  Moves-bumps (suc n) c ready h = rw ready.not_past (
      later 1 n
        (Moves-bumps n (advanced c) (advanced-Ready c ready (Full-first n c h))
          (Full-advanced n c h))
        (size-advanced c (Full-first n c h)) (omega arith))

  pub Parses-assert_no_whitespace :
      {n : ℕ} (s t : Span) (l r : List ℕ) → Parses d n 0 (assert_no_whitespace s t l r)
  unfolding assert_no_whitespace
  Parses-assert_no_whitespace s t l r = Parses-if _ (Parses-pure _) (Parses-fail _)

-- What was peeked at is before the end.
coordinate-Full :
    (dist : ℕ) (t : Token) (c : ParserContext)
    → (ahead dist c).token ≡ t
    → (span : Span) (p : ℕ × GroupCoordinate) → coordinate dist t span c ≡ some p
    → Full dist c
    → Full p.0 c
unfolding coordinate sign_low_or is_eof
coordinate-Full dist Token.add c e span p h full =
    subst (λ q. Full q.0 c) (some-injective _ _ h) (full, rw e refl)
coordinate-Full dist Token.underscore c e span p h full =
    subst (λ q. Full q.0 c) (some-injective _ _ h) (full, rw e refl)
coordinate-Full dist (Token.integer s) c e span p h full =
    subst (λ q. Full q.0 c) (some-injective _ _ h) (full, rw e refl)
coordinate-Full dist Token.sub c e span p h full =
    subst (λ q. Full q.0 c) (some-injective _ _ h)
      (behind (ahead (suc dist) c).token refl (ahead (suc dist) c).span)
  where
    behind :
        (t : Token)
        → (ahead (suc dist) c).token ≡ t
        → (span : Span) → Full (sign_low_or dist t span).0 c
    behind (Token.integer s) e' span = ((full, rw e refl), rw e' refl)
    behind _ e' span = (full, rw e refl)
coordinate-Full dist _ c e span p h full = (cc)

peek_group_coordinate-Full :
    (dist : ℕ) (c : ParserContext) (p : ℕ × GroupCoordinate)
    → peek_group_coordinate dist c ≡ some p
    → Full dist c
    → Full p.0 c
unfolding peek_group_coordinate
peek_group_coordinate-Full dist c p h full =
    coordinate-Full dist (ahead dist c).token c refl (ahead dist c).span p h full

check_ahead-Full :
    (dist : ℕ) (tok : Token) (c : ParserContext) (span : Span)
    → is_eof tok ≡ false
    → check_ahead dist tok c ≡ some span
    → Full dist c
    → Full (suc dist) c
unfolding check_ahead
check_ahead-Full dist tok c span h e full = elim (Bool-cases (token_eq (ahead dist c).token tok)) [
  | inl b ↦ (full, token_eq-is_eof (ahead dist c).token tok b h)
  | inr b ↦ (let wrong = rw b at e in cc)
]

also-some :
    {A B : Type 0} (o : Option A) (f : A → Option B) (b : B)
    → and_also o f ≡ some b
    → (a : A) × (o ≡ some a) × (f a ≡ some b)
also-some none f b h = (cc)
also-some (some a) f b h = (a, refl, h)

group_ahead-Full :
    (c : ParserContext) (g : GroupAhead)
    → is_eof c.token.token ≡ false
    → group_ahead c ≡ some g
    → (1 ≤ g.dist) × Full g.dist c
unfolding group_ahead is_eof ahead
group_ahead-Full c g h e =
    let p = also-some _ _ g e in
    let comma = also-some _ _ g p.2 in
    let q = also-some _ _ g comma.2 in
    let right = also-some _ _ g q.2 in
    let end = also-some _ _ g right.2 in
    let full-x = peek_group_coordinate-Full 1 c p.0 p.1 (tt, h) in
    let full-comma = check_ahead-Full _ Token.comma c comma.0 refl comma.1 full-x in
    let full-y = peek_group_coordinate-Full _ c q.0 q.1 full-comma in
    let full-right = check_ahead-Full _ Token.right_paren c right.0 refl right.1 full-y in
    let full-end = check_ahead-Full _ Token.group c end.0 refl end.1 full-right in
    subst (λ (r : GroupAhead). (1 ≤ r.dist) × Full r.dist c) (some-injective _ _ end.2)
      (omega arith, full-end)

Full-ids : (n : ℕ) (c : ParserContext) (i : ℕ) → Full n c → Full n (record c { ids = i })
unfolding ahead
Full-ids zero c i h = tt
Full-ids (suc zero) c i h = h
Full-ids (suc (suc n)) c i h = (Full-ids (suc n) c i h.0, h.1)

module _ {d : Bool} where
  eat_group-Moves :
      (g : GroupAhead) (c : ParserContext)
      → Ready d c
      → (1 ≤ g.dist) × Full g.dist c
      → Moves d 1 c (eat_group (some g) c c)
  unfolding eat_group node_at ◌>>=◌ and_then
  eat_group-Moves g c ready h =
      later 0 1
        (Moves-and_then _
          (Moves-bumps g.dist _ (record { not_past = ready.not_past; flag = ready.flag })
            (Full-ids g.dist c (c.ids + 1) h.1))
          (λ u c' ready' moved.
            (first {n = suc (size c')} (Parses-assert_no_whitespace _ _ _ _)
                (λ u. Parses-pure _)).apply
              c' ready' (omega arith))
          (omega (arith, h.0)))
        (omega arith) (omega arith)

  -- At a `(`: the literal is taken, or the context is as before.
  pub eat_group_partial-Moves :
      {A : Type 0} (f : Option Expression → M A) (c : ParserContext)
      → Ready d c
      → check Token.left_paren c ≡ true
      → ((o : Option Expression) (c' : ParserContext)
          → Ready d c'
          → size c' + 1 ≤ size c
          → Moves d 0 c' (f o c'))
      → Moves d 1 c (f none c)
      → Moves d 1 c (and_then (eat_group_partial c) f)
  unfolding eat_group_partial eat_group pure and_then check is_eof
  eat_group_partial-Moves f c ready e h h' = rw e (elim (Option-cases (group_ahead c)) [
    | inl o ↦ rw o h'
    | inr (g, o) ↦ rw o (
        Moves-and_then {k = 1} f
          (eat_group-Moves g c ready
            (group_ahead-Full c g (token_eq-is_eof c.token.token Token.left_paren e refl) o))
          h (omega arith))
  ])
