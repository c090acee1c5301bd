-- ===== src/Parser/Grammar/Sound.antt =====
-- compiler/parser/src/parser/expression.rs: what the binary levels return is derived by the grammar.
use aleotiktacto.Prelude.{
  ℕ, zero, suc, ◌≡◌, refl, sym, subst, ◌∙◌, true, false, Option, none, some, List, Bool-cases,
  Option-cases, inl, inr,
}
use aleotiktacto.Ast.{BinaryOperation, Expression}
use aleotiktacto.Token.{Token, any_eq}
use aleotiktacto.Parser.{
  ParserContext, Outcome, ok, err, panic, out_of_fuel, M, pure, and_then, ◌>>=◌, panics, is_eof,
  advanced, bump, bump_if, eat_any, node_at,
}
use aleotiktacto.Parser.Binary.{
  bin_expr, bin_op, known_op, eaten_op, eat_bin_op, bin_round, bin_loop, parse_bin_expr, compared,
  parse_comparison,
}
use aleotiktacto.Parser.Grammar.{
  Level, tighter, is_comparison, Rule, Derives, plain, grouped, compares,
}

and_then-ok :
    {A B : Type 0} (r : Outcome A) (f : A → M B) {b : B} {c' : ParserContext}
    → and_then r f ≡ ok b c'
    → (a : A) × (c : ParserContext) × (r ≡ ok a c) × (f a c ≡ ok b c')
unfolding and_then
and_then-ok (ok a c) f h = (a, c, refl, h)
and_then-ok (err e c) f h = cc
and_then-ok (panic p) f h = cc
and_then-ok out_of_fuel f h = cc

-- What `eat_bin_op` leaves: the context as it was, or behind the operator.
abbrev Eaten : List Token → ParserContext → Option BinaryOperation → ParserContext → Type 0
Eaten toks c none c' = (c ≡ c') × any_eq toks c'.token.token ≡ false
Eaten toks c (some op) c' =
    (advanced c ≡ c') × (any_eq toks c.token.token ≡ true) × bin_op c.token.token ≡ some op

eat_bin_op-Eaten :
    (toks : List Token) (c : ParserContext) (o : Option BinaryOperation) (c' : ParserContext)
    → eat_bin_op toks c ≡ ok o c'
    → Eaten toks c o c'
unfolding eat_bin_op eat_any bump_if advanced bump eaten_op known_op ◌>>=◌ and_then pure panics
eat_bin_op-Eaten toks c o c' h = elim (Bool-cases (any_eq toks c.token.token)) [
  | inr b ↦ left o b (rw b at h)
  | inl b ↦ elim (Bool-cases (is_eof c.prev_token.token)) [
    | inl e ↦ (let wrong = rw (b, e) at h in cc)
    | inr e ↦ elim (Option-cases (bin_op c.token.token)) [
      | inl n ↦ (let wrong = rw n at rw (b, e) at h in cc)
      | inr (op, s) ↦ right o op b s (rw s at rw (b, e) at h)
    ]
  ]
]
  where
    left :
        (o : Option BinaryOperation)
        → any_eq toks c.token.token ≡ false
        → ok none c ≡ ok o c'
        → Eaten toks c o c'
    left none b e =
        (let same : c ≡ c' = cc in
          (same, subst (λ (x : ParserContext). any_eq toks x.token.token ≡ false) same b))
    left (some op) b e = cc

    right :
        (o : Option BinaryOperation) (op : BinaryOperation)
        → any_eq toks c.token.token ≡ true
        → bin_op c.token.token ≡ some op
        → ok (some op) (advanced c) ≡ ok o c'
        → Eaten toks c o c'
    right none op b s e = cc
    right (some op') op b s e = (cc, b, cc)

derived-ok :
    (p : M Expression) (l : Level) {c c1 c' : ParserContext} {a e : Expression}
    → Derives p l c a c1
    → ok a c1 ≡ ok e c'
    → Derives p l c e c'
derived-ok p l {c} {c1} {c'} {a} {e} d h =
    let same : c1 ≡ c' = cc in
    let result : a ≡ e = cc in
    subst (λ (x : Expression). Derives p l c x c') result
      (subst (λ (x : ParserContext). Derives p l c a x) same d)

module _ (p : M Expression) (l : Level) (toks : List Token) (g : M Expression)
    (rule : (t : Token) (op : BinaryOperation)
      → any_eq toks t ≡ true
      → bin_op t ≡ some op
      → Rule l t op)
    (sound : (c : ParserContext) (e : Expression) (c' : ParserContext)
      → g c ≡ ok e c'
      → Derives p (tighter l) c e c') where
  -- What a level returns: it is derived, and no operator of the level stands behind it.
  abbrev pub Done : ParserContext → Expression → ParserContext → Type 0
  Done c e c' = Derives p l c e c' × any_eq toks c'.token.token ≡ false

  module _ (c c1 : ParserContext) (expr e : Expression) (c' : ParserContext) where
    same_result :
        (c2 : ParserContext)
        → Derives p l c expr c1
        → Eaten toks c1 none c2
        → ok expr c2 ≡ ok e c'
        → Done c e c'
    same_result c2 d ate r =
        let at_end : c2 ≡ c' = cc in
        (
          derived-ok p l (subst (λ (x : ParserContext). Derives p l c expr x) (ate.0 ∙ at_end) d)
              (cc),
          subst (λ (x : ParserContext). any_eq toks x.token.token ≡ false) at_end ate.1,
        )

    bin_round-Derives :
        (again : Expression → M Expression) (o : Option BinaryOperation) (c2 : ParserContext)
        → is_comparison l ≡ false
        → ((c3 : ParserContext) (left : Expression)
            → Derives p l c left c3
            → again left c3 ≡ ok e c'
            → Done c e c')
        → Derives p l c expr c1
        → Eaten toks c1 o c2
        → bin_round g again expr o c2 ≡ ok e c'
        → Done c e c'
    unfolding bin_round ◌>>=◌ bin_expr node_at pure and_then
    bin_round-Derives again none c2 k ih d ate r = same_result c2 d ate r
    bin_round-Derives again (some op) c2 k ih d ate r =
        let read = and_then-ok (g c2) _ r in
        ih _ _
          (grouped k d (rule _ op ate.1 ate.2) (
            sound (advanced c1) read.0 read.1
              (subst (λ (x : ParserContext). g x ≡ ok read.0 read.1) (sym ate.0) read.2)))
          read.3

  bin_loop-Derives :
      (fuel : ℕ) (c c1 : ParserContext) (expr e : Expression) (c' : ParserContext)
      → is_comparison l ≡ false
      → Derives p l c expr c1
      → bin_loop fuel toks g expr c1 ≡ ok e c'
      → Done c e c'
  unfolding bin_loop ◌>>=◌
  bin_loop-Derives zero c c1 expr e c' k d h = cc
  bin_loop-Derives (suc fuel) c c1 expr e c' k d h =
      let ate = and_then-ok (eat_bin_op toks c1) (bin_round g (bin_loop fuel toks g) expr) h in
      bin_round-Derives c c1 expr e c' (bin_loop fuel toks g) ate.0 ate.1 k
        (λ c3 left d' h'. bin_loop-Derives fuel c c3 left e c' k d' h') d
        (eat_bin_op-Eaten toks c1 ate.0 ate.1 ate.2) ate.3

  pub parse_bin_expr-Derives :
      (fuel : ℕ) (c : ParserContext) (e : Expression) (c' : ParserContext)
      → is_comparison l ≡ false
      → parse_bin_expr fuel toks g c ≡ ok e c'
      → Done c e c'
  unfolding parse_bin_expr ◌>>=◌
  parse_bin_expr-Derives fuel c e c' k h =
      let read = and_then-ok (g c) (bin_loop fuel toks g) h in
      bin_loop-Derives fuel c read.1 read.0 e c' k (plain (sound c read.0 read.1 read.2)) read.3

  compared-Derives :
      (o : Option BinaryOperation) (c c1 c2 : ParserContext) (expr e : Expression)
      (c' : ParserContext)
      → is_comparison l ≡ true
      → Derives p (tighter l) c expr c1
      → Eaten toks c1 o c2
      → compared g expr o c2 ≡ ok e c'
      → Derives p l c e c'
  unfolding compared ◌>>=◌ bin_expr node_at pure and_then
  compared-Derives none c c1 c2 expr e c' k d ate r =
      (same_result c c1 expr e c' c2 (plain d) ate r).0
  compared-Derives (some op) c c1 c2 expr e c' k d ate r =
      let read = and_then-ok (g c2) _ r in
      let right =
        sound (advanced c1) read.0 read.1
          (subst (λ (x : ParserContext). g x ≡ ok read.0 read.1) (sym ate.0) read.2) in
      derived-ok p l (compares k d (rule _ op ate.1 ate.2) right) read.3

  pub parse_comparison-Derives :
      (c : ParserContext) (e : Expression) (c' : ParserContext)
      → is_comparison l ≡ true
      → parse_comparison toks g c ≡ ok e c'
      → Derives p l c e c'
  unfolding parse_comparison ◌>>=◌
  parse_comparison-Derives c e c' k h =
      let read = and_then-ok (g c) _ h in
      let ate = and_then-ok (eat_bin_op toks read.1) (compared g read.0) read.3 in
      compared-Derives ate.0 c read.1 ate.1 read.0 e c' k (sound c read.0 read.1 read.2)
        (eat_bin_op-Eaten toks read.1 ate.0 ate.1 ate.2) ate.3
