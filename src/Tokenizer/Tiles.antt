-- ===== src/Tokenizer/Tiles.antt =====
-- The tokens tile the text.
use aleotiktacto.Prelude.{
  ℕ, zero, suc, ◌+◌, ◌≤◌, ◌<◌, ◌^◌, ◌≡◌, ◌≢◌, refl, sym, ap, ◌∙◌, ◌⊎◌, inl, inr, none, some, List,
  [], ◌∷◌, ◌++◌, length, length-append, append_assoc, arith, subst, true, false, leb, ◌-◌,
  if◌then◌else◌,
}
use aleotiktacto.Chars.{slice_from, byte_len, len_utf8, is_ascii_whitespace}
use aleotiktacto.Token.{Token, display}
use aleotiktacto.Lexer.{LexError, ok, err, eat, Eaten}
use aleotiktacto.Lexer.Fronts.{Shows, byte_len-append, is_white_space}
use aleotiktacto.Lexer.Text.{eat-Fronts, white_space-byte_len}
use aleotiktacto.Tokenizer.{
  from_usize, add_pos, SpannedToken, Tokens, tokens, error, panic, out_of_fuel, push_front,
  yield_token, tokenize_iter, tokenize,
}
use aleotiktacto.Ast.{Span}

-- The text at position `lo` is these tokens in turn, each at its span, with white space between.
pub data Tiles : ℕ → List ℕ → List SpannedToken → Type 0 where
  end : {lo : ℕ} → Tiles lo [] []
  space :
      {lo : ℕ} {input rest : List ℕ} {ts : List SpannedToken} (c : ℕ)
      → is_ascii_whitespace c ≡ true
      → input ≡ c ∷ rest
      → Tiles (lo + 1) rest ts
      → Tiles lo input ts
  item :
      {lo : ℕ} {input rest : List ℕ} {ts : List SpannedToken} (t : SpannedToken)
      → t.span.lo ≡ lo
      → t.span.hi ≡ lo + byte_len (display t.token)
      → input ≡ display t.token ++ rest
      → Tiles t.span.hi rest ts
      → Tiles lo input (t ∷ ts)

len_utf8_pos : (c : ℕ) → 0 < len_utf8 c
unfolding len_utf8
len_utf8_pos c = ground arith

slice_from-cons :
    (n c : ℕ) (s : List ℕ)
    → 0 < n
    → slice_from n (c ∷ s) ≡ (if leb (len_utf8 c) n then slice_from (n - len_utf8 c) s else none)
unfolding slice_from
slice_from-cons zero c s h = absurd (omega arith)
slice_from-cons (suc n) c s h = refl

-- Slicing off a whole prefix never panics.
pub slice_from-append : (text rest : List ℕ) → slice_from (byte_len text) (text ++ rest) ≡ some rest
unfolding byte_len
slice_from-append [] rest = unfold slice_from in refl
slice_from-append (c ∷ text) rest = ground (
  arith,
  slice_from-cons (len_utf8 c + byte_len text) c (text ++ rest),
  len_utf8_pos c,
  slice_from-append text rest,
)

Eaten-cases :
    (r : Eaten) → ((e : LexError) × (r ≡ err e)) ⊎ ((n : ℕ) × (t : Token) × (r ≡ ok (n, t)))
Eaten-cases (ok (n, t)) = inr (n, t, refl)
Eaten-cases (err e) = inl (e, refl)

-- The result is a tiling, or an error of `eat` at some point of the text.
abbrev pub IsTokenized : ℕ → List ℕ → Tokens → Type 0
IsTokenized lo input (tokens ts) = Tiles lo input ts
IsTokenized lo input (error e) =
    (before : List ℕ) × (rest : List ℕ) × (input ≡ before ++ rest) × (eat rest ≡ err e)
IsTokenized lo input panic = ⊥
IsTokenized lo input out_of_fuel = ⊥

later_error :
    (text rest input : List ℕ) (e : LexError)
    → input ≡ text ++ rest
    → ((before : List ℕ) × (r : List ℕ) × (rest ≡ before ++ r) × (eat r ≡ err e))
    → (before : List ℕ) × (r : List ℕ) × (input ≡ before ++ r) × (eat r ≡ err e)
later_error text rest input e split (before, r, split', h) =
    (text ++ before, r, split ∙ ap (λ x. text ++ x) split' ∙ sym (append_assoc text before r), h)

IsTokenized-space :
    (lo c : ℕ) (rest input : List ℕ) (r : Tokens)
    → is_ascii_whitespace c ≡ true
    → input ≡ c ∷ rest
    → IsTokenized (lo + 1) rest r
    → IsTokenized lo input r
IsTokenized-space lo c rest input (tokens ts) w split h = space c w split h
IsTokenized-space lo c rest input (error e) w split h = later_error (c ∷ []) rest input e split h
IsTokenized-space lo c rest input panic w split h = absurd h
IsTokenized-space lo c rest input out_of_fuel w split h = absurd h

IsTokenized-item :
    (t : SpannedToken) (lo : ℕ) (rest input : List ℕ) (r : Tokens)
    → t.span.lo ≡ lo
    → t.span.hi ≡ lo + byte_len (display t.token)
    → input ≡ display t.token ++ rest
    → IsTokenized t.span.hi rest r
    → IsTokenized lo input (push_front t r)
unfolding push_front
IsTokenized-item t lo rest input (tokens ts) at_lo at_hi split h = item t at_lo at_hi split h
IsTokenized-item t lo rest input (error e) at_lo at_hi split h =
    later_error (display t.token) rest input e split h
IsTokenized-item t lo rest input panic at_lo at_hi split h = absurd h
IsTokenized-item t lo rest input out_of_fuel at_lo at_hi split h = absurd h

pub yield_token-push_front :
    (t : Token) (span : Span) (r : Tokens)
    → is_white_space t ≡ false
    → yield_token t span r ≡ push_front (record { token = t; span = span }) r
unfolding yield_token
yield_token-push_front Token.white_space span r h = cc
yield_token-push_front _ span r h = refl

yield_token-IsTokenized :
    (t : Token) (lo hi : ℕ) (text rest input : List ℕ) (r : Tokens)
    → Shows t text
    → hi ≡ lo + byte_len text
    → input ≡ text ++ rest
    → IsTokenized hi rest r
    → IsTokenized lo input (yield_token t (record { lo = lo; hi = hi }) r)
yield_token-IsTokenized t lo hi text rest input r (inl (other, shown)) at_hi split h =
    rw (yield_token-push_front t (record { lo = lo; hi = hi }) r other) (
      IsTokenized-item (record { token = t; span = record { lo = lo; hi = hi } }) lo rest input r
        refl (at_hi ∙ ap (λ x. lo + byte_len x) (sym shown))
        (split ∙ ap (λ x. x ++ rest) (sym shown)) h)
yield_token-IsTokenized t lo hi text rest input r (inr (c, one, white, same)) at_hi split h =
    rw same (
      unfold yield_token in
      IsTokenized-space lo c rest input r white (split ∙ ap (λ x. x ++ rest) one) (
        subst (λ x. IsTokenized x rest r)
          (at_hi
            ∙ ap (λ x. lo + byte_len x) one
            ∙ ap (λ n. lo + n) (sym (white_space-byte_len c white)))
          h))

length-ne-nil : (text : List ℕ) → text ≢ [] → 0 < length text
length-ne-nil [] h = absurd (h refl)
length-ne-nil (c ∷ s) h = omega arith

-- The position behind a token does not wrap around below 2 ^ 32.
pub hi_lem : (lo n : ℕ) → lo + n < 2 ^ 32 → add_pos lo (from_usize n) ≡ lo + n
unfolding add_pos from_usize
hi_lem lo n h = omega arith

pub tokenize_iter_ok :
    (fuel : ℕ) (input : List ℕ) (lo n : ℕ) (t : Token) (rest : List ℕ)
    → eat input ≡ ok (n, t)
    → slice_from n input ≡ some rest
    → tokenize_iter (suc fuel) input lo
      ≡ yield_token t
          (record { lo = lo; hi = add_pos lo (from_usize n) })
          (tokenize_iter fuel rest (add_pos lo (from_usize n)))
unfolding tokenize_iter
tokenize_iter_ok fuel [] lo n t rest e slice = unfold eat in cc
tokenize_iter_ok fuel (c ∷ s) lo n t rest e slice = rw (e, tokenize_iter) (rw slice)

tokenize_iter_err :
    (fuel : ℕ) (c : ℕ) (s : List ℕ) (lo : ℕ) (e : LexError)
    → eat (c ∷ s) ≡ err e
    → tokenize_iter (suc fuel) (c ∷ s) lo ≡ error e
unfolding tokenize_iter
tokenize_iter_err fuel c s lo e h = rw (h, tokenize_iter)

tokenize_iter-IsTokenized :
    (fuel : ℕ) (input : List ℕ) (lo : ℕ)
    → length input ≤ fuel
    → lo + byte_len input < 2 ^ 32
    → IsTokenized lo input (tokenize_iter fuel input lo)
tokenize_iter-IsTokenized fuel [] lo enough fits = unfold tokenize_iter in end
tokenize_iter-IsTokenized zero (c ∷ s) lo enough fits = absurd (omega arith)
tokenize_iter-IsTokenized (suc fuel) (c ∷ s) lo enough fits = elim (Eaten-cases (eat (c ∷ s))) [
  | inl (e, failed) ↦ rw (tokenize_iter_err fuel c s lo e failed) ([], c ∷ s, refl, failed)
  | inr (n, t, eaten) ↦
      let (text, rest, split, size, filled, shows) = eat-Fronts (c ∷ s) n t eaten in
      let sliced : slice_from n (c ∷ s) ≡ some rest =
        rw (size, split) (slice_from-append text rest) in
      let bytes = ap byte_len split ∙ byte_len-append text rest in
      let at_hi = hi_lem lo n (omega arith) in
      rw (tokenize_iter_ok fuel (c ∷ s) lo n t rest eaten sliced) (
        yield_token-IsTokenized t lo (add_pos lo (from_usize n)) text rest (c ∷ s) _ shows
          (at_hi ∙ ap (λ x. lo + x) size) split
          (tokenize_iter-IsTokenized fuel rest (add_pos lo (from_usize n))
            (omega (arith, ap length split, length-append text rest, length-ne-nil text filled))
            (omega arith)))
]

-- If the text ends below position 2 ^ 32, `tokenize` returns, and no slice panics. The tokens tile
-- the text: each span is where the text of its token stands, and only white space is between. An
-- error is one of `eat` at a position of the text.
pub tokenize-IsTokenized :
    (input : List ℕ) (start_pos : ℕ)
    → start_pos + byte_len input < 2 ^ 32
    → IsTokenized start_pos input (tokenize input start_pos)
unfolding tokenize
tokenize-IsTokenized input start_pos fits =
    tokenize_iter-IsTokenized (length input) input start_pos (omega arith) fits
