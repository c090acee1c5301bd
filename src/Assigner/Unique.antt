-- ===== src/Assigner/Unique.antt =====
-- The names that compiler/passes/src/common/assigner/mod.rs draws one after another.
use aleotiktacto.Prelude.{
  ℕ, suc, ◌+◌, ◌<◌, true, false, List, [], ◌∷◌, ◌++◌, ◌≡◌, ◌≢◌, refl, sym, ap, ◌∙◌, some-injective,
  append_assoc, arith,
}
use aleotiktacto.Chars.{is_ascii_digit}
use aleotiktacto.Values.Convert.{read_digits, decimal}
use aleotiktacto.Values.Convert.Laws.{read_digits-all, all_digits, decimal-all_digits}
use aleotiktacto.Assigner.{Assigner, unique_symbol}

-- The texts of a list of requests, each an argument and a separator, in the order drawn.
unfoldable pub draw : List (List ℕ × List ℕ) → Assigner → List (List ℕ)
draw [] a = []
draw (request ∷ requests) a =
    let drawn = unique_symbol request.0 request.1 a in drawn.0 ∷ draw requests drawn.1

-- The separator ends with a character that is no digit, as `$` does.
unfoldable pub IsMark : List ℕ → Type 0
IsMark [] = ⊥
IsMark (c ∷ []) = is_ascii_digit c ≡ false
IsMark (c ∷ d ∷ s) = IsMark (d ∷ s)

unfoldable pub AreMarks : List (List ℕ × List ℕ) → Type 0
AreMarks [] = Unit {0}
AreMarks (request ∷ requests) = IsMark request.1 × AreMarks requests

unfoldable pub Avoids : List ℕ → List (List ℕ) → Type 0
Avoids name [] = Unit {0}
Avoids name (other ∷ others) = (name ≢ other) × Avoids name others

-- No text stands in the list twice.
unfoldable pub AreDistinct : List (List ℕ) → Type 0
AreDistinct [] = Unit {0}
AreDistinct (name ∷ names) = Avoids name names × AreDistinct names

abbrev tail : List ℕ → List ℕ
tail [] = []
tail (c ∷ s) = s

-- A text with a character that is no digit.
all_digits-mark :
    (s u : List ℕ) (c : ℕ) → is_ascii_digit c ≡ false → all_digits (s ++ (c ∷ u)) ≡ false
unfolding all_digits
all_digits-mark [] u c n = rw n refl
all_digits-mark (d ∷ s) u c n = ground (arith, all_digits-mark s u c n)

true-ne-false : true ≢ false
true-ne-false h = cc

no_mark :
    (s u v : List ℕ) (c : ℕ) → all_digits v ≡ true → is_ascii_digit c ≡ false → v ≢ s ++ (c ∷ u)
no_mark s u v c h n e = true-ne-false (sym h ∙ ap all_digits e ∙ all_digits-mark s u c n)

-- The digits behind the last character that is no digit.
digits-end :
    (s u v w : List ℕ) (c d : ℕ)
    → is_ascii_digit c ≡ false
    → is_ascii_digit d ≡ false
    → all_digits v ≡ true
    → all_digits w ≡ true
    → s ++ (c ∷ v) ≡ u ++ (d ∷ w)
    → v ≡ w
digits-end [] [] v w c d nc nd hv hw e = ap tail e
digits-end [] (y ∷ u) v w c d nc nd hv hw e = absurd (no_mark u w v d hv nd (ap tail e))
digits-end (x ∷ s) [] v w c d nc nd hv hw e = absurd (no_mark s v w c hw nc (sym (ap tail e)))
digits-end (x ∷ s) (y ∷ u) v w c d nc nd hv hw e = digits-end s u v w c d nc nd hv hw (ap tail e)

-- What a text that ends with a character that is no digit consists of.
abbrev IsSplit : List ℕ → Type 0
IsSplit s = (front : List ℕ) × ((c : ℕ) × ((s ≡ front ++ (c ∷ [])) × (is_ascii_digit c ≡ false)))

IsMark-IsSplit : (s : List ℕ) → IsMark s → IsSplit s
unfolding IsMark
IsMark-IsSplit [] h = absurd h
IsMark-IsSplit (c ∷ []) h = ([], (c, (refl, h)))
IsMark-IsSplit (c ∷ d ∷ s) h =
    let (front, (e, (p, n))) = IsMark-IsSplit (d ∷ s) h in (c ∷ front, (e, (ap (λ u. c ∷ u) p, n)))

abbrev digits : Assigner → List ℕ
digits a = decimal (suc a.counter) a.counter

name-split :
    (arg s u front : List ℕ) (c : ℕ)
    → s ≡ front ++ (c ∷ [])
    → arg ++ (s ++ u) ≡ (arg ++ front) ++ (c ∷ u)
name-split arg s u front c e =
    ap (λ k. arg ++ (k ++ u)) e
    ∙ ap (λ k. arg ++ k) (append_assoc front (c ∷ []) u)
    ∙ sym (append_assoc arg front (c ∷ u))

-- Two names of different counters are different, whatever the texts before their digits.
names-counters :
    (arg s arg' s' : List ℕ) (a b : Assigner)
    → IsMark s
    → IsMark s'
    → (unique_symbol arg s a).0 ≡ (unique_symbol arg' s' b).0
    → a.counter ≡ b.counter
unfolding unique_symbol
names-counters arg s arg' s' a b h h' e =
    let (front, (c, (p, n))) = IsMark-IsSplit s h in
    let (front', (c', (p', n'))) = IsMark-IsSplit s' h' in
    some-injective _ _ (
      sym (read_digits-all a.counter)
      ∙ ap (read_digits 0) (
          digits-end (arg ++ front) (arg' ++ front') (digits a) (digits b) c c' n n'
            (decimal-all_digits (suc a.counter) a.counter)
            (decimal-all_digits (suc b.counter) b.counter)
            (sym (name-split arg s (digits a) front c p)
              ∙ e
              ∙ name-split arg' s' (digits b) front' c' p'))
      ∙ read_digits-all b.counter)

draw-Avoids :
    (arg s : List ℕ) (a b : Assigner) (requests : List (List ℕ × List ℕ))
    → IsMark s
    → a.counter < b.counter
    → AreMarks requests
    → Avoids (unique_symbol arg s a).0 (draw requests b)
unfolding draw Avoids AreMarks unique_symbol
draw-Avoids arg s a b [] h lt hs = tt
draw-Avoids arg s a b (request ∷ requests) h lt hs = (
  (λ e. absurd (omega (arith, lt, names-counters arg s request.0 request.1 a b h hs.0 e))),
  draw-Avoids arg s a (record { counter = b.counter + 1 }) requests h (omega (arith, lt)) hs.1,
)

-- Where every separator ends with a character that is no digit, all names that are drawn one after
-- another are different, whatever the arguments, the separators and the counter at the start.
pub draw-AreDistinct :
    (requests : List (List ℕ × List ℕ)) (a : Assigner)
    → AreMarks requests
    → AreDistinct (draw requests a)
unfolding draw AreDistinct AreMarks unique_symbol
draw-AreDistinct [] a h = tt
draw-AreDistinct (request ∷ requests) a h = (
  draw-Avoids request.0 request.1 a (record { counter = a.counter + 1 }) requests h.0 (omega arith)
      h.1,
  draw-AreDistinct requests (record { counter = a.counter + 1 }) h.1,
)
