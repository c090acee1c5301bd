-- ===== src/Range/Values.antt =====
-- Which values the range iterator of compiler/passes/src/loop_unrolling/range_iterator.rs yields.
use aleotiktacto.Prelude.{
  ℕ, zero, suc, ◌+◌, ◌-◌, ◌^◌, ◌<◌, ◌≤◌, true, false, none, some, List, [], ◌∷◌, ◌≡◌, refl, sym, ap,
  ◌∙◌, ltb, Bool-cases, inl, inr, arith,
}
use aleotiktacto.Range.{Clusivity, RangeIterator, new, add_one, last, next, prepend, collect}

-- `n` numbers, each the successor of the one before.
unfoldable pub upto : ℕ → ℕ → List ℕ
upto start zero = []
upto start (suc n) = start ∷ upto (suc start) n

-- From the start to before the end; where the end is included, to the end, but the start at least.
unfoldable pub values : Clusivity → ℕ → ℕ → List ℕ
values Clusivity.exclusive start end = upto start (end - start)
values Clusivity.inclusive start end = upto start (suc (end - start))

add_one-fits : (value : ℕ) → suc value < 2 ^ 128 → add_one value ≡ suc value
unfolding add_one
add_one-fits value fits = omega arith

upto-first : (start n : ℕ) → 0 < n → upto start n ≡ start ∷ upto (suc start) (n - 1)
unfolding upto
upto-first start zero h = absurd (omega arith)
upto-first start (suc n) h = ap (λ k. start ∷ upto (suc start) k) (omega arith)

values-before :
    (clusivity : Clusivity) (start end : ℕ)
    → start < end
    → values clusivity start end ≡ start ∷ values clusivity (suc start) end
unfolding values
values-before Clusivity.exclusive start end h =
    upto-first start (end - start) (omega arith)
    ∙ ap (λ k. start ∷ upto (suc start) k) (omega arith)
values-before Clusivity.inclusive start end h =
    upto-first start (suc (end - start)) (omega arith)
    ∙ ap (λ k. start ∷ upto (suc start) k) (omega arith)

next-before :
    (clusivity : Clusivity) (start end : ℕ)
    → ltb start end ≡ true
    → next (new start end clusivity) ≡ (some start, new (add_one start) end clusivity)
unfolding next new
next-before clusivity start end h = rw (h, next) refl

next-behind :
    (clusivity : Clusivity) (start end : ℕ)
    → ltb start end ≡ false
    → next (new start end clusivity)
      ≡ (last clusivity start, record { end = end; current = none; clusivity = clusivity })
unfolding next new
next-behind clusivity start end h = rw (h, next) refl

collect-some :
    {v : ℕ} {rest : RangeIterator} (it : RangeIterator) (fuel : ℕ)
    → next it ≡ (some v, rest)
    → collect (suc fuel) it ≡ prepend v (collect fuel rest)
unfolding collect
collect-some it fuel e =
    ap (λ p. elim p.0 [ none ↦ some [] | some value ↦ prepend value (collect fuel p.1) ]) e

collect-none :
    {rest : RangeIterator} (it : RangeIterator) (fuel : ℕ)
    → next it ≡ (none, rest)
    → collect (suc fuel) it ≡ some []
unfolding collect
collect-none it fuel e =
    ap (λ p. elim p.0 [ none ↦ some [] | some value ↦ prepend value (collect fuel p.1) ]) e

none_left : (start end : ℕ) → ltb start end ≡ false → 0 ≡ end - start
none_left start end h = ground arith

values-behind :
    (clusivity : Clusivity) (start end fuel : ℕ)
    → ltb start end ≡ false
    → collect (suc (suc fuel)) (new start end clusivity) ≡ some (values clusivity start end)
unfolding last values upto next prepend
values-behind Clusivity.exclusive start end fuel h =
    collect-none (new start end Clusivity.exclusive) (suc fuel)
      (next-behind Clusivity.exclusive start end h)
    ∙ ap (λ n. some (upto start n)) (none_left start end h)
values-behind Clusivity.inclusive start end fuel h =
    collect-some (new start end Clusivity.inclusive) (suc fuel)
      (next-behind Clusivity.inclusive start end h)
    ∙ ap (prepend start) (
        collect-none (record { end = end; current = none; clusivity = Clusivity.inclusive }) fuel
          refl)
    ∙ ap (λ n. some (upto start (suc n))) (none_left start end h)

collect-before :
    (clusivity : Clusivity) (start end fuel : ℕ) (vs : List ℕ)
    → ltb start end ≡ true
    → collect fuel (new (add_one start) end clusivity) ≡ some vs
    → collect (suc fuel) (new start end clusivity) ≡ some (start ∷ vs)
unfolding prepend
collect-before clusivity start end fuel vs before rest =
    collect-some (new start end clusivity) fuel (next-before clusivity start end before)
    ∙ ap (prepend start) rest

-- A loop over these bounds unrolls to exactly these values, and the iteration ends after at most
-- two steps more than the distance of the bounds.
pub collect-new :
    (clusivity : Clusivity) (start end fuel : ℕ)
    → end < 2 ^ 128
    → end - start + 2 ≤ fuel
    → collect fuel (new start end clusivity) ≡ some (values clusivity start end)
collect-new clusivity start end zero fits enough = absurd (omega arith)
collect-new clusivity start end (suc zero) fits enough = absurd (omega arith)
collect-new clusivity start end (suc (suc fuel)) fits enough = elim (Bool-cases (ltb start end)) [
  | inl before ↦
      collect-before clusivity start end (suc fuel) (values clusivity (suc start) end) before (
        ap (λ v. collect (suc fuel) (new v end clusivity)) (add_one-fits start (ground arith))
        ∙ collect-new clusivity (suc start) end (suc fuel) fits (ground arith))
      ∙ ap some (sym (values-before clusivity start end (ground arith)))
  | inr behind ↦ values-behind clusivity start end fuel behind
]
