-- ===== src/Words/Digits.antt =====
-- The binary digits of integers in two's complement, and the bit operations digit by digit.
use Prim.Native.Nat.{digits, bit_and-bitwise, bit_or-bitwise, bit_xor-bitwise, min, max, differ}
use native.Mathlib.Nat.{
  pow-succ', pow-zero, div-one, zero-div, div-div-eq-div-mul, div-add-mod, mul_assoc, mod-lt,
  mod-eq_of_lt, add-mul-mod_self_left, one-le-pow,
}
use aleotiktacto.Prelude.{
  ℕ, zero, suc, ◌+◌, ◌-◌, ◌*◌, ◌/◌, ◌%◌, ◌^◌, ◌<◌, ◌≤◌, Bool, true, false, not, ◌&&◌, ◌||◌, ◌==◌,
  ◌≡◌, refl, sym, ap, ◌∙◌, arith, leb, Bool-cases, inl, inr,
}
use aleotiktacto.Ast.{IntegerType}
use aleotiktacto.Int.{ℤ, pos, negsuc}
use aleotiktacto.Words.{
  bits, modulus, bound, to_bits, of_bits, and_word, or_word, xor_word, not_word,
}
use aleotiktacto.Words.Range.{to_bits-lt}
use aleotiktacto.Words.Bits.{bit_and-lt, bit_or-lt, bit_xor-lt, differ-lt}

-- Whether the Booleans differ.
abbrev pub bool_differ : Bool → Bool → Bool
bool_differ true b = not b
bool_differ false b = b

abbrev digit : ℕ → ℕ → ℕ
digit n i = n / 2 ^ i % 2

-- The digit of an integer, whose digits go on to the left forever.
abbrev pub bit : ℤ → ℕ → Bool
bit (pos n) i = n / 2 ^ i % 2 == 1
bit (negsuc n) i = n / 2 ^ i % 2 == 0

digit-zero : (n : ℕ) → digit n 0 ≡ n % 2
digit-zero n = ap (λ k. n / k % 2) (pow-zero 2) ∙ ap (λ k. k % 2) (div-one n)

digit-suc : (n i : ℕ) → digit n (suc i) ≡ digit (n / 2) i
digit-suc n i =
    ap (λ k. n / k % 2) (pow-succ' 2 i) ∙ ap (λ k. k % 2) (sym (div-div-eq-div-mul n 2 (2 ^ i)))

zero-digit : (i : ℕ) → digit 0 i ≡ 0
zero-digit i = ap (λ k. k % 2) (zero-div (2 ^ i))

digits-digit :
    (z : ℕ → ℕ) (f : ℕ → ℕ → ℕ) (n a b i : ℕ)
    → ((y j : ℕ) → digit (z y) j ≡ f 0 (digit y j))
    → ((x y : ℕ) → x < 2 → y < 2 → f x y < 2)
    → a ≤ n
    → digit (digits z f n a b) i ≡ f (digit a i) (digit b i)
digits-digit z f zero zero b i hz hf h = hz b i ∙ ap (λ k. f k (digit b i)) (sym (zero-digit i))
digits-digit z f zero (suc a) b i hz hf h = absurd (omega arith)
digits-digit z f (suc n) zero b i hz hf h = hz b i ∙ ap (λ k. f k (digit b i)) (sym (zero-digit i))
digits-digit z f (suc n) (suc a) b zero hz hf h =
    digit-zero _
    ∙ omega (arith, hf (suc a % 2) (b % 2) (omega arith) (omega arith))
    ∙ sym (ap (λ k. f k (digit b 0)) (digit-zero (suc a)) ∙ ap (f (suc a % 2)) (digit-zero b))
digits-digit z f (suc n) (suc a) b (suc i) hz hf h =
    digit-suc _ i
    ∙ ap (λ k. digit k i) (omega (arith, hf (suc a % 2) (b % 2) (omega arith) (omega arith)))
    ∙ digits-digit z f n (suc a / 2) (b / 2) i hz hf (omega arith)
    ∙ sym (
        ap (λ k. f k (digit b (suc i))) (digit-suc (suc a) i)
        ∙ ap (f (digit (suc a / 2) i)) (digit-suc b i))

complement-digit : (w i m : ℕ) → i < w → m < 2 ^ w → digit (2 ^ w - 1 - m) i ≡ 1 - digit m i
complement-digit zero i m h lt = absurd (omega arith)
complement-digit (suc w) zero m h lt =
    digit-zero _ ∙ omega (arith, pow-succ' 2 w) ∙ ap (λ k. 1 - k) (sym (digit-zero m))
complement-digit (suc w) (suc i) m h lt =
    digit-suc _ i
    ∙ ap (λ k. digit k i) (omega (arith, pow-succ' 2 w))
    ∙ complement-digit w i (m / 2) (omega arith) (omega (arith, pow-succ' 2 w))
    ∙ ap (λ k. 1 - k) (sym (digit-suc m i))

mod-parts : (n k : ℕ) → 2 * (k * (n / (2 * k))) + n % (2 * k) ≡ n
mod-parts n k = omega (arith, div-add-mod n (2 * k), mul_assoc 2 k (n / (2 * k)))

half-mod : (n k : ℕ) → 0 < k → n % (2 * k) / 2 ≡ n / 2 % k
half-mod n k h = sym (
    ap (λ x. x % k) (omega (arith, mod-parts n k))
    ∙ add-mul-mod_self_left (n % (2 * k) / 2) k (n / (2 * k))
    ∙ mod-eq_of_lt (omega (arith, mod-lt n {m = 2 * k} (omega arith))))

mod-digit : (w i n : ℕ) → i < w → digit (n % 2 ^ w) i ≡ digit n i
mod-digit zero i n h = absurd (omega arith)
mod-digit (suc w) zero n h =
    digit-zero _
    ∙ ap (λ k. n % k % 2) (pow-succ' 2 w)
    ∙ omega (arith, mod-parts n (2 ^ w))
    ∙ sym (digit-zero n)
mod-digit (suc w) (suc i) n h =
    digit-suc _ i
    ∙ ap (λ k. digit (n % k / 2) i) (pow-succ' 2 w)
    ∙ ap (λ k. digit k i) (half-mod n (2 ^ w) (one-le-pow w 2 (omega arith)))
    ∙ mod-digit w i (n / 2) (omega arith)
    ∙ sym (digit-suc n i)

complement-test : (x : ℕ) → (1 - x == 1) ≡ (x == 0)
complement-test x = ground arith

complement-zero : (x : ℕ) → x < 2 → (1 - x == 0) ≡ (x == 1)
complement-zero x h = ground arith

-- The digits of a pattern are those of the integer, as far as the width goes.
to_bits-bit :
    (t : IntegerType) (z : ℤ) (i : ℕ) → i < bits t → (digit (to_bits t z) i == 1) ≡ bit z i
unfolding to_bits
to_bits-bit t (pos n) i h = ap (λ k. k == 1) (mod-digit (bits t) i n h)
to_bits-bit t (negsuc n) i h =
    ap (λ k. k == 1)
      (complement-digit (bits t) i (n % modulus t) h
          (mod-lt n {m = 2 ^ bits t} (one-le-pow (bits t) 2 (omega arith)))
        ∙ ap (λ k. 1 - k) (mod-digit (bits t) i n h))
    ∙ complement-test (digit n i)

of_bits-bit :
    (t : IntegerType) (b i : ℕ)
    → i < bits t
    → b < modulus t
    → bit (of_bits t b) i ≡ (digit b i == 1)
unfolding of_bits
of_bits-bit t b i h lt = elim (Bool-cases (leb (bound t) b)) [
  | inl e ↦ rw e (
      ap (λ k. k == 0) (complement-digit (bits t) i b h lt)
      ∙ complement-zero (digit b i) (omega arith))
  | inr e ↦ rw e refl
]

min-test : (x y : ℕ) → x < 2 → y < 2 → (min x y == 1) ≡ ((x == 1) && (y == 1))
min-test x y hx hy = ground arith

max-test : (x y : ℕ) → x < 2 → y < 2 → (max x y == 1) ≡ ((x == 1) || (y == 1))
max-test x y hx hy = ground arith

differ-test : (x y : ℕ) → x < 2 → y < 2 → (differ x y == 1) ≡ bool_differ (x == 1) (y == 1)
differ-test zero zero hx hy = refl
differ-test zero (suc zero) hx hy = refl
differ-test (suc zero) zero hx hy = refl
differ-test (suc zero) (suc zero) hx hy = refl
differ-test zero (suc (suc y)) hx hy = absurd (omega arith)
differ-test (suc zero) (suc (suc y)) hx hy = absurd (omega arith)
differ-test (suc (suc x)) y hx hy = absurd (omega arith)

not-test : (x : ℕ) → x < 2 → (1 - x == 1) ≡ not (x == 1)
not-test x h = ground arith

digit-lt : (n i : ℕ) → digit n i < 2
digit-lt n i = omega arith

module _ (t : IntegerType) (l r : ℤ) (i : ℕ) (h : i < bits t) where
  word-bit :
      (f : ℕ → ℕ → ℕ) (g : Bool → Bool → Bool) (c : ℕ)
      → c < modulus t
      → digit c i ≡ f (digit (to_bits t l) i) (digit (to_bits t r) i)
      → ((x y : ℕ) → x < 2 → y < 2 → (f x y == 1) ≡ g (x == 1) (y == 1))
      → bit (of_bits t c) i ≡ g (bit l i) (bit r i)
  word-bit f g c lt e test =
      of_bits-bit t c i h lt
      ∙ ap (λ k. k == 1) e
      ∙ test _ _ (digit-lt (to_bits t l) i) (digit-lt (to_bits t r) i)
      ∙ ap (λ b. g b (digit (to_bits t r) i == 1)) (to_bits-bit t l i h)
      ∙ ap (g (bit l i)) (to_bits-bit t r i h)

  pub and_word-bit : bit (and_word t l r) i ≡ (bit l i && bit r i)
  unfolding and_word
  and_word-bit =
      word-bit min ◌&&◌ _ (bit_and-lt (bits t) _ _ (to_bits-lt t l) (to_bits-lt t r))
        (ap (λ k. digit k i) (bit_and-bitwise (to_bits t l) (to_bits t r))
          ∙ digits-digit (λ x. 0) min (to_bits t l) (to_bits t l) (to_bits t r) i
              (λ y j. zero-digit j ∙ omega arith) (λ x y hx hy. omega arith) (omega arith))
        min-test

  pub or_word-bit : bit (or_word t l r) i ≡ (bit l i || bit r i)
  unfolding or_word
  or_word-bit =
      word-bit max ◌||◌ _ (bit_or-lt (bits t) _ _ (to_bits-lt t l) (to_bits-lt t r))
        (ap (λ k. digit k i) (bit_or-bitwise (to_bits t l) (to_bits t r))
          ∙ digits-digit (λ x. x) max (to_bits t l) (to_bits t l) (to_bits t r) i
              (λ y j. omega arith) (λ x y hx hy. omega arith) (omega arith))
        max-test

  pub xor_word-bit : bit (xor_word t l r) i ≡ bool_differ (bit l i) (bit r i)
  unfolding xor_word
  xor_word-bit =
      word-bit differ bool_differ _ (bit_xor-lt (bits t) _ _ (to_bits-lt t l) (to_bits-lt t r))
        (ap (λ k. digit k i) (bit_xor-bitwise (to_bits t l) (to_bits t r))
          ∙ digits-digit (λ x. x) differ (to_bits t l) (to_bits t l) (to_bits t r) i (λ y j. refl)
              differ-lt (omega arith))
        differ-test

  pub not_word-bit : bit (not_word t l) i ≡ not (bit l i)
  unfolding not_word
  not_word-bit =
      of_bits-bit t (modulus t - 1 - to_bits t l) i h (omega (arith, to_bits-lt t l))
      ∙ ap (λ k. k == 1) (complement-digit (bits t) i (to_bits t l) h (to_bits-lt t l))
      ∙ not-test (digit (to_bits t l) i) (digit-lt (to_bits t l) i)
      ∙ ap not (to_bits-bit t l i h)
