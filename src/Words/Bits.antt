-- ===== src/Words/Bits.antt =====
-- The bit operations keep the range of each type.
use Prim.Native.Nat.{
  digits, bit_and, bit_or, bit_xor, bit_and-bitwise, bit_or-bitwise, bit_xor-bitwise, min, max,
  differ,
}
use native.Mathlib.Nat.{pow-suc}
use aleotiktacto.Prelude.{ℕ, zero, suc, ◌/◌, ◌%◌, ◌^◌, ◌<◌, ◌≤◌, true, ◌≡◌, arith, sym, subst}
use aleotiktacto.Ast.{IntegerType}
use aleotiktacto.Int.{ℤ}
use aleotiktacto.Words.{bits, modulus, in_range, and_word, or_word, xor_word, not_word}
use aleotiktacto.Words.Range.{of_bits-in_range, to_bits-lt}

digits-lt :
    (z : ℕ → ℕ) (f : ℕ → ℕ → ℕ) (w n a b : ℕ)
    → ((x : ℕ) → z x ≤ x)
    → ((x y : ℕ) → x < 2 → y < 2 → f x y < 2)
    → a < 2 ^ w
    → b < 2 ^ w
    → digits z f n a b < 2 ^ w
digits-lt z f w zero a b hz hf ha hb = omega (arith, hz b)
digits-lt z f w (suc n) zero b hz hf ha hb = omega (arith, hz b)
digits-lt z f zero (suc n) (suc a) b hz hf ha hb = absurd (omega arith)
digits-lt z f (suc w) (suc n) (suc a) b hz hf ha hb = omega (
  arith,
  pow-suc 2 w,
  hf (suc a % 2) (b % 2) (omega arith) (omega arith),
  digits-lt z f w n (suc a / 2) (b / 2) hz hf (omega (arith, pow-suc 2 w))
      (omega (arith, pow-suc 2 w)),
)

pub differ-lt : (x y : ℕ) → x < 2 → y < 2 → differ x y < 2
differ-lt zero y hx hy = hy
differ-lt (suc zero) zero hx hy = omega arith
differ-lt (suc zero) (suc y) hx hy = omega arith
differ-lt (suc (suc x)) y hx hy = absurd (omega arith)

pub bit_and-lt : (w a b : ℕ) → a < 2 ^ w → b < 2 ^ w → bit_and a b < 2 ^ w
bit_and-lt w a b ha hb =
    subst (λ n. n < 2 ^ w) (sym (bit_and-bitwise a b))
      (digits-lt (λ x. 0) min w a a b (λ x. omega arith) (λ x y hx hy. omega arith) ha hb)

pub bit_or-lt : (w a b : ℕ) → a < 2 ^ w → b < 2 ^ w → bit_or a b < 2 ^ w
bit_or-lt w a b ha hb =
    subst (λ n. n < 2 ^ w) (sym (bit_or-bitwise a b))
      (digits-lt (λ x. x) max w a a b (λ x. omega arith) (λ x y hx hy. omega arith) ha hb)

pub bit_xor-lt : (w a b : ℕ) → a < 2 ^ w → b < 2 ^ w → bit_xor a b < 2 ^ w
bit_xor-lt w a b ha hb =
    subst (λ n. n < 2 ^ w) (sym (bit_xor-bitwise a b))
      (digits-lt (λ x. x) differ w a a b (λ x. omega arith) differ-lt ha hb)

module _ (t : IntegerType) (l r : ℤ) where
  pub and_word-in_range : in_range t (and_word t l r) ≡ true
  unfolding and_word
  and_word-in_range =
      of_bits-in_range t _ (bit_and-lt (bits t) _ _ (to_bits-lt t l) (to_bits-lt t r))

  pub or_word-in_range : in_range t (or_word t l r) ≡ true
  unfolding or_word
  or_word-in_range = of_bits-in_range t _ (bit_or-lt (bits t) _ _ (to_bits-lt t l) (to_bits-lt t r))

  pub xor_word-in_range : in_range t (xor_word t l r) ≡ true
  unfolding xor_word
  xor_word-in_range =
      of_bits-in_range t _ (bit_xor-lt (bits t) _ _ (to_bits-lt t l) (to_bits-lt t r))

modulus_pos : (t : IntegerType) → 0 < modulus t
modulus_pos IntegerType.u8 = omega arith
modulus_pos _ = omega arith

pub not_word-in_range : (t : IntegerType) (z : ℤ) → in_range t (not_word t z) ≡ true
unfolding not_word
not_word-in_range t z = of_bits-in_range t _ (omega (arith, modulus_pos t))
