-- ===== src/Words/Exact.antt =====
-- What the operations on integers mean without their ranges: bounds of each type, numbers that differ
-- by a multiple of a power of two, quotients and powers.
use aleotiktacto.Prelude.{
  ℕ, zero, suc, ◌+◌, ◌-◌, ◌*◌, ◌/◌, ◌%◌, ◌^◌, ◌≤◌, ◌<◌, true, false, ◌≡◌, refl, sym, ap, ◌∙◌, arith,
  leb, ◌==◌, if◌then◌else◌, Bool-cases, inl, inr,
}
use native.Mathlib.Nat.{zero-mul, pow-zero, pow-suc, div-mul-le_self, lt-div-mul-add}
use aleotiktacto.Ast.{IntegerType, u8, u16, u32, u64, u128, i8, i16, i32, i64, i128}
use aleotiktacto.Int.{ℤ, pos, negsuc, pos_part, neg_part, neg_ℤ, leb_ℤ, tdiv, fdiv, ◌*ℤ◌, pow_ℤ}
use aleotiktacto.Words.{modulus, bound, in_range, to_bits, of_bits, wrap, is_zero}

abbrev pub lowest : IntegerType → ℤ
lowest i8 = negsuc (2 ^ 7 - 1)
lowest i16 = negsuc (2 ^ 15 - 1)
lowest i32 = negsuc (2 ^ 31 - 1)
lowest i64 = negsuc (2 ^ 63 - 1)
lowest i128 = negsuc (2 ^ 127 - 1)
lowest _ = pos 0

abbrev pub greatest : IntegerType → ℤ
greatest u8 = pos (2 ^ 8 - 1)
greatest u16 = pos (2 ^ 16 - 1)
greatest u32 = pos (2 ^ 32 - 1)
greatest u64 = pos (2 ^ 64 - 1)
greatest u128 = pos (2 ^ 128 - 1)
greatest i8 = pos (2 ^ 7 - 1)
greatest i16 = pos (2 ^ 15 - 1)
greatest i32 = pos (2 ^ 31 - 1)
greatest i64 = pos (2 ^ 63 - 1)
greatest i128 = pos (2 ^ 127 - 1)

abbrev pub IsWithin : IntegerType → ℤ → Type 0
IsWithin t z = (leb_ℤ (lowest t) z ≡ true) × (leb_ℤ z (greatest t) ≡ true)

pub in_range-IsWithin : (t : IntegerType) (z : ℤ) → in_range t z ≡ true → IsWithin t z
unfolding in_range
in_range-IsWithin IntegerType.u8 z h = (ground arith, ground arith)
in_range-IsWithin _ z h = (ground arith, ground arith)

pub not_in_range : (t : IntegerType) (z : ℤ) → in_range t z ≡ false → ¬ IsWithin t z
unfolding in_range
not_in_range IntegerType.u8 z h (low, high) = ground arith
not_in_range _ z h (low, high) = ground arith

-- The integers differ by a multiple of the number.
abbrev pub IsCongruent : ℕ → ℤ → ℤ → Type 0
IsCongruent m x z =
    (j : ℕ) × ((k : ℕ) × (pos_part x + neg_part z + j * m ≡ pos_part z + neg_part x + k * m))

-- What `wrap` takes from or adds to the integer.
abbrev added : IntegerType → ℤ → ℕ
added t (pos n) = 0
added t (negsuc n) =
    if leb (bound t) (modulus t - 1 - n % modulus t) then n / modulus t else n / modulus t + 1

abbrev taken : IntegerType → ℤ → ℕ
taken t (pos n) = if leb (bound t) (n % modulus t) then n / modulus t + 1 else n / modulus t
taken t (negsuc n) = 0

wrap-parts :
    (t : IntegerType) (z : ℤ)
    → pos_part z + neg_part (wrap t z) + added t z * modulus t
      ≡ pos_part (wrap t z) + neg_part z + taken t z * modulus t
unfolding wrap of_bits to_bits
wrap-parts IntegerType.u8 z = ground arith
wrap-parts _ z = ground arith

pub wrap-IsCongruent : (t : IntegerType) (z : ℤ) → IsCongruent (modulus t) z (wrap t z)
wrap-IsCongruent t z = (added t z, (taken t z, wrap-parts t z))

-- The integer of a size, with the sign of a quotient of the two integers.
abbrev pub signed : ℤ → ℤ → ℕ → ℤ
signed (pos m) (pos n) k = pos k
signed (negsuc m) (negsuc n) k = pos k
signed _ _ k = neg_ℤ (pos k)

abbrev pub size : ℤ → ℕ
size z = pos_part z + neg_part z

-- The quotient of the integers that is rounded towards zero.
abbrev pub IsQuotient : ℤ → ℤ → ℤ → Type 0
IsQuotient l r q =
    (k : ℕ) × ((q ≡ signed l r k) × ((k * size r ≤ size l) × (size l < k * size r + size r)))

size_quotient :
    (l r : ℤ) (m n : ℕ)
    → size l ≡ m
    → size r ≡ suc n
    → (m / suc n * size r ≤ size l) × (size l < m / suc n * size r + size r)
size_quotient l r m n e f =
    rw (e, f) (div-mul-le_self m (suc n), lt-div-mul-add {a = m} {b = suc n} (omega arith))

pub tdiv-IsQuotient : (l r : ℤ) → is_zero r ≡ false → IsQuotient l r (tdiv l r)
unfolding tdiv
tdiv-IsQuotient l (pos zero) h = absurd cc
tdiv-IsQuotient (pos m) (pos (suc n)) h =
    (m / suc n, (refl, size_quotient (pos m) (pos (suc n)) m n (omega arith) (omega arith)))
tdiv-IsQuotient (pos m) (negsuc n) h =
    (m / suc n, (refl, size_quotient (pos m) (negsuc n) m n (omega arith) (omega arith)))
tdiv-IsQuotient (negsuc m) (pos (suc n)) h = (
  suc m / suc n,
  (refl, size_quotient (negsuc m) (pos (suc n)) (suc m) n (omega arith) (omega arith)),
)
tdiv-IsQuotient (negsuc m) (negsuc n) h = (
  suc m / suc n,
  (refl, size_quotient (negsuc m) (negsuc n) (suc m) n (omega arith) (omega arith)),
)

-- The quotient of an integer by a number that is rounded down.
abbrev pub IsFloor : ℤ → ℕ → ℤ → Type 0
IsFloor l n q =
    (pos_part q * n + neg_part l ≤ pos_part l + neg_part q * n)
    × (pos_part l + neg_part q * n < neg_part l + pos_part q * n + n)

pub fdiv-IsFloor : (l : ℤ) (n : ℕ) → 0 < n → IsFloor l n (fdiv l n)
unfolding fdiv
fdiv-IsFloor (pos m) n h =
    (omega (arith, div-mul-le_self m n), omega (arith, lt-div-mul-add {a = m} {b = n} h))
fdiv-IsFloor (negsuc m) n h =
    (omega (arith, lt-div-mul-add {a = m} {b = n} h), omega (arith, div-mul-le_self m n))

-- A power, by repeated multiplication.
unfoldable pub power : ℤ → ℕ → ℤ
power z zero = pos 1
power z (suc n) = power z n *ℤ z

neg-pos : (k m : ℕ) → neg_ℤ (pos k) *ℤ negsuc m ≡ pos (k * suc m)
unfolding ◌*ℤ◌
neg-pos zero m = rw (zero-mul (suc m)) refl
neg-pos (suc k) m = refl

even-suc : (n : ℕ) → (n % 2 == 0) ≡ true → (suc n % 2 == 0) ≡ false
even-suc n e = ground arith

odd-suc : (n : ℕ) → (n % 2 == 0) ≡ false → (suc n % 2 == 0) ≡ true
odd-suc n e = ground arith

power-neg :
    (m n : ℕ)
    → (if n % 2 == 0 then pos (suc m ^ n) else neg_ℤ (pos (suc m ^ n))) ≡ power (negsuc m) n
unfolding power ◌*ℤ◌
power-neg m zero = rw (pow-zero (suc m)) refl
power-neg m (suc n) = elim (Bool-cases (n % 2 == 0)) [
  | inl e ↦ rw (even-suc n e) (
      ap (λ k. neg_ℤ (pos k)) (pow-suc (suc m) n)
      ∙ ap (λ z. z *ℤ negsuc m) (rw e at (power-neg m n)))
  | inr e ↦ rw (odd-suc n e) (
      ap pos (pow-suc (suc m) n)
      ∙ sym (neg-pos (suc m ^ n) m)
      ∙ ap (λ z. z *ℤ negsuc m) (rw e at (power-neg m n)))
]

pub pow_ℤ-power : (z : ℤ) (n : ℕ) → pow_ℤ z n ≡ power z n
unfolding pow_ℤ power ◌*ℤ◌
pow_ℤ-power (pos m) zero = ap pos (pow-zero m)
pow_ℤ-power (pos m) (suc n) = ap pos (pow-suc m n) ∙ ap (λ z. z *ℤ pos m) (pow_ℤ-power (pos m) n)
pow_ℤ-power (negsuc m) n = power-neg m n
