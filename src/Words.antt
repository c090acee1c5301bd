-- ===== src/Words.antt =====
-- The integer types of Rust's standard library, as compiler/ast/src/value/mod.rs uses them: the
-- range of each type, the checked and the wrapping operations, and the bit operations on two's
-- complement. A value of a type is the integer that it stands for.
pub mod Range
pub mod Bits
pub mod Exact
pub mod Digits
pub mod Tests
use Prim.Native.Nat.{bit_and, bit_or, bit_xor}
use aleotiktacto.Prelude.{
  ℕ, zero, suc, ◌+◌, ◌-◌, ◌*◌, ◌/◌, ◌%◌, ◌^◌, Bool, true, false, ◌&&◌, Option, none, some, leb, ltb,
  ◌==◌, if◌then◌else◌,
}
use aleotiktacto.Ast.{IntegerType, u8, u16, u32, u64, u128, i8, i16, i32, i64, i128}
use aleotiktacto.Int.{ℤ, pos, negsuc, neg_ℤ, abs_ℤ, ◌+ℤ◌, ◌-ℤ◌, ◌*ℤ◌, tdiv, fdiv, pow_ℤ}

abbrev pub bits : IntegerType → ℕ
bits u8 = 8
bits u16 = 16
bits u32 = 32
bits u64 = 64
bits u128 = 128
bits i8 = 8
bits i16 = 16
bits i32 = 32
bits i64 = 64
bits i128 = 128

abbrev pub is_signed : IntegerType → Bool
is_signed i8 = true
is_signed i16 = true
is_signed i32 = true
is_signed i64 = true
is_signed i128 = true
is_signed _ = false

abbrev pub modulus : IntegerType → ℕ
modulus t = 2 ^ bits t

-- One more than the greatest value.
abbrev pub bound : IntegerType → ℕ
bound t = if is_signed t then modulus t / 2 else modulus t

unfoldable pub in_range : IntegerType → ℤ → Bool
in_range t (pos n) = ltb n (bound t)
in_range t (negsuc n) = is_signed t && ltb n (bound t)

-- The bit pattern of an integer, and the integer of a bit pattern.
unfoldable pub to_bits : IntegerType → ℤ → ℕ
to_bits t (pos n) = n % modulus t
to_bits t (negsuc n) = modulus t - 1 - n % modulus t

unfoldable pub of_bits : IntegerType → ℕ → ℤ
of_bits t b = if leb (bound t) b then negsuc (modulus t - 1 - b) else pos b

unfoldable pub wrap : IntegerType → ℤ → ℤ
wrap t z = of_bits t (to_bits t z)

unfoldable pub checked : IntegerType → ℤ → Option ℤ
checked t z = if in_range t z then some z else none

abbrev pub is_zero : ℤ → Bool
is_zero (pos n) = n == 0
is_zero (negsuc n) = false

unfoldable pub checked_abs : IntegerType → ℤ → Option ℤ
checked_abs t z = checked t (abs_ℤ z)

unfoldable pub wrapping_abs : IntegerType → ℤ → ℤ
wrapping_abs t z = wrap t (abs_ℤ z)

unfoldable pub checked_neg : IntegerType → ℤ → Option ℤ
checked_neg t z = checked t (neg_ℤ z)

-- `!z`
unfoldable pub not_word : IntegerType → ℤ → ℤ
not_word t z = of_bits t (modulus t - 1 - to_bits t z)

unfoldable pub checked_add : IntegerType → ℤ → ℤ → Option ℤ
checked_add t l r = checked t (l +ℤ r)

unfoldable pub checked_sub : IntegerType → ℤ → ℤ → Option ℤ
checked_sub t l r = checked t (l -ℤ r)

unfoldable pub checked_mul : IntegerType → ℤ → ℤ → Option ℤ
checked_mul t l r = checked t (l *ℤ r)

unfoldable pub wrapping_add : IntegerType → ℤ → ℤ → ℤ
wrapping_add t l r = wrap t (l +ℤ r)

unfoldable pub wrapping_sub : IntegerType → ℤ → ℤ → ℤ
wrapping_sub t l r = wrap t (l -ℤ r)

unfoldable pub wrapping_mul : IntegerType → ℤ → ℤ → ℤ
wrapping_mul t l r = wrap t (l *ℤ r)

unfoldable pub checked_div : IntegerType → ℤ → ℤ → Option ℤ
checked_div t l r = if is_zero r then none else checked t (tdiv l r)

-- `none` is the panic of a division by zero.
unfoldable pub wrapping_div : IntegerType → ℤ → ℤ → Option ℤ
wrapping_div t l r = if is_zero r then none else some (wrap t (tdiv l r))

-- The second operand of these is of type u32.
abbrev pub amount : ℤ → ℕ
amount (pos n) = n
amount (negsuc n) = 0

unfoldable pub checked_pow : IntegerType → ℤ → ℤ → Option ℤ
checked_pow t l r = checked t (pow_ℤ l (amount r))

unfoldable pub wrapping_pow : IntegerType → ℤ → ℤ → ℤ
wrapping_pow t l r = wrap t (pow_ℤ l (amount r))

unfoldable pub shift_left : IntegerType → ℤ → ℕ → ℤ
shift_left t l k = wrap t (l *ℤ pos (2 ^ k))

unfoldable pub checked_shl : IntegerType → ℤ → ℤ → Option ℤ
checked_shl t l r = if ltb (amount r) (bits t) then some (shift_left t l (amount r)) else none

unfoldable pub wrapping_shl : IntegerType → ℤ → ℤ → ℤ
wrapping_shl t l r = shift_left t l (amount r % bits t)

unfoldable pub checked_shr : IntegerType → ℤ → ℤ → Option ℤ
checked_shr t l r = if ltb (amount r) (bits t) then some (fdiv l (2 ^ amount r)) else none

unfoldable pub wrapping_shr : IntegerType → ℤ → ℤ → ℤ
wrapping_shr t l r = fdiv l (2 ^ (amount r % bits t))

unfoldable pub and_word : IntegerType → ℤ → ℤ → ℤ
and_word t l r = of_bits t (bit_and (to_bits t l) (to_bits t r))

unfoldable pub or_word : IntegerType → ℤ → ℤ → ℤ
or_word t l r = of_bits t (bit_or (to_bits t l) (to_bits t r))

unfoldable pub xor_word : IntegerType → ℤ → ℤ → ℤ
xor_word t l r = of_bits t (bit_xor (to_bits t l) (to_bits t r))
