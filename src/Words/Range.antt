-- ===== src/Words/Range.antt =====
-- Ranges of the integer types: what wraps around, what does not, and what the operations keep.
use aleotiktacto.Prelude.{ℕ, ◌<◌, true, ◌≡◌, arith}
use aleotiktacto.Ast.{IntegerType}
use aleotiktacto.Int.{ℤ}
use aleotiktacto.Words.{modulus, in_range, to_bits, of_bits, wrap}

-- A pattern of the type's width stands for a value of the type.
pub of_bits-in_range : (t : IntegerType) (b : ℕ) → b < modulus t → in_range t (of_bits t b) ≡ true
unfolding of_bits in_range
of_bits-in_range IntegerType.u8 b h = ground arith
of_bits-in_range _ b h = ground arith

pub to_bits-lt : (t : IntegerType) (z : ℤ) → to_bits t z < modulus t
unfolding to_bits
to_bits-lt IntegerType.u8 z = ground arith
to_bits-lt _ z = ground arith

pub wrap-in_range : (t : IntegerType) (z : ℤ) → in_range t (wrap t z) ≡ true
unfolding wrap
wrap-in_range t z = of_bits-in_range t (to_bits t z) (to_bits-lt t z)

-- A value of the type does not wrap around.
pub wrap-eq : (t : IntegerType) (z : ℤ) → in_range t z ≡ true → wrap t z ≡ z
unfolding wrap of_bits to_bits in_range
wrap-eq IntegerType.u8 z h = ground arith
wrap-eq _ z h = ground arith
