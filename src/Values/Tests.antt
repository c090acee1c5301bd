-- ===== src/Values/Tests.antt =====
-- The values of compiler/ast/src/value/mod.rs at concrete numbers.
use aleotiktacto.Prelude.{
  ◌≡◌, refl, ℕ, ◌%◌, ◌^◌, ◌<◌, ◌≤◌, not, ◌&&◌, ◌||◌, none, some, codes, if◌then◌else◌,
}
use aleotiktacto.Ast.{Ty, Literal, u8, u32, i8, i128, u128, default_span}
use aleotiktacto.Int.{pos, negsuc, ◌+ℤ◌, ◌-ℤ◌, ◌*ℤ◌}
use aleotiktacto.Words.{in_range, bits, modulus}
use aleotiktacto.Words.Exact.{IsQuotient, IsCongruent, IsFloor, power}
use aleotiktacto.Words.Digits.{bit, bool_differ}
use aleotiktacto.Values.{
  Value, ok, err, panic, binary_overflow, loop_has_neg_value, add, add_wrapped, sub, sub_wrapped,
  mul, mul_wrapped, div, div_wrapped, pow, pow_wrapped, shl, shl_wrapped, shr, shr_wrapped, bitand,
  bitor, xor, not_value,
}
use aleotiktacto.Values.Laws.{Agrees, AgreesUnlessZero, div-Agrees, wrapped-Agrees}
use aleotiktacto.Values.Bounds.{
  IsChecked, IsExact, IsTotal, HasNoQuotient, arithmetic-IsExact, exponents-IsExact,
  wrapped_exponents-IsWrapped, wrapped_ops-IsWrapped,
}
use aleotiktacto.Values.Convert.{try_from, from_value, to_i128, to_u128}
use aleotiktacto.Values.Convert.Laws.{try_from-from_value, conversions_lem}

abbrev byte : ℕ → Value
byte n = Value.integer u8 (pos n) default_span

add_bytes : add (byte 200) (byte 50) default_span ≡ ok (byte 250)
unfolding add aleotiktacto.Values.overflowing_binary aleotiktacto.Words.checked_add
    aleotiktacto.Words.checked in_range aleotiktacto.Int.◌+ℤ◌
add_bytes = refl

-- A division by zero is an error, and it panics where it wraps around.
div_wrapped_zero : div_wrapped (byte 1) (byte 0) default_span ≡ panic
unfolding div_wrapped aleotiktacto.Words.wrapping_div
div_wrapped_zero = refl

try_from_negative :
    try_from (Literal.integer i8 (codes "-1_28") (record { span = default_span; id = 0 }))
    ≡ some (Value.integer i8 (negsuc 127) default_span)
unfolding try_from in_range
try_from_negative = refl

try_from_overflow :
    try_from (Literal.integer u8 (codes "256") (record { span = default_span; id = 0 })) ≡ none
unfolding try_from in_range
try_from_overflow = refl

div-Agrees_example :
    AgreesUnlessZero
      (pos 0)
      (div (byte 1) (byte 0) default_span)
      (div_wrapped (byte 1) (byte 0) default_span)
div-Agrees_example = div-Agrees u8 u8 (pos 1) (pos 0) default_span default_span default_span

wrapped-Agrees_example :
    Agrees (add (byte 3) (byte 4) default_span) (add_wrapped (byte 3) (byte 4) default_span)
    × Agrees (sub (byte 3) (byte 4) default_span) (sub_wrapped (byte 3) (byte 4) default_span)
    × Agrees (mul (byte 3) (byte 4) default_span) (mul_wrapped (byte 3) (byte 4) default_span)
    × Agrees (pow (byte 3) (byte 4) default_span) (pow_wrapped (byte 3) (byte 4) default_span)
    × Agrees (shl (byte 3) (byte 4) default_span) (shl_wrapped (byte 3) (byte 4) default_span)
    × Agrees (shr (byte 3) (byte 4) default_span) (shr_wrapped (byte 3) (byte 4) default_span)
wrapped-Agrees_example = wrapped-Agrees (byte 3) (byte 4) default_span

arithmetic-IsExact_example :
    IsExact u8 default_span
      (pos 200 +ℤ pos 100)
      (binary_overflow (pos 200) (codes "+") (pos 100) u8 default_span)
      (add (byte 200) (byte 100) default_span)
    × IsExact u8 default_span
        (pos 200 -ℤ pos 100)
        (binary_overflow (pos 200) (codes "-") (pos 100) u8 default_span)
        (sub (byte 200) (byte 100) default_span)
    × IsExact u8 default_span
        (pos 200 *ℤ pos 100)
        (binary_overflow (pos 200) (codes "*") (pos 100) u8 default_span)
        (mul (byte 200) (byte 100) default_span)
    × IsChecked u8 default_span
        (IsQuotient (pos 200) (pos 100))
        (binary_overflow (pos 200) (codes "/") (pos 100) u8 default_span)
        (HasNoQuotient u8 (pos 200) (pos 100))
        (div (byte 200) (byte 100) default_span)
arithmetic-IsExact_example =
    arithmetic-IsExact u8 (pos 200) (pos 100) default_span default_span default_span

abbrev three : Value
three = Value.integer u32 (pos 3) default_span

exponents-IsExact_example :
    IsExact u8 default_span
      (power (pos 2) 3)
      (binary_overflow (pos 2) (codes "**") (pos 3) u32 default_span)
      (pow (byte 2) three default_span)
    × IsChecked u8 default_span
        (λ z. (3 < 8) × IsCongruent (modulus u8) (pos 2 *ℤ pos (2 ^ 3)) z)
        (binary_overflow (pos 2) (codes "<<") (pos 3) u32 default_span)
        (8 ≤ 3)
        (shl (byte 2) three default_span)
    × IsChecked u8 default_span
        (λ z. (3 < 8) × IsFloor (pos 2) (2 ^ 3) z)
        (binary_overflow (pos 2) (codes ">>") (pos 3) u32 default_span)
        (8 ≤ 3)
        (shr (byte 2) three default_span)
unfolding in_range
exponents-IsExact_example =
    exponents-IsExact u8 u32 (pos 2) 3 default_span default_span default_span refl refl

wrapped_exponents-IsWrapped_example :
    IsTotal u8 default_span
      (IsCongruent (modulus u8) (power (pos 200) 3))
      (pow_wrapped (byte 200) three default_span)
    × IsTotal u8 default_span
        (IsCongruent (modulus u8) (pos 200 *ℤ pos (2 ^ (3 % bits u8))))
        (shl_wrapped (byte 200) three default_span)
    × IsTotal u8 default_span
        (IsFloor (pos 200) (2 ^ (3 % bits u8)))
        (shr_wrapped (byte 200) three default_span)
unfolding in_range
wrapped_exponents-IsWrapped_example =
    wrapped_exponents-IsWrapped u8 u32 (pos 200) 3 default_span default_span default_span refl refl

wrapped_ops-IsWrapped_example :
    IsTotal u8 default_span
      (IsCongruent (modulus u8) (pos 200 +ℤ pos 100))
      (add_wrapped (byte 200) (byte 100) default_span)
    × IsTotal u8 default_span
        (IsCongruent (modulus u8) (pos 200 -ℤ pos 100))
        (sub_wrapped (byte 200) (byte 100) default_span)
    × IsTotal u8 default_span
        (IsCongruent (modulus u8) (pos 200 *ℤ pos 100))
        (mul_wrapped (byte 200) (byte 100) default_span)
    × IsTotal u8 default_span
        (λ z. (i : ℕ) → i < 8 → bit z i ≡ (bit (pos 200) i && bit (pos 100) i))
        (bitand (byte 200) (byte 100) default_span)
    × IsTotal u8 default_span
        (λ z. (i : ℕ) → i < 8 → bit z i ≡ (bit (pos 200) i || bit (pos 100) i))
        (bitor (byte 200) (byte 100) default_span)
    × IsTotal u8 default_span
        (λ z. (i : ℕ) → i < 8 → bit z i ≡ bool_differ (bit (pos 200) i) (bit (pos 100) i))
        (xor (byte 200) (byte 100) default_span)
    × IsTotal u8 default_span
        (λ z. (i : ℕ) → i < 8 → bit z i ≡ not (bit (pos 200) i))
        (not_value (byte 200) default_span)
wrapped_ops-IsWrapped_example =
    wrapped_ops-IsWrapped u8 (pos 200) (pos 100) default_span default_span default_span

try_from-from_value_example :
    try_from (Literal.integer i8 (codes "-128") (record { span = default_span; id = 7 }))
    ≡ some (Value.integer i8 (negsuc 127) default_span)
unfolding from_value in_range
try_from-from_value_example =
    try_from-from_value (Value.integer i8 (negsuc 127) default_span) 7
      (Literal.integer i8 (codes "-128") (record { span = default_span; id = 7 })) refl refl

conversions_lem_example :
    (to_i128 (Value.integer i8 (negsuc 4) default_span) ≡ (
      if in_range i128 (negsuc 4)
      then ok (negsuc 4)
      else err (loop_has_neg_value (Ty.integer i8) default_span)))
    × (to_u128 (Value.integer i8 (negsuc 4) default_span) ≡ (
        if in_range u128 (negsuc 4)
        then ok (negsuc 4)
        else err (loop_has_neg_value (Ty.integer i8) default_span)))
unfolding in_range
conversions_lem_example = conversions_lem i8 (negsuc 4) default_span refl
