-- ===== src/Values/Convert.antt =====
-- compiler/ast/src/value/mod.rs: the conversions between values, literals and 128-bit integers, with
-- the standard library's parsing and printing of integers.
pub mod Laws
use aleotiktacto.Prelude.{
  ℕ, zero, suc, ◌+◌, ◌-◌, ◌*◌, ◌/◌, ◌%◌, Bool, true, false, ◌&&◌, Option, none, some, List, [], ◌∷◌,
  ◌++◌, ltb, ◌==◌, if◌then◌else◌,
}
use aleotiktacto.Chars.{is_ascii_digit}
use aleotiktacto.Ast.{Span, NodeInfo, Literal, IntegerType, u128, i128}
use aleotiktacto.Int.{ℤ, pos, negsuc, neg_ℤ}
use aleotiktacto.Words.{in_range, is_signed, checked, wrap}
use aleotiktacto.Values.{Value, Outcome, ok, err, panic, loop_has_neg_value, type_of}

infixl 5 ◌>>=◌
abbrev pub ◌>>=◌ : {A B : Type 0} → Option A → (A → Option B) → Option B
none >>= f = none
some a >>= f = f a

-- The loop of the conversions, in the integer `n` read so far.
unfoldable pub read_digits : ℕ → List ℕ → Option ℕ
unfolding is_ascii_digit
read_digits n [] = some n
read_digits n (c ∷ s) = if is_ascii_digit c then read_digits (n * 10 + (c - b'0')) s else none

-- At least one digit.
unfoldable pub read_number : List ℕ → Option ℕ
unfolding read_digits
read_number [] = none
read_number (c ∷ s) = read_digits 0 (c ∷ s)

-- `str::parse` for an integer type; `none` is any `ParseIntError`.
unfoldable pub parse_integer : IntegerType → List ℕ → Option ℤ
unfolding read_number checked
parse_integer t [] = none
parse_integer t (c ∷ s) =
    if c == b'+'
    then (do n ← read_number s; checked t (pos n))
    else if c == b'-' && is_signed t
    then (do n ← read_number s; checked t (neg_ℤ (pos n)))
    else (do n ← read_number (c ∷ s); checked t (pos n))

-- The decimal digits of a number below the fuel.
unfoldable pub decimal : ℕ → ℕ → List ℕ
decimal zero n = []
decimal (suc fuel) n =
    let rest = decimal fuel (n / 10) in
    if ltb n 10 then (b'0' + n) ∷ [] else rest ++ (b'0' + n % 10) ∷ []

-- `to_string` of an integer.
unfoldable pub print_integer : ℤ → List ℕ
unfolding decimal
print_integer (pos n) = decimal (suc n) n
print_integer (negsuc n) = b'-' ∷ decimal (suc (suc n)) (suc n)

-- `raw_string.replace('_', "")`
unfoldable pub remove_underscores : List ℕ → List ℕ
remove_underscores [] = []
remove_underscores (c ∷ s) = let rest = remove_underscores s in if c == b'_' then rest else c ∷ rest

-- `TryFrom<&Literal> for Value`
unfoldable pub try_from : Literal → Option Value
unfolding parse_integer remove_underscores
try_from (Literal.address s info) = some (Value.address s info.span)
try_from (Literal.boolean b info) = some (Value.boolean b info.span)
try_from (Literal.field s info) = some (Value.field s info.span)
try_from (Literal.group g info) = some (Value.group g info)
try_from (Literal.scalar s info) = some (Value.scalar s info.span)
try_from (Literal.string s info) = some (Value.string s info.span)
try_from (Literal.integer t s info) = do
  z ← parse_integer t (remove_underscores s)
  some (Value.integer t z info.span)

-- `Literal::from_value`; `none` is a `todo!`.
unfoldable pub from_value : Value → ℕ → Option Literal
unfolding print_integer
from_value (Value.address s span) id = some (Literal.address s (record { span = span; id = id }))
from_value (Value.boolean b span) id = some (Literal.boolean b (record { span = span; id = id }))
from_value (Value.field s span) id = some (Literal.field s (record { span = span; id = id }))
from_value (Value.group g info) id = some (Literal.group g info)
from_value (Value.integer t z span) id =
    some (Literal.integer t (print_integer z) (record { span = span; id = id }))
from_value (Value.scalar s span) id = some (Literal.scalar s (record { span = span; id = id }))
from_value (Value.string s span) id = some (Literal.string s (record { span = span; id = id }))
from_value _ id = none

-- `TryFrom<&Value> for i128` and `TryFrom<&Value> for u128`
unfoldable pub to_i128 : Value → Outcome ℤ
unfolding type_of
to_i128 (Value.integer t z span) =
    if is_signed t
    then ok (wrap i128 z)
    else if in_range i128 z
    then ok z
    else err (loop_has_neg_value (type_of (Value.integer t z span)) span)
to_i128 _ = panic

unfoldable pub to_u128 : Value → Outcome ℤ
unfolding type_of
to_u128 (Value.integer t z span) =
    if is_signed t
    then if in_range u128 z
      then ok z
      else err (loop_has_neg_value (type_of (Value.integer t z span)) span)
    else ok (wrap u128 z)
to_u128 _ = panic
