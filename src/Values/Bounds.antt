-- ===== src/Values/Bounds.antt =====
-- What the operations of compiler/ast/src/value/mod.rs compute on integers of supported types: the
-- number, where it fits in the type, and the error or the number that wraps around where it does not.
use native.Mathlib.Nat.{one-le-pow, div-le_self}
use aleotiktacto.Prelude.{
  ℕ, ◌/◌, ◌%◌, ◌^◌, ◌≤◌, ◌<◌, Bool, true, false, not, ◌&&◌, ◌||◌, Option, none, some, List, ◌≡◌,
  ◌≢◌, refl, sym, ap, subst, Bool-cases, Option-cases, ◌⊎◌, inl, inr, ltb, arith, codes,
}
use aleotiktacto.Ast.{Span, IntegerType}
use aleotiktacto.Int.{ℤ, pos, negsuc, ◌+ℤ◌, ◌-ℤ◌, ◌*ℤ◌, tdiv, fdiv}
use aleotiktacto.Words.{
  bits, is_signed, modulus, in_range, bound, wrap, checked, checked_add, checked_sub, checked_mul,
  checked_div, checked_pow, checked_shl, checked_shr, wrapping_add, wrapping_sub, wrapping_mul,
  shift_left, wrapping_pow, wrapping_shl, wrapping_shr, is_zero,
}
use aleotiktacto.Words.Range.{wrap-in_range}
use aleotiktacto.Words.Bits.{
  and_word-in_range, or_word-in_range, xor_word-in_range, not_word-in_range,
}
use aleotiktacto.Words.Exact.{
  IsWithin, in_range-IsWithin, not_in_range, IsCongruent, wrap-IsCongruent, IsQuotient,
  tdiv-IsQuotient, IsFloor, fdiv-IsFloor, power, pow_ℤ-power,
}
use aleotiktacto.Words.Digits.{
  bit, bool_differ, and_word-bit, or_word-bit, xor_word-bit, not_word-bit,
}
use aleotiktacto.Values.{
  Value, Outcome, FlattenError, ok, err, panic, binary_overflow, overflowing_binary,
  non_overflowing_binary, bit_binary, same_type, any_and_exponent, is_exponent, add, add_wrapped,
  sub, sub_wrapped, mul, mul_wrapped, div, pow, pow_wrapped, shl, shl_wrapped, shr, shr_wrapped,
  not_value, bitand, bitor, xor,
}

-- An integer of the type, in its bounds and with the given span, of which `p` holds.
abbrev pub IsInteger : IntegerType → Span → (ℤ → Type 0) → Value → Type 0
IsInteger t span p v = (z : ℤ) × ((v ≡ Value.integer t z span) × (IsWithin t z × p z))

-- An integer of which `p` holds, or the error `e` where `q` holds; no panic.
abbrev pub IsChecked :
    IntegerType → Span → (ℤ → Type 0) → FlattenError → Type 0 → Outcome Value → Type 0
IsChecked t span p e q (ok v) = IsInteger t span p v
IsChecked t span p e q (err f) = (f ≡ e) × q
IsChecked t span p e q panic = ⊥

-- The integer `x`, or the error `e` where it is out of the bounds of the type.
abbrev pub IsExact : IntegerType → Span → ℤ → FlattenError → Outcome Value → Type 0
IsExact t span x e = IsChecked t span (λ z. z ≡ x) e (¬ IsWithin t x)

-- Neither a panic nor an error, but an integer of which `p` holds.
abbrev pub IsTotal : IntegerType → Span → (ℤ → Type 0) → Outcome Value → Type 0
IsTotal t span p (ok v) = IsInteger t span p v
IsTotal t span p _ = ⊥

none-ne-some : {x : ℤ} → none ≢ some x
none-ne-some h = cc

-- What holds of the result of a method, and where it has none.
abbrev Gives : IntegerType → (ℤ → Type 0) → Type 0 → Option ℤ → Type 0
Gives t p q none = q
Gives t p q (some z) = (in_range t z ≡ true) × p z

checked-Gives : (t : IntegerType) (x : ℤ) → Gives t (λ z. z ≡ x) (¬ IsWithin t x) (checked t x)
unfolding checked
checked-Gives t x = elim (Bool-cases (in_range t x)) [
  | inl e ↦ rw (e, checked) (e, refl)
  | inr e ↦ rw (e, checked) (not_in_range t x e)
]

module _ (str : List ℕ) (patterns : IntegerType → IntegerType → Bool) (t u : IntegerType) (l r : ℤ)
    (a b span : Span) (pattern_ : patterns t u ≡ true) where
  overflowing_binary-IsChecked :
      (method : IntegerType → ℤ → ℤ → Option ℤ) (p : ℤ → Type 0) (q : Type 0)
      → Gives t p q (method t l r)
      → IsChecked t span p
          (binary_overflow l str r u span)
          q
          (overflowing_binary str patterns method (Value.integer t l a) (Value.integer u r b) span)
  unfolding overflowing_binary
  overflowing_binary-IsChecked method p q gives = elim (Option-cases (method t l r)) [
    | inl e ↦ rw (pattern_, e) (refl, rw e at gives)
    | inr (x, e) ↦
        let g = rw e at gives in rw (pattern_, e) (x, (refl, (in_range-IsWithin t x g.0, g.1)))
  ]

same_type_self : (t : IntegerType) → same_type t t ≡ true
same_type_self IntegerType.u8 = refl
same_type_self _ = refl

-- There is no quotient, or none in the bounds of the type.
abbrev pub HasNoQuotient : IntegerType → ℤ → ℤ → Type 0
HasNoQuotient t l r = (r ≡ pos 0) ⊎ ((x : ℤ) × (IsQuotient l r x × (¬ IsWithin t x)))

is_zero-eq : (r : ℤ) → is_zero r ≡ true → r ≡ pos 0
is_zero-eq (pos n) h = ap pos (ground arith)
is_zero-eq (negsuc n) h = absurd cc

div-Gives :
    (t : IntegerType) (l r : ℤ) → Gives t (IsQuotient l r) (HasNoQuotient t l r) (checked_div t l r)
unfolding checked_div checked
div-Gives t l r = elim (Bool-cases (is_zero r)) [
  | inl z ↦ rw z (inl (is_zero-eq r z))
  | inr z ↦ elim (Bool-cases (in_range t (tdiv l r))) [
    | inl e ↦ rw (z, e) (e, tdiv-IsQuotient l r z)
    | inr e ↦ rw (z, e) (inr (tdiv l r, (tdiv-IsQuotient l r z, not_in_range t (tdiv l r) e)))
  ]
]

pow-Gives :
    (t : IntegerType) (l : ℤ) (k : ℕ)
    → Gives t (λ z. z ≡ power l k) (¬ IsWithin t (power l k)) (checked_pow t l (pos k))
unfolding checked_pow
pow-Gives t l k =
    subst (λ x. Gives t (λ z. z ≡ power l k) (¬ IsWithin t (power l k)) (checked t x))
      (sym (pow_ℤ-power l k)) (checked-Gives t (power l k))

shl-Gives :
    (t : IntegerType) (l : ℤ) (k : ℕ)
    → Gives t
        (λ z. (k < bits t) × IsCongruent (modulus t) (l *ℤ pos (2 ^ k)) z)
        (bits t ≤ k)
        (checked_shl t l (pos k))
unfolding checked_shl shift_left
shl-Gives t l k = elim (Bool-cases (ltb k (bits t))) [
  | inl e ↦ rw e (wrap-in_range t _, (ground arith, wrap-IsCongruent t _))
  | inr e ↦ rw e (ground arith)
]

smaller : (m n k : ℕ) → ltb m k ≡ true → ltb (m / n) k ≡ true
smaller m n k h = ground (arith, div-le_self m n)

&&-right : (a b c : Bool) → (b ≡ true → c ≡ true) → (a && b) ≡ true → (a && c) ≡ true
&&-right true b c f h = f h
&&-right false b c f h = h

fdiv-in_range :
    (t : IntegerType) (z : ℤ) (n : ℕ) → in_range t z ≡ true → in_range t (fdiv z n) ≡ true
unfolding fdiv in_range
fdiv-in_range t (pos m) n r = smaller m n (bound t) r
fdiv-in_range t (negsuc m) n r =
    &&-right (is_signed t) (ltb m (bound t)) (ltb (m / n) (bound t)) (smaller m n (bound t)) r

shr-Gives :
    (t : IntegerType) (l : ℤ) (k : ℕ)
    → in_range t l ≡ true
    → Gives t (λ z. (k < bits t) × IsFloor l (2 ^ k) z) (bits t ≤ k) (checked_shr t l (pos k))
unfolding checked_shr
shr-Gives t l k range = elim (Bool-cases (ltb k (bits t))) [
  | inl e ↦ rw e (
    fdiv-in_range t l (2 ^ k) range,
    (ground arith, fdiv-IsFloor l (2 ^ k) (one-le-pow k 2 (omega arith))),
  )
  | inr e ↦ rw e (ground arith)
]

-- The checked operations on two integers of one type do not panic. A sum, a difference or a product
-- is returned where it is in the bounds of the type, and else an overflow with the operands; so is
-- a quotient, rounded towards zero, which also overflows where the divisor is 0.
pub arithmetic-IsExact :
    (t : IntegerType) (l r : ℤ) (a b span : Span)
    → IsExact t span
        (l +ℤ r)
        (binary_overflow l (codes "+") r t span)
        (add (Value.integer t l a) (Value.integer t r b) span)
      × IsExact t span
          (l -ℤ r)
          (binary_overflow l (codes "-") r t span)
          (sub (Value.integer t l a) (Value.integer t r b) span)
      × IsExact t span
          (l *ℤ r)
          (binary_overflow l (codes "*") r t span)
          (mul (Value.integer t l a) (Value.integer t r b) span)
      × IsChecked t span
          (IsQuotient l r)
          (binary_overflow l (codes "/") r t span)
          (HasNoQuotient t l r)
          (div (Value.integer t l a) (Value.integer t r b) span)
unfolding add sub mul div checked_add checked_sub checked_mul
arithmetic-IsExact t l r a b span = (
  overflowing_binary-IsChecked _ same_type t t l r a b span (same_type_self t) _ _ _
      (checked-Gives t (l +ℤ r)),
  overflowing_binary-IsChecked _ same_type t t l r a b span (same_type_self t) _ _ _
      (checked-Gives t (l -ℤ r)),
  overflowing_binary-IsChecked _ same_type t t l r a b span (same_type_self t) _ _ _
      (checked-Gives t (l *ℤ r)),
  overflowing_binary-IsChecked _ same_type t t l r a b span (same_type_self t) _ _ _
      (div-Gives t l r),
)

-- A power by an integer of type u8, u16 or u32 is returned where it is in the bounds of the type, and
-- else an overflow. A shift by the width or more is an overflow; else a left shift is congruent to
-- the product with the power of two, modulo the power of the width, and a right shift of an integer
-- in range is the quotient rounded down, both in the bounds of the type.
pub exponents-IsExact :
    (t u : IntegerType) (l : ℤ) (k : ℕ) (a b span : Span)
    → is_exponent u ≡ true
    → in_range t l ≡ true
    → IsExact t span
        (power l k)
        (binary_overflow l (codes "**") (pos k) u span)
        (pow (Value.integer t l a) (Value.integer u (pos k) b) span)
      × IsChecked t span
          (λ z. (k < bits t) × IsCongruent (modulus t) (l *ℤ pos (2 ^ k)) z)
          (binary_overflow l (codes "<<") (pos k) u span)
          (bits t ≤ k)
          (shl (Value.integer t l a) (Value.integer u (pos k) b) span)
      × IsChecked t span
          (λ z. (k < bits t) × IsFloor l (2 ^ k) z)
          (binary_overflow l (codes ">>") (pos k) u span)
          (bits t ≤ k)
          (shr (Value.integer t l a) (Value.integer u (pos k) b) span)
unfolding pow shl shr
exponents-IsExact t u l k a b span h range = (
  overflowing_binary-IsChecked _ any_and_exponent t u l (pos k) a b span h _ _ _ (pow-Gives t l k),
  overflowing_binary-IsChecked _ any_and_exponent t u l (pos k) a b span h _ _ _ (shl-Gives t l k),
  overflowing_binary-IsChecked _ any_and_exponent t u l (pos k) a b span h _ _ _
      (shr-Gives t l k range),
)

non_overflowing_binary-IsTotal :
    (patterns : IntegerType → IntegerType → Bool) (t u : IntegerType) (l r : ℤ) (a b span : Span)
    → patterns t u ≡ true
    → (method : IntegerType → ℤ → ℤ → ℤ) (p : ℤ → Type 0)
    → (in_range t (method t l r) ≡ true) × p (method t l r)
    → IsTotal t span p
        (non_overflowing_binary patterns method (Value.integer t l a) (Value.integer u r b) span)
unfolding non_overflowing_binary
non_overflowing_binary-IsTotal patterns t u l r a b span pattern_ method p h =
    rw pattern_ (method t l r, (refl, (in_range-IsWithin t (method t l r) h.0, h.1)))

wrap-Gives :
    (t : IntegerType) (x : ℤ)
    → (in_range t (wrap t x) ≡ true) × IsCongruent (modulus t) x (wrap t x)
wrap-Gives t x = (wrap-in_range t x, wrap-IsCongruent t x)

-- A wrapping power by an integer of type u8, u16 or u32, and a wrapping shift by one of an integer in
-- range, do not panic, and give an integer in the bounds of the type. The power is congruent to the
-- power of the numbers, modulo the power of the width; a shift is by the remainder of the amount and
-- the width, to the left congruent to the product with the power of two, and to the right the
-- quotient rounded down.
pub wrapped_exponents-IsWrapped :
    (t u : IntegerType) (l : ℤ) (k : ℕ) (a b span : Span)
    → is_exponent u ≡ true
    → in_range t l ≡ true
    → IsTotal t span
        (IsCongruent (modulus t) (power l k))
        (pow_wrapped (Value.integer t l a) (Value.integer u (pos k) b) span)
      × IsTotal t span
          (IsCongruent (modulus t) (l *ℤ pos (2 ^ (k % bits t))))
          (shl_wrapped (Value.integer t l a) (Value.integer u (pos k) b) span)
      × IsTotal t span
          (IsFloor l (2 ^ (k % bits t)))
          (shr_wrapped (Value.integer t l a) (Value.integer u (pos k) b) span)
unfolding pow_wrapped shl_wrapped shr_wrapped wrapping_pow wrapping_shl wrapping_shr shift_left
wrapped_exponents-IsWrapped t u l k a b span h range = (
  non_overflowing_binary-IsTotal any_and_exponent t u l (pos k) a b span h _ _
      (rw (pow_ℤ-power l k) (wrap-Gives t (power l k))),
  non_overflowing_binary-IsTotal any_and_exponent t u l (pos k) a b span h _ _ (wrap-Gives t _),
  non_overflowing_binary-IsTotal any_and_exponent t u l (pos k) a b span h _ _ (
    fdiv-in_range t l (2 ^ (k % bits t)) range,
    fdiv-IsFloor l (2 ^ (k % bits t)) (one-le-pow (k % bits t) 2 (omega arith)),
  ),
)

module _ (t : IntegerType) (l r : ℤ) (a b span : Span) where
  -- The wrapping and the bit operations on two integers of one type do not panic, and give an integer
  -- in the bounds of the type: one that is congruent to the sum, the difference or the product,
  -- modulo the power of the width, or one whose two's complement digits are those of the operands
  -- combined one by one.
  pub wrapped_ops-IsWrapped :
      IsTotal t span
        (IsCongruent (modulus t) (l +ℤ r))
        (add_wrapped (Value.integer t l a) (Value.integer t r b) span)
      × IsTotal t span
          (IsCongruent (modulus t) (l -ℤ r))
          (sub_wrapped (Value.integer t l a) (Value.integer t r b) span)
      × IsTotal t span
          (IsCongruent (modulus t) (l *ℤ r))
          (mul_wrapped (Value.integer t l a) (Value.integer t r b) span)
      × IsTotal t span
          (λ z. (i : ℕ) → i < bits t → bit z i ≡ (bit l i && bit r i))
          (bitand (Value.integer t l a) (Value.integer t r b) span)
      × IsTotal t span
          (λ z. (i : ℕ) → i < bits t → bit z i ≡ (bit l i || bit r i))
          (bitor (Value.integer t l a) (Value.integer t r b) span)
      × IsTotal t span
          (λ z. (i : ℕ) → i < bits t → bit z i ≡ bool_differ (bit l i) (bit r i))
          (xor (Value.integer t l a) (Value.integer t r b) span)
      × IsTotal t span
          (λ z. (i : ℕ) → i < bits t → bit z i ≡ not (bit l i))
          (not_value (Value.integer t l a) span)
  unfolding add_wrapped sub_wrapped mul_wrapped wrapping_add wrapping_sub wrapping_mul bitand bitor
      xor bit_binary not_value
  wrapped_ops-IsWrapped = (
    non_overflowing_binary-IsTotal same_type t t l r a b span (same_type_self t) _ _
        (wrap-Gives t _),
    non_overflowing_binary-IsTotal same_type t t l r a b span (same_type_self t) _ _
        (wrap-Gives t _),
    non_overflowing_binary-IsTotal same_type t t l r a b span (same_type_self t) _ _
        (wrap-Gives t _),
    rw (same_type_self t)
        (_, (refl, (in_range-IsWithin t _ (and_word-in_range t l r), and_word-bit t l r))),
    rw (same_type_self t)
        (_, (refl, (in_range-IsWithin t _ (or_word-in_range t l r), or_word-bit t l r))),
    rw (same_type_self t)
        (_, (refl, (in_range-IsWithin t _ (xor_word-in_range t l r), xor_word-bit t l r))),
    (_, (refl, (in_range-IsWithin t _ (not_word-in_range t l), not_word-bit t l r))),
  )
