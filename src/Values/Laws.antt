-- ===== src/Values/Laws.antt =====
-- The operations of compiler/ast/src/value/mod.rs on integers of supported types: ranges, and the
-- checked operations beside the wrapping ones.
use aleotiktacto.Prelude.{
  ℕ, ◌%◌, ◌^◌, Bool, true, Option, none, some, List, ◌≡◌, refl, ap, ◌∙◌, Bool-cases, Option-cases,
  some-injective, ◌≢◌, inl, inr, if◌then◌else◌, ltb, arith,
}
use aleotiktacto.Ast.{Span, IntegerType}
use aleotiktacto.Int.{ℤ, pow_ℤ, tdiv, fdiv, ◌+ℤ◌, ◌-ℤ◌, ◌*ℤ◌}
use aleotiktacto.Words.{
  bits, in_range, wrap, checked, checked_add, checked_sub, checked_mul, checked_div, checked_pow,
  checked_shl, checked_shr, wrapping_add, wrapping_sub, wrapping_mul, wrapping_div, wrapping_pow,
  wrapping_shl, wrapping_shr, amount, shift_left, is_zero,
}
use aleotiktacto.Words.Range.{wrap-eq}
use aleotiktacto.Values.{
  Value, Outcome, ok, err, panic, overflowing_binary, non_overflowing_binary, same_type, add,
  add_wrapped, sub, sub_wrapped, mul, mul_wrapped, div, div_wrapped, pow, pow_wrapped, shl,
  shl_wrapped, shr, shr_wrapped,
}

-- Every integer in the value is in the range of its type.
abbrev pub IsInRange : Value → Type 0
IsInRange (Value.integer t z s) = in_range t z ≡ true
IsInRange _ = Unit {0}

-- What a checked operation gives where the wrapping one gives the second outcome: the same where
-- it succeeds, a value where it returns an error, and a panic exactly where that panics.
abbrev pub Agrees : Outcome Value → Outcome Value → Type 0
Agrees (ok v) w = w ≡ ok v
Agrees (err e) w = (v : Value) × (w ≡ ok v)
Agrees panic w = w ≡ panic

module _ (str : List ℕ) (patterns : IntegerType → IntegerType → Bool)
    (method : IntegerType → ℤ → ℤ → Option ℤ) (wrapping : IntegerType → ℤ → ℤ → ℤ)
    (same : (t : IntegerType) (l r x : ℤ) → method t l r ≡ some x → wrapping t l r ≡ x) where
  integers-Agrees :
      (t u : IntegerType) (l r : ℤ) (a b span : Span)
      → Agrees
          (overflowing_binary str patterns method (Value.integer t l a) (Value.integer u r b) span)
          (non_overflowing_binary patterns wrapping
            (Value.integer t l a)
            (Value.integer u r b)
            span)
  unfolding overflowing_binary non_overflowing_binary
  integers-Agrees t u l r a b span = elim (Bool-cases (patterns t u)) [
    | inl p ↦ elim (Option-cases (method t l r)) [
      | inl e ↦ rw (p, e) (_, refl)
      | inr (x, e) ↦ rw (p, e, same t l r x e) refl
    ]
    | inr p ↦ rw p refl
  ]

  binary-Agrees :
      (l r : Value) (span : Span)
      → Agrees
          (overflowing_binary str patterns method l r span)
          (non_overflowing_binary patterns wrapping l r span)
  unfolding overflowing_binary non_overflowing_binary
  binary-Agrees (Value.integer t l a) (Value.integer u r b) span = integers-Agrees t u l r a b span
  binary-Agrees _ _ span = refl

none-ne-some : {x : ℤ} → none ≢ some x
none-ne-some h = cc

checked_same : (t : IntegerType) (z x : ℤ) → checked t z ≡ some x → wrap t z ≡ x
unfolding checked
checked_same t z x h = elim (Bool-cases (in_range t z)) [
  | inl e ↦ wrap-eq t z e ∙ some-injective _ _ (rw e at h)
  | inr e ↦ absurd (none-ne-some (rw e at h))
]

mod-bits : (t : IntegerType) (k : ℕ) → ltb k (bits t) ≡ true → k % bits t ≡ k
mod-bits IntegerType.u8 k h = ground arith
mod-bits _ k h = ground arith

shl_same : (t : IntegerType) (l r x : ℤ) → checked_shl t l r ≡ some x → wrapping_shl t l r ≡ x
unfolding checked_shl wrapping_shl
shl_same t l r x h = elim (Bool-cases (ltb (amount r) (bits t))) [
  | inl e ↦ ap (shift_left t l) (mod-bits t (amount r) e) ∙ some-injective _ _ (rw e at h)
  | inr e ↦ absurd (none-ne-some (rw e at h))
]

shr_same : (t : IntegerType) (l r x : ℤ) → checked_shr t l r ≡ some x → wrapping_shr t l r ≡ x
unfolding checked_shr wrapping_shr
shr_same t l r x h = elim (Bool-cases (ltb (amount r) (bits t))) [
  | inl e ↦ ap (λ k. fdiv l (2 ^ k)) (mod-bits t (amount r) e) ∙ some-injective _ _ (rw e at h)
  | inr e ↦ absurd (none-ne-some (rw e at h))
]

-- A division by zero panics where it wraps around.
abbrev pub AgreesUnlessZero : ℤ → Outcome Value → Outcome Value → Type 0
AgreesUnlessZero r (err e) w = if is_zero r then w ≡ panic else Unit {0}
AgreesUnlessZero r o w = Agrees o w

-- Where a checked division of integers succeeds the wrapping one gives the same value, on types
-- that do not fit both panic, and on a division by zero the wrapping one panics.
pub div-Agrees :
    (t u : IntegerType) (l r : ℤ) (a b span : Span)
    → AgreesUnlessZero r
        (div (Value.integer t l a) (Value.integer u r b) span)
        (div_wrapped (Value.integer t l a) (Value.integer u r b) span)
unfolding div overflowing_binary div_wrapped checked_div wrapping_div
div-Agrees t u l r a b span = elim (Bool-cases (same_type t u)) [
  | inl p ↦ elim (Bool-cases (is_zero r)) [
    | inl z ↦ rw (p, z) (rw z refl)
    | inr z ↦ elim (Option-cases (checked t (tdiv l r))) [
      | inl e ↦ rw (p, z, e) (rw z tt)
      | inr (x, e) ↦ rw (p, z, e) (rw (checked_same t (tdiv l r) x e) refl)
    ]
  ]
  | inr p ↦ rw p refl
]

-- On all values, where a checked operation succeeds the wrapping one gives the same value, where it
-- returns an error the wrapping one returns a value, and the one panics exactly where the other does.
pub wrapped-Agrees :
    (l r : Value) (span : Span)
    → Agrees (add l r span) (add_wrapped l r span)
      × Agrees (sub l r span) (sub_wrapped l r span)
      × Agrees (mul l r span) (mul_wrapped l r span)
      × Agrees (pow l r span) (pow_wrapped l r span)
      × Agrees (shl l r span) (shl_wrapped l r span)
      × Agrees (shr l r span) (shr_wrapped l r span)
unfolding add sub mul pow shl shr add_wrapped sub_wrapped mul_wrapped pow_wrapped shl_wrapped
    shr_wrapped checked_add checked_sub checked_mul checked_pow wrapping_add wrapping_sub
    wrapping_mul wrapping_pow
wrapped-Agrees l r span = (
  binary-Agrees _ _ _ _ (λ t a b x h. checked_same t (a +ℤ b) x h) l r span,
  binary-Agrees _ _ _ _ (λ t a b x h. checked_same t (a -ℤ b) x h) l r span,
  binary-Agrees _ _ _ _ (λ t a b x h. checked_same t (a *ℤ b) x h) l r span,
  binary-Agrees _ _ _ _ (λ t a b x h. checked_same t (pow_ℤ a (amount b)) x h) l r span,
  binary-Agrees _ _ _ _ shl_same l r span,
  binary-Agrees _ _ _ _ shr_same l r span,
)
