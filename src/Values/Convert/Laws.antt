-- ===== src/Values/Convert/Laws.antt =====
-- The conversions of compiler/ast/src/value/mod.rs between values, literals and 128-bit integers.
use aleotiktacto.Prelude.{
  ℕ, zero, suc, ◌+◌, ◌*◌, ◌/◌, ◌%◌, ◌<◌, Bool, true, false, ◌&&◌, Option, some, List, [], ◌∷◌, ◌++◌,
  ltb, ◌==◌, if◌then◌else◌, ◌≡◌, refl, sym, ap, ◌∙◌, arith, Bool-cases, inl, inr, append_assoc,
  append-nil, subst, some-injective,
}
use aleotiktacto.Chars.{is_ascii_digit}
use aleotiktacto.Ast.{Span, Literal, IntegerType, u128, i128, Ty}
use aleotiktacto.Int.{ℤ, pos, negsuc}
use aleotiktacto.Words.{in_range, is_signed, checked}
use aleotiktacto.Words.Range.{wrap-eq}
use aleotiktacto.Values.{Value, ok, err, loop_has_neg_value, type_of}
use aleotiktacto.Values.Laws.{IsInRange}
use aleotiktacto.Values.Convert.{
  read_digits, read_number, parse_integer, decimal, print_integer, remove_underscores, try_from,
  from_value, to_i128, to_u128,
}

digit : (d : ℕ) → d < 10 → is_ascii_digit (b'0' + d) ≡ true
unfolding is_ascii_digit
digit d h = ground arith

read-digit :
    (n d m : ℕ) (s : List ℕ)
    → d < 10
    → n * 10 + d ≡ m
    → read_digits n ((b'0' + d) ∷ s) ≡ read_digits m s
unfolding read_digits
read-digit n d m s h e = rw (digit d h) (ap (λ k. read_digits k s) (omega arith))

read_digits-decimal :
    (fuel n : ℕ) (s : List ℕ) → n < fuel → read_digits 0 (decimal fuel n ++ s) ≡ read_digits n s
unfolding decimal
read_digits-decimal zero n s h = absurd (omega arith)
read_digits-decimal (suc fuel) n s h = elim (Bool-cases (ltb n 10)) [
  | inl e ↦ rw e (read-digit 0 n n s (ground arith) (omega arith))
  | inr e ↦ rw e (
      ap (read_digits 0) (append_assoc (decimal fuel (n / 10)) ((b'0' + n % 10) ∷ []) s)
      ∙ read_digits-decimal fuel (n / 10) ((b'0' + n % 10) ∷ s) (ground arith)
      ∙ read-digit (n / 10) (n % 10) n s (omega arith) (omega arith))
]

unfoldable pub all_digits : List ℕ → Bool
all_digits [] = true
all_digits (c ∷ s) = is_ascii_digit c && all_digits s

all_digits-append :
    (s u : List ℕ) → all_digits s ≡ true → all_digits u ≡ true → all_digits (s ++ u) ≡ true
unfolding all_digits
all_digits-append [] u h k = k
all_digits-append (c ∷ s) u h k = ground (arith, all_digits-append s u)

pub decimal-all_digits : (fuel n : ℕ) → all_digits (decimal fuel n) ≡ true
unfolding decimal all_digits
decimal-all_digits zero n = refl
decimal-all_digits (suc fuel) n = elim (Bool-cases (ltb n 10)) [
  | inl e ↦ rw e (rw (digit n (ground arith)) refl)
  | inr e ↦ rw e (
      all_digits-append (decimal fuel (n / 10)) _ (decimal-all_digits fuel (n / 10))
        (rw (digit (n % 10) (omega arith)) refl))
]

remove_underscores-digits : (s : List ℕ) → all_digits s ≡ true → remove_underscores s ≡ s
unfolding remove_underscores all_digits is_ascii_digit
remove_underscores-digits [] h = refl
remove_underscores-digits (c ∷ s) h = ground (arith, remove_underscores-digits s)

-- A digit text that is not empty is read as a number without sign.
parse_integer-digits :
    (t : IntegerType) (s : List ℕ) (n : ℕ)
    → all_digits s ≡ true
    → read_number s ≡ some n
    → parse_integer t s ≡ checked t (pos n)
unfolding parse_integer read_number all_digits is_ascii_digit
parse_integer-digits t [] n h r = absurd cc
parse_integer-digits t (c ∷ s) n h r = rw (ne_plus, ne_minus, r) refl
  where
    ne_plus : (c == b'+') ≡ false
    ne_plus = ground arith

    ne_minus : (c == b'-') ≡ false
    ne_minus = ground arith

pub read_digits-all : (n : ℕ) → read_digits 0 (decimal (suc n) n) ≡ some n
unfolding read_digits
read_digits-all n =
    sym (ap (read_digits 0) (append-nil (decimal (suc n) n)))
    ∙ read_digits-decimal (suc n) n [] (omega arith)

decimal-cons : (fuel n : ℕ) → (c : ℕ) × ((s : List ℕ) × (decimal (suc fuel) n ≡ c ∷ s))
unfolding decimal
decimal-cons fuel n = elim (Bool-cases (ltb n 10)) [
  | inl e ↦ (b'0' + n, ([], rw e refl))
  | inr e ↦ append-cons (decimal fuel (n / 10)) (b'0' + n % 10) (rw e refl)
]
  where
    append-cons :
        {u : List ℕ} (v : List ℕ) (d : ℕ) → u ≡ v ++ d ∷ [] → (c : ℕ) × ((s : List ℕ) × (u ≡ c ∷ s))
    append-cons [] d h = (d, ([], h))
    append-cons (x ∷ v) d h = (x, (v ++ d ∷ [], h))

read_number-decimal : (n : ℕ) → read_number (decimal (suc n) n) ≡ some n
unfolding read_number
read_number-decimal n =
    let (c, (s, e)) = decimal-cons n n in
    ap read_number e ∙ sym (ap (read_digits 0) e) ∙ read_digits-all n

checked-in_range : (t : IntegerType) (z : ℤ) → in_range t z ≡ true → checked t z ≡ some z
unfolding checked
checked-in_range t z h = rw (h, checked) refl

parse_integer-print_integer :
    (t : IntegerType) (z : ℤ)
    → in_range t z ≡ true
    → parse_integer t (remove_underscores (print_integer z)) ≡ some z
unfolding print_integer in_range remove_underscores parse_integer
parse_integer-print_integer t (pos n) h =
    ap (parse_integer t) (remove_underscores-digits _ (decimal-all_digits (suc n) n))
    ∙ parse_integer-digits t _ n (decimal-all_digits (suc n) n) (read_number-decimal n)
    ∙ checked-in_range t (pos n) h
parse_integer-print_integer t (negsuc n) h =
    rw (remove_underscores, remove_underscores-digits _ (decimal-all_digits (suc (suc n)) (suc n)))
      (rw (parse_integer, signed, read_number-decimal (suc n)) (checked-in_range t (negsuc n) h))
  where
    signed : is_signed t ≡ true
    signed = ground arith

transfer : {l m : Literal} {o : Option Value} → some l ≡ some m → try_from l ≡ o → try_from m ≡ o
transfer {o = o} e h = subst (λ k. try_from k ≡ o) (some-injective _ _ e) h

-- A literal made from a value whose integer is in the range of its type is converted back to the
-- value.
pub try_from-from_value :
    (v : Value) (id : ℕ) (l : Literal)
    → IsInRange v
    → from_value v id ≡ some l
    → try_from l ≡ some v
unfolding from_value try_from
try_from-from_value (Value.integer t z span) id l h e =
    transfer e (rw (parse_integer-print_integer t z h) refl)
try_from-from_value (Value.address s span) id l h e = transfer e refl
try_from-from_value (Value.boolean b span) id l h e = transfer e refl
try_from-from_value (Value.field s span) id l h e = transfer e refl
try_from-from_value (Value.group g info) id l h e = transfer e refl
try_from-from_value (Value.scalar s span) id l h e = transfer e refl
try_from-from_value (Value.string s span) id l h e = transfer e refl
try_from-from_value (Value.input t x) id l h e = absurd cc
try_from-from_value (Value.struct x fs) id l h e = absurd cc

signed-in_range :
    (t : IntegerType) (z : ℤ) → is_signed t ≡ true → in_range t z ≡ true → in_range i128 z ≡ true
unfolding in_range
signed-in_range IntegerType.i8 z e h = ground arith
signed-in_range _ z e h = ground arith

unsigned-in_range :
    (t : IntegerType) (z : ℤ) → is_signed t ≡ false → in_range t z ≡ true → in_range u128 z ≡ true
unfolding in_range
unsigned-in_range IntegerType.u8 z e h = ground arith
unsigned-in_range _ z e h = ground arith

-- An integer in the range of its type is converted to 128 bits exactly where it is in the range of
-- the 128-bit type, with its value unchanged, and to the error on loops elsewhere.
pub conversions_lem :
    (t : IntegerType) (z : ℤ) (span : Span)
    → in_range t z ≡ true
    → (to_i128 (Value.integer t z span)
        ≡ (if in_range i128 z then ok z else err (loop_has_neg_value (Ty.integer t) span)))
      × (to_u128 (Value.integer t z span)
          ≡ (if in_range u128 z then ok z else err (loop_has_neg_value (Ty.integer t) span)))
unfolding to_i128 to_u128 type_of
conversions_lem t z span h = elim (Bool-cases (is_signed t)) [
  | inl e ↦ let k = signed-in_range t z e h in (rw (e, k, wrap-eq i128 z k) refl, rw e refl)
  | inr e ↦ let k = unsigned-in_range t z e h in (rw e refl, rw (e, k, wrap-eq u128 z k) refl)
]
