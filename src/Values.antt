-- ===== src/Values.antt =====
-- compiler/ast/src/value/mod.rs: constant values and the operations on them. The constructors
-- `I8` to `U128` are one constructor with the integer type; the patterns of a macro call are the
-- pairs of types that it supports.
pub mod Laws
pub mod Bounds
pub mod Convert
pub mod Tests
use aleotiktacto.Prelude.{
  ℕ, Bool, true, false, not, ◌&&◌, ◌||◌, Option, none, some, List, [], ◌==◌, if◌then◌else◌, codes,
}
use aleotiktacto.Ast.{
  Span, NodeInfo, Identifier, Ty, GroupLiteral, IntegerType, u8, u16, u32, u64, u128, i8, i16, i32,
  i64, i128,
}
use aleotiktacto.Int.{ℤ, leb_ℤ, ltb_ℤ, eqb_ℤ}
use aleotiktacto.Words.{
  is_signed, checked_abs, wrapping_abs, checked_neg, not_word, checked_add, wrapping_add,
  checked_sub, wrapping_sub, checked_mul, wrapping_mul, checked_div, wrapping_div, checked_pow,
  wrapping_pow, checked_shl, wrapping_shl, checked_shr, wrapping_shr, and_word, or_word, xor_word,
}

mutual
  pub data Value : Type 0 where
    input : Ty → Identifier → Value
    address field scalar string : List ℕ → Span → Value
    boolean : Bool → Span → Value
    struct : Identifier → Fields → Value
    group : GroupLiteral → NodeInfo → Value
    integer : IntegerType → ℤ → Span → Value

  -- `IndexMap<Symbol, Value>`
  pub data Fields : Type 0 where
    end : Fields
    member : ℕ → Value → Fields → Fields

-- The errors of `FlattenError` that these operations make.
pub data FlattenError : Type 0 where
  unary_overflow : ℤ → List ℕ → Span → FlattenError
  binary_overflow : ℤ → List ℕ → ℤ → IntegerType → Span → FlattenError
  loop_has_neg_value : Ty → Span → FlattenError

-- `panic` is an `unreachable!` or a panic of the standard library.
pub data Outcome {ℓ} (A : Type ℓ) : Type ℓ where
  ok : A → Outcome A
  err : FlattenError → Outcome A
  panic : Outcome A

abbrev pub type_index : IntegerType → ℕ
type_index u8 = 0
type_index u16 = 1
type_index u32 = 2
type_index u64 = 3
type_index u128 = 4
type_index i8 = 5
type_index i16 = 6
type_index i32 = 7
type_index i64 = 8
type_index i128 = 9

-- The patterns `[T, [T], ..]`, and `[T, [U8, U16, U32], ..]`.
abbrev pub same_type : IntegerType → IntegerType → Bool
same_type t u = type_index t == type_index u

abbrev pub is_exponent : IntegerType → Bool
is_exponent u8 = true
is_exponent u16 = true
is_exponent u32 = true
is_exponent _ = false

abbrev pub any_and_exponent : IntegerType → IntegerType → Bool
any_and_exponent t u = is_exponent u

-- The macros `implement_const_unary!` and `implement_const_binary!` with their variants.
unfoldable pub overflowing_unary :
    List ℕ → (IntegerType → ℤ → Option ℤ) → Value → Span → Outcome Value
overflowing_unary str method (Value.integer t v s) span =
    if is_signed t
    then elim (method t v) [
      | some z ↦ ok (Value.integer t z span)
      | none ↦ err (unary_overflow v str span)
    ]
    else panic
overflowing_unary str method _ span = panic

unfoldable pub overflowing_binary :
    List ℕ
    → (IntegerType → IntegerType → Bool)
    → (IntegerType → ℤ → ℤ → Option ℤ)
    → Value
    → Value
    → Span
    → Outcome Value
overflowing_binary str patterns method (Value.integer t l a) (Value.integer u r b) span =
    if patterns t u
    then elim (method t l r) [
      | some z ↦ ok (Value.integer t z span)
      | none ↦ err (binary_overflow l str r u span)
    ]
    else panic
overflowing_binary str patterns method _ _ span = panic

unfoldable pub non_overflowing_binary :
    (IntegerType → IntegerType → Bool)
    → (IntegerType → ℤ → ℤ → ℤ)
    → Value
    → Value
    → Span
    → Outcome Value
non_overflowing_binary patterns method (Value.integer t l a) (Value.integer u r b) span =
    if patterns t u then ok (Value.integer t (method t l r) span) else panic
non_overflowing_binary patterns method _ _ span = panic

-- The non-overflowing operations that booleans have too.
unfoldable pub bit_binary :
    (Bool → Bool → Bool) → (IntegerType → ℤ → ℤ → ℤ) → Value → Value → Span → Outcome Value
bit_binary on_bools method (Value.boolean l a) (Value.boolean r b) span =
    ok (Value.boolean (on_bools l r) span)
bit_binary on_bools method (Value.integer t l a) (Value.integer u r b) span =
    if same_type t u then ok (Value.integer t (method t l r) span) else panic
bit_binary on_bools method _ _ span = panic

unfoldable pub cmp_binary : (ℤ → ℤ → Bool) → Value → Value → Span → Outcome Value
cmp_binary method (Value.integer t l a) (Value.integer u r b) span =
    if same_type t u then ok (Value.boolean (method l r) span) else panic
cmp_binary method _ _ span = panic

unfoldable pub abs : Value → Span → Outcome Value
abs = overflowing_unary (codes "abs") checked_abs

unfoldable pub abs_wrapped : Value → Span → Outcome Value
abs_wrapped (Value.integer t v s) span =
    if is_signed t then ok (Value.integer t (wrapping_abs t v) span) else panic
abs_wrapped _ span = panic

unfoldable pub neg : Value → Span → Outcome Value
neg = overflowing_unary (codes "neg") checked_neg

unfoldable pub not_value : Value → Span → Outcome Value
not_value (Value.boolean v s) span = ok (Value.boolean (not v) span)
not_value (Value.integer t v s) span = ok (Value.integer t (not_word t v) span)
not_value _ span = panic

unfoldable pub add : Value → Value → Span → Outcome Value
add = overflowing_binary (codes "+") same_type checked_add

unfoldable pub add_wrapped : Value → Value → Span → Outcome Value
add_wrapped = non_overflowing_binary same_type wrapping_add

unfoldable pub bitand : Value → Value → Span → Outcome Value
bitand = bit_binary ◌&&◌ and_word

unfoldable pub div : Value → Value → Span → Outcome Value
div = overflowing_binary (codes "/") same_type checked_div

unfoldable pub div_wrapped : Value → Value → Span → Outcome Value
div_wrapped (Value.integer t l a) (Value.integer u r b) span =
    if same_type t u
    then elim (wrapping_div t l r) [ some z ↦ ok (Value.integer t z span) | none ↦ panic ]
    else panic
div_wrapped _ _ span = panic

abbrev pub bool_eq : Bool → Bool → Bool
bool_eq true b = b
bool_eq false b = not b

unfoldable pub eq : Value → Value → Span → Outcome Value
eq (Value.boolean l a) (Value.boolean r b) span = ok (Value.boolean (bool_eq l r) span)
eq l r span = cmp_binary eqb_ℤ l r span

unfoldable pub ge : Value → Value → Span → Outcome Value
ge = cmp_binary (λ l r. leb_ℤ r l)

unfoldable pub gt : Value → Value → Span → Outcome Value
gt = cmp_binary (λ l r. ltb_ℤ r l)

unfoldable pub le : Value → Value → Span → Outcome Value
le = cmp_binary leb_ℤ

unfoldable pub lt : Value → Value → Span → Outcome Value
lt = cmp_binary ltb_ℤ

unfoldable pub mul : Value → Value → Span → Outcome Value
mul = overflowing_binary (codes "*") same_type checked_mul

unfoldable pub mul_wrapped : Value → Value → Span → Outcome Value
mul_wrapped = non_overflowing_binary same_type wrapping_mul

unfoldable pub bitor : Value → Value → Span → Outcome Value
bitor = bit_binary ◌||◌ or_word

unfoldable pub pow : Value → Value → Span → Outcome Value
pow = overflowing_binary (codes "**") any_and_exponent checked_pow

unfoldable pub pow_wrapped : Value → Value → Span → Outcome Value
pow_wrapped = non_overflowing_binary any_and_exponent wrapping_pow

unfoldable pub shl : Value → Value → Span → Outcome Value
shl = overflowing_binary (codes "<<") any_and_exponent checked_shl

unfoldable pub shl_wrapped : Value → Value → Span → Outcome Value
shl_wrapped = non_overflowing_binary any_and_exponent wrapping_shl

unfoldable pub shr : Value → Value → Span → Outcome Value
shr = overflowing_binary (codes ">>") any_and_exponent checked_shr

unfoldable pub shr_wrapped : Value → Value → Span → Outcome Value
shr_wrapped = non_overflowing_binary any_and_exponent wrapping_shr

unfoldable pub sub : Value → Value → Span → Outcome Value
sub = overflowing_binary (codes "-") same_type checked_sub

unfoldable pub sub_wrapped : Value → Value → Span → Outcome Value
sub_wrapped = non_overflowing_binary same_type wrapping_sub

abbrev pub bool_xor : Bool → Bool → Bool
bool_xor l r = not (bool_eq l r)

unfoldable pub xor : Value → Value → Span → Outcome Value
xor = bit_binary bool_xor xor_word

unfoldable pub is_supported_const_fold_type : Value → Bool
is_supported_const_fold_type (Value.boolean b s) = true
is_supported_const_fold_type (Value.integer t z s) = true
is_supported_const_fold_type _ = false

-- `From<&Value> for Type`
unfoldable pub type_of : Value → Ty
type_of (Value.input type_ ident) = type_
type_of (Value.address s span) = Ty.address
type_of (Value.boolean b span) = Ty.boolean
type_of (Value.struct ident fs) = Ty.identifier ident
type_of (Value.field s span) = Ty.field
type_of (Value.group g info) = Ty.group
type_of (Value.integer t z span) = Ty.integer t
type_of (Value.scalar s span) = Ty.scalar
type_of (Value.string s span) = Ty.string
