-- ===== src/TypeChecker/Asserts.antt =====
-- The checks of one type in compiler/passes/src/type_checking/checker.rs.
use aleotiktacto.Prelude.{Bool, true, false, not, ◌||◌, Option, none, some, List, [], ◌∷◌, codes}
use aleotiktacto.Ast.{Span, Identifier, Ty, u8, u16, u32, u64, u128, i8, i16, i32, i64, i128}
use aleotiktacto.Ast.Types.{eq_type, eq_flat}
use aleotiktacto.TypeChecker.{
  M, pure, ◌>>◌, emit_err, emit_if, Shown, expected_one_type_of, type_should_be,
}

abbrev pub signed_int_types : List Ty
signed_int_types =
    Ty.integer i8 ∷ Ty.integer i16 ∷ Ty.integer i32 ∷ Ty.integer i64 ∷ Ty.integer i128 ∷ []

abbrev pub unsigned_int_types : List Ty
unsigned_int_types =
    Ty.integer u8 ∷ Ty.integer u16 ∷ Ty.integer u32 ∷ Ty.integer u64 ∷ Ty.integer u128 ∷ []

abbrev pub int_types : List Ty
int_types =
    Ty.integer i8
    ∷ Ty.integer i16
    ∷ Ty.integer i32
    ∷ Ty.integer i64
    ∷ Ty.integer i128
    ∷ unsigned_int_types

abbrev pub magnitude_types : List Ty
magnitude_types = Ty.integer u8 ∷ Ty.integer u16 ∷ Ty.integer u32 ∷ []

-- `types.contains(type_)`
abbrev pub contains_type : List Ty → Ty → Bool
contains_type [] type_ = false
contains_type (t ∷ ts) type_ = eq_type t type_ || contains_type ts type_

unfoldable pub check_type : (Ty → Bool) → Shown → Option Ty → Span → M (Unit {0})
check_type is_valid error_string none span = pure tt
check_type is_valid error_string (some type_) span =
    emit_if (not (is_valid type_)) (expected_one_type_of error_string type_ span)

unfoldable pub check_eq_types : Option Ty → Option Ty → Span → M (Unit {0})
check_eq_types (some t1) (some t2) span =
    emit_if (not (eq_flat t1 t2)) (type_should_be (Shown.type t1) (Shown.type t2) span)
check_eq_types (some t) none span =
    emit_err (type_should_be (Shown.text (codes "no type")) (Shown.type t) span)
check_eq_types none (some t) span =
    emit_err (type_should_be (Shown.text (codes "no type")) (Shown.type t) span)
check_eq_types none none span = pure tt

unfoldable pub assert_and_return_type : Ty → Option Ty → Span → M Ty
assert_and_return_type actual none span = pure actual
assert_and_return_type actual (some expected) span = do
  emit_if (not (eq_flat actual expected))
      (type_should_be (Shown.type actual) (Shown.type expected) span)
  pure actual

unfoldable pub assert_type : Option Ty → Ty → Span → M (Unit {0})
assert_type actual expected span =
    check_type (λ t. eq_flat t expected) (Shown.type expected) actual span

-- `if let Some(expected) = expected { self.assert_type(actual, expected, span) }`
unfoldable pub assert_expected : Option Ty → Option Ty → Span → M (Unit {0})
unfolding assert_type
assert_expected actual none span = pure tt
assert_expected actual (some expected) span = assert_type actual expected span

-- The checks against a list of types, in its order.
unfoldable pub assert_one_of : List Ty → Option Ty → Span → M (Unit {0})
assert_one_of ts type_ span = check_type (contains_type ts) (Shown.types ts) type_ span

unfoldable pub assert_address_type : Option Ty → Span → M (Unit {0})
assert_address_type = assert_one_of (Ty.address ∷ [])

unfoldable pub assert_bool_type : Option Ty → Span → M (Unit {0})
assert_bool_type = assert_one_of (Ty.boolean ∷ [])

unfoldable pub assert_field_type : Option Ty → Span → M (Unit {0})
assert_field_type = assert_one_of (Ty.field ∷ [])

unfoldable pub assert_group_type : Option Ty → Span → M (Unit {0})
assert_group_type = assert_one_of (Ty.group ∷ [])

unfoldable pub assert_scalar_type : Option Ty → Span → M (Unit {0})
assert_scalar_type = assert_one_of (Ty.scalar ∷ [])

unfoldable pub assert_signature_type : Option Ty → Span → M (Unit {0})
assert_signature_type = assert_one_of (Ty.signature ∷ [])

unfoldable pub assert_int_type : Option Ty → Span → M (Unit {0})
assert_int_type = assert_one_of int_types

unfoldable pub assert_signed_int_type : Option Ty → Span → M (Unit {0})
assert_signed_int_type = assert_one_of signed_int_types

unfoldable pub assert_unsigned_int_type : Option Ty → Span → M (Unit {0})
assert_unsigned_int_type = assert_one_of unsigned_int_types

unfoldable pub assert_magnitude_type : Option Ty → Span → M (Unit {0})
assert_magnitude_type = assert_one_of magnitude_types

unfoldable pub assert_bool_int_type : Option Ty → Span → M (Unit {0})
assert_bool_int_type = assert_one_of (Ty.boolean ∷ int_types)

unfoldable pub assert_field_int_type : Option Ty → Span → M (Unit {0})
assert_field_int_type = assert_one_of (Ty.field ∷ int_types)

unfoldable pub assert_field_group_type : Option Ty → Span → M (Unit {0})
assert_field_group_type = assert_one_of (Ty.field ∷ Ty.group ∷ [])

unfoldable pub assert_field_group_int_type : Option Ty → Span → M (Unit {0})
assert_field_group_int_type = assert_one_of (Ty.field ∷ Ty.group ∷ int_types)

unfoldable pub assert_field_group_signed_int_type : Option Ty → Span → M (Unit {0})
assert_field_group_signed_int_type = assert_one_of (Ty.field ∷ Ty.group ∷ signed_int_types)

unfoldable pub assert_field_scalar_int_type : Option Ty → Span → M (Unit {0})
assert_field_scalar_int_type = assert_one_of (Ty.field ∷ Ty.scalar ∷ int_types)

unfoldable pub assert_field_group_scalar_int_type : Option Ty → Span → M (Unit {0})
assert_field_group_scalar_int_type = assert_one_of (Ty.field ∷ Ty.group ∷ Ty.scalar ∷ int_types)

unfoldable pub assert_castable_type : Option Ty → Span → M (Unit {0})
assert_castable_type = assert_one_of (
    Ty.field
    ∷ Ty.group
    ∷ Ty.scalar
    ∷ Ty.integer i8
    ∷ Ty.integer i16
    ∷ Ty.integer i32
    ∷ Ty.integer i64
    ∷ Ty.integer i128
    ∷ Ty.integer u8
    ∷ Ty.integer u16
    ∷ Ty.integer u32
    ∷ Ty.integer u64
    ∷ Ty.integer u128
    ∷ Ty.boolean
    ∷ Ty.address
    ∷ [])

abbrev pub is_array : Ty → Bool
is_array (Ty.array t n) = true
is_array _ = false

abbrev pub is_mapping : Ty → Bool
is_mapping (Ty.mapping k v) = true
is_mapping _ = false

unfoldable pub assert_array_type : Option Ty → Span → M (Unit {0})
assert_array_type type_ span = check_type is_array (Shown.text (codes "array")) type_ span

-- `assert_mapping_type`, with the match on the type it returns left to the caller.
unfoldable pub assert_mapping_type : Option Ty → Span → M (Unit {0})
assert_mapping_type type_ span = check_type is_mapping (Shown.text (codes "mapping")) type_ span

unfoldable pub check_expected_struct : Identifier → Option Ty → Span → M Ty
check_expected_struct struct none span = pure (Ty.identifier struct)
check_expected_struct struct (some expected) span = do
  emit_if (not (eq_flat (Ty.identifier struct) expected))
      (type_should_be (Shown.symbol struct.name) (Shown.type expected) span)
  pure (Ty.identifier struct)
