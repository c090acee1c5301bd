-- ===== src/TypeChecker/Soundness.antt =====
-- The operators of compiler/passes/src/type_checking/check_expressions.rs return the type
-- expected of them.
pub mod Calls
pub mod Accesses
pub mod Expressions
use aleotiktacto.Prelude.{
  ℕ, Bool, true, false, not, ◌&&◌, ◌||◌, Option, none, some, List, [], ◌∷◌, ◌≡◌, ◌⊎◌, refl, sym,
  inl, inr, arith,
}
use aleotiktacto.Ast.{
  Span, Identifier, IntegerType, Ty, Literal, BinaryOperation, UnaryOperation, Expression,
}
use aleotiktacto.Ast.Types.{eq_type, eq_flat}
use aleotiktacto.Ast.Types.Laws.{eq_flat_sym}
use aleotiktacto.Values.Convert.{parse_integer, remove_underscores}
use aleotiktacto.TypeChecker.{M, pure, ◌>>=◌, ◌>>◌, emit_err, return_incorrect_type}
use aleotiktacto.TypeChecker.Triples.{
  Triple, Triple-pure, Triple-bind, Triple-weaken, Triple-emit_err,
}
use aleotiktacto.TypeChecker.Checks.{
  AreFlatEqual, Accepts, Grows, Triple-then, Triple-Grows, Valid, assert_type-Valid,
  assert_one_of-Valid, Grows-assert_one_of, assert_and_return_type-Accepts, Grows-check_eq_types,
  return_incorrect_type-Accepts, Accepts-none,
}
use aleotiktacto.TypeChecker.Asserts.{
  check_eq_types, assert_type, contains_type, assert_one_of, assert_bool_type, assert_field_type,
  assert_group_type, assert_scalar_type, assert_int_type, assert_signed_int_type,
  assert_unsigned_int_type, assert_magnitude_type, assert_bool_int_type, assert_field_int_type,
  assert_field_group_type, assert_field_group_int_type, assert_field_group_signed_int_type,
  assert_field_scalar_int_type, assert_field_group_scalar_int_type,
}
use aleotiktacto.TypeChecker.Operators.{
  Visit, Operand, parse_integer_literal, visit_literal, visit_equal_operands, emit_unsupported,
  finish_group, finish_field, finish_integer, finish_mul, finish_pow, check_ordered, visit_equality,
  visit_order, visit_mul, visit_pow, visit_shift, visit_binary, visit_same, visit_unary,
}

-- A visit returns the type expected, where the Boolean is true.
abbrev pub IsSound : Bool → Visit → Type 0
IsSound b v = (d : Option Ty) → Triple (v d) (λ o. b ≡ true → Accepts d o)

pub &&-left : (a b : Bool) → (a && b) ≡ true → a ≡ true
&&-left true b h = refl
&&-left false b h = h

pub &&-right : (a b : Bool) → (a && b) ≡ true → b ≡ true
&&-right true b h = h
&&-right false b h = absurd cc

-- Which operands pass the expected type on to the result.
abbrev pub keeps_binary : BinaryOperation → Bool → Bool → Bool
keeps_binary BinaryOperation.mul a b = true
keeps_binary BinaryOperation.pow a b = true
keeps_binary BinaryOperation.eq a b = true
keeps_binary BinaryOperation.neq a b = true
keeps_binary BinaryOperation.lt a b = true
keeps_binary BinaryOperation.gt a b = true
keeps_binary BinaryOperation.lte a b = true
keeps_binary BinaryOperation.gte a b = true
keeps_binary BinaryOperation.shl a b = a
keeps_binary BinaryOperation.shl_wrapped a b = a
keeps_binary BinaryOperation.shr a b = a
keeps_binary BinaryOperation.shr_wrapped a b = a
keeps_binary BinaryOperation.pow_wrapped a b = a
keeps_binary op a b = a && b

abbrev pub keeps_unary : UnaryOperation → Bool → Bool
keeps_unary UnaryOperation.to_x_coordinate a = false
keeps_unary UnaryOperation.to_y_coordinate a = false
keeps_unary op a = a

-- A type that is one of a single constant is that constant.
only : (c d : Ty) → eq_flat d c ≡ true → AreFlatEqual c d
only c d h = inr (eq_flat_sym d c h)

is_boolean :
    (d : Option Ty) → Valid (contains_type (Ty.boolean ∷ [])) d → Accepts d (some Ty.boolean)
unfolding eq_type
is_boolean none h = tt
is_boolean (some Ty.boolean) h = inl refl
is_boolean (some _) h = absurd cc

is_field : (d : Option Ty) → Valid (contains_type (Ty.field ∷ [])) d → Accepts d (some Ty.field)
unfolding eq_type
is_field none h = tt
is_field (some Ty.field) h = inl refl
is_field (some _) h = absurd cc

is_group : (d : Option Ty) → Valid (contains_type (Ty.group ∷ [])) d → Accepts d (some Ty.group)
unfolding eq_type
is_group none h = tt
is_group (some Ty.group) h = inl refl
is_group (some _) h = absurd cc

is_type : (t : Ty) (d : Option Ty) → Valid (λ a. eq_flat a t) d → Accepts d (some t)
is_type t none h = tt
is_type t (some d) h = inr (eq_flat_sym d t h)

Accepts-itself : (d : Option Ty) → Accepts d d
Accepts-itself none = tt
Accepts-itself (some t) = inl refl

module _ (left right : Operand) (a b : Bool) (hl : IsSound a left.visit)
    (hr : IsSound b right.visit) where
  visit_equal_operands-IsSound :
      (assert : Option Ty → Span → M (Unit {0})) (span : Span)
      → ((d : Option Ty) → Grows (assert d span))
      → IsSound (a && b) (visit_equal_operands assert left right span)
  unfolding visit_equal_operands
  visit_equal_operands-IsSound assert span h d = Triple-then _ _ (h d) (λ u.
      Triple-bind _ _ (hl d) (λ t1. Triple-bind _ _ (hr d) (λ t2.
        Triple-then _ _ (Grows-check_eq_types t1 t2 span) (λ u. Triple-pure _ (λ q p k.
          return_incorrect_type-Accepts t1 t2 d (p (&&-left a b k)) (q (&&-right a b k)))))))

  finish_group-Accepts :
      (other : Option Ty) (other_span span : Span) (d : Option Ty)
      → Triple (finish_group other other_span span d) (λ o. Accepts d o)
  unfolding finish_group assert_scalar_type assert_group_type
  finish_group-Accepts other other_span span d =
      Triple-then _ _ (Grows-assert_one_of _ other other_span)
        (λ u. Triple-bind _ _ (assert_one_of-Valid _ d span) (λ u. Triple-pure _ (is_group d)))

  finish_field-Accepts :
      (other : Option Ty) (other_span span : Span) (d : Option Ty)
      → Triple (finish_field other other_span span d) (λ o. Accepts d o)
  unfolding finish_field assert_field_type
  finish_field-Accepts other other_span span d =
      Triple-then _ _ (Grows-assert_one_of _ other other_span)
        (λ u. Triple-bind _ _ (assert_one_of-Valid _ d span) (λ u. Triple-pure _ (is_field d)))

  finish_integer-Accepts :
      (t : IntegerType) (other : Option Ty) (other_span span : Span) (d : Option Ty)
      → Triple (finish_integer t other other_span span d) (λ o. Accepts d o)
  unfolding finish_integer
  finish_integer-Accepts t other other_span span d =
      Triple-then _ _ (assert_type-Valid other (Ty.integer t) other_span) (λ u.
        Triple-bind _ _ (assert_type-Valid d (Ty.integer t) span)
          (λ u. Triple-pure _ (is_type (Ty.integer t) d)))

  emit_unsupported-Grows : (o : Option Ty) (x : Operand) → Grows (emit_unsupported o x)
  unfolding emit_unsupported
  emit_unsupported-Grows none x = Triple-emit_err _
  emit_unsupported-Grows (some t) x = Triple-emit_err _

  finish_mul-Accepts :
      (t1 t2 : Option Ty) (span : Span) (d : Option Ty)
      → Triple (finish_mul t1 t2 left right span d) (λ o. Accepts d o)
  unfolding finish_mul
  finish_mul-Accepts (some Ty.group) t2 span d = finish_group-Accepts _ _ _ d
  finish_mul-Accepts t1 (some Ty.group) span d = finish_group-Accepts _ _ _ d
  finish_mul-Accepts (some Ty.field) t2 span d = finish_field-Accepts _ _ _ d
  finish_mul-Accepts t1 (some Ty.field) span d = finish_field-Accepts _ _ _ d
  finish_mul-Accepts (some (Ty.integer t)) t2 span d = finish_integer-Accepts t _ _ _ d
  finish_mul-Accepts t1 (some (Ty.integer t)) span d = finish_integer-Accepts t _ _ _ d
  finish_mul-Accepts t1 t2 span d = Triple-then _ _ (emit_unsupported-Grows t1 left) (λ u.
      Triple-then _ _ (emit_unsupported-Grows t2 right) (λ u. Triple-pure d (Accepts-itself d)))

  finish_pow-Accepts :
      (t1 t2 : Option Ty) (span : Span) (d : Option Ty)
      → Triple (finish_pow t1 t2 left right span d) (λ o. Accepts d o)
  unfolding finish_pow assert_magnitude_type
  finish_pow-Accepts (some Ty.field) t2 span d = finish_field-Accepts _ _ _ d
  finish_pow-Accepts t1 (some Ty.field) span d = finish_field-Accepts _ _ _ d
  finish_pow-Accepts (some t1) t2 span d =
      Triple-then _ _ (Grows-assert_one_of _ _ _)
        (λ u. Triple-bind _ _ (assert_type-Valid d t1 span) (λ u. Triple-pure _ (is_type t1 d)))
  finish_pow-Accepts none t2 span d =
      Triple-then _ _ (Grows-assert_one_of _ _ _) (λ u. Triple-pure d (Accepts-itself d))

  check_ordered-Grows :
      (op : BinaryOperation) (t1 t2 : Option Ty) (span : Span)
      → Grows (check_ordered op t1 t2 left right span)
  unfolding check_ordered assert_field_scalar_int_type
  check_ordered-Grows op (some Ty.address) t2 span = Triple-emit_err _
  check_ordered-Grows op t1 (some Ty.address) span = Triple-emit_err _
  check_ordered-Grows op t1 t2 span =
      Triple-then _ _ (Grows-assert_one_of _ t1 _) (λ u. Grows-assert_one_of _ t2 _)

  -- A test for a Boolean result at the end.
  boolean_result :
      (span : Span) (d : Option Ty)
      → Triple (assert_bool_type d span >> pure (some Ty.boolean)) (λ o. Accepts d o)
  unfolding assert_bool_type
  boolean_result span d =
      Triple-bind _ _ (assert_one_of-Valid _ d span) (λ u. Triple-pure _ (is_boolean d))

  operands :
      {Q : Option Ty → Type 0} (d1 d2 : Option Ty) (f : Option Ty → Option Ty → M (Option Ty))
      → ((t1 t2 : Option Ty) → Triple (f t1 t2) Q)
      → Triple (left.visit d1 >>= λ t1. right.visit d2 >>= λ t2. f t1 t2) Q
  operands d1 d2 f h = Triple-then _ _ (hl d1) (λ t1. Triple-then _ _ (hr d2) (λ t2. h t1 t2))

  visit_equality-IsSound : (span : Span) → IsSound true (visit_equality left right span)
  unfolding visit_equality
  visit_equality-IsSound span d = operands none none _ (λ t1 t2.
      Triple-then _ _ (Grows-check_eq_types t1 t2 span)
        (λ u. Triple-weaken _ (boolean_result span d) (λ o h k. h)))

  visit_order-IsSound :
      (op : BinaryOperation) (span : Span) → IsSound true (visit_order op left right span)
  unfolding visit_order
  visit_order-IsSound op span d = operands none none _ (λ t1 t2.
      Triple-then _ _ (check_ordered-Grows op t1 t2 span) (λ u.
        Triple-then _ _ (Grows-check_eq_types t1 t2 span)
          (λ u. Triple-weaken _ (boolean_result span d) (λ o h k. h))))

  visit_mul-IsSound : (span : Span) → IsSound true (visit_mul left right span)
  unfolding visit_mul assert_field_group_int_type
  visit_mul-IsSound span d = Triple-then _ _ (Grows-assert_one_of _ d span) (λ u.
      operands none none _
        (λ t1 t2. Triple-weaken _ (finish_mul-Accepts t1 t2 span d) (λ o h k. h)))

  visit_pow-IsSound : (span : Span) → IsSound true (visit_pow left right span)
  unfolding visit_pow assert_field_int_type
  visit_pow-IsSound span d = Triple-then _ _ (Grows-assert_one_of _ d span) (λ u.
      operands none none _
        (λ t1 t2. Triple-weaken _ (finish_pow-Accepts t1 t2 span d) (λ o h k. h)))

  visit_shift-IsSound : (span : Span) → IsSound a (visit_shift left right span)
  unfolding visit_shift assert_int_type assert_magnitude_type
  visit_shift-IsSound span d = Triple-bind _ _ (hl d) (λ t1. Triple-then _ _ (hr none) (λ t2.
      Triple-then _ _ (Grows-assert_one_of _ t1 _) (λ u.
        Triple-then _ _ (Grows-assert_one_of _ d _)
          (λ u. Triple-then _ _ (Grows-assert_one_of _ t2 _) (λ u. Triple-pure t1 (λ h. h))))))

  pub visit_binary-IsSound :
      (op : BinaryOperation) (span : Span)
      → IsSound (keeps_binary op a b) (visit_binary op left right span)
  unfolding visit_binary assert_bool_type assert_bool_int_type assert_field_group_scalar_int_type
      assert_field_group_int_type assert_field_int_type assert_int_type assert_unsigned_int_type
  visit_binary-IsSound BinaryOperation.mul span = visit_mul-IsSound span
  visit_binary-IsSound BinaryOperation.pow span = visit_pow-IsSound span
  visit_binary-IsSound BinaryOperation.eq span = visit_equality-IsSound span
  visit_binary-IsSound BinaryOperation.neq span = visit_equality-IsSound span
  visit_binary-IsSound BinaryOperation.lt span = visit_order-IsSound _ span
  visit_binary-IsSound BinaryOperation.gt span = visit_order-IsSound _ span
  visit_binary-IsSound BinaryOperation.lte span = visit_order-IsSound _ span
  visit_binary-IsSound BinaryOperation.gte span = visit_order-IsSound _ span
  visit_binary-IsSound BinaryOperation.shl span = visit_shift-IsSound span
  visit_binary-IsSound BinaryOperation.shl_wrapped span = visit_shift-IsSound span
  visit_binary-IsSound BinaryOperation.shr span = visit_shift-IsSound span
  visit_binary-IsSound BinaryOperation.shr_wrapped span = visit_shift-IsSound span
  visit_binary-IsSound BinaryOperation.pow_wrapped span = visit_shift-IsSound span
  visit_binary-IsSound _ span =
      visit_equal_operands-IsSound _ span (λ d. Grows-assert_one_of _ d span)

module _ (receiver : Operand) (a : Bool) (h : IsSound a receiver.visit) where
  visit_same-IsSound :
      (assert : Option Ty → Span → M (Unit {0})) (span : Span)
      → ((d : Option Ty) → Grows (assert d span))
      → IsSound a (visit_same assert receiver span)
  unfolding visit_same
  visit_same-IsSound assert span g d = Triple-then _ _ (g d) (λ u. h d)

  pub visit_unary-IsSound :
      (op : UnaryOperation) (span : Span)
      → IsSound (keeps_unary op a) (visit_unary op receiver span)
  unfolding visit_unary assert_signed_int_type assert_field_group_type assert_field_type
      assert_bool_int_type assert_field_group_signed_int_type
  visit_unary-IsSound UnaryOperation.negate span d =
      Triple-bind _ _ (h d)
        (λ t. Triple-then _ _ (Grows-assert_one_of _ t _) (λ u. Triple-pure t (λ q. q)))
  visit_unary-IsSound UnaryOperation.to_x_coordinate span d =
      Triple-then _ _ (Grows-assert_one_of _ d span)
        (λ u. Triple-weaken _ (h (some Ty.group)) (λ o q k. absurd cc))
  visit_unary-IsSound UnaryOperation.to_y_coordinate span d =
      Triple-then _ _ (Grows-assert_one_of _ d span)
        (λ u. Triple-weaken _ (h (some Ty.group)) (λ o q k. absurd cc))
  visit_unary-IsSound _ span d = visit_same-IsSound _ span (λ d. Grows-assert_one_of _ d span) d
