-- ===== src/TypeChecker/Operators.antt =====
-- compiler/passes/src/type_checking/check_expressions.rs: literals and the operators. The visits of the
-- operands are arguments.
use aleotiktacto.Prelude.{ℕ, Option, none, some, List, codes}
use aleotiktacto.Ast.{Span, IntegerType, Ty, Literal, BinaryOperation, UnaryOperation, Expression}
use aleotiktacto.Int.{ℤ}
use aleotiktacto.Values.Convert.{parse_integer, remove_underscores}
use aleotiktacto.TypeChecker.{
  M, pure, ◌>>=◌, ◌>>◌, emit_err, Shown, type_should_be, strings_are_not_supported,
  invalid_int_value, compare_address, could_not_determine_type, return_incorrect_type,
}
use aleotiktacto.TypeChecker.Asserts.{
  check_eq_types, assert_and_return_type, assert_type, assert_bool_type, assert_field_type,
  assert_group_type, assert_scalar_type, assert_int_type, assert_signed_int_type,
  assert_unsigned_int_type, assert_magnitude_type, assert_bool_int_type, assert_field_int_type,
  assert_field_group_type, assert_field_group_int_type, assert_field_group_signed_int_type,
  assert_field_scalar_int_type, assert_field_group_scalar_int_type,
}

-- The visit of an expression, in the type expected of it.
abbrev pub Visit : Type 0
Visit = Option Ty → M (Option Ty)

-- An operand: its visit, itself and its span.
pub record Operand : Type 0 where
  pub visit : Visit
  pub node : Expression
  pub span : Span

-- `string.parse::<I>().is_err()`
unfoldable pub check_parsed : Option ℤ → List ℕ → IntegerType → Span → M (Unit {0})
check_parsed none string t span = emit_err (invalid_int_value string t span)
check_parsed (some z) string t span = pure tt

unfoldable pub parse_integer_literal : IntegerType → List ℕ → Span → M (Unit {0})
parse_integer_literal t raw_string span =
    let string = remove_underscores raw_string in
    check_parsed (parse_integer t string) string t span

unfoldable pub visit_literal : Literal → Option Ty → M Ty
visit_literal (Literal.address s info) expected =
    assert_and_return_type Ty.address expected info.span
visit_literal (Literal.boolean b info) expected =
    assert_and_return_type Ty.boolean expected info.span
visit_literal (Literal.field s info) expected = assert_and_return_type Ty.field expected info.span
visit_literal (Literal.integer t s info) expected = do
  parse_integer_literal t s info.span
  assert_and_return_type (Ty.integer t) expected info.span
visit_literal (Literal.group g info) expected = assert_and_return_type Ty.group expected info.span
visit_literal (Literal.scalar s info) expected = assert_and_return_type Ty.scalar expected info.span
visit_literal (Literal.string s info) expected = do
  emit_err (strings_are_not_supported info.span)
  assert_and_return_type Ty.string expected info.span

-- The operators whose operands have the type of the result.
unfoldable pub visit_equal_operands :
    (Option Ty → Span → M (Unit {0})) → Operand → Operand → Span → Visit
visit_equal_operands assert left right span destination = do
  assert destination span
  t1 ← left.visit destination
  t2 ← right.visit destination
  check_eq_types t1 t2 span
  pure (return_incorrect_type t1 t2 destination)

unfoldable pub emit_unsupported : Option Ty → Operand → M (Unit {0})
emit_unsupported none operand = emit_err (could_not_determine_type operand.node operand.span)
emit_unsupported (some t) operand = emit_err (
    type_should_be (Shown.type t) (Shown.text (codes "field, group, integer, or scalar"))
      operand.span)

-- What a product does where one operand is a group, a field or an integer of the type.
unfoldable pub finish_group : Option Ty → Span → Span → Visit
finish_group other other_span span destination = do
  assert_scalar_type other other_span
  assert_group_type destination span
  pure (some Ty.group)

unfoldable pub finish_field : Option Ty → Span → Span → Visit
finish_field other other_span span destination = do
  assert_field_type other other_span
  assert_field_type destination span
  pure (some Ty.field)

unfoldable pub finish_integer : IntegerType → Option Ty → Span → Span → Visit
finish_integer t other other_span span destination = do
  assert_type other (Ty.integer t) other_span
  assert_type destination (Ty.integer t) span
  pure (some (Ty.integer t))

-- The match on the types of the operands of a product, in the order of its arms.
unfoldable pub finish_mul : Option Ty → Option Ty → Operand → Operand → Span → Visit
finish_mul (some Ty.group) t2 left right span destination =
    finish_group t2 right.span span destination
finish_mul t1 (some Ty.group) left right span destination =
    finish_group t1 left.span span destination
finish_mul (some Ty.field) t2 left right span destination =
    finish_field t2 right.span span destination
finish_mul t1 (some Ty.field) left right span destination =
    finish_field t1 left.span span destination
finish_mul (some (Ty.integer t)) t2 left right span destination =
    finish_integer t t2 right.span span destination
finish_mul t1 (some (Ty.integer t)) left right span destination =
    finish_integer t t1 left.span span destination
finish_mul t1 t2 left right span destination = do
  emit_unsupported t1 left
  emit_unsupported t2 right
  pure destination

unfoldable pub finish_pow : Option Ty → Option Ty → Operand → Operand → Span → Visit
finish_pow (some Ty.field) t2 left right span destination =
    finish_field t2 right.span span destination
finish_pow t1 (some Ty.field) left right span destination =
    finish_field t1 left.span span destination
finish_pow (some t1) t2 left right span destination = do
  assert_magnitude_type t2 right.span
  assert_type destination t1 span
  pure (some t1)
finish_pow none t2 left right span destination = do
  assert_magnitude_type t2 right.span
  pure destination

-- The operands of an order are no addresses.
unfoldable pub check_ordered :
    BinaryOperation → Option Ty → Option Ty → Operand → Operand → Span → M (Unit {0})
check_ordered op (some Ty.address) t2 left right span = emit_err (compare_address op span)
check_ordered op t1 (some Ty.address) left right span = emit_err (compare_address op span)
check_ordered op t1 t2 left right span = do
  assert_field_scalar_int_type t1 left.span
  assert_field_scalar_int_type t2 right.span

unfoldable pub visit_equality : Operand → Operand → Span → Visit
visit_equality left right span destination = do
  t1 ← left.visit none
  t2 ← right.visit none
  check_eq_types t1 t2 span
  assert_bool_type destination span
  pure (some Ty.boolean)

unfoldable pub visit_order : BinaryOperation → Operand → Operand → Span → Visit
visit_order op left right span destination = do
  t1 ← left.visit none
  t2 ← right.visit none
  check_ordered op t1 t2 left right span
  check_eq_types t1 t2 span
  assert_bool_type destination span
  pure (some Ty.boolean)

unfoldable pub visit_mul : Operand → Operand → Span → Visit
visit_mul left right span destination = do
  assert_field_group_int_type destination span
  t1 ← left.visit none
  t2 ← right.visit none
  finish_mul t1 t2 left right span destination

unfoldable pub visit_pow : Operand → Operand → Span → Visit
visit_pow left right span destination = do
  assert_field_int_type destination span
  t1 ← left.visit none
  t2 ← right.visit none
  finish_pow t1 t2 left right span destination

unfoldable pub visit_shift : Operand → Operand → Span → Visit
visit_shift left right span destination = do
  t1 ← left.visit destination
  t2 ← right.visit none
  assert_int_type t1 left.span
  assert_int_type destination span
  assert_magnitude_type t2 right.span
  pure t1

unfoldable pub visit_binary : BinaryOperation → Operand → Operand → Span → Visit
visit_binary BinaryOperation.and = visit_equal_operands assert_bool_type
visit_binary BinaryOperation.or = visit_equal_operands assert_bool_type
visit_binary BinaryOperation.nand = visit_equal_operands assert_bool_type
visit_binary BinaryOperation.nor = visit_equal_operands assert_bool_type
visit_binary BinaryOperation.bitwise_and = visit_equal_operands assert_bool_int_type
visit_binary BinaryOperation.bitwise_or = visit_equal_operands assert_bool_int_type
visit_binary BinaryOperation.xor = visit_equal_operands assert_bool_int_type
visit_binary BinaryOperation.add = visit_equal_operands assert_field_group_scalar_int_type
visit_binary BinaryOperation.sub = visit_equal_operands assert_field_group_int_type
visit_binary BinaryOperation.mul = visit_mul
visit_binary BinaryOperation.div = visit_equal_operands assert_field_int_type
visit_binary BinaryOperation.rem = visit_equal_operands assert_int_type
visit_binary BinaryOperation.rem_wrapped = visit_equal_operands assert_int_type
visit_binary BinaryOperation.mod_ = visit_equal_operands assert_unsigned_int_type
visit_binary BinaryOperation.pow = visit_pow
visit_binary BinaryOperation.eq = visit_equality
visit_binary BinaryOperation.neq = visit_equality
visit_binary BinaryOperation.lt = visit_order BinaryOperation.lt
visit_binary BinaryOperation.gt = visit_order BinaryOperation.gt
visit_binary BinaryOperation.lte = visit_order BinaryOperation.lte
visit_binary BinaryOperation.gte = visit_order BinaryOperation.gte
visit_binary BinaryOperation.add_wrapped = visit_equal_operands assert_int_type
visit_binary BinaryOperation.sub_wrapped = visit_equal_operands assert_int_type
visit_binary BinaryOperation.div_wrapped = visit_equal_operands assert_int_type
visit_binary BinaryOperation.mul_wrapped = visit_equal_operands assert_int_type
visit_binary BinaryOperation.shl = visit_shift
visit_binary BinaryOperation.shl_wrapped = visit_shift
visit_binary BinaryOperation.shr = visit_shift
visit_binary BinaryOperation.shr_wrapped = visit_shift
visit_binary BinaryOperation.pow_wrapped = visit_shift

-- The operators whose operand has the type of the result.
unfoldable pub visit_same : (Option Ty → Span → M (Unit {0})) → Operand → Span → Visit
visit_same assert receiver span destination = assert destination span >> receiver.visit destination

unfoldable pub visit_unary : UnaryOperation → Operand → Span → Visit
visit_unary UnaryOperation.abs receiver span destination =
    visit_same assert_signed_int_type receiver span destination
visit_unary UnaryOperation.abs_wrapped receiver span destination =
    visit_same assert_signed_int_type receiver span destination
visit_unary UnaryOperation.double receiver span destination =
    visit_same assert_field_group_type receiver span destination
visit_unary UnaryOperation.inverse receiver span destination =
    visit_same assert_field_type receiver span destination
visit_unary UnaryOperation.negate receiver span destination = do
  t ← receiver.visit destination
  assert_field_group_signed_int_type t receiver.span
  pure t
visit_unary UnaryOperation.not receiver span destination =
    visit_same assert_bool_int_type receiver span destination
visit_unary UnaryOperation.square receiver span destination =
    visit_same assert_field_type receiver span destination
visit_unary UnaryOperation.square_root receiver span destination =
    visit_same assert_field_type receiver span destination
visit_unary UnaryOperation.to_x_coordinate receiver span destination = do
  assert_field_type destination span
  receiver.visit (some Ty.group)
visit_unary UnaryOperation.to_y_coordinate receiver span destination = do
  assert_field_type destination span
  receiver.visit (some Ty.group)
