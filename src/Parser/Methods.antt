-- ===== src/Parser/Methods.antt =====
-- compiler/parser/src/parser/expression.rs: what a method call stands for, with the names of
-- operators in compiler/ast/src/expressions/unary.rs and binary.rs.
use aleotiktacto.Prelude.{
  ℕ, Bool, true, false, Option, none, some, List, [], ◌∷◌, length, ◌==◌, if◌then◌else◌,
}
use aleotiktacto.Ast.{
  Span, Identifier, Ty, UnaryOperation, BinaryOperation, Expression, AccessExpression, default_span,
}
use aleotiktacto.IndexSet.{get}
use aleotiktacto.Sym
use aleotiktacto.CoreFunction.{CoreFunction}
use aleotiktacto.CoreFunction.Symbols.{from_symbols}
use aleotiktacto.Parser.{M, pure, ◌>>=◌, ◌>>◌, emit_err, node_at, invalid_method_call}
use aleotiktacto.Parser.Primary.{to_expressions}

abbrev pub unary_symbols : List (ℕ × UnaryOperation)
unary_symbols =
    (Sym.abs, UnaryOperation.abs)
    ∷ (Sym.abs_wrapped, UnaryOperation.abs_wrapped)
    ∷ (Sym.double, UnaryOperation.double)
    ∷ (Sym.inv, UnaryOperation.inverse)
    ∷ (Sym.neg, UnaryOperation.negate)
    ∷ (Sym.not, UnaryOperation.not)
    ∷ (Sym.square, UnaryOperation.square)
    ∷ (Sym.square_root, UnaryOperation.square_root)
    ∷ (Sym.to_x_coordinate, UnaryOperation.to_x_coordinate)
    ∷ (Sym.to_y_coordinate, UnaryOperation.to_y_coordinate)
    ∷ []

-- `UnaryOperation::from_symbol`
unfoldable pub unary_from_symbol : ℕ → Option UnaryOperation
unary_from_symbol symbol = get unary_symbols symbol

abbrev pub binary_symbols : List (ℕ × BinaryOperation)
binary_symbols =
    (Sym.add, BinaryOperation.add)
    ∷ (Sym.add_wrapped, BinaryOperation.add_wrapped)
    ∷ (Sym.and, BinaryOperation.bitwise_and)
    ∷ (Sym.div, BinaryOperation.div)
    ∷ (Sym.div_wrapped, BinaryOperation.div_wrapped)
    ∷ (Sym.eq, BinaryOperation.eq)
    ∷ (Sym.gte, BinaryOperation.gte)
    ∷ (Sym.gt, BinaryOperation.gt)
    ∷ (Sym.lte, BinaryOperation.lte)
    ∷ (Sym.lt, BinaryOperation.lt)
    ∷ (Sym.mod_, BinaryOperation.mod_)
    ∷ (Sym.mul, BinaryOperation.mul)
    ∷ (Sym.mul_wrapped, BinaryOperation.mul_wrapped)
    ∷ (Sym.nand, BinaryOperation.nand)
    ∷ (Sym.neq, BinaryOperation.neq)
    ∷ (Sym.nor, BinaryOperation.nor)
    ∷ (Sym.or, BinaryOperation.bitwise_or)
    ∷ (Sym.pow, BinaryOperation.pow)
    ∷ (Sym.pow_wrapped, BinaryOperation.pow_wrapped)
    ∷ (Sym.rem, BinaryOperation.rem)
    ∷ (Sym.rem_wrapped, BinaryOperation.rem_wrapped)
    ∷ (Sym.shl, BinaryOperation.shl)
    ∷ (Sym.shl_wrapped, BinaryOperation.shl_wrapped)
    ∷ (Sym.shr, BinaryOperation.shr)
    ∷ (Sym.shr_wrapped, BinaryOperation.shr_wrapped)
    ∷ (Sym.sub, BinaryOperation.sub)
    ∷ (Sym.sub_wrapped, BinaryOperation.sub_wrapped)
    ∷ (Sym.xor, BinaryOperation.xor)
    ∷ []

-- `BinaryOperation::from_symbol`
unfoldable pub binary_from_symbol : ℕ → Option BinaryOperation
binary_from_symbol symbol = get binary_symbols symbol

-- How many arguments a mapping operation has as a method.
unfoldable pub mapping_arity : Option CoreFunction → Option ℕ
mapping_arity (some CoreFunction.mapping_get) = some 1
mapping_arity (some CoreFunction.mapping_get_or_use) = some 2
mapping_arity (some CoreFunction.mapping_set) = some 2
mapping_arity (some CoreFunction.mapping_remove) = some 1
mapping_arity (some CoreFunction.mapping_contains) = some 1
mapping_arity _ = none

unfoldable pub is_signature_verify : Option CoreFunction → Bool
is_signature_verify (some CoreFunction.signature_verify) = true
is_signature_verify _ = false

-- The receiver, the method, the arguments and the span of a call.
pub record MethodCall : Type 0 where
  pub receiver : Expression
  pub method : Identifier
  pub args : List Expression
  pub span : Span

unfoldable pub invalid_call : MethodCall → M Expression
invalid_call m = do
  emit_err (invalid_method_call m.receiver m.method (length m.args) m.span)
  info ← node_at m.span
  pure (Expression.err info)

-- The call as a call of an associated function of a core struct.
unfoldable pub core_call : ℕ → MethodCall → M Expression
core_call module_name m = do
  type_info ← node_at default_span
  info ← node_at m.span
  pure (
      Expression.access (
        AccessExpression.associated_function
          (Ty.identifier (record { name = module_name; info = type_info })) m.method
          (to_expressions (m.receiver ∷ m.args)) info))

unfoldable pub mapping_call_if : Option ℕ → MethodCall → M Expression
mapping_call_if none m = invalid_call m
mapping_call_if (some n) m = if n == length m.args then core_call Sym.mapping m else invalid_call m

unfoldable pub mapping_call : MethodCall → M Expression
mapping_call m = mapping_call_if (mapping_arity (from_symbols Sym.mapping m.method.name)) m

-- A call with no argument, with one, and with two.
unfoldable pub unary_call : Option UnaryOperation → MethodCall → M Expression
unary_call none m = mapping_call m
unary_call (some op) m = node_at m.span >>= λ info. pure (Expression.unary m.receiver op info)

unfoldable pub binary_call : Option BinaryOperation → Expression → MethodCall → M Expression
binary_call none arg m = mapping_call m
binary_call (some op) arg m =
    node_at m.span >>= λ info. pure (Expression.binary m.receiver arg op info)

unfoldable pub verify_call : Bool → MethodCall → M Expression
verify_call true m = core_call Sym.signature m
verify_call false m = mapping_call m

-- `parse_method_call_expression`, behind its arguments.
unfoldable pub method_call : List Expression → MethodCall → M Expression
method_call [] m = unary_call (unary_from_symbol m.method.name) m
method_call (arg ∷ []) m = binary_call (binary_from_symbol m.method.name) arg m
method_call (x ∷ y ∷ []) m =
    verify_call (is_signature_verify (from_symbols Sym.signature m.method.name)) m
method_call (x ∷ y ∷ z ∷ args) m = mapping_call m
