-- ===== src/TypeChecker/Accesses.antt =====
-- `visit_access` of compiler/passes/src/type_checking/check_expressions.rs, after the visits of the parts.
use aleotiktacto.Prelude.{
  ℕ, zero, suc, ◌-◌, not, ◌&&◌, Option, none, some, List, [], ◌∷◌, ltb, ◌==◌, if◌then◌else◌, codes,
}
use aleotiktacto.Sym
use aleotiktacto.Ast.{Span, Identifier, Ty, TyList, Expression, AccessExpression, u32}
use aleotiktacto.Ast.Functions.{Member, Struct}
use aleotiktacto.Ast.Types.{length_types}
use aleotiktacto.SymbolTable.{lookup_struct}
use aleotiktacto.CoreFunction.{CoreFunction, is_finalize_command}
use aleotiktacto.TypeChecker.{
  M, pure, ◌>>=◌, ◌>>◌, panic, get_state, emit_err, emit_if, Shown, type_should_be,
  tuple_out_of_range, invalid_operation_inside_finalize, invalid_operation_outside_finalize,
  operation_must_be_in_finalize_block, invalid_self_access, invalid_block_access,
  invalid_core_function_call, invalid_associated_constant, invalid_struct_variable, undefined_type,
  could_not_determine_type,
}
use aleotiktacto.TypeChecker.Asserts.{
  assert_and_return_type, assert_expected, assert_int_type, assert_array_type,
}
use aleotiktacto.TypeChecker.CoreCalls.{Argument, check_core_function_call}
use aleotiktacto.TypeChecker.Operators.{Visit, Operand}
use aleotiktacto.TypeChecker.Nodes.{span_of}

abbrev pub element_type : Option Ty → Option Ty
element_type (some (Ty.array t n)) = some t
element_type _ = none

unfoldable pub visit_array_access : Operand → Operand → Span → Visit
visit_array_access array index span expected = do
  array_type ← array.visit none
  assert_array_type array_type array.span
  index_type ← index.visit none
  assert_int_type index_type index.span
  assert_expected (element_type array_type) expected span
  pure (element_type array_type)

unfoldable pub call_core : AccessExpression → Option CoreFunction → M (List Argument) → Span → Visit
call_core access none visit_arguments span expected =
    emit_err (invalid_core_function_call access span) >> pure none
call_core access (some c) visit_arguments span expected = do
  s ← get_state
  emit_if (not s.is_finalize && is_finalize_command c) (operation_must_be_in_finalize_block span)
  arguments ← visit_arguments
  return_type ← check_core_function_call c arguments span
  assert_expected return_type expected span
  pure return_type

unfoldable pub type_at : TyList → ℕ → Option Ty
type_at TyList.nil i = none
type_at (TyList.cons t ts) zero = some t
type_at (TyList.cons t ts) (suc i) = type_at ts i

unfoldable pub invalid_tuple_access : AccessExpression → Span → M (Option Ty)
invalid_tuple_access access span = emit_err (invalid_core_function_call access span) >> pure none

unfoldable pub tuple_component : Option Ty → Span → Visit
tuple_component none span expected = panic
tuple_component (some actual) span expected = do
  t ← assert_and_return_type actual expected span
  pure (some t)

-- The length of an empty tuple less one overflows, or the lookup fails.
unfoldable pub finish_tuple_access : AccessExpression → ℕ → Option Ty → Span → Visit
finish_tuple_access access index none span expected = pure none
finish_tuple_access access index (some (Ty.tuple ts)) span expected =
    if length_types ts == 0
    then panic
    else if ltb (length_types ts - 1) index
    then emit_err (tuple_out_of_range index (length_types ts) span)
      >> invalid_tuple_access access span
    else tuple_component (type_at ts index) span expected
finish_tuple_access access index (some t) span expected = do
  emit_err (type_should_be (Shown.type t) (Shown.text (codes "tuple")) span)
  invalid_tuple_access access span

unfoldable pub access_self : Identifier → M (Option Ty)
access_self name = do
  s ← get_state
  (if name.name == Sym.caller
      then (do
        emit_if s.is_finalize
            (invalid_operation_inside_finalize (codes "self.caller") name.info.span)
        pure (some Ty.address))
      else if name.name == Sym.signer
      then (do
        emit_if s.is_finalize
            (invalid_operation_inside_finalize (codes "self.signer") name.info.span)
        pure (some Ty.address))
      else (do emit_err (invalid_self_access name.info.span); pure none))

unfoldable pub access_block : Identifier → M (Option Ty)
access_block name = do
  s ← get_state
  (if name.name == Sym.height
      then (do
        emit_if (not s.is_finalize)
            (invalid_operation_outside_finalize (codes "block.height") name.info.span)
        pure (some (Ty.integer u32)))
      else (do emit_err (invalid_block_access name.info.span); pure none))

abbrev pub find_member : List Member → ℕ → Option Member
find_member [] name = none
find_member (m ∷ ms) name = if m.identifier.name == name then some m else find_member ms name

unfoldable pub access_member : Struct → Option Member → Identifier → Span → Visit
access_member struct none name span expected =
    emit_err (invalid_struct_variable name struct name.info.span) >> pure none
access_member struct (some m) name span expected = do
  t ← assert_and_return_type m.type_ expected span
  pure (some t)

unfoldable pub access_struct : Option Struct → Expression → Identifier → Span → Visit
access_struct none inner name span expected =
    emit_err (undefined_type (Shown.expression inner) (span_of inner)) >> pure none
access_struct (some struct) inner name span expected =
    access_member struct (find_member struct.members name.name) name span expected

unfoldable pub finish_member_access : Option Ty → Expression → Identifier → Span → Visit
finish_member_access none inner name span expected =
    emit_err (could_not_determine_type inner (span_of inner)) >> pure none
finish_member_access (some (Ty.identifier i)) inner name span expected = do
  s ← get_state
  access_struct (lookup_struct s.symbol_table i.name) inner name span expected
finish_member_access (some t) inner name span expected = do
  emit_err (type_should_be (Shown.type t) (Shown.text (codes "struct")) (span_of inner))
  pure none

-- The match on the expression before the dot, given what a visit of it does.
unfoldable pub visit_member_access : Expression → M (Option Ty) → Identifier → Span → Visit
visit_member_access (Expression.identifier i) visit_inner name span expected =
    if i.name == Sym.self_lower
    then access_self name
    else if i.name == Sym.block
    then access_block name
    else (do t ← visit_inner; finish_member_access t (Expression.identifier i) name span expected)
visit_member_access inner visit_inner name span expected = do
  t ← visit_inner
  finish_member_access t inner name span expected

unfoldable pub finish_constant : AccessExpression → Option Ty → Span → Visit
finish_constant access none span expected =
    emit_err (invalid_associated_constant access span) >> pure none
finish_constant access (some t) span expected = do
  assert_expected (some t) expected span
  pure (some t)
