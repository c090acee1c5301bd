-- ===== src/TypeChecker/Calls.antt =====
-- compiler/passes/src/type_checking/check_expressions.rs: calls, casts, struct initialisations,
-- identifiers, tuples and ternary expressions. The visits of the parts are arguments.
use aleotiktacto.Prelude.{
  ℕ, Bool, true, false, not, ◌&&◌, Option, none, some, List, [], ◌∷◌, leb, ◌==◌, if◌then◌else◌,
  codes, length,
}
use aleotiktacto.Ast.{Span, Identifier, Ty, TyList, Expression}
use aleotiktacto.Ast.Functions.{Variant, Input, Member, Struct}
use aleotiktacto.Ast.Types.{length_types}
use aleotiktacto.SymbolTable.{
  FunctionSymbol, VariableSymbol, lookup_variable, lookup_fn_symbol, lookup_struct,
}
use aleotiktacto.TypeChecker.{
  M, pure, ◌>>=◌, ◌>>◌, panic, get_state, emit_err, emit_if, add_call, incorrect_num_args_to_call,
  incorrect_num_struct_members, incorrect_tuple_length, can_only_call_inline_function,
  cannot_invoke_call_to_local_transition_function, cannot_call_external_inline_function,
  invalid_tuple, unit_expression_only_in_return_statements, unknown_sym, return_incorrect_type,
}
use aleotiktacto.TypeChecker.Asserts.{
  assert_and_return_type, assert_castable_type, check_expected_struct,
}
use aleotiktacto.TypeChecker.Operators.{Visit, Operand}
use aleotiktacto.TypeChecker.{unwrap}

abbrev pub is_inline : Variant → Bool
is_inline Variant.inline = true
is_inline _ = false

abbrev pub is_transition : Variant → Bool
is_transition Variant.transition = true
is_transition _ = false

unfoldable pub check_variant : Variant → Variant → Bool → Span → M (Unit {0})
check_variant Variant.transition callee external span =
    emit_if (is_transition callee && not external)
      (cannot_invoke_call_to_local_transition_function span)
check_variant _ callee external span =
    emit_if (not (is_inline callee)) (can_only_call_inline_function span)

unfoldable pub call_function :
    Option FunctionSymbol → Identifier → ℕ → (List Input → M (Unit {0})) → Bool → Span → Visit
call_function none ident num_arguments visit_arguments external span expected =
    emit_err (unknown_sym (codes "function") ident.name ident.info.span) >> pure none
call_function (some func) ident num_arguments visit_arguments external span expected = do
  s ← get_state
  variant ← unwrap s.variant
  check_variant variant func.variant external span
  emit_if (is_inline func.variant && external) (cannot_call_external_inline_function span)
  ret ← assert_and_return_type func.output_type expected span
  emit_if (not (length func.input == num_arguments))
      (incorrect_num_args_to_call (length func.input) num_arguments span)
  visit_arguments func.input
  caller_name ← unwrap s.function
  add_call caller_name ident.name
  pure (some ret)

unfoldable pub visit_call : Expression → ℕ → (List Input → M (Unit {0})) → Bool → Span → Visit
visit_call (Expression.identifier ident) num_arguments visit_arguments external span expected = do
  s ← get_state
  call_function (lookup_fn_symbol s.symbol_table ident.name) ident num_arguments visit_arguments
      external span expected
visit_call _ num_arguments visit_arguments external span expected = panic

unfoldable pub visit_cast : Operand → Ty → Span → Visit
visit_cast inner type_ span expected = do
  assert_castable_type (some type_) span
  expression_type ← inner.visit none
  assert_castable_type expression_type inner.span
  t ← assert_and_return_type type_ expected span
  pure (some t)

unfoldable pub for_each : {A : Type 0} → List A → (A → M (Unit {0})) → M (Unit {0})
for_each [] body = pure tt
for_each (a ∷ rest) body = body a >> for_each rest body

unfoldable pub finish_struct_init :
    Option Struct → Identifier → ℕ → (Identifier → Member → M (Unit {0})) → Span → Visit
finish_struct_init none name num_members visit_member span expected =
    emit_err (unknown_sym (codes "struct") name.name name.info.span) >> pure none
finish_struct_init (some struct) name num_members visit_member span expected = do
  ret ← check_expected_struct struct.identifier expected name.info.span
  emit_if (not (length struct.members == num_members))
      (incorrect_num_struct_members (length struct.members) num_members span)
  for_each struct.members (visit_member struct.identifier)
  pure (some ret)

unfoldable pub visit_struct_init :
    Identifier → ℕ → (Identifier → Member → M (Unit {0})) → Span → Visit
visit_struct_init name num_members visit_member span expected = do
  s ← get_state
  finish_struct_init (lookup_struct s.symbol_table name.name) name num_members visit_member span
      expected

unfoldable pub finish_identifier : Option VariableSymbol → Identifier → Visit
finish_identifier none input expected =
    emit_err (unknown_sym (codes "variable") input.name input.info.span) >> pure none
finish_identifier (some var) input expected = do
  t ← assert_and_return_type var.type_ expected input.info.span
  pure (some t)

unfoldable pub visit_identifier : Identifier → Visit
visit_identifier input expected = do
  s ← get_state
  finish_identifier (lookup_variable s.symbol_table input.name) input expected

abbrev pub is_tuple : Expression → Bool
is_tuple (Expression.tuple es info) = true
is_tuple _ = false

unfoldable pub visit_tuple : ℕ → (TyList → M (Unit {0})) → Span → Visit
visit_tuple num_elements visit_elements span (some (Ty.tuple expected_types)) =
    if leb num_elements 1 then panic else (do
      emit_if (not (length_types expected_types == num_elements))
          (incorrect_tuple_length (length_types expected_types) num_elements span)
      visit_elements expected_types
      pure (some (Ty.tuple expected_types)))
visit_tuple num_elements visit_elements span _ =
    if leb num_elements 1 then panic else (emit_err (invalid_tuple span) >> pure none)

unfoldable pub visit_ternary : Visit → Visit → Visit → Visit
visit_ternary condition if_true if_false expected = do
  c ← condition (some Ty.boolean)
  t1 ← if_true expected
  t2 ← if_false expected
  pure (return_incorrect_type t1 t2 expected)

unfoldable pub visit_unit : Span → M (Option Ty)
visit_unit span = do
  s ← get_state
  emit_if (not s.is_return) (unit_expression_only_in_return_statements span)
  pure (some Ty.unit)
