-- ===== src/TypeChecker/Expressions.antt =====
-- compiler/passes/src/type_checking/check_expressions.rs: arrays, and the visit of all expressions.
use aleotiktacto.Prelude.{
  ℕ, suc, Option, none, some, List, [], ◌∷◌, leb, ◌==◌, if◌then◌else◌, length,
}
use aleotiktacto.Ast.{
  Span, Identifier, Ty, TyList, Expression, AccessExpression, Expressions, MaybeExpression, Members,
}
use aleotiktacto.Ast.Functions.{Input, Member}
use aleotiktacto.TypeChecker.{
  M, pure, ◌>>=◌, ◌>>◌, emit_err, emit_if, array_too_large, array_empty, nested_tuple_expression,
  missing_struct_member,
}
use aleotiktacto.TypeChecker.Asserts.{assert_type, assert_expected}
use aleotiktacto.TypeChecker.CoreCalls.{Argument, get_core_function_call, get_core_constant}
use aleotiktacto.TypeChecker.Operators.{Visit, visit_literal, visit_binary, visit_unary}
use aleotiktacto.TypeChecker.Nodes.{
  literal_info, access_info, span_of, count, count_members, input_type, is_present, record_type,
}
use aleotiktacto.TypeChecker.Accesses.{
  visit_array_access, call_core, finish_tuple_access, visit_member_access, finish_constant,
}
use aleotiktacto.TypeChecker.Calls.{
  visit_call, visit_cast, for_each, visit_struct_init, visit_identifier, is_tuple, visit_tuple,
  visit_ternary, visit_unit,
}

-- `Testnet3::MAX_ARRAY_ELEMENTS` of snarkVM is a parameter.
module _ (max_array_elements : ℕ) where
  -- The type of an array of elements of these types; the elements after the first are checked.
  unfoldable pub array_type : List Argument → Span → M (Option Ty)
  array_type [] span = emit_err (array_empty span) >> pure none
  array_type ((first_type, first_span) ∷ rest) span =
      if leb (suc (length rest)) max_array_elements
      then elim first_type [
        | none ↦ pure none
        | some t ↦ (do
          for_each rest (λ a. assert_type (a.0) t (a.1))
          pure (some (Ty.array t (suc (length rest)))))
      ]
      else (do emit_err (array_too_large (suc (length rest)) max_array_elements span); pure none)

  unfoldable pub visit_array : M (List Argument) → Span → Visit
  visit_array visit_elements span expected = do
    element_types ← visit_elements
    return_type ← array_type element_types span
    assert_expected return_type expected span
    pure return_type

  unfoldable mutual
    pub visit_expression : Expression → Visit
    visit_expression (Expression.access a) d = visit_access a d >>= record_type (access_info a).id
    visit_expression (Expression.array es info) d =
        visit_array (visit_all es) info.span d >>= record_type info.id
    visit_expression (Expression.binary l r op info) d =
        visit_binary op (record { visit = visit_expression l; node = l; span = span_of l })
          (record { visit = visit_expression r; node = r; span = span_of r }) info.span d
        >>= record_type info.id
    visit_expression (Expression.call f args external info) d =
        visit_call f (count args) (visit_arguments args) (is_present external) info.span d
        >>= record_type info.id
    visit_expression (Expression.cast e t info) d =
        visit_cast (record { visit = visit_expression e; node = e; span = span_of e }) t info.span d
        >>= record_type info.id
    visit_expression (Expression.struct name ms info) d =
        visit_struct_init name (count_members ms) (visit_member ms info.span) info.span d
        >>= record_type info.id
    visit_expression (Expression.err info) d = pure none
    visit_expression (Expression.identifier i) d = visit_identifier i d >>= record_type i.info.id
    visit_expression (Expression.literal l) d =
        visit_literal l d >>= λ t. record_type (literal_info l).id (some t)
    visit_expression (Expression.ternary c a b info) d =
        visit_ternary (visit_expression c) (visit_expression a) (visit_expression b) d
        >>= record_type info.id
    visit_expression (Expression.tuple es info) d =
        visit_tuple (count es) (visit_components es) info.span d >>= record_type info.id
    visit_expression (Expression.unary e op info) d =
        visit_unary op (record { visit = visit_expression e; node = e; span = span_of e }) info.span
          d
        >>= record_type info.id
    visit_expression (Expression.unit info) d = visit_unit info.span >>= record_type info.id

    pub visit_access : AccessExpression → Visit
    visit_access (AccessExpression.array_access a i info) d =
        visit_array_access (record { visit = visit_expression a; node = a; span = span_of a })
          (record { visit = visit_expression i; node = i; span = span_of i }) info.span d
    visit_access (AccessExpression.associated_function ty name args info) d =
        get_core_function_call ty name >>= λ c.
        call_core (AccessExpression.associated_function ty name args info) c (visit_all args)
          info.span d
    visit_access (AccessExpression.tuple_access e index info) d = visit_expression e none >>= λ t.
        finish_tuple_access (AccessExpression.tuple_access e index info) index t info.span d
    visit_access (AccessExpression.member_access inner name info) d =
        visit_member_access inner (visit_expression inner none) name info.span d
    visit_access (AccessExpression.associated_constant ty name info) d =
        get_core_constant ty name >>= λ c.
        finish_constant (AccessExpression.associated_constant ty name info) c info.span d

    -- The types and spans of expressions of which no type is expected.
    pub visit_all : Expressions → M (List Argument)
    visit_all Expressions.nil = pure []
    visit_all (Expressions.cons e es) =
        visit_expression e none >>= λ t. visit_all es >>= λ ts. pure ((t, span_of e) ∷ ts)

    -- `func.input.iter().zip(input.arguments.iter())`
    pub visit_arguments : Expressions → List Input → M (Unit {0})
    visit_arguments (Expressions.cons e es) (i ∷ rest) =
        visit_expression e (some (input_type i)) >>= λ t. visit_arguments es rest
    visit_arguments _ _ = pure tt

    -- `expected_types.elements().iter().zip(input.elements.iter())`
    pub visit_components : Expressions → TyList → M (Unit {0})
    visit_components (Expressions.cons e es) (TyList.cons t ts) =
        emit_if (is_tuple e) (nested_tuple_expression (span_of e))
        >> (visit_expression e (some t) >>= λ u. visit_components es ts)
    visit_components _ _ = pure tt

    -- A member of a struct, looked up in the initializers.
    pub visit_member : Members → Span → Identifier → Member → M (Unit {0})
    visit_member Members.end span struct m =
        emit_err (missing_struct_member struct m.identifier span)
    visit_member (Members.initializer ident value info ms) span struct m =
        let rest = visit_member ms span struct m in
        if ident.name == m.identifier.name
        then visit_initializer ident value (some m.type_) >>= (λ t. pure tt)
        else rest

    pub visit_initializer : Identifier → MaybeExpression → Visit
    visit_initializer ident MaybeExpression.absent d = visit_identifier ident d
    visit_initializer ident (MaybeExpression.present e) d = visit_expression e d
