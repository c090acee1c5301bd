-- ===== src/TypeChecker/Tests.antt =====
-- compiler/passes/src/type_checking at concrete expressions.
use aleotiktacto.Prelude.{◌≡◌, ◌≤◌, refl, ℕ, some, true, false, List, [], ◌∷◌, Option, codes}
use aleotiktacto.Ast.{
  Ty, Literal, NodeInfo, Expression, BinaryOperation, AccessExpression, Identifier, u8, i8,
  default_span,
}
use aleotiktacto.Ast.Functions.{Variant}
use aleotiktacto.SymbolTable.{default}
use aleotiktacto.Graph.{DiGraph}
use aleotiktacto.CoreFunction.{CoreFunction}
use aleotiktacto.Sym
use aleotiktacto.TypeChecker.{TypeChecker}
use aleotiktacto.TypeChecker.Triples.{num_errors}
use aleotiktacto.TypeChecker.Checks.{AreFlatEqual}
use aleotiktacto.TypeChecker.CoreCalls.{Argument, check_core_function_call}
use aleotiktacto.TypeChecker.Operators.{visit_literal}
use aleotiktacto.TypeChecker.Expressions.{visit_expression}
use aleotiktacto.TypeChecker.Literals.{Converts, visit_literal-Converts}
use aleotiktacto.TypeChecker.Returns.{check_core_function_call_returns}
use aleotiktacto.TypeChecker.Soundness.Expressions.{keeps, visit_expression-AreFlatEqual}

abbrev info : ℕ → NodeInfo
info id = record { span = default_span; id = id }

abbrev no_edges : DiGraph
no_edges = record { nodes = []; edges = [] }

-- In a transition, with no names.
abbrev with_types : List (ℕ × Ty) → TypeChecker
with_types types = record {
  symbol_table = default;
  type_table = types;
  struct_graph = no_edges;
  call_graph = no_edges;
  errors = [];
  function = some 200;
  variant = some Variant.transition;
  has_return = false;
  has_finalize = false;
  is_finalize = false;
  is_imported = false;
  is_return = false;
}

-- `1u8 + 2u8`
abbrev byte : List ℕ → ℕ → Expression
byte digits id = Expression.literal (Literal.integer u8 digits (info id))

abbrev sum : Expression
sum = Expression.binary (byte (codes "1") 1) (byte (codes "2") 2) BinaryOperation.add (info 3)

visit_expression-sum :
    visit_expression 32 sum (some (Ty.integer u8)) (with_types [])
    ≡ some (
      some (Ty.integer u8),
      with_types ((1, Ty.integer u8) ∷ (2, Ty.integer u8) ∷ (3, Ty.integer u8) ∷ []),
    )
unfolding visit_expression visit_literal aleotiktacto.TypeChecker.◌>>=◌
    aleotiktacto.TypeChecker.pure aleotiktacto.TypeChecker.emit_if aleotiktacto.TypeChecker.emit_err
    aleotiktacto.TypeChecker.insert_type aleotiktacto.TypeChecker.get_state
    aleotiktacto.TypeChecker.return_incorrect_type aleotiktacto.TypeChecker.Nodes.record_type
    aleotiktacto.TypeChecker.Asserts.check_type aleotiktacto.TypeChecker.Asserts.check_eq_types
    aleotiktacto.TypeChecker.Asserts.assert_and_return_type
    aleotiktacto.TypeChecker.Asserts.assert_one_of aleotiktacto.TypeChecker.Asserts.assert_bool_type
    aleotiktacto.TypeChecker.Asserts.assert_field_group_scalar_int_type
    aleotiktacto.TypeChecker.Operators.visit_binary
    aleotiktacto.TypeChecker.Operators.visit_equal_operands
    aleotiktacto.TypeChecker.Operators.visit_equality
    aleotiktacto.TypeChecker.Operators.check_parsed
    aleotiktacto.TypeChecker.Operators.parse_integer_literal
    aleotiktacto.TypeChecker.Accesses.visit_member_access
    aleotiktacto.TypeChecker.Accesses.access_self aleotiktacto.Ast.Types.eq_type
    aleotiktacto.Ast.Types.eq_flat aleotiktacto.Values.Convert.parse_integer
    aleotiktacto.Values.Convert.read_number aleotiktacto.Values.Convert.read_digits
    aleotiktacto.Chars.is_ascii_digit aleotiktacto.Values.Convert.remove_underscores
    aleotiktacto.Words.checked aleotiktacto.Words.in_range aleotiktacto.IndexSet.put
visit_expression-sum = refl

-- `(true + true) == true` gives no error: no type is expected of the operands of `==`.
abbrev yes : ℕ → Expression
yes id = Expression.literal (Literal.boolean true (info id))

abbrev sum_of_booleans : Expression
sum_of_booleans =
    Expression.binary (Expression.binary (yes 1) (yes 2) BinaryOperation.add (info 3)) (yes 4)
      BinaryOperation.eq (info 5)

visit_expression-sum_of_booleans :
    visit_expression 32 sum_of_booleans (some Ty.boolean) (with_types [])
    ≡ some (
      some Ty.boolean,
      with_types (
          (1, Ty.boolean)
          ∷ (2, Ty.boolean)
          ∷ (3, Ty.boolean)
          ∷ (4, Ty.boolean)
          ∷ (5, Ty.boolean)
          ∷ []),
    )
unfolding visit_expression visit_literal aleotiktacto.TypeChecker.◌>>=◌
    aleotiktacto.TypeChecker.pure aleotiktacto.TypeChecker.emit_if aleotiktacto.TypeChecker.emit_err
    aleotiktacto.TypeChecker.insert_type aleotiktacto.TypeChecker.get_state
    aleotiktacto.TypeChecker.return_incorrect_type aleotiktacto.TypeChecker.Nodes.record_type
    aleotiktacto.TypeChecker.Asserts.check_type aleotiktacto.TypeChecker.Asserts.check_eq_types
    aleotiktacto.TypeChecker.Asserts.assert_and_return_type
    aleotiktacto.TypeChecker.Asserts.assert_one_of aleotiktacto.TypeChecker.Asserts.assert_bool_type
    aleotiktacto.TypeChecker.Asserts.assert_field_group_scalar_int_type
    aleotiktacto.TypeChecker.Operators.visit_binary
    aleotiktacto.TypeChecker.Operators.visit_equal_operands
    aleotiktacto.TypeChecker.Operators.visit_equality
    aleotiktacto.TypeChecker.Operators.check_parsed
    aleotiktacto.TypeChecker.Operators.parse_integer_literal
    aleotiktacto.TypeChecker.Accesses.visit_member_access
    aleotiktacto.TypeChecker.Accesses.access_self aleotiktacto.Ast.Types.eq_type
    aleotiktacto.Ast.Types.eq_flat aleotiktacto.Values.Convert.parse_integer
    aleotiktacto.Values.Convert.read_number aleotiktacto.Values.Convert.read_digits
    aleotiktacto.Chars.is_ascii_digit aleotiktacto.Values.Convert.remove_underscores
    aleotiktacto.Words.checked aleotiktacto.Words.in_range aleotiktacto.IndexSet.put
visit_expression-sum_of_booleans = refl

-- `self.caller` where a `u8` is expected gives no error.
abbrev caller : Expression
caller = Expression.access (
    AccessExpression.member_access
      (Expression.identifier (record { name = Sym.self_lower; info = info 1 }))
      (record { name = Sym.caller; info = info 2 }) (info 3))

visit_expression-caller :
    visit_expression 32 caller (some (Ty.integer u8)) (with_types [])
    ≡ some (some Ty.address, with_types ((3, Ty.address) ∷ []))
unfolding visit_expression visit_literal aleotiktacto.TypeChecker.◌>>=◌
    aleotiktacto.TypeChecker.pure aleotiktacto.TypeChecker.emit_if aleotiktacto.TypeChecker.emit_err
    aleotiktacto.TypeChecker.insert_type aleotiktacto.TypeChecker.get_state
    aleotiktacto.TypeChecker.return_incorrect_type aleotiktacto.TypeChecker.Nodes.record_type
    aleotiktacto.TypeChecker.Asserts.check_type aleotiktacto.TypeChecker.Asserts.check_eq_types
    aleotiktacto.TypeChecker.Asserts.assert_and_return_type
    aleotiktacto.TypeChecker.Asserts.assert_one_of aleotiktacto.TypeChecker.Asserts.assert_bool_type
    aleotiktacto.TypeChecker.Asserts.assert_field_group_scalar_int_type
    aleotiktacto.TypeChecker.Operators.visit_binary
    aleotiktacto.TypeChecker.Operators.visit_equal_operands
    aleotiktacto.TypeChecker.Operators.visit_equality
    aleotiktacto.TypeChecker.Operators.check_parsed
    aleotiktacto.TypeChecker.Operators.parse_integer_literal
    aleotiktacto.TypeChecker.Accesses.visit_member_access
    aleotiktacto.TypeChecker.Accesses.access_self aleotiktacto.Ast.Types.eq_type
    aleotiktacto.Ast.Types.eq_flat aleotiktacto.Values.Convert.parse_integer
    aleotiktacto.Values.Convert.read_number aleotiktacto.Values.Convert.read_digits
    aleotiktacto.Chars.is_ascii_digit aleotiktacto.Values.Convert.remove_underscores
    aleotiktacto.Words.checked aleotiktacto.Words.in_range aleotiktacto.IndexSet.put
visit_expression-caller = refl

visit_expression-AreFlatEqual_example :
    (num_errors (with_types [])
      ≤ num_errors (with_types ((1, Ty.integer u8) ∷ (2, Ty.integer u8) ∷ (3, Ty.integer u8) ∷ [])))
    × ((with_types ((1, Ty.integer u8) ∷ (2, Ty.integer u8) ∷ (3, Ty.integer u8) ∷ [])).errors
          ≡ (with_types []).errors
        → AreFlatEqual (Ty.integer u8) (Ty.integer u8))
unfolding keeps
visit_expression-AreFlatEqual_example =
    visit_expression-AreFlatEqual 32 sum (Ty.integer u8) (Ty.integer u8) (with_types [])
      (with_types ((1, Ty.integer u8) ∷ (2, Ty.integer u8) ∷ (3, Ty.integer u8) ∷ [])) refl
      visit_expression-sum

visit_literal-min :
    visit_literal
      (Literal.integer i8 (codes "-128") (info 1))
      (some (Ty.integer i8))
      (with_types [])
    ≡ some (Ty.integer i8, with_types [])
unfolding visit_expression visit_literal aleotiktacto.TypeChecker.◌>>=◌
    aleotiktacto.TypeChecker.pure aleotiktacto.TypeChecker.emit_if aleotiktacto.TypeChecker.emit_err
    aleotiktacto.TypeChecker.insert_type aleotiktacto.TypeChecker.get_state
    aleotiktacto.TypeChecker.return_incorrect_type aleotiktacto.TypeChecker.Nodes.record_type
    aleotiktacto.TypeChecker.Asserts.check_type aleotiktacto.TypeChecker.Asserts.check_eq_types
    aleotiktacto.TypeChecker.Asserts.assert_and_return_type
    aleotiktacto.TypeChecker.Asserts.assert_one_of aleotiktacto.TypeChecker.Asserts.assert_bool_type
    aleotiktacto.TypeChecker.Asserts.assert_field_group_scalar_int_type
    aleotiktacto.TypeChecker.Operators.visit_binary
    aleotiktacto.TypeChecker.Operators.visit_equal_operands
    aleotiktacto.TypeChecker.Operators.visit_equality
    aleotiktacto.TypeChecker.Operators.check_parsed
    aleotiktacto.TypeChecker.Operators.parse_integer_literal
    aleotiktacto.TypeChecker.Accesses.visit_member_access
    aleotiktacto.TypeChecker.Accesses.access_self aleotiktacto.Ast.Types.eq_type
    aleotiktacto.Ast.Types.eq_flat aleotiktacto.Values.Convert.parse_integer
    aleotiktacto.Values.Convert.read_number aleotiktacto.Values.Convert.read_digits
    aleotiktacto.Chars.is_ascii_digit aleotiktacto.Values.Convert.remove_underscores
    aleotiktacto.Words.checked aleotiktacto.Words.in_range aleotiktacto.IndexSet.put
visit_literal-min = refl

visit_literal-Converts_example :
    Converts (Literal.integer i8 (codes "-128") (info 1)) (Ty.integer i8)
visit_literal-Converts_example =
    visit_literal-Converts (Literal.integer i8 (codes "-128") (info 1)) (some (Ty.integer i8))
      (with_types []) (with_types []) (Ty.integer i8) visit_literal-min refl

abbrev argument_types : List Argument
argument_types =
    (some (Ty.mapping Ty.address (Ty.integer u8)), default_span)
    ∷ (some Ty.field, default_span)
    ∷ []

check_core_function_call_returns_example :
    (r : Option Ty × TypeChecker) × (check_core_function_call CoreFunction.mapping_get
        argument_types default_span
        (with_types [])
      ≡ some r)
check_core_function_call_returns_example =
    check_core_function_call_returns CoreFunction.mapping_get argument_types default_span
      (with_types [])
