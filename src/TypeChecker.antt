-- ===== src/TypeChecker.antt =====
-- compiler/passes/src/type_checking/checker.rs: the type checker's state, its errors and the monad of
-- its methods. An error keeps the values that it is made from; its text is left out.
pub mod CoreArms
pub mod Asserts
pub mod CoreCalls
pub mod Operators
pub mod Nodes
pub mod Accesses
pub mod Calls
pub mod Expressions
pub mod Triples
pub mod Returns
pub mod Scopes
pub mod Declared
pub mod Validity
pub mod Checks
pub mod Soundness
pub mod Literals
pub mod Tests
use aleotiktacto.Prelude.{
  ℕ, Bool, true, false, Option, none, some, List, [], ◌∷◌, ◌++◌, if◌then◌else◌,
}
use aleotiktacto.IndexSet.{put}
use aleotiktacto.Graph.{DiGraph, add_edge}
use aleotiktacto.Ast.{
  Span, Identifier, IntegerType, Ty, BinaryOperation, Expression, AccessExpression,
}
use aleotiktacto.Ast.Functions.{Variant, Struct}
use aleotiktacto.Ast.Types.{eq_type}
use aleotiktacto.SymbolTable.{SymbolTable}

-- What an error displays.
pub data Shown : Type 0 where
  type : Ty → Shown
  types : List Ty → Shown
  text : List ℕ → Shown
  symbol : ℕ → Shown
  expression : Expression → Shown

-- The errors of `TypeCheckerError` that expressions give.
pub data TypeCheckerError : Type 0 where
  expected_one_type_of : Shown → Ty → Span → TypeCheckerError
  type_should_be : Shown → Shown → Span → TypeCheckerError
  invalid_core_constant invalid_core_function : ℕ → ℕ → Span → TypeCheckerError
  incorrect_num_args_to_call incorrect_num_struct_members incorrect_tuple_length :
      ℕ → ℕ → Span → TypeCheckerError
  tuple_out_of_range array_too_large : ℕ → ℕ → Span → TypeCheckerError
  invalid_operation_inside_finalize invalid_operation_outside_finalize :
      List ℕ → Span → TypeCheckerError
  strings_are_not_supported operation_must_be_in_finalize_block invalid_self_access :
      Span → TypeCheckerError
  invalid_block_access array_empty can_only_call_inline_function : Span → TypeCheckerError
  cannot_invoke_call_to_local_transition_function cannot_call_external_inline_function :
      Span → TypeCheckerError
  nested_tuple_expression invalid_tuple unit_expression_only_in_return_statements :
      Span → TypeCheckerError
  invalid_core_function_call invalid_associated_constant :
      AccessExpression → Span → TypeCheckerError
  invalid_struct_variable : Identifier → Struct → Span → TypeCheckerError
  undefined_type : Shown → Span → TypeCheckerError
  struct_or_record_cannot_contain_record : ℕ → ℕ → Span → TypeCheckerError
  array_element_cannot_be_tuple array_element_cannot_be_record : Span → TypeCheckerError
  could_not_determine_type : Expression → Span → TypeCheckerError
  compare_address : BinaryOperation → Span → TypeCheckerError
  unknown_sym : List ℕ → ℕ → Span → TypeCheckerError
  missing_struct_member : Identifier → Identifier → Span → TypeCheckerError
  invalid_int_value : List ℕ → IntegerType → Span → TypeCheckerError

-- `errors` is what the handler has collected.
pub record TypeChecker : Type 0 where
  pub symbol_table : SymbolTable
  pub type_table : List (ℕ × Ty)
  pub struct_graph : DiGraph
  pub call_graph : DiGraph
  pub errors : List TypeCheckerError
  pub function : Option ℕ
  pub variant : Option Variant
  pub has_return : Bool
  pub has_finalize : Bool
  pub is_finalize : Bool
  pub is_imported : Bool
  pub is_return : Bool

-- A method of the type checker; `none` is a panic.
abbrev pub M : Type 0 → Type 0
M A = TypeChecker → Option (A × TypeChecker)

unfoldable pub pure : {A : Type 0} → A → M A
pure a s = some (a, s)

infixl 5 ◌>>=◌ ◌>>◌
unfoldable pub ◌>>=◌ : {A B : Type 0} → M A → (A → M B) → M B
◌>>=◌ m f s = elim (m s) [ none ↦ none | some (a, s') ↦ f a s' ]

abbrev pub ◌>>◌ : {B : Type 0} → M (Unit {0}) → M B → M B
m >> k = m >>= λ _. k

unfoldable pub panic : {A : Type 0} → M A
panic s = none

-- `unwrap` of an option.
unfoldable pub unwrap : {A : Type 0} → Option A → M A
unwrap none = panic
unwrap (some a) = pure a

unfoldable pub get_state : M TypeChecker
get_state s = some (s, s)

unfoldable pub emit_err : TypeCheckerError → M (Unit {0})
emit_err e s = some (tt, record s { errors = s.errors ++ e ∷ [] })

-- An error under a condition.
unfoldable pub emit_if : Bool → TypeCheckerError → M (Unit {0})
unfolding pure emit_err
emit_if b e = if b then emit_err e else pure tt

-- `TypeTable::insert`
unfoldable pub insert_type : ℕ → Ty → M (Unit {0})
insert_type id type_ s = some (tt, record s { type_table = put id type_ s.type_table })

-- `self.call_graph.add_edge(caller, callee)`
unfoldable pub add_call : ℕ → ℕ → M (Unit {0})
add_call caller callee s = some (tt, record s { call_graph = add_edge s.call_graph caller callee })

unfoldable pub return_incorrect_type : Option Ty → Option Ty → Option Ty → Option Ty
return_incorrect_type (some t1) (some t2) (some expected) =
    if eq_type t1 t2 then some t1 else if eq_type t1 expected then some t2 else some t1
return_incorrect_type (some t1) (some t2) none = some t1
return_incorrect_type _ _ expected = none
