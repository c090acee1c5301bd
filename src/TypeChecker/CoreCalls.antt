-- ===== src/TypeChecker/CoreCalls.antt =====
-- `check_core_function_call` of compiler/passes/src/type_checking/checker.rs, with the lookups of core
-- functions and constants.
use aleotiktacto.Prelude.{
  ℕ, Bool, true, false, not, ◌&&◌, Option, none, some, List, ◌==◌, if◌then◌else◌, codes, length,
  get_elem?,
}
use aleotiktacto.Sym
use aleotiktacto.Ast.{Span, Identifier, Ty, u64, u128, i64, i128}
use aleotiktacto.CoreFunction.{CoreFunction, num_args}
use aleotiktacto.CoreFunction.Symbols.{from_symbols}
use aleotiktacto.TypeChecker.{
  M, pure, ◌>>=◌, ◌>>◌, get_state, emit_err, emit_if, Shown, incorrect_num_args_to_call,
  invalid_operation_outside_finalize, invalid_core_function, invalid_core_constant,
}
use aleotiktacto.TypeChecker.CoreArms.{
  InputCheck, pedersen64, pedersen128, CoreArm, commit, hash, rand, mapping_get, mapping_get_or_use,
  mapping_set, mapping_remove, mapping_contains, coordinate, signature_verify, core_arm,
}
use aleotiktacto.TypeChecker.{unwrap}
use aleotiktacto.TypeChecker.Asserts.{
  check_type, assert_type, assert_address_type, assert_group_type, assert_scalar_type,
  assert_signature_type, assert_mapping_type,
}

-- The type of an argument, where it is known, and its span.
abbrev pub Argument : Type 0
Argument = Option Ty × Span

-- `arguments[i]`
unfoldable pub argument : List Argument → ℕ → M Argument
argument arguments i = unwrap (get_elem? arguments i)

abbrev pub is_input : InputCheck → Ty → Bool
is_input c (Ty.mapping k v) = false
is_input c (Ty.tuple ts) = false
is_input c Ty.err = false
is_input c Ty.unit = false
is_input pedersen64 (Ty.integer u64) = false
is_input pedersen64 (Ty.integer i64) = false
is_input pedersen64 (Ty.integer u128) = false
is_input pedersen64 (Ty.integer i128) = false
is_input pedersen128 (Ty.integer u128) = false
is_input pedersen128 (Ty.integer i128) = false
is_input c t = true

unfoldable pub check_input : InputCheck → Argument → M (Unit {0})
check_input c a =
    check_type (is_input c)
      (Shown.text (codes "address, bool, field, group, struct, integer, scalar, struct")) (a.0)
      (a.1)

unfoldable pub check_outside : List ℕ → Span → M (Unit {0})
check_outside name span = do
  s ← get_state
  emit_if (not s.is_finalize) (invalid_operation_outside_finalize name span)

-- `if let Some(mapping_type) = self.assert_mapping_type(&arguments[0].0, arguments[0].1)`
unfoldable pub with_mapping : Option Ty → (Ty → Ty → M (Option Ty)) → M (Option Ty)
with_mapping (some (Ty.mapping key value)) then_ = then_ key value
with_mapping _ then_ = pure none

unfoldable pub check_mapping :
    List ℕ → Span → List Argument → (Ty → Ty → M (Option Ty)) → M (Option Ty)
check_mapping name span arguments then_ = do
  check_outside name span
  a ← argument arguments 0
  assert_mapping_type (a.0) (a.1)
  with_mapping (a.0) then_

-- The check of the argument at an index against a type.
unfoldable pub assert_argument : List Argument → ℕ → Ty → M (Unit {0})
assert_argument arguments i expected = do a ← argument arguments i; assert_type (a.0) expected (a.1)

unfoldable pub run_core_arm : CoreArm → List Argument → Span → M (Option Ty)
run_core_arm (commit c type_) arguments span = do
  a ← argument arguments 0
  check_input c a
  b ← argument arguments 1
  assert_scalar_type (b.0) (b.1)
  pure (some type_)
run_core_arm (hash c type_) arguments span = do
  a ← argument arguments 0
  check_input c a
  pure (some type_)
run_core_arm (rand type_) arguments span = pure (some type_)
run_core_arm mapping_get arguments span =
    check_mapping (codes "Mapping::get") span arguments
      (λ key value. assert_argument arguments 1 key >> pure (some value))
run_core_arm mapping_get_or_use arguments span =
    check_mapping (codes "Mapping::get_or") span arguments (λ key value.
      assert_argument arguments 1 key >> (assert_argument arguments 2 value >> pure (some value)))
run_core_arm mapping_set arguments span =
    check_mapping (codes "Mapping::set") span arguments (λ key value.
      assert_argument arguments 1 key >> (assert_argument arguments 2 value >> pure (some Ty.unit)))
run_core_arm mapping_remove arguments span =
    check_mapping (codes "Mapping::remove") span arguments
      (λ key value. assert_argument arguments 1 key >> pure (some Ty.unit))
run_core_arm mapping_contains arguments span =
    check_mapping (codes "Mapping::contains") span arguments
      (λ key value. assert_argument arguments 1 key >> pure (some Ty.boolean))
run_core_arm coordinate arguments span = do
  a ← argument arguments 0
  assert_group_type (a.0) (a.1)
  pure (some Ty.field)
run_core_arm signature_verify arguments span = do
  a ← argument arguments 0
  assert_signature_type (a.0) (a.1)
  b ← argument arguments 1
  assert_address_type (b.0) (b.1)
  pure (some Ty.boolean)

unfoldable pub check_core_function_call : CoreFunction → List Argument → Span → M (Option Ty)
check_core_function_call core_function arguments function_span =
    if length arguments == num_args core_function
    then run_core_arm (core_arm core_function) arguments function_span
    else (do
      emit_err
          (incorrect_num_args_to_call (num_args core_function) (length arguments) function_span)
      pure none)

unfoldable pub get_core_function_call : Ty → Identifier → M (Option CoreFunction)
get_core_function_call (Ty.identifier ident) function =
    elim (from_symbols ident.name function.name) [
      | none ↦
          emit_err (invalid_core_function ident.name function.name ident.info.span) >> pure none
      | some c ↦ pure (some c)
    ]
get_core_function_call _ function = pure none

-- `CoreConstant::from_symbols` with `CoreConstant::to_type`.
unfoldable pub core_constant_type : ℕ → ℕ → Option Ty
core_constant_type type_ constant =
    if type_ == Sym.group && constant == Sym.gen then some Ty.group else none

unfoldable pub get_core_constant : Ty → Identifier → M (Option Ty)
get_core_constant (Ty.identifier ident) constant =
    elim (core_constant_type ident.name constant.name) [
      | none ↦
          emit_err (invalid_core_constant ident.name constant.name ident.info.span) >> pure none
      | some t ↦ pure (some t)
    ]
get_core_constant _ constant = pure none
