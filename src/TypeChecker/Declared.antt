-- ===== src/TypeChecker/Declared.antt =====
-- The checks of declared types in compiler/passes/src/type_checking/checker.rs.
use aleotiktacto.Prelude.{ℕ, zero, suc, Bool, true, false, not, ◌&&◌, Option, none, some, leb}
use aleotiktacto.Ast.{Span, Identifier, Ty, TyList}
use aleotiktacto.Ast.Functions.{Struct}
use aleotiktacto.SymbolTable.{lookup_struct}
use aleotiktacto.TypeChecker.{
  M, pure, ◌>>=◌, ◌>>◌, get_state, emit_err, emit_if, Shown, strings_are_not_supported,
  undefined_type, array_empty, array_too_large, array_element_cannot_be_tuple,
  array_element_cannot_be_record, struct_or_record_cannot_contain_record,
}

abbrev pub is_record_struct : Option Struct → Bool
is_record_struct none = false
is_record_struct (some struct) = struct.is_record

unfoldable mutual
  pub assert_member_is_not_record : Span → ℕ → Ty → M (Unit {0})
  assert_member_is_not_record span parent (Ty.identifier i) = do
    s ← get_state
    emit_if (is_record_struct (lookup_struct s.symbol_table i.name))
        (struct_or_record_cannot_contain_record parent i.name span)
  assert_member_is_not_record span parent (Ty.tuple ts) =
      assert_members_are_not_records span parent ts
  assert_member_is_not_record span parent _ = pure tt

  pub assert_members_are_not_records : Span → ℕ → TyList → M (Unit {0})
  assert_members_are_not_records span parent TyList.nil = pure tt
  assert_members_are_not_records span parent (TyList.cons t ts) =
      assert_member_is_not_record span parent t >> assert_members_are_not_records span parent ts

-- `Type::Identifier` in the match of `assert_type_is_valid`
unfoldable pub check_defined : Option Struct → Identifier → Span → M Bool
check_defined none i span = do emit_err (undefined_type (Shown.symbol i.name) span); pure false
check_defined (some struct) i span = pure true

-- The element of an array is neither a tuple nor a record.
unfoldable pub check_element : Ty → Span → M (Unit {0})
check_element (Ty.tuple ts) span = emit_err (array_element_cannot_be_tuple span)
check_element (Ty.identifier i) span = do
  s ← get_state
  emit_if (is_record_struct (lookup_struct s.symbol_table i.name))
      (array_element_cannot_be_record span)
check_element t span = pure tt

module _ (max_array_elements : ℕ) where
  unfoldable pub check_length : ℕ → Span → M (Unit {0})
  check_length zero span = emit_err (array_empty span)
  check_length (suc n) span =
      emit_if (not (leb (suc n) max_array_elements))
        (array_too_large (suc n) max_array_elements span)

  unfoldable mutual
    pub assert_type_is_valid : Ty → Span → M Bool
    assert_type_is_valid Ty.string span = emit_err (strings_are_not_supported span) >> pure false
    assert_type_is_valid (Ty.identifier i) span =
        get_state >>= λ s. check_defined (lookup_struct s.symbol_table i.name) i span
    assert_type_is_valid (Ty.tuple ts) span = assert_types_are_valid ts span
    assert_type_is_valid (Ty.mapping k v) span =
        assert_type_is_valid k span >>= λ a. assert_type_is_valid v span >>= λ b. pure (a && b)
    assert_type_is_valid (Ty.array t n) span =
        check_length n span >> (check_element t span >> assert_type_is_valid t span)
    assert_type_is_valid _ span = pure true

    pub assert_types_are_valid : TyList → Span → M Bool
    assert_types_are_valid TyList.nil span = pure true
    assert_types_are_valid (TyList.cons t ts) span =
        assert_type_is_valid t span >>= λ a. assert_types_are_valid ts span >>= λ b. pure (a && b)
