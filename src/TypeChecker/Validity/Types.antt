-- ===== src/TypeChecker/Validity/Types.antt =====
-- `assert_type_is_valid` of compiler/passes/src/type_checking/checker.rs gives no error on exactly the
-- valid types.
use aleotiktacto.Prelude.{
  ℕ, zero, suc, ◌<◌, ◌≤◌, Bool, true, false, ◌&&◌, Option, none, some, ◌≡◌, refl, sym, ap, ◌∙◌,
  arith,
}
use aleotiktacto.Ast.{Span, Identifier, Ty, TyList}
use aleotiktacto.Ast.Functions.{Struct}
use aleotiktacto.SymbolTable.{SymbolTable, lookup_struct}
use aleotiktacto.TypeChecker.{TypeChecker, M, pure, ◌>>=◌, ◌>>◌, emit_err}
use aleotiktacto.TypeChecker.Declared.{
  is_record_struct, check_defined, check_element, check_length, assert_type_is_valid,
  assert_types_are_valid,
}
use aleotiktacto.TypeChecker.Validity.{
  Run, Decides, IsTrue, Any, Decides-pure, Decides-emit_err, Decides-emit_if, Decides-iff,
  Decides-get_state, Decides-bind, Decides-weaken, Decides-absurd,
}

-- Neither a tuple nor a record.
abbrev pub IsElement : SymbolTable → Ty → Type 0
IsElement symbols (Ty.tuple ts) = ⊥
IsElement symbols (Ty.identifier i) = is_record_struct (lookup_struct symbols i.name) ≡ false
IsElement symbols t = Unit {0}

-- Without strings, of defined structs, with arrays of at least one and at most `n` elements that are
-- neither tuples nor records.
unfoldable mutual
  pub IsValid : SymbolTable → ℕ → Ty → Type 0
  IsValid symbols n Ty.string = ⊥
  IsValid symbols n (Ty.identifier i) =
      (struct : Struct) × (lookup_struct symbols i.name ≡ some struct)
  IsValid symbols n (Ty.tuple ts) = AreValid symbols n ts
  IsValid symbols n (Ty.mapping k v) = IsValid symbols n k × IsValid symbols n v
  IsValid symbols n (Ty.array t m) =
      ((0 < m) × (m ≤ n)) × (IsElement symbols t × IsValid symbols n t)
  IsValid symbols n _ = Unit {0}

  pub AreValid : SymbolTable → ℕ → TyList → Type 0
  AreValid symbols n TyList.nil = Unit {0}
  AreValid symbols n (TyList.cons t ts) = IsValid symbols n t × AreValid symbols n ts

and_true : (a b c : Bool) → a ≡ true → b ≡ true → c ≡ (a && b) → c ≡ true
and_true true b c h k e = e ∙ k
and_true false b c h k e = absurd cc

module _ {symbols : SymbolTable} where
  -- Two tests of which both count.
  Decides-both :
      {P Q : Type 0} (m k : M Bool)
      → Decides symbols m IsTrue P
      → Decides symbols k IsTrue Q
      → Decides symbols (m >>= λ a. k >>= λ b. pure (a && b)) IsTrue (P × Q)
  Decides-both m k hm hk =
      Decides-weaken _
        (Decides-bind (λ a c. (b : Bool) × (IsTrue b × (c ≡ (a && b)))) m _ hm
          (λ a.
            Decides-iff _
              (Decides-bind (λ b c. c ≡ (a && b)) k _ hk (λ b. Decides-pure (a && b) refl))
              (λ (q, u). q) (λ q. (q, tt))))
        (λ c (a, (g, (b, (g', e)))). and_true a b c g g' e)

  Decides-then :
      {P Q : Type 0} {good : Bool → Type 0} (m : M (Unit {0})) (k : M Bool)
      → Decides symbols m Any P
      → Decides symbols k good Q
      → Decides symbols (m >> k) good (P × Q)
  Decides-then {good = good} m k hm hk =
      Decides-weaken _ (Decides-bind (λ a b. good b) m _ hm (λ a. hk)) (λ b (a, (u, g)). g)

  emit-false : (e : _) → Decides symbols (emit_err e >> pure false) IsTrue ⊥
  emit-false e =
      Decides-absurd _
        (Decides-then {good = λ b. Unit {0}} _ _ (Decides-emit_err e) (Decides-pure false tt))
        (λ (a, b). a)

  check_defined-Decides :
      (o : Option Struct) (i : Identifier) (span : Span)
      → Decides symbols (check_defined o i span) IsTrue ((struct : Struct) × (o ≡ some struct))
  unfolding check_defined
  check_defined-Decides none i span =
      Decides-iff _ (emit-false _) (λ a. absurd a) (λ (s, e). absurd cc)
  check_defined-Decides (some struct) i span =
      Decides-iff _ (Decides-pure true refl) (λ u. (struct, refl)) (λ q. tt)

  check_element-Decides :
      (t : Ty) (span : Span) → Decides symbols (check_element t span) Any (IsElement symbols t)
  unfolding check_element
  check_element-Decides (Ty.tuple ts) span = Decides-emit_err _
  check_element-Decides (Ty.identifier i) span = Decides-get_state _ (λ s e.
      Decides-iff _ (Decides-emit_if _ _)
        (λ h. ap (λ x. is_record_struct (lookup_struct x i.name)) (sym e) ∙ h)
        (λ h. ap (λ x. is_record_struct (lookup_struct x i.name)) e ∙ h))
  check_element-Decides _ span = Decides-pure tt tt

  check_length-Decides :
      (n m : ℕ) (span : Span) → Decides symbols (check_length n m span) Any ((0 < m) × (m ≤ n))
  unfolding check_length
  check_length-Decides n zero span =
      Decides-iff _ (Decides-emit_err _) (λ a. absurd a) (λ h. absurd (omega arith))
  check_length-Decides n (suc m) span =
      Decides-iff _ (Decides-emit_if _ _) (λ h. (omega arith, ground arith)) (λ h. ground arith)

  mutual
    unfolding IsValid AreValid assert_type_is_valid assert_types_are_valid

    assert_type_is_valid-Decides :
        (n : ℕ) (t : Ty) (span : Span)
        → Decides symbols (assert_type_is_valid n t span) IsTrue (IsValid symbols n t)
    assert_type_is_valid-Decides n Ty.string span = emit-false _
    assert_type_is_valid-Decides n (Ty.identifier i) span = Decides-get_state _ (λ s e.
        Decides-iff _ (check_defined-Decides _ i span)
          (λ (x, h). (x, ap (λ t. lookup_struct t i.name) (sym e) ∙ h))
          (λ (x, h). (x, ap (λ t. lookup_struct t i.name) e ∙ h)))
    assert_type_is_valid-Decides n (Ty.tuple ts) span = assert_types_are_valid-Decides n ts span
    assert_type_is_valid-Decides n (Ty.mapping k v) span =
        Decides-both _ _ (assert_type_is_valid-Decides n k span)
          (assert_type_is_valid-Decides n v span)
    assert_type_is_valid-Decides n (Ty.array t m) span =
        Decides-then _ _ (check_length-Decides n m span)
          (Decides-then _ _ (check_element-Decides t span) (assert_type_is_valid-Decides n t span))
    assert_type_is_valid-Decides n _ span = Decides-pure true refl

    assert_types_are_valid-Decides :
        (n : ℕ) (ts : TyList) (span : Span)
        → Decides symbols (assert_types_are_valid n ts span) IsTrue (AreValid symbols n ts)
    assert_types_are_valid-Decides n TyList.nil span = Decides-pure true refl
    assert_types_are_valid-Decides n (TyList.cons t ts) span =
        Decides-both _ _ (assert_type_is_valid-Decides n t span)
          (assert_types_are_valid-Decides n ts span)

-- The check of a declared type returns without a panic and changes nothing but the errors, to which it
-- adds none exactly where the type is valid; and then it returns true.
pub assert_type_is_valid_lem :
    (n : ℕ) (t : Ty) (span : Span) (s : TypeChecker)
    → Run (assert_type_is_valid n t span) IsTrue (IsValid s.symbol_table n t) s
assert_type_is_valid_lem n t span s = (assert_type_is_valid-Decides n t span).run s refl
