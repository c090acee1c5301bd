-- ===== src/TypeChecker/Soundness/Calls.antt =====
-- Calls, casts, struct initialisations, identifiers, tuples and ternary expressions of
-- compiler/passes/src/type_checking/check_expressions.rs return the type expected of them.
use aleotiktacto.Prelude.{
  ℕ, Bool, true, false, ◌&&◌, Option, none, some, List, [], ◌∷◌, refl, inl, leb, if◌then◌else◌,
}
use aleotiktacto.Ast.Functions.{Variant, Input, Member, Struct}
use aleotiktacto.Ast.{Span, Identifier, Ty, TyList, Expression}
use aleotiktacto.SymbolTable.{FunctionSymbol, VariableSymbol}
use aleotiktacto.TypeChecker.{M, pure, ◌>>=◌, ◌>>◌, panic, emit_err, invalid_tuple}
use aleotiktacto.TypeChecker.Triples.{
  Triple, Triple-pure, Triple-bind, Triple-emit_err, Triple-panic, Triple-get_state,
}
use aleotiktacto.TypeChecker.Checks.{
  Accepts, Grows, Triple-then, Grows-assert_one_of, assert_and_return_type-Accepts,
  check_expected_struct-Accepts, return_incorrect_type-Accepts, Accepts-none, Grows-emit_if,
  Grows-add_call,
}
use aleotiktacto.TypeChecker.Soundness.{IsSound, &&-left, &&-right}
use aleotiktacto.TypeChecker.{unwrap}
use aleotiktacto.TypeChecker.Operators.{Visit, Operand}
use aleotiktacto.TypeChecker.Asserts.{assert_castable_type, assert_and_return_type}
use aleotiktacto.TypeChecker.Calls.{
  check_variant, call_function, visit_call, visit_cast, for_each, finish_struct_init,
  visit_struct_init, finish_identifier, visit_identifier, visit_tuple, visit_ternary, visit_unit,
}

-- An error and no type.
pub fails : (d : Option Ty) (e : _) → Triple (emit_err e >> pure none) (λ o. Accepts d o)
fails d e =
    Triple-then _ _ (Triple-emit_err {Q = λ u. Unit {0}} e) (λ u. Triple-pure none (Accepts-none d))

-- A type compared with the one expected.
pub compared :
    (t : Ty) (d : Option Ty) (span : Span)
    → Triple (assert_and_return_type t d span >>= λ u. pure (some u)) (λ o. Accepts d o)
compared t d span =
    Triple-bind _ _ (assert_and_return_type-Accepts t d span) (λ u. Triple-pure (some u) (λ h. h))

pub unwrap-Grows : {A : Type 0} (o : Option A) → Grows (unwrap o)
unfolding unwrap
unwrap-Grows none = Triple-panic
unwrap-Grows (some a) = Triple-pure a tt

check_variant-Grows :
    (v callee : Variant) (external : Bool) (span : Span)
    → Grows (check_variant v callee external span)
unfolding check_variant
check_variant-Grows Variant.transition callee external span = Grows-emit_if _ _
check_variant-Grows _ callee external span = Grows-emit_if _ _

call_function-Accepts :
    (f : Option FunctionSymbol) (ident : Identifier) (n : ℕ)
    (visit_arguments : List Input → M (Unit {0})) (external : Bool) (span : Span) (d : Option Ty)
    → ((is : List Input) → Grows (visit_arguments is))
    → Triple (call_function f ident n visit_arguments external span d) (λ o. Accepts d o)
unfolding call_function
call_function-Accepts none ident n visit_arguments external span d h = fails d _
call_function-Accepts (some func) ident n visit_arguments external span d h =
    Triple-then _ _ Triple-get_state (λ s. Triple-then _ _ (unwrap-Grows s.variant) (λ v.
      Triple-then _ _ (check_variant-Grows v func.variant external span) (λ u.
        Triple-then _ _ (Grows-emit_if _ _) (λ u.
          Triple-bind _ _ (assert_and_return_type-Accepts func.output_type d span) (λ ret.
            Triple-then _ _ (Grows-emit_if _ _) (λ u. Triple-then _ _ (h func.input) (λ u.
              Triple-then _ _ (unwrap-Grows s.function) (λ caller.
                Triple-then _ _ (Grows-add_call caller ident.name)
                  (λ u. Triple-pure (some ret) (λ k. k))))))))))

pub visit_call-Accepts :
    (f : Expression) (n : ℕ) (visit_arguments : List Input → M (Unit {0})) (external : Bool)
    (span : Span) (d : Option Ty)
    → ((is : List Input) → Grows (visit_arguments is))
    → Triple (visit_call f n visit_arguments external span d) (λ o. Accepts d o)
unfolding visit_call
visit_call-Accepts (Expression.identifier ident) n visit_arguments external span d h =
    Triple-then _ _ Triple-get_state
      (λ s. call_function-Accepts _ ident n visit_arguments external span d h)
visit_call-Accepts _ n visit_arguments external span d h = Triple-panic

pub visit_cast-Accepts :
    (inner : Operand) (b : Bool) (t : Ty) (span : Span) (d : Option Ty)
    → IsSound b inner.visit
    → Triple (visit_cast inner t span d) (λ o. Accepts d o)
unfolding visit_cast assert_castable_type
visit_cast-Accepts inner b t span d h = Triple-then _ _ (Grows-assert_one_of _ _ span) (λ u.
    Triple-then _ _ (h none)
      (λ o. Triple-then _ _ (Grows-assert_one_of _ o inner.span) (λ u. compared t d span)))

pub for_each-Grows :
    {A : Type 0} (xs : List A) (body : A → M (Unit {0}))
    → ((a : A) → Grows (body a))
    → Grows (for_each xs body)
unfolding for_each
for_each-Grows [] body h = Triple-pure tt tt
for_each-Grows (x ∷ xs) body h = Triple-then _ _ (h x) (λ u. for_each-Grows xs body h)

finish_struct_init-Accepts :
    (struct : Option Struct) (name : Identifier) (n : ℕ)
    (visit_member : Identifier → Member → M (Unit {0})) (span : Span) (d : Option Ty)
    → ((i : Identifier) (m : Member) → Grows (visit_member i m))
    → Triple (finish_struct_init struct name n visit_member span d) (λ o. Accepts d o)
unfolding finish_struct_init
finish_struct_init-Accepts none name n visit_member span d h = fails d _
finish_struct_init-Accepts (some struct) name n visit_member span d h =
    Triple-bind _ _ (check_expected_struct-Accepts struct.identifier d _) (λ ret.
      Triple-then _ _ (Grows-emit_if _ _) (λ u.
        Triple-then _ _ (for_each-Grows struct.members _ (h struct.identifier))
          (λ u. Triple-pure (some ret) (λ k. k))))

pub visit_struct_init-Accepts :
    (name : Identifier) (n : ℕ) (visit_member : Identifier → Member → M (Unit {0})) (span : Span)
    (d : Option Ty)
    → ((i : Identifier) (m : Member) → Grows (visit_member i m))
    → Triple (visit_struct_init name n visit_member span d) (λ o. Accepts d o)
unfolding visit_struct_init
visit_struct_init-Accepts name n visit_member span d h =
    Triple-then _ _ Triple-get_state
      (λ s. finish_struct_init-Accepts _ name n visit_member span d h)

finish_identifier-Accepts :
    (v : Option VariableSymbol) (i : Identifier) (d : Option Ty)
    → Triple (finish_identifier v i d) (λ o. Accepts d o)
unfolding finish_identifier
finish_identifier-Accepts none i d = fails d _
finish_identifier-Accepts (some v) i d = compared v.type_ d _

pub visit_identifier-Accepts :
    (i : Identifier) (d : Option Ty) → Triple (visit_identifier i d) (λ o. Accepts d o)
unfolding visit_identifier
visit_identifier-Accepts i d =
    Triple-then _ _ Triple-get_state (λ s. finish_identifier-Accepts _ i d)

-- Either of two methods.
pub if-Triple :
    {A : Type 0} {Q : A → Type 0} (b : Bool) (m n : M A)
    → Triple m Q
    → Triple n Q
    → Triple (if b then m else n) Q
if-Triple true m n h k = h
if-Triple false m n h k = k

module _ (n : ℕ) (visit_elements : TyList → M (Unit {0})) (span : Span)
    (h : (ts : TyList) → Grows (visit_elements ts)) where
  untyped_tuple :
      (d : Option Ty)
      → Triple
          (if leb n 1 then panic else (emit_err (invalid_tuple span) >> pure none))
          (λ o. Accepts d o)
  untyped_tuple d = if-Triple (leb n 1) _ _ Triple-panic (fails d _)

  pub visit_tuple-Accepts :
      (d : Option Ty) → Triple (visit_tuple n visit_elements span d) (λ o. Accepts d o)
  unfolding visit_tuple
  visit_tuple-Accepts (some (Ty.tuple ts)) = if-Triple (leb n 1) _ _ Triple-panic (
      Triple-then _ _ (Grows-emit_if _ _)
        (λ u. Triple-then _ _ (h ts) (λ u. Triple-pure _ (inl refl))))
  visit_tuple-Accepts d = untyped_tuple d

pub visit_ternary-IsSound :
    (c x y : Visit) (a b : Bool) {k : Bool}
    → IsSound k c
    → IsSound a x
    → IsSound b y
    → IsSound (a && b) (visit_ternary c x y)
unfolding visit_ternary
visit_ternary-IsSound c x y a b hc hx hy d = Triple-then _ _ (hc (some Ty.boolean)) (λ t.
    Triple-bind _ _ (hx d) (λ t1. Triple-bind _ _ (hy d) (λ t2.
      Triple-pure _
        (λ q p k. return_incorrect_type-Accepts t1 t2 d (p (&&-left a b k)) (q (&&-right a b k))))))

pub visit_unit-Grows : (span : Span) → Grows (visit_unit span)
unfolding visit_unit
visit_unit-Grows span =
    Triple-then _ _ Triple-get_state
      (λ s. Triple-then _ _ (Grows-emit_if _ _) (λ u. Triple-pure _ tt))
