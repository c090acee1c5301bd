-- ===== src/TypeChecker/Soundness/Accesses.antt =====
-- Access expressions of compiler/passes/src/type_checking/check_expressions.rs return the type expected
-- of them, but for `self.caller`, `self.signer` and `block.height`.
use aleotiktacto.Prelude.{
  ℕ, Bool, true, false, not, ◌||◌, Option, none, some, List, ◌≡◌, length, get_elem?, if◌then◌else◌,
  ◌==◌, ltb, ◌-◌,
}
use aleotiktacto.Ast.Functions.{Member, Struct}
use aleotiktacto.Ast.{Span, Identifier, Ty, Expression, AccessExpression}
use aleotiktacto.TypeChecker.{M, pure, ◌>>=◌, ◌>>◌, emit_err}
use aleotiktacto.TypeChecker.Triples.{
  Triple, Triple-pure, Triple-bind, Triple-weaken, Triple-emit_err, Triple-panic, Triple-get_state,
}
use aleotiktacto.TypeChecker.Checks.{
  Accepts, Grows, Triple-then, Triple-Grows, assert_type-Valid, check_type-Valid,
  Grows-assert_one_of, assert_expected-Accepts, Accepts-none, Grows-emit_if,
}
use aleotiktacto.TypeChecker.Soundness.{IsSound}
use aleotiktacto.TypeChecker.Operators.{Operand}
use aleotiktacto.Ast.Types.{length_types}
use aleotiktacto.Sym
use aleotiktacto.CoreFunction.{CoreFunction, num_args}
use aleotiktacto.CoreFunction.Symbols.{from_symbols}
use aleotiktacto.TypeChecker.Asserts.{
  assert_expected, assert_int_type, assert_array_type, assert_mapping_type, assert_scalar_type,
  assert_group_type, assert_signature_type, assert_address_type,
}
use aleotiktacto.TypeChecker.CoreArms.{
  CoreArm, commit, hash, rand, mapping_get, mapping_get_or_use, mapping_set, mapping_remove,
  mapping_contains, coordinate, signature_verify, core_arm,
}
use aleotiktacto.TypeChecker.CoreCalls.{
  Argument, argument, check_input, check_outside, with_mapping, check_mapping, assert_argument,
  run_core_arm, check_core_function_call, get_core_function_call, get_core_constant,
  core_constant_type,
}
use aleotiktacto.TypeChecker.Accesses.{
  element_type, visit_array_access, call_core, type_at, invalid_tuple_access, tuple_component,
  finish_tuple_access, access_self, access_block, access_member, access_struct,
  finish_member_access, visit_member_access, finish_constant,
}
use aleotiktacto.TypeChecker.Soundness.Calls.{if-Triple, fails, compared, unwrap-Grows}

-- A check that is followed by a type.
then_type : (m : M (Unit {0})) (t : Option Ty) → Grows m → Grows (m >> pure t)
then_type m t h = Triple-then _ _ h (λ u. Triple-pure t tt)

emits : (e : _) → Grows (emit_err e)
emits e = Triple-emit_err e

argument-Grows : (arguments : List Argument) (i : ℕ) → Grows (argument arguments i)
unfolding argument
argument-Grows arguments i = unwrap-Grows (get_elem? arguments i)

check_input-Grows : (c : _) (a : Argument) → Grows (check_input c a)
unfolding check_input
check_input-Grows c a = Triple-Grows _ (check_type-Valid _ _ (a.0) (a.1))

assert_argument-Grows :
    (arguments : List Argument) (i : ℕ) (t : Ty) → Grows (assert_argument arguments i t)
unfolding assert_argument
assert_argument-Grows arguments i t =
    Triple-then _ _ (argument-Grows arguments i)
      (λ a. Triple-Grows _ (assert_type-Valid (a.0) t (a.1)))

with_mapping-Grows :
    (o : Option Ty) (f : Ty → Ty → M (Option Ty))
    → ((k v : Ty) → Grows (f k v))
    → Grows (with_mapping o f)
unfolding with_mapping
with_mapping-Grows (some (Ty.mapping k v)) f h = h k v
with_mapping-Grows _ f h = Triple-pure none tt

check_mapping-Grows :
    (name : List ℕ) (span : Span) (arguments : List Argument) (f : Ty → Ty → M (Option Ty))
    → ((k v : Ty) → Grows (f k v))
    → Grows (check_mapping name span arguments f)
unfolding check_mapping check_outside assert_mapping_type
check_mapping-Grows name span arguments f h =
    Triple-then _ _ (Triple-then _ _ Triple-get_state (λ s. Grows-emit_if _ _)) (λ u.
      Triple-then _ _ (argument-Grows arguments 0) (λ a.
        Triple-then _ _ (check_type-Valid _ _ (a.0) (a.1)) (λ u. with_mapping-Grows (a.0) f h)))

run_core_arm-Grows :
    (c : CoreArm) (arguments : List Argument) (span : Span) → Grows (run_core_arm c arguments span)
unfolding run_core_arm assert_scalar_type assert_group_type assert_signature_type
    assert_address_type
run_core_arm-Grows (commit c t) arguments span = Triple-then _ _ (argument-Grows arguments 0) (λ a.
    Triple-then _ _ (check_input-Grows c a) (λ u.
      Triple-then _ _ (argument-Grows arguments 1)
        (λ b. then_type _ _ (Grows-assert_one_of _ (b.0) (b.1)))))
run_core_arm-Grows (hash c t) arguments span =
    Triple-then _ _ (argument-Grows arguments 0) (λ a. then_type _ _ (check_input-Grows c a))
run_core_arm-Grows (rand t) arguments span = Triple-pure _ tt
run_core_arm-Grows mapping_get arguments span =
    check_mapping-Grows _ span arguments _
      (λ k v. then_type _ _ (assert_argument-Grows arguments 1 k))
run_core_arm-Grows mapping_get_or_use arguments span =
    check_mapping-Grows _ span arguments _ (λ k v.
      Triple-then _ _ (assert_argument-Grows arguments 1 k)
        (λ u. then_type _ _ (assert_argument-Grows arguments 2 v)))
run_core_arm-Grows mapping_set arguments span = check_mapping-Grows _ span arguments _ (λ k v.
    Triple-then _ _ (assert_argument-Grows arguments 1 k)
      (λ u. then_type _ _ (assert_argument-Grows arguments 2 v)))
run_core_arm-Grows mapping_remove arguments span =
    check_mapping-Grows _ span arguments _
      (λ k v. then_type _ _ (assert_argument-Grows arguments 1 k))
run_core_arm-Grows mapping_contains arguments span =
    check_mapping-Grows _ span arguments _
      (λ k v. then_type _ _ (assert_argument-Grows arguments 1 k))
run_core_arm-Grows coordinate arguments span =
    Triple-then _ _ (argument-Grows arguments 0)
      (λ a. then_type _ _ (Grows-assert_one_of _ (a.0) (a.1)))
run_core_arm-Grows signature_verify arguments span =
    Triple-then _ _ (argument-Grows arguments 0) (λ a.
      Triple-then _ _ (Grows-assert_one_of _ (a.0) (a.1)) (λ u.
        Triple-then _ _ (argument-Grows arguments 1)
          (λ b. then_type _ _ (Grows-assert_one_of _ (b.0) (b.1)))))

check_core_function_call-Grows :
    (c : CoreFunction) (arguments : List Argument) (span : Span)
    → Grows (check_core_function_call c arguments span)
unfolding check_core_function_call
check_core_function_call-Grows c arguments span =
    if-Triple (length arguments == num_args c) _ _ (run_core_arm-Grows (core_arm c) arguments span)
      (then_type _ _ (emits _))

looked_up :
    {A : Type 0} (o : Option A) (e : _)
    → Grows {A = Option A} (elim o [ none ↦ emit_err e >> pure none | some c ↦ pure (some c) ])
looked_up none e = Triple-then _ _ (emits e) (λ u. Triple-pure none tt)
looked_up (some c) e = Triple-pure (some c) tt

pub get_core_function_call-Grows : (t : Ty) (i : Identifier) → Grows (get_core_function_call t i)
unfolding get_core_function_call
get_core_function_call-Grows (Ty.identifier x) i = looked_up (from_symbols x.name i.name) _
get_core_function_call-Grows _ i = Triple-pure none tt

pub get_core_constant-Grows : (t : Ty) (i : Identifier) → Grows (get_core_constant t i)
unfolding get_core_constant
get_core_constant-Grows (Ty.identifier x) i = looked_up (core_constant_type x.name i.name) _
get_core_constant-Grows _ i = Triple-pure none tt

-- A type that is checked against the one expected, and returned.
expected_type :
    (o d : Option Ty) (span : Span) → Triple (assert_expected o d span >> pure o) (λ u. Accepts d u)
expected_type o d span =
    Triple-bind _ _ (assert_expected-Accepts o d span) (λ u. Triple-pure o (λ h. h))

pub visit_array_access-Accepts :
    (x y : Operand) (span : Span) (d : Option Ty)
    → ((d : Option Ty) → Grows (x.visit d))
    → ((d : Option Ty) → Grows (y.visit d))
    → Triple (visit_array_access x y span d) (λ o. Accepts d o)
unfolding visit_array_access assert_array_type assert_int_type
visit_array_access-Accepts x y span d hx hy = Triple-then _ _ (hx none) (λ t.
    Triple-then _ _ (check_type-Valid _ _ t _) (λ u. Triple-then _ _ (hy none) (λ i.
      Triple-then _ _ (Grows-assert_one_of _ i _) (λ u. expected_type (element_type t) d span))))

pub call_core-Accepts :
    (a : AccessExpression) (c : Option CoreFunction) (visit_arguments : M (List Argument))
    (span : Span) (d : Option Ty)
    → Grows visit_arguments
    → Triple (call_core a c visit_arguments span d) (λ o. Accepts d o)
unfolding call_core
call_core-Accepts a none visit_arguments span d h = fails d _
call_core-Accepts a (some c) visit_arguments span d h = Triple-then _ _ Triple-get_state (λ s.
    Triple-then _ _ (Grows-emit_if _ _) (λ u. Triple-then _ _ h (λ arguments.
      Triple-then _ _ (check_core_function_call-Grows c arguments span)
        (λ t. expected_type t d span))))

tuple_component-Accepts :
    (o : Option Ty) (span : Span) (d : Option Ty)
    → Triple (tuple_component o span d) (λ u. Accepts d u)
unfolding tuple_component
tuple_component-Accepts none span d = Triple-panic
tuple_component-Accepts (some t) span d = compared t d span

invalid_tuple_access-Accepts :
    (a : AccessExpression) (e : _) (span : Span) (d : Option Ty)
    → Triple (emit_err e >> invalid_tuple_access a span) (λ u. Accepts d u)
unfolding invalid_tuple_access
invalid_tuple_access-Accepts a e span d = Triple-then _ _ (emits e) (λ u. fails d _)

pub finish_tuple_access-Accepts :
    (a : AccessExpression) (i : ℕ) (o : Option Ty) (span : Span) (d : Option Ty)
    → Triple (finish_tuple_access a i o span d) (λ u. Accepts d u)
unfolding finish_tuple_access
finish_tuple_access-Accepts a i none span d = Triple-pure none (Accepts-none d)
finish_tuple_access-Accepts a i (some (Ty.tuple ts)) span d =
    if-Triple (length_types ts == 0) _ _ Triple-panic (
      if-Triple (ltb (length_types ts - 1) i) _ _ (invalid_tuple_access-Accepts a _ span d)
        (tuple_component-Accepts (type_at ts i) span d))
finish_tuple_access-Accepts a i (some t) span d = invalid_tuple_access-Accepts a _ span d

access_self-Grows : (name : Identifier) → Grows (access_self name)
unfolding access_self
access_self-Grows name = Triple-then _ _ Triple-get_state (λ s.
    if-Triple (name.name == Sym.caller) _ _ (then_type _ _ (Grows-emit_if _ _)) (
      if-Triple (name.name == Sym.signer) _ _ (then_type _ _ (Grows-emit_if _ _))
        (then_type _ _ (emits _))))

access_block-Grows : (name : Identifier) → Grows (access_block name)
unfolding access_block
access_block-Grows name = Triple-then _ _ Triple-get_state (λ s.
    if-Triple (name.name == Sym.height) _ _ (then_type _ _ (Grows-emit_if _ _))
      (then_type _ _ (emits _)))

access_member-Accepts :
    (struct : Struct) (m : Option Member) (name : Identifier) (span : Span) (d : Option Ty)
    → Triple (access_member struct m name span d) (λ u. Accepts d u)
unfolding access_member
access_member-Accepts struct none name span d = fails d _
access_member-Accepts struct (some m) name span d = compared m.type_ d span

access_struct-Accepts :
    (struct : Option Struct) (e : Expression) (name : Identifier) (span : Span) (d : Option Ty)
    → Triple (access_struct struct e name span d) (λ u. Accepts d u)
unfolding access_struct
access_struct-Accepts none e name span d = fails d _
access_struct-Accepts (some struct) e name span d = access_member-Accepts struct _ name span d

finish_member_access-Accepts :
    (o : Option Ty) (e : Expression) (name : Identifier) (span : Span) (d : Option Ty)
    → Triple (finish_member_access o e name span d) (λ u. Accepts d u)
unfolding finish_member_access
finish_member_access-Accepts none e name span d = fails d _
finish_member_access-Accepts (some (Ty.identifier i)) e name span d =
    Triple-then _ _ Triple-get_state (λ s. access_struct-Accepts _ e name span d)
finish_member_access-Accepts (some t) e name span d = fails d _

-- Not an access to `self` or to `block`.
abbrev pub keeps_member : Expression → Bool
keeps_member (Expression.identifier i) = not (i.name == Sym.self_lower || i.name == Sym.block)
keeps_member _ = true

special :
    (a b : Bool) (m n k : M (Option Ty)) (d : Option Ty)
    → Grows m
    → Grows n
    → Triple k (λ o. Accepts d o)
    → Triple (if a then m else if b then n else k) (λ o. not (a || b) ≡ true → Accepts d o)
special true b m n k d hm hn hk = Triple-weaken _ hm (λ o u h. absurd cc)
special false true m n k d hm hn hk = Triple-weaken _ hn (λ o u h. absurd cc)
special false false m n k d hm hn hk = Triple-weaken _ hk (λ o u h. u)

module _ (visit_inner : M (Option Ty)) (h : Grows visit_inner) where
  then_member :
      (e : Expression) (name : Identifier) (span : Span) (d : Option Ty)
      → Triple (visit_inner >>= λ t. finish_member_access t e name span d) (λ u. Accepts d u)
  then_member e name span d = Triple-then _ _ h (λ t. finish_member_access-Accepts t e name span d)

  pub visit_member_access-IsSound :
      (e : Expression) (name : Identifier) (span : Span)
      → IsSound (keeps_member e) (visit_member_access e visit_inner name span)
  unfolding visit_member_access
  visit_member_access-IsSound (Expression.identifier i) name span d =
      special (i.name == Sym.self_lower) (i.name == Sym.block) _ _ _ d (access_self-Grows name)
        (access_block-Grows name) (then_member (Expression.identifier i) name span d)
  visit_member_access-IsSound e name span d =
      Triple-weaken _ (then_member e name span d) (λ o u k. u)

pub finish_constant-Accepts :
    (a : AccessExpression) (o : Option Ty) (span : Span) (d : Option Ty)
    → Triple (finish_constant a o span d) (λ u. Accepts d u)
unfolding finish_constant
finish_constant-Accepts a none span d = fails d _
finish_constant-Accepts a (some t) span d = expected_type (some t) d span
