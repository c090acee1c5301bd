-- ===== src/TypeChecker/Returns.antt =====
-- `check_core_function_call` of compiler/passes/src/type_checking/checker.rs does not index its
-- arguments out of range.
use aleotiktacto.Prelude.{
  ℕ, zero, suc, ◌<◌, Bool, true, false, Option, none, some, List, [], ◌∷◌, ◌≡◌, refl, sym, ◌∙◌,
  arith, ◌==◌, ==_iff, length, Bool-cases, inl, inr,
}
use aleotiktacto.Ast.{Span, Ty}
use aleotiktacto.CoreFunction.{CoreFunction, num_args}
use aleotiktacto.TypeChecker.{
  TypeChecker, M, pure, ◌>>=◌, ◌>>◌, get_state, emit_err, emit_if, Shown, unwrap,
}
use aleotiktacto.TypeChecker.CoreArms.{
  CoreArm, commit, hash, rand, mapping_get, mapping_get_or_use, mapping_set, mapping_remove,
  mapping_contains, coordinate, signature_verify, core_arm,
}
use aleotiktacto.TypeChecker.Asserts.{
  check_type, assert_one_of, assert_type, assert_mapping_type, assert_scalar_type,
  assert_group_type, assert_signature_type, assert_address_type,
}
use aleotiktacto.TypeChecker.CoreCalls.{
  Argument, argument, check_input, check_outside, with_mapping, check_mapping, assert_argument,
  run_core_arm, check_core_function_call,
}

-- The method returns in every state.
pub record Returns {A : Type 0} (m : M A) : Type 0 where
  pub run : (s : TypeChecker) → (r : A × TypeChecker) × (m s ≡ some r)

Returns-pure : {A : Type 0} (a : A) → Returns (pure a)
unfolding pure
Returns-pure a = record { run = λ s. ((a, s), refl) }

Returns-get_state : Returns get_state
unfolding get_state
Returns-get_state = record { run = λ s. ((s, s), refl) }

Returns-emit_err : (e : _) → Returns (emit_err e)
unfolding emit_err
Returns-emit_err e = record { run = λ s. (_, refl) }

Returns-bind :
    {A B : Type 0} (m : M A) (f : A → M B)
    → Returns m
    → ((a : A) → Returns (f a))
    → Returns (m >>= f)
unfolding ◌>>=◌
Returns-bind m f hm hf = record {
  run = λ s. let ((a, s'), e) = hm.run s in let (r, k) = (hf a).run s' in (r, rw (e, ◌>>=◌) k);
}

Returns-emit_if : (b : Bool) (e : _) → Returns (emit_if b e)
unfolding emit_if
Returns-emit_if true e = Returns-emit_err e
Returns-emit_if false e = Returns-pure tt

check_type-Returns :
    (f : Ty → Bool) (e : Shown) (o : Option Ty) (span : Span) → Returns (check_type f e o span)
unfolding check_type
check_type-Returns f e none span = Returns-pure tt
check_type-Returns f e (some t) span = Returns-emit_if _ _

assert_one_of-Returns :
    (ts : List Ty) (o : Option Ty) (span : Span) → Returns (assert_one_of ts o span)
unfolding assert_one_of
assert_one_of-Returns ts o span = check_type-Returns _ _ o span

argument-Returns :
    (arguments : List Argument) (i : ℕ) → i < length arguments → Returns (argument arguments i)
unfolding argument unwrap
argument-Returns [] i h = absurd (omega arith)
argument-Returns (a ∷ rest) zero h = Returns-pure a
argument-Returns (a ∷ rest) (suc i) h = argument-Returns rest i (omega arith)

assert_argument-Returns :
    (arguments : List Argument) (i : ℕ) (t : Ty)
    → i < length arguments
    → Returns (assert_argument arguments i t)
unfolding assert_argument assert_type
assert_argument-Returns arguments i t h =
    Returns-bind _ _ (argument-Returns arguments i h) (λ a. check_type-Returns _ _ (a.0) (a.1))

then_type : (m : M (Unit {0})) (t : Option Ty) → Returns m → Returns (m >> pure t)
then_type m t h = Returns-bind _ _ h (λ u. Returns-pure t)

check_mapping-Returns :
    (name : List ℕ) (span : Span) (arguments : List Argument) (f : Ty → Ty → M (Option Ty))
    → 0 < length arguments
    → ((k v : Ty) → Returns (f k v))
    → Returns (check_mapping name span arguments f)
unfolding check_mapping check_outside assert_mapping_type with_mapping
check_mapping-Returns name span arguments f n h =
    Returns-bind _ _ (Returns-bind _ _ Returns-get_state (λ s. Returns-emit_if _ _)) (λ u.
      Returns-bind _ _ (argument-Returns arguments 0 n)
        (λ a. Returns-bind _ _ (check_type-Returns _ _ (a.0) (a.1)) (λ u. matched (a.0))))
  where
    matched : (o : Option Ty) → Returns (with_mapping o f)
    matched (some (Ty.mapping k v)) = h k v
    matched _ = Returns-pure none

-- How many arguments the arm of a core function reads.
abbrev arity : CoreArm → ℕ
arity (commit c t) = 2
arity (hash c t) = 1
arity (rand t) = 0
arity mapping_get = 2
arity mapping_get_or_use = 3
arity mapping_set = 3
arity mapping_remove = 2
arity mapping_contains = 2
arity coordinate = 1
arity signature_verify = 3

arity-core_arm : (c : CoreFunction) → arity (core_arm c) ≡ num_args c
unfolding core_arm num_args
arity-core_arm CoreFunction.bhp256_commit_to_address = refl
arity-core_arm _ = refl

run_core_arm-Returns :
    (c : CoreArm) (arguments : List Argument) (span : Span)
    → length arguments ≡ arity c
    → Returns (run_core_arm c arguments span)
unfolding run_core_arm check_input assert_scalar_type assert_group_type assert_signature_type
    assert_address_type
run_core_arm-Returns (commit c t) arguments span h =
    Returns-bind _ _ (argument-Returns arguments 0 (omega arith)) (λ a.
      Returns-bind _ _ (check_type-Returns _ _ (a.0) (a.1)) (λ u.
        Returns-bind _ _ (argument-Returns arguments 1 (omega arith))
          (λ b. then_type _ _ (assert_one_of-Returns _ (b.0) (b.1)))))
run_core_arm-Returns (hash c t) arguments span h =
    Returns-bind _ _ (argument-Returns arguments 0 (omega arith))
      (λ a. then_type _ _ (check_type-Returns _ _ (a.0) (a.1)))
run_core_arm-Returns (rand t) arguments span h = Returns-pure _
run_core_arm-Returns mapping_get arguments span h =
    check_mapping-Returns _ span arguments _ (omega arith)
      (λ k v. then_type _ _ (assert_argument-Returns arguments 1 k (omega arith)))
run_core_arm-Returns mapping_get_or_use arguments span h =
    check_mapping-Returns _ span arguments _ (omega arith) (λ k v.
      Returns-bind _ _ (assert_argument-Returns arguments 1 k (omega arith))
        (λ u. then_type _ _ (assert_argument-Returns arguments 2 v (omega arith))))
run_core_arm-Returns mapping_set arguments span h =
    check_mapping-Returns _ span arguments _ (omega arith) (λ k v.
      Returns-bind _ _ (assert_argument-Returns arguments 1 k (omega arith))
        (λ u. then_type _ _ (assert_argument-Returns arguments 2 v (omega arith))))
run_core_arm-Returns mapping_remove arguments span h =
    check_mapping-Returns _ span arguments _ (omega arith)
      (λ k v. then_type _ _ (assert_argument-Returns arguments 1 k (omega arith)))
run_core_arm-Returns mapping_contains arguments span h =
    check_mapping-Returns _ span arguments _ (omega arith)
      (λ k v. then_type _ _ (assert_argument-Returns arguments 1 k (omega arith)))
run_core_arm-Returns coordinate arguments span h =
    Returns-bind _ _ (argument-Returns arguments 0 (omega arith))
      (λ a. then_type _ _ (assert_one_of-Returns _ (a.0) (a.1)))
run_core_arm-Returns signature_verify arguments span h =
    Returns-bind _ _ (argument-Returns arguments 0 (omega arith)) (λ a.
      Returns-bind _ _ (assert_one_of-Returns _ (a.0) (a.1)) (λ u.
        Returns-bind _ _ (argument-Returns arguments 1 (omega arith))
          (λ b. then_type _ _ (assert_one_of-Returns _ (b.0) (b.1)))))

call-Returns :
    (c : CoreFunction) (arguments : List Argument) (span : Span)
    → Returns (check_core_function_call c arguments span)
unfolding check_core_function_call
call-Returns c arguments span = elim (Bool-cases (length arguments == num_args c)) [
  | inl e ↦ rw e (
      run_core_arm-Returns (core_arm c) arguments span
        (((==_iff _ _).0 e) ∙ sym (arity-core_arm c)))
  | inr e ↦ rw e (then_type _ none (Returns-emit_err _))
]

-- The check of a call of any core function, with any arguments and in any state, returns without a
-- panic.
pub check_core_function_call_returns :
    (c : CoreFunction) (arguments : List Argument) (span : Span) (s : TypeChecker)
    → (r : Option Ty × TypeChecker) × (check_core_function_call c arguments span s ≡ some r)
check_core_function_call_returns c arguments span s = (call-Returns c arguments span).run s
