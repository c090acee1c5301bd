-- ===== src/TypeChecker/Soundness/Expressions.antt =====
-- `visit_expression` of compiler/passes/src/type_checking/check_expressions.rs returns the type
-- expected.
use aleotiktacto.Prelude.{
  ℕ, suc, ◌≤◌, Bool, true, false, ◌&&◌, Option, none, some, List, [], ◌∷◌, ◌≡◌, ap, leb, length,
  if◌then◌else◌, ◌==◌,
}
use aleotiktacto.Ast.Functions.{Input, Member}
use aleotiktacto.Ast.{
  Span, Identifier, Ty, TyList, Expression, AccessExpression, Expressions, MaybeExpression, Members,
}
use aleotiktacto.TypeChecker.{M, TypeChecker, pure, ◌>>=◌, ◌>>◌, emit_err}
use aleotiktacto.TypeChecker.Triples.{
  Triple, Triple-pure, Triple-bind, Triple-weaken, Triple-emit_err,
}
use aleotiktacto.TypeChecker.Checks.{
  AreFlatEqual, Accepts, Grows, Triple-then, Triple-Grows, assert_type-Valid,
  assert_expected-Accepts, Accepts-none, Grows-emit_if, Grows-insert_type,
}
use aleotiktacto.TypeChecker.Soundness.{
  IsSound, keeps_binary, keeps_unary, visit_binary-IsSound, visit_unary-IsSound,
}
use aleotiktacto.TypeChecker.Nodes.{record_type}
use aleotiktacto.TypeChecker.Triples.{num_errors}
use aleotiktacto.TypeChecker.Asserts.{assert_type}
use aleotiktacto.TypeChecker.CoreCalls.{Argument}
use aleotiktacto.TypeChecker.Calls.{for_each}
use aleotiktacto.TypeChecker.Literals.{visit_literal-Accepts}
use aleotiktacto.TypeChecker.Soundness.Calls.{
  visit_call-Accepts, visit_cast-Accepts, for_each-Grows, visit_struct_init-Accepts,
  visit_identifier-Accepts, if-Triple, visit_tuple-Accepts, visit_ternary-IsSound, visit_unit-Grows,
}
use aleotiktacto.TypeChecker.Soundness.Accesses.{
  get_core_function_call-Grows, get_core_constant-Grows, visit_array_access-Accepts,
  call_core-Accepts, finish_tuple_access-Accepts, keeps_member, visit_member_access-IsSound,
  finish_constant-Accepts,
}
use aleotiktacto.TypeChecker.Expressions.{
  array_type, visit_array, visit_expression, visit_access, visit_all, visit_arguments,
  visit_components, visit_member, visit_initializer,
}
use aleotiktacto.TypeChecker.{array_too_large}

-- The expressions whose type is compared with the one expected: all but units, coordinates, accesses to
-- `self` and `block`, and operators on these that pass the expected type on.
unfoldable mutual
  pub keeps : Expression → Bool
  keeps (Expression.access a) = keeps_access a
  keeps (Expression.binary l r op info) = keeps_binary op (keeps l) (keeps r)
  keeps (Expression.ternary c a b info) = keeps a && keeps b
  keeps (Expression.unary e op info) = keeps_unary op (keeps e)
  keeps (Expression.unit info) = false
  keeps _ = true

  pub keeps_access : AccessExpression → Bool
  keeps_access (AccessExpression.member_access e name info) = keeps_member e
  keeps_access _ = true

record_known :
    {Q : Option Ty → Type 0} (id : ℕ) (t : Ty) → Q (some t) → Triple (record_type id (some t)) Q
unfolding record_type
record_known id t q = Triple-then _ _ (Grows-insert_type id t) (λ u. Triple-pure (some t) q)

record_type-keeps :
    (b : Bool) (id : ℕ) (m : M (Option Ty)) (d : Option Ty)
    → Triple m (λ o. b ≡ true → Accepts d o)
    → Triple (m >>= record_type id) (λ o. b ≡ true → Accepts d o)
unfolding record_type
record_type-keeps b id m d h = Triple-bind _ _ h recorded
  where
    recorded :
        (o : Option Ty)
        → Triple (record_type id o) (λ u. (b ≡ true → Accepts d o) → b ≡ true → Accepts d u)
    recorded none = Triple-pure none (λ q. q)
    recorded (some t) = record_known id t (λ q. q)

-- A visit that returns the type expected in every case.
always :
    (b : Bool) (id : ℕ) (m : M (Option Ty)) (d : Option Ty)
    → Triple m (λ o. Accepts d o)
    → Triple (m >>= record_type id) (λ o. b ≡ true → Accepts d o)
always b id m d h = record_type-keeps b id m d (Triple-weaken _ h (λ o u k. u))

module _ (n : ℕ) where
  array_type-Grows : (ts : List Argument) (span : Span) → Grows (array_type n ts span)
  unfolding array_type
  array_type-Grows [] span =
      Triple-then _ _ (Triple-emit_err {Q = λ u. Unit {0}} _) (λ u. Triple-pure none tt)
  array_type-Grows ((t, s) ∷ rest) span = sized (leb (suc (length rest)) n) t
    where
      sized :
          (b : Bool) (t : Option Ty)
          → Grows {A = Option Ty} (
              if b
              then elim t [
                | none ↦ pure none
                | some t ↦
                    (for_each rest (λ a. assert_type (a.0) t (a.1))
                      >> pure (some (Ty.array t (suc (length rest)))))
              ]
              else (emit_err (array_too_large (suc (length rest)) n span) >> pure none))
      sized true none = Triple-pure none tt
      sized true (some t) =
          Triple-then _ _
            (for_each-Grows rest _ (λ a. Triple-Grows _ (assert_type-Valid (a.0) t (a.1))))
            (λ u. Triple-pure _ tt)
      sized false t =
          Triple-then _ _ (Triple-emit_err {Q = λ u. Unit {0}} _) (λ u. Triple-pure none tt)

  visit_array-Accepts :
      (m : M (List Argument)) (span : Span) (d : Option Ty)
      → Grows m
      → Triple (visit_array n m span d) (λ o. Accepts d o)
  unfolding visit_array
  visit_array-Accepts m span d h = Triple-then _ _ h (λ ts.
      Triple-then _ _ (array_type-Grows ts span)
        (λ t. Triple-bind _ _ (assert_expected-Accepts t d span) (λ u. Triple-pure t (λ h. h))))

  mutual
    unfolding keeps keeps_access visit_expression visit_access visit_all visit_arguments
        visit_components visit_member visit_initializer

    visit_expression-IsSound : (e : Expression) → IsSound (keeps e) (visit_expression n e)
    visit_expression-IsSound (Expression.access a) d =
        record_type-keeps _ _ _ d (visit_access-IsSound a d)
    visit_expression-IsSound (Expression.array es info) d =
        always _ _ _ d (visit_array-Accepts _ _ d (visit_all-Grows es))
    visit_expression-IsSound (Expression.binary l r op info) d = record_type-keeps _ _ _ d (
        visit_binary-IsSound _ _ _ _ (visit_expression-IsSound l) (visit_expression-IsSound r) op _
          d)
    visit_expression-IsSound (Expression.call f args external info) d =
        always _ _ _ d (visit_call-Accepts f _ _ _ _ d (visit_arguments-Grows args))
    visit_expression-IsSound (Expression.cast e t info) d =
        always _ _ _ d (visit_cast-Accepts _ _ t _ d (visit_expression-IsSound e))
    visit_expression-IsSound (Expression.struct name ms info) d =
        always _ _ _ d (visit_struct_init-Accepts name _ _ _ d (visit_member-Grows ms _))
    visit_expression-IsSound (Expression.err info) d = Triple-pure none (λ k. Accepts-none d)
    visit_expression-IsSound (Expression.identifier i) d =
        always _ _ _ d (visit_identifier-Accepts i d)
    visit_expression-IsSound (Expression.literal l) d =
        Triple-bind _ _ (visit_literal-Accepts l d) (λ t. record_known _ t (λ h k. h))
    visit_expression-IsSound (Expression.ternary c a b info) d = record_type-keeps _ _ _ d (
        visit_ternary-IsSound _ _ _ _ _ (visit_expression-IsSound c) (visit_expression-IsSound a)
          (visit_expression-IsSound b) d)
    visit_expression-IsSound (Expression.tuple es info) d =
        always _ _ _ d (visit_tuple-Accepts _ _ _ (visit_components-Grows es) d)
    visit_expression-IsSound (Expression.unary e op info) d =
        record_type-keeps _ _ _ d (visit_unary-IsSound _ _ (visit_expression-IsSound e) op _ d)
    visit_expression-IsSound (Expression.unit info) d =
        record_type-keeps _ _ _ d (Triple-weaken _ (visit_unit-Grows _) (λ o u k. absurd cc))

    visit_access-IsSound : (a : AccessExpression) → IsSound (keeps_access a) (visit_access n a)
    visit_access-IsSound (AccessExpression.array_access a i info) d =
        Triple-weaken _
          (visit_array_access-Accepts _ _ _ d (λ d. Triple-Grows _ (visit_expression-IsSound a d))
            (λ d. Triple-Grows _ (visit_expression-IsSound i d)))
          (λ o u k. u)
    visit_access-IsSound (AccessExpression.associated_function ty name args info) d =
        Triple-then _ _ (get_core_function_call-Grows ty name)
          (λ c. Triple-weaken _ (call_core-Accepts _ c _ _ d (visit_all-Grows args)) (λ o u k. u))
    visit_access-IsSound (AccessExpression.tuple_access e i info) d =
        Triple-then _ _ (Triple-Grows _ (visit_expression-IsSound e none))
          (λ t. Triple-weaken _ (finish_tuple_access-Accepts _ i t _ d) (λ o u k. u))
    visit_access-IsSound (AccessExpression.member_access e name info) d =
        visit_member_access-IsSound _ (Triple-Grows _ (visit_expression-IsSound e none)) e name _ d
    visit_access-IsSound (AccessExpression.associated_constant ty name info) d =
        Triple-then _ _ (get_core_constant-Grows ty name)
          (λ c. Triple-weaken _ (finish_constant-Accepts _ c _ d) (λ o u k. u))

    visit_all-Grows : (es : Expressions) → Grows (visit_all n es)
    visit_all-Grows Expressions.nil = Triple-pure _ tt
    visit_all-Grows (Expressions.cons e es) =
        Triple-then _ _ (visit_expression-IsSound e none)
          (λ t. Triple-then _ _ (visit_all-Grows es) (λ ts. Triple-pure _ tt))

    visit_arguments-Grows : (es : Expressions) (is : List Input) → Grows (visit_arguments n es is)
    visit_arguments-Grows (Expressions.cons e es) (i ∷ rest) =
        Triple-then _ _ (visit_expression-IsSound e _) (λ t. visit_arguments-Grows es rest)
    visit_arguments-Grows (Expressions.cons e es) [] = Triple-pure tt tt
    visit_arguments-Grows Expressions.nil is = Triple-pure tt tt

    visit_components-Grows : (es : Expressions) (ts : TyList) → Grows (visit_components n es ts)
    visit_components-Grows (Expressions.cons e es) (TyList.cons t ts) =
        Triple-then _ _ (Grows-emit_if _ _)
          (λ u. Triple-then _ _ (visit_expression-IsSound e _) (λ t. visit_components-Grows es ts))
    visit_components-Grows (Expressions.cons e es) TyList.nil = Triple-pure tt tt
    visit_components-Grows Expressions.nil ts = Triple-pure tt tt

    visit_member-Grows :
        (ms : Members) (span : Span) (i : Identifier) (m : Member)
        → Grows (visit_member n ms span i m)
    visit_member-Grows Members.end span i m = Triple-emit_err _
    visit_member-Grows (Members.initializer ident value info ms) span i m =
        if-Triple (ident.name == m.identifier.name) _ _
          (Triple-then _ _ (visit_initializer-Grows ident value _) (λ t. Triple-pure tt tt))
          (visit_member-Grows ms span i m)

    visit_initializer-Grows :
        (i : Identifier) (v : MaybeExpression) (d : Option Ty) → Grows (visit_initializer n i v d)
    visit_initializer-Grows i MaybeExpression.absent d =
        Triple-Grows _ (visit_identifier-Accepts i d)
    visit_initializer-Grows i (MaybeExpression.present e) d =
        Triple-Grows _ (visit_expression-IsSound e d)

-- A visit that returns a type does not lessen the number of errors, and where it adds none, that type
-- is equal to the one expected, flatly or as it is, for an expression that keeps the type expected.
pub visit_expression-AreFlatEqual :
    (n : ℕ) (e : Expression) (t u : Ty) (s s' : TypeChecker)
    → keeps e ≡ true
    → visit_expression n e (some t) s ≡ some (some u, s')
    → (num_errors s ≤ num_errors s') × (s'.errors ≡ s.errors → AreFlatEqual u t)
visit_expression-AreFlatEqual n e t u s s' k h =
    let q = (visit_expression-IsSound n e (some t)).run s (some u, s') h in
    (q.grows, λ same. q.holds (ap length same) k)
