-- ===== src/DeadCode/Vars.antt =====
-- The variables of an expression, and what the traversal of an expression by the dead code
-- eliminator does: eliminate_expression.rs on the expressions that earlier passes leave.
use aleotiktacto.Prelude.{ℕ, Option, some, List, [], ◌∷◌, ◌++◌, ◌≡◌, refl, ◌∙◌, if◌then◌else◌}
use aleotiktacto.IndexSet.{insert}
use aleotiktacto.Ast.{Expression, AccessExpression, Expressions, MaybeExpression, Members}
use aleotiktacto.DeadCode.{
  DeadCodeEliminator, M, pure, ◌>>=◌, reconstruct_identifier, reconstruct_expression,
  reconstruct_access, reconstruct_expressions, reconstruct_initializer, reconstruct_members,
}

-- The symbols that stand in an expression, in the order of their traversal.
unfoldable mutual
  pub vars : Expression → List ℕ
  vars (Expression.access a) = access_vars a
  vars (Expression.array elements info) = all_vars elements
  vars (Expression.binary left right op info) = vars left ++ vars right
  vars (Expression.call function arguments external info) = vars function ++ all_vars arguments
  vars (Expression.cast e type_ info) = vars e
  vars (Expression.struct name members info) = member_vars members
  vars (Expression.identifier x) = x.name ∷ []
  vars (Expression.ternary condition if_true if_false info) =
      vars condition ++ (vars if_true ++ vars if_false)
  vars (Expression.tuple elements info) = all_vars elements
  vars (Expression.unary receiver op info) = vars receiver
  vars (Expression.literal l) = []
  vars (Expression.unit info) = []
  vars (Expression.err info) = []

  pub access_vars : AccessExpression → List ℕ
  access_vars (AccessExpression.array_access inner index info) = vars inner ++ vars index
  access_vars (AccessExpression.associated_constant ty name info) = []
  access_vars (AccessExpression.associated_function ty name arguments info) = all_vars arguments
  access_vars (AccessExpression.member_access inner name info) = vars inner
  access_vars (AccessExpression.tuple_access inner index info) = vars inner

  pub all_vars : Expressions → List ℕ
  all_vars Expressions.nil = []
  all_vars (Expressions.cons e es) = vars e ++ all_vars es

  pub initializer_vars : MaybeExpression → List ℕ
  initializer_vars MaybeExpression.absent = []
  initializer_vars (MaybeExpression.present e) = vars e

  pub member_vars : Members → List ℕ
  member_vars Members.end = []
  member_vars (Members.initializer name e info ms) = initializer_vars e ++ member_vars ms

-- An expression without a call of an associated function and without what earlier passes remove: an
-- error expression, or a struct member that has no value.
unfoldable mutual
  pub IsPlain : Expression → Type 0
  IsPlain (Expression.access a) = IsPlainAccess a
  IsPlain (Expression.array elements info) = ArePlain elements
  IsPlain (Expression.binary left right op info) = IsPlain left × IsPlain right
  IsPlain (Expression.call function arguments external info) = IsPlain function × ArePlain arguments
  IsPlain (Expression.cast e type_ info) = IsPlain e
  IsPlain (Expression.struct name members info) = ArePlainMembers members
  IsPlain (Expression.err info) = ⊥
  IsPlain (Expression.identifier x) = Unit {0}
  IsPlain (Expression.ternary condition if_true if_false info) =
      IsPlain condition × IsPlain if_true × IsPlain if_false
  IsPlain (Expression.tuple elements info) = ArePlain elements
  IsPlain (Expression.unary receiver op info) = IsPlain receiver
  IsPlain (Expression.literal l) = Unit {0}
  IsPlain (Expression.unit info) = Unit {0}

  pub IsPlainAccess : AccessExpression → Type 0
  IsPlainAccess (AccessExpression.array_access inner index info) = IsPlain inner × IsPlain index
  IsPlainAccess (AccessExpression.associated_constant ty name info) = Unit {0}
  IsPlainAccess (AccessExpression.associated_function ty name arguments info) = ⊥
  IsPlainAccess (AccessExpression.member_access inner name info) = IsPlain inner
  IsPlainAccess (AccessExpression.tuple_access inner index info) = IsPlain inner

  pub ArePlain : Expressions → Type 0
  ArePlain Expressions.nil = Unit {0}
  ArePlain (Expressions.cons e es) = IsPlain e × ArePlain es

  pub IsPlainInitializer : MaybeExpression → Type 0
  IsPlainInitializer MaybeExpression.absent = ⊥
  IsPlainInitializer (MaybeExpression.present e) = IsPlain e

  pub ArePlainMembers : Members → Type 0
  ArePlainMembers Members.end = Unit {0}
  ArePlainMembers (Members.initializer name e info ms) = IsPlainInitializer e × ArePlainMembers ms

-- The state with `name` marked as used where the statement is necessary.
unfoldable pub mark_one : ℕ → DeadCodeEliminator → DeadCodeEliminator
mark_one name s =
    if s.is_necessary then record s { used_variables = insert name s.used_variables } else s

unfoldable pub mark : List ℕ → DeadCodeEliminator → DeadCodeEliminator
mark [] s = s
mark (x ∷ xs) s = mark xs (mark_one x s)

pub mark-append :
    (xs ys : List ℕ) (s : DeadCodeEliminator) → mark (xs ++ ys) s ≡ mark ys (mark xs s)
unfolding mark
mark-append [] ys s = refl
mark-append (x ∷ xs) ys s = mark-append xs ys (mark_one x s)

-- A call that returns, and what runs behind it.
pub bind :
    {A B : Type 0} (m : M A) (f : A → M B) {s s' : DeadCodeEliminator} {a : A}
    {r : Option (B × DeadCodeEliminator)}
    → m s ≡ some (a, s')
    → f a s' ≡ r
    → (m >>= f) s ≡ r
bind m f e h = rw (e, ◌>>=◌) h

pub both_marked :
    {A : Type 0} (a : A) (xs ys : List ℕ) (s : DeadCodeEliminator)
    → pure a (mark ys (mark xs s)) ≡ pure a (mark (xs ++ ys) s)
both_marked a xs ys s = rw (mark-append xs ys s) refl

mutual
  unfolding reconstruct_expression reconstruct_access reconstruct_expressions
      reconstruct_initializer reconstruct_members reconstruct_identifier IsPlain IsPlainAccess
      ArePlain IsPlainInitializer ArePlainMembers vars access_vars all_vars initializer_vars
      member_vars mark mark_one

  -- A plain expression is kept, and its variables are marked.
  pub reconstruct_expression-IsPlain :
      (e : Expression)
      → IsPlain e
      → (s : DeadCodeEliminator) → reconstruct_expression e s ≡ some (e, mark (vars e) s)
  reconstruct_expression-IsPlain (Expression.access a) h s =
      bind (reconstruct_access a) _ (reconstruct_access-IsPlain a h s) refl
  reconstruct_expression-IsPlain (Expression.array es info) h s =
      bind (reconstruct_expressions es) _ (reconstruct_expressions-ArePlain es h s) refl
  reconstruct_expression-IsPlain (Expression.binary l r op info) h s =
      bind (reconstruct_expression l) _ (reconstruct_expression-IsPlain l h.0 s) (
        bind (reconstruct_expression r) _ (reconstruct_expression-IsPlain r h.1 (mark (vars l) s))
          (both_marked _ (vars l) (vars r) s))
  reconstruct_expression-IsPlain (Expression.call f es external info) h s =
      bind (reconstruct_expression f) _ (reconstruct_expression-IsPlain f h.0 s) (
        bind (reconstruct_expressions es) _
          (reconstruct_expressions-ArePlain es h.1 (mark (vars f) s))
          (both_marked _ (vars f) (all_vars es) s))
  reconstruct_expression-IsPlain (Expression.cast e type_ info) h s =
      bind (reconstruct_expression e) _ (reconstruct_expression-IsPlain e h s) refl
  reconstruct_expression-IsPlain (Expression.struct name ms info) h s =
      bind (reconstruct_members ms) _ (reconstruct_members-ArePlain ms h s) refl
  reconstruct_expression-IsPlain (Expression.err info) h s = absurd h
  reconstruct_expression-IsPlain (Expression.identifier x) h s = refl
  reconstruct_expression-IsPlain (Expression.literal l) h s = refl
  reconstruct_expression-IsPlain (Expression.ternary c t f info) h s =
      bind (reconstruct_expression c) _ (reconstruct_expression-IsPlain c h.0 s) (
        bind (reconstruct_expression t) _ (reconstruct_expression-IsPlain t h.1 (mark (vars c) s)) (
          bind (reconstruct_expression f) _
            (reconstruct_expression-IsPlain f h.2 (mark (vars t) (mark (vars c) s)))
            (both_marked _ (vars t) (vars f) (mark (vars c) s)
              ∙ both_marked _ (vars c) (vars t ++ vars f) s)))
  reconstruct_expression-IsPlain (Expression.tuple es info) h s =
      bind (reconstruct_expressions es) _ (reconstruct_expressions-ArePlain es h s) refl
  reconstruct_expression-IsPlain (Expression.unary e op info) h s =
      bind (reconstruct_expression e) _ (reconstruct_expression-IsPlain e h s) refl
  reconstruct_expression-IsPlain (Expression.unit info) h s = refl

  reconstruct_access-IsPlain :
      (a : AccessExpression)
      → IsPlainAccess a
      → (s : DeadCodeEliminator) → reconstruct_access a s ≡ some (a, mark (access_vars a) s)
  reconstruct_access-IsPlain (AccessExpression.array_access e i info) h s =
      bind (reconstruct_expression e) _ (reconstruct_expression-IsPlain e h.0 s) (
        bind (reconstruct_expression i) _ (reconstruct_expression-IsPlain i h.1 (mark (vars e) s))
          (both_marked _ (vars e) (vars i) s))
  reconstruct_access-IsPlain (AccessExpression.associated_constant ty name info) h s = refl
  reconstruct_access-IsPlain (AccessExpression.associated_function ty name es info) h s = absurd h
  reconstruct_access-IsPlain (AccessExpression.member_access e name info) h s =
      bind (reconstruct_expression e) _ (reconstruct_expression-IsPlain e h s) refl
  reconstruct_access-IsPlain (AccessExpression.tuple_access e i info) h s =
      bind (reconstruct_expression e) _ (reconstruct_expression-IsPlain e h s) refl

  pub reconstruct_expressions-ArePlain :
      (es : Expressions)
      → ArePlain es
      → (s : DeadCodeEliminator) → reconstruct_expressions es s ≡ some (es, mark (all_vars es) s)
  reconstruct_expressions-ArePlain Expressions.nil h s = refl
  reconstruct_expressions-ArePlain (Expressions.cons e es) h s =
      bind (reconstruct_expression e) _ (reconstruct_expression-IsPlain e h.0 s) (
        bind (reconstruct_expressions es) _
          (reconstruct_expressions-ArePlain es h.1 (mark (vars e) s))
          (both_marked _ (vars e) (all_vars es) s))

  reconstruct_initializer-IsPlain :
      (e : MaybeExpression)
      → IsPlainInitializer e
      → (s : DeadCodeEliminator)
      → reconstruct_initializer e s ≡ some (e, mark (initializer_vars e) s)
  reconstruct_initializer-IsPlain MaybeExpression.absent h s = absurd h
  reconstruct_initializer-IsPlain (MaybeExpression.present e) h s =
      bind (reconstruct_expression e) _ (reconstruct_expression-IsPlain e h s) refl

  reconstruct_members-ArePlain :
      (ms : Members)
      → ArePlainMembers ms
      → (s : DeadCodeEliminator) → reconstruct_members ms s ≡ some (ms, mark (member_vars ms) s)
  reconstruct_members-ArePlain Members.end h s = refl
  reconstruct_members-ArePlain (Members.initializer name e info ms) h s =
      bind (reconstruct_initializer e) _ (reconstruct_initializer-IsPlain e h.0 s) (
        bind (reconstruct_members ms) _
          (reconstruct_members-ArePlain ms h.1 (mark (initializer_vars e) s))
          (both_marked _ (initializer_vars e) (member_vars ms) s))
