-- ===== src/DeadCode/Tests.antt =====
-- Tests of the dead code eliminator of compiler/passes/src/dead_code_elimination, and its theorems
-- at concrete functions.
use aleotiktacto.Prelude.{
  ℕ, ◌+◌, true, false, not, Option, some, List, [], ◌∷◌, ◌==◌, ◌≡◌, refl, sym, ap, arith,
  some-injective,
}
use aleotiktacto.IndexSet.{insert}
use aleotiktacto.Ast.{
  NodeInfo, default_span, Ty, Expression, AccessExpression, Expressions, MaybeExpression,
  AssertVariant, Statement, Statements, MaybeExpressions, BinaryOperation, dummy, next_id,
}
use aleotiktacto.DeadCode.{
  sym_mapping, sym_set, DeadCodeEliminator, is_mapping_update, mark_mapping_update,
  reconstruct_identifier, reconstruct_expression,
}
use aleotiktacto.DeadCode.Bodies.{
  Function, reconstruct_function, reconstruct_finalize, reset, reconstruct_block,
  reconstruct_statements, reconstruct_assert, reconstruct_variant, reconstruct_assign, lhs_is_used,
  any_used, finish_assign, eliminate, reconstruct_expression_statement, reconstruct_return,
  reconstruct_values, reconstruct_finalize_arguments, necessarily,
}
use aleotiktacto.DeadCode.Vars.{vars, IsPlain, ArePlain}
use aleotiktacto.DeadCode.Marks.{state, associated_function_lem}
use aleotiktacto.DeadCode.Meaning.{
  Agrees, has_effect, IsQuiet, IsReduced, AreReduced, IsValue, IsPlace, IsPlainVariant,
  IsExpressionStatement,
}
use aleotiktacto.DeadCode.Simulation.{
  ImplementsFunction, IsReducedFinalize, reconstruct_function-Implements,
}

abbrev at_ : ℕ → NodeInfo
at_ n = record { span = default_span; id = n }

abbrev var : ℕ → Expression
var x = Expression.identifier (record { name = x; info = at_ 0 })

abbrev sum : ℕ → ℕ → Expression
sum x y = Expression.binary (var x) (var y) BinaryOperation.add (at_ 0)

abbrev invoke : ℕ → ℕ → ℕ → Expression
invoke ty name x = Expression.access (
    AccessExpression.associated_function (Ty.identifier (record { name = ty; info = at_ 0 }))
      (record { name = name; info = at_ 0 }) (Expressions.cons (var x) Expressions.nil) (at_ 0))

abbrev assoc : ℕ → ℕ → ℕ → Statement
assoc ty name x = Statement.expression (invoke ty name x) (at_ 0)

-- The index of `get`.
abbrev sym_get : ℕ
sym_get = 46

abbrev sequence : List Statement → Statements
sequence [] = Statements.nil
sequence (st ∷ sts) = Statements.cons st (sequence sts)

-- x3 = x1 + x2; x4 = x1 + x1; x9(x3); assert(x3); return x3, with a finalize block
-- x5 = Mapping::get(x1); x6 = x1 + x2; Mapping::set(x6).
abbrev body : List Statement
body =
    Statement.assign (var 3) (sum 1 2) (at_ 1)
    ∷ Statement.assign (var 4) (sum 1 1) (at_ 2)
    ∷ Statement.expression
        (Expression.call (var 9) (Expressions.cons (var 3) Expressions.nil) MaybeExpression.absent
          (at_ 0))
        (at_ 3)
    ∷ Statement.assert (AssertVariant.assert (var 3)) (at_ 4)
    ∷ Statement.return (var 3) MaybeExpressions.absent (at_ 5)
    ∷ []

abbrev update : List Statement
update =
    Statement.assign (var 5) (invoke sym_mapping sym_get 1) (at_ 6)
    ∷ Statement.assign (var 6) (sum 1 2) (at_ 7)
    ∷ assoc sym_mapping sym_set 6
    ∷ []

abbrev with_bodies : List Statement → List Statement → Function ℕ ℕ
with_bodies b f = record {
  header = 0;
  block = record { statements = sequence b; info = at_ 0 };
  finalize = some (record { header = 1; block = record { statements = sequence f; info = at_ 0 } });
}

abbrev sample : Function ℕ ℕ
sample = with_bodies body update

abbrev start : DeadCodeEliminator
start = state (record { next = 10 }) (7 ∷ []) true

-- The two assignments that nothing uses are replaced by empty blocks with new ids.
sample_reduced :
    reconstruct_function sample start
    ≡ some (
      with_bodies
          (Statement.assign (var 3) (sum 1 2) (at_ 1)
            ∷ Statement.block Statements.nil (at_ 10)
            ∷ Statement.expression
                (Expression.call
                  (var 9)
                  (Expressions.cons (var 3) Expressions.nil)
                  MaybeExpression.absent
                  (at_ 0))
                (at_ 3)
            ∷ Statement.assert (AssertVariant.assert (var 3)) (at_ 4)
            ∷ Statement.return (var 3) MaybeExpressions.absent (at_ 5)
            ∷ [])
          (Statement.block Statements.nil (at_ 11)
            ∷ Statement.assign (var 6) (sum 1 2) (at_ 7)
            ∷ assoc sym_mapping sym_set 6
            ∷ []),
      state (record { next = 12 }) (6 ∷ 1 ∷ 2 ∷ []) false,
    )
unfolding reconstruct_function reconstruct_finalize reset reconstruct_block reconstruct_statements
    reconstruct_assert reconstruct_variant reconstruct_assign lhs_is_used any_used finish_assign
    eliminate reconstruct_expression_statement reconstruct_return reconstruct_values necessarily
    reconstruct_finalize_arguments is_mapping_update mark_mapping_update reconstruct_identifier
    reconstruct_expression insert dummy next_id
sample_reduced = refl

-- x3 = x1; BHP256::hash(x3): the call is kept, and the assignment of its argument is not.
kept_without_argument :
    reconstruct_statements
      (sequence (Statement.assign (var 3) (var 1) (at_ 1) ∷ assoc 200 201 3 ∷ []))
      (state (record { next = 10 }) [] false)
    ≡ some (
      sequence (Statement.block Statements.nil (at_ 10) ∷ assoc 200 201 3 ∷ []),
      state (record { next = 11 }) [] false,
    )
unfolding reconstruct_statements reconstruct_assign lhs_is_used finish_assign eliminate
    reconstruct_expression_statement necessarily is_mapping_update mark_mapping_update
    reconstruct_identifier reconstruct_expression dummy next_id
kept_without_argument = refl

-- Variables have their values, sums of them are added, and all else is what was logged last.
abbrev latest : List ℕ → ℕ
latest [] = 0
latest (v ∷ w) = v

abbrev eval : List ℕ → (ℕ → ℕ) → Expression → Option ℕ
eval w r (Expression.identifier x) = some (r x.name)
eval w r (Expression.binary (Expression.identifier x) (Expression.identifier y) op info) =
    some (r x.name + r y.name)
eval w r e = some (latest w)

eval-vars :
    (e : Expression) (w : List ℕ) (r r' : ℕ → ℕ) → Agrees (vars e) r r' → eval w r e ≡ eval w r' e
unfolding vars
eval-vars (Expression.identifier x) w r r' h = ap some (h x.name (ground arith))
eval-vars (Expression.binary (Expression.identifier x) (Expression.identifier y) op info) w r r' h =
    rw (h x.name (ground arith), h y.name (ground arith)) refl
eval-vars e w r r' h = refl

-- A call is logged.
abbrev effect : (ℕ → ℕ) → Expression → List ℕ → Option (List ℕ)
effect r
      (Expression.call
        (Expression.identifier f)
        (Expressions.cons (Expression.identifier x) es)
        m
        info)
      w =
    some (r x.name ∷ w)
effect r e w = some w

effect-vars :
    (e : Expression) (w : List ℕ) (r r' : ℕ → ℕ)
    → Agrees (vars e) r r'
    → effect r e w ≡ effect r' e w
unfolding vars
effect-vars
      (Expression.call
        (Expression.identifier f)
        (Expressions.cons (Expression.identifier x) es)
        m
        info)
      w r r' h =
    rw (h x.name (ground arith)) refl
effect-vars e w r r' h = refl

sum-IsQuiet : (x y : ℕ) → has_effect (sum x y) ≡ true → IsQuiet effect (sum x y)
unfolding has_effect
sum-IsQuiet x y h = absurd cc

get-IsQuiet : (x : ℕ) → IsQuiet effect (invoke sym_mapping sym_get x)
get-IsQuiet x r w w' h = sym (some-injective _ _ h)

body-AreReduced : AreReduced effect (sequence body)
unfolding IsReduced IsValue IsPlace IsPlainVariant IsExpressionStatement IsPlain
body-AreReduced = (
  (tt, (tt, tt), sum-IsQuiet 1 2),
  ((tt, (tt, tt), sum-IsQuiet 1 1), ((tt, (tt, tt)), (tt, ((tt, tt), tt)))),
)

update-IsReduced : IsReducedFinalize effect (sample.finalize)
unfolding IsReducedFinalize IsReduced IsValue IsPlace IsExpressionStatement IsPlain
    is_mapping_update
update-IsReduced =
    ((tt, (tt, tt), λ h. get-IsQuiet 1), ((tt, (tt, tt), sum-IsQuiet 1 2), ((refl, (tt, tt)), tt)))

-- Assertions hold of what is not 0, and a tuple has its own value in all components.
reconstruct_function-Implements_example :
    ImplementsFunction eval
      (λ v. not (v == 0))
      ◌==◌
      (λ v i. v)
      effect
      sample
      (reconstruct_function sample start)
reconstruct_function-Implements_example =
    reconstruct_function-Implements eval (λ v. not (v == 0)) ◌==◌ (λ v i. v) effect eval-vars
      effect-vars sample start body-AreReduced update-IsReduced

associated_function_lem_example :
    reconstruct_expression
      (Expression.access (
        AccessExpression.associated_function
          (Ty.identifier (record { name = 200; info = at_ 0 }))
          (record { name = sym_set; info = at_ 0 })
          (Expressions.cons (var 3) Expressions.nil)
          (at_ 0)))
      (state (record { next = 10 }) [] false)
    ≡ some (
      Expression.access (
          AccessExpression.associated_function
            (Ty.identifier (record { name = 200; info = at_ 0 }))
            (record { name = sym_set; info = at_ 0 })
            (Expressions.cons (var 3) Expressions.nil)
            (at_ 0)),
      state (record { next = 10 }) [] false,
    )
unfolding is_mapping_update ArePlain
associated_function_lem_example =
    associated_function_lem (Ty.identifier (record { name = 200; info = at_ 0 }))
      (record { name = sym_set; info = at_ 0 }) (Expressions.cons (var 3) Expressions.nil) (at_ 0)
      (record { next = 10 }) [] false (tt, tt)
