-- ===== src/DeadCode/Meaning.antt =====
-- What a block means where compiler/passes/src/dead_code_elimination runs: a run changes the values
-- of variables and a world (the mappings), and it may fail. How expressions are evaluated, which may
-- read the world, and what effects they have are parameters. A call of a function or of an associated
-- function may change the world, where it stands as a statement and where it is assigned.
use aleotiktacto.Prelude.{
  ℕ, suc, Bool, true, false, Option, none, some, List, [], ◌∷◌, ◌≡◌, ◌==◌, if◌then◌else◌, not,
}
use mathlib.Core.Option
use aleotiktacto.IndexSet.{contains}
use aleotiktacto.Ast.{
  Expression, AccessExpression, Expressions, AssertVariant, Statement, Statements, MaybeExpressions,
}
use aleotiktacto.DeadCode.{is_mapping_update}
use aleotiktacto.DeadCode.Vars.{vars, IsPlain, ArePlain}

unfoldable pub AreIdentifiers : Expressions → Type 0
AreIdentifiers Expressions.nil = Unit {0}
AreIdentifiers (Expressions.cons (Expression.identifier x) es) = AreIdentifiers es
AreIdentifiers (Expressions.cons _ es) = ⊥

-- What stands on the left of an assignment.
unfoldable pub IsPlace : Expression → Type 0
IsPlace (Expression.identifier x) = Unit {0}
IsPlace (Expression.tuple elements info) = AreIdentifiers elements
IsPlace _ = ⊥

-- A plain expression, or the call of an associated function on such.
unfoldable pub IsValue : Expression → Type 0
IsValue (Expression.access (AccessExpression.associated_function ty name arguments info)) =
    ArePlain arguments
IsValue e = IsPlain e

unfoldable pub IsPlainVariant : AssertVariant → Type 0
IsPlainVariant (AssertVariant.assert e) = IsPlain e
IsPlainVariant (AssertVariant.assert_eq left right) = IsPlain left × IsPlain right
IsPlainVariant (AssertVariant.assert_neq left right) = IsPlain left × IsPlain right

-- An associated function that stands as a statement is an update of a mapping. Type checking accepts
-- others too, and the pass keeps those without what they read.
unfoldable pub IsExpressionStatement : Expression → Type 0
IsExpressionStatement (Expression.call function arguments external info) =
    IsPlain function × ArePlain arguments
IsExpressionStatement
      (Expression.access (AccessExpression.associated_function ty name arguments info)) =
    (is_mapping_update ty name ≡ true) × ArePlain arguments
IsExpressionStatement _ = Unit {0}

abbrev pub finalize_list : MaybeExpressions → Expressions
finalize_list MaybeExpressions.absent = Expressions.nil
finalize_list (MaybeExpressions.present arguments) = arguments

-- A call of a function or of an associated function, which may change the world.
unfoldable pub has_effect : Expression → Bool
has_effect (Expression.call function arguments external info) = true
has_effect (Expression.access (AccessExpression.associated_function ty name arguments info)) = true
has_effect _ = false

module _ {V W : Type 0} (effect : (ℕ → V) → Expression → W → Option W) where
  -- The expression leaves the world as it is.
  abbrev pub IsQuiet : Expression → Type 0
  IsQuiet e = (env : ℕ → V) (w w' : W) → effect env e w ≡ some w' → w' ≡ w

  -- The form that statements have before this pass: static single assignment, flattening and loop
  -- unrolling are done; and the associated functions that stand as statements are updates of mappings.
  -- A call that is assigned is quiet.
  unfoldable mutual
    pub IsReduced : Statement → Type 0
    IsReduced (Statement.assert variant info) = IsPlainVariant variant
    IsReduced (Statement.assign place value info) =
        IsPlace place × IsValue value × (has_effect value ≡ true → IsQuiet value)
    IsReduced (Statement.block statements info) = AreReduced statements
    IsReduced (Statement.conditional condition then_ then_info otherwise info) = ⊥
    IsReduced (Statement.console variant info) = ⊥
    IsReduced (Statement.const place type_ value info) = IsPlain value × (vars value ≡ [])
    IsReduced (Statement.definition declaration_type place type_ value info) = ⊥
    IsReduced (Statement.expression e info) = IsExpressionStatement e
    IsReduced (Statement.iteration variable type_ start stop inclusive statements block_info info) =
        ⊥
    IsReduced (Statement.return expression finalize_arguments info) =
        IsPlain expression × ArePlain (finalize_list finalize_arguments)

    pub AreReduced : Statements → Type 0
    AreReduced Statements.nil = Unit {0}
    AreReduced (Statements.cons statement rest) = IsReduced statement × AreReduced rest

pub record Outcome (V W : Type 0) : Type 0 where
  pub env : ℕ → V
  pub world : W
  pub returned : Option (List V)

-- The values of the variables after an assignment.
abbrev pub store : {V : Type 0} → ℕ → V → (ℕ → V) → ℕ → V
store x v env y = if x == y then v else env y

abbrev pub proceed : {V W : Type 0} → (ℕ → V) → W → Option (Outcome V W)
proceed env w = some (record { env = env; world = w; returned = none })

-- What follows an outcome, unless it has returned.
unfoldable pub follow :
    {V W : Type 0} → Outcome V W → ((ℕ → V) → W → Option (Outcome V W)) → Option (Outcome V W)
follow o k = elim o.returned [ none ↦ k o.env o.world | some vs ↦ some o ]

unfoldable pub both : {A B C : Type 0} → (A → B → C) → Option A → Option B → Option C
both f none v = none
both f (some u) none = none
both f (some u) (some v) = some (f u v)

module _ {V W : Type 0} (eval : W → (ℕ → V) → Expression → Option V) (is_true : V → Bool)
    (same : V → V → Bool) (component : V → ℕ → V)
    (effect : (ℕ → V) → Expression → W → Option W) where
  unfoldable pub eval_all : W → (ℕ → V) → Expressions → Option (List V)
  eval_all w env Expressions.nil = some []
  eval_all w env (Expressions.cons e es) = both (λ v vs. v ∷ vs) (eval w env e) (eval_all w env es)

  unfoldable pub compare : W → (ℕ → V) → Expression → Expression → Option Bool
  compare w env left right = both same (eval w env left) (eval w env right)

  unfoldable pub holds : W → (ℕ → V) → AssertVariant → Option Bool
  holds w env (AssertVariant.assert e) = Option.map is_true (eval w env e)
  holds w env (AssertVariant.assert_eq left right) = compare w env left right
  holds w env (AssertVariant.assert_neq left right) = Option.map not (compare w env left right)

  unfoldable pub assign_elements : Expressions → V → ℕ → (ℕ → V) → (ℕ → V)
  assign_elements Expressions.nil v i env = env
  assign_elements (Expressions.cons (Expression.identifier x) es) v i env =
      assign_elements es v (suc i) (store x.name (component v i) env)
  assign_elements (Expressions.cons _ es) v i env = assign_elements es v (suc i) env

  unfoldable pub assign_place : Expression → V → (ℕ → V) → (ℕ → V)
  assign_place (Expression.identifier x) v env = store x.name v env
  assign_place (Expression.tuple elements info) v env = assign_elements elements v 0 env
  assign_place _ v env = env

  unfoldable pub run_expression : Expression → (ℕ → V) → W → Option (Outcome V W)
  run_expression e env w =
      if has_effect e
      then elim (effect env e w) [ none ↦ none | some w' ↦ proceed env w' ]
      else elim (eval w env e) [ none ↦ none | some v ↦ proceed env w ]

  -- The world after the expression.
  unfoldable pub perform : (ℕ → V) → Expression → W → Option W
  perform env e w = if has_effect e then effect env e w else some w

  unfoldable pub run_assign :
      (V → (ℕ → V) → (ℕ → V)) → Expression → (ℕ → V) → W → Option (Outcome V W)
  run_assign assign value env w = elim (eval w env value) [
    | none ↦ none
    | some v ↦ elim (perform env value w) [ none ↦ none | some w' ↦ proceed (assign v env) w' ]
  ]

  unfoldable mutual
    -- A run of a statement; `none` is a failure, or a statement that is not there at this phase.
    pub run_statement : Statement → (ℕ → V) → W → Option (Outcome V W)
    run_statement (Statement.assert variant info) env w = elim (holds w env variant) [
      | none ↦ none
      | some b ↦ if b then proceed env w else none
    ]
    run_statement (Statement.assign place value info) env w =
        run_assign (assign_place place) value env w
    run_statement (Statement.block statements info) env w = run_statements statements env w
    run_statement (Statement.const place type_ value info) env w = elim (eval w env value) [
      | none ↦ none
      | some v ↦ proceed (store place.name v env) w
    ]
    run_statement (Statement.expression e info) env w = run_expression e env w
    run_statement (Statement.return expression finalize_arguments info) env w =
        elim (eval_all w env (Expressions.cons expression (finalize_list finalize_arguments))) [
          | none ↦ none
          | some vs ↦ some (record { env = env; world = w; returned = some vs })
        ]
    run_statement (Statement.conditional condition then_ then_info otherwise info) env w = none
    run_statement (Statement.console variant info) env w = none
    run_statement (Statement.definition declaration_type place type_ value info) env w = none
    run_statement
          (Statement.iteration variable type_ start stop inclusive statements block_info info) env
          w =
        none

    pub run_statements : Statements → (ℕ → V) → W → Option (Outcome V W)
    run_statements Statements.nil env w = proceed env w
    run_statements (Statements.cons statement rest) env w = elim (run_statement statement env w) [
      | none ↦ none
      | some o ↦ follow o (run_statements rest)
    ]

-- The values agree on a set of variables.
abbrev pub Agrees : {V : Type 0} → List ℕ → (ℕ → V) → (ℕ → V) → Type 0
Agrees used env env' = (x : ℕ) → contains used x ≡ true → env x ≡ env' x

-- Where the first run succeeds, so does the second, with the same world, the same returned values
-- and the same values of the variables in `used`.
unfoldable pub Simulates :
    {V W : Type 0} → List ℕ → Option (Outcome V W) → Option (Outcome V W) → Type 0
Simulates used none r = Unit {0}
Simulates used (some o) none = ⊥
Simulates used (some o) (some o') =
    Agrees used o.env o'.env × (o.world ≡ o'.world) × (o.returned ≡ o'.returned)
