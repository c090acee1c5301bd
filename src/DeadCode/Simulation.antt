-- ===== src/DeadCode/Simulation.antt =====
-- Blocks and functions of compiler/passes/src/dead_code_elimination before and after the pass.
use aleotiktacto.Prelude.{
  ℕ, Bool, true, false, Option, none, some, List, [], ◌≡◌, refl, sym, ◌∙◌, subst, Option-cases, inl,
  inr,
}
use aleotiktacto.IndexSet.{contains}
use aleotiktacto.Ast.{NodeInfo, NodeBuilder, Expression, Statement, Statements, Block}
use aleotiktacto.DeadCode.{DeadCodeEliminator, pure, ◌>>=◌}
use aleotiktacto.DeadCode.Bodies.{
  reconstruct_statement, reconstruct_statements, reconstruct_block, Function, Finalize,
  reconstruct_function, reconstruct_finalize, reset,
}
use aleotiktacto.DeadCode.Vars.{vars}
use aleotiktacto.DeadCode.Marks.{state}
use aleotiktacto.DeadCode.Meaning.{
  IsReduced, AreReduced, Outcome, follow, run_statement, run_statements, Agrees, Simulates,
}
use aleotiktacto.DeadCode.Cases.{
  run, run_all, Preserves, PreservesAll, assert_case, assign_case, const_case, return_case,
  expression_case,
}

unfoldable pub IsReducedFinalize :
    {V W F : Type 0} → ((ℕ → V) → Expression → W → Option W) → Option (Finalize F) → Type 0
IsReducedFinalize effect none = Unit {0}
IsReducedFinalize effect (some f) = AreReduced effect f.block.statements

-- Two runs that go on from simulating outcomes.
sequel :
    {V W : Type 0} (used used' : List ℕ) (o o' : Option (Outcome V W))
    (k k' : (ℕ → V) → W → Option (Outcome V W))
    → Simulates used' o o'
    → ((x : ℕ) → contains used x ≡ true → contains used' x ≡ true)
    → ((r r' : ℕ → V) (w : W) → Agrees used' r r' → Simulates used (k r w) (k' r' w))
    → Simulates used
        (elim o [ none ↦ none | some a ↦ follow a k ])
        (elim o' [ none ↦ none | some a ↦ follow a k' ])
unfolding Simulates follow
sequel used used' none o' k k' h more next = tt
sequel used used' (some a) none k k' h more next = absurd h
sequel used used' (some a) (some a') k k' h more next = elim (Option-cases a.returned) [
  | inl e ↦
      rw (e, sym h.2 ∙ e)
        (subst (λ w. Simulates used (k a.env a.world) (k' a'.env w)) h.1
          (next a.env a'.env a.world h.0))
  | inr (vs, e) ↦ rw (e, sym h.2 ∙ e) ((λ x m. h.0 x (more x m)), h.1, refl)
]

module _ {V W : Type 0} (eval : W → (ℕ → V) → Expression → Option V) (is_true : V → Bool)
    (same : V → V → Bool) (component : V → ℕ → V)
    (effect : (ℕ → V) → Expression → W → Option W) where
  -- Where the block `b` succeeds, so does `b'`, with the same world and the same returned values.
  abbrev pub Implements : Block → Block → Type 0
  Implements b b' =
      (r : ℕ → V) (w : W)
      → Simulates [] (run_all eval is_true same component effect b.statements r w)
          (run_all eval is_true same component effect b'.statements r w)

  unfoldable pub ImplementsFinalize :
      {F : Type 0} → Option (Finalize F) → Option (Finalize F) → Type 0
  ImplementsFinalize none none = Unit {0}
  ImplementsFinalize (some f) (some f') = (f'.header ≡ f.header) × Implements f.block f'.block
  ImplementsFinalize _ _ = ⊥

  -- The pass returns a function with the same header, whose body and finalize block implement
  -- those of the input.
  unfoldable pub ImplementsFunction :
      {H F : Type 0} → Function H F → Option (Function H F × DeadCodeEliminator) → Type 0
  ImplementsFunction f none = ⊥
  ImplementsFunction f (some (f', s)) =
      (f'.header ≡ f.header)
      × Implements f.block f'.block
      × ImplementsFinalize f.finalize f'.finalize

  abbrev pub ReturnsFinalize :
      {F : Type 0}
      → Option (Finalize F)
      → Option (Option (Finalize F) × DeadCodeEliminator)
      → Type 0
  ReturnsFinalize f none = ⊥
  ReturnsFinalize f (some (f', s)) = ImplementsFinalize f f'

  -- What `reconstruct_block` makes of the statements.
  abbrev pub as_block :
      NodeInfo → Option (Statements × DeadCodeEliminator) → Option (Block × DeadCodeEliminator)
  as_block info o = elim o [
    | none ↦ none
    | some (sts, s) ↦ some (record { statements = sts; info = info }, s)
  ]

  block_case :
      (sts : Statements) (info : NodeInfo) (used : List ℕ)
      (o : Option (Statements × DeadCodeEliminator))
      → PreservesAll eval is_true same component effect used sts o
      → Preserves eval is_true same component effect used
          (Statement.block sts info)
          (elim o [ none ↦ none | some (sts', s) ↦ some (Statement.block sts' info, s) ])
  unfolding run_statement
  block_case sts info used none h = absurd h
  block_case sts info used (some (sts', s)) h = h

  after :
      (st : Statement) (rest rest' : Statements) (used used' : List ℕ)
      (o : Option (Statement × DeadCodeEliminator))
      → ((x : ℕ) → contains used x ≡ true → contains used' x ≡ true)
      → ((r r' : ℕ → V) (w : W)
          → Agrees used' r r'
          → Simulates used
              (run_all eval is_true same component effect rest r w)
              (run_all eval is_true same component effect rest' r' w))
      → Preserves eval is_true same component effect used' st o
      → PreservesAll eval is_true same component effect used
          (Statements.cons st rest)
          (elim o [ none ↦ none | some (st', s) ↦ some (Statements.cons st' rest', s) ])
  unfolding run_statements
  after st rest rest' used used' none more next h = absurd h
  after st rest rest' used used' (some (st', s)) more next h = (
    h.0,
    (λ x m. h.1 x (more x m)),
    λ r r' w a.
        sequel used used' (run eval is_true same component effect st r w)
          (run eval is_true same component effect st' r' w) _ _ (h.2 r r' w a) more next,
  )

  cons_case :
      (st : Statement) (rest : Statements) (used : List ℕ)
      (o : Option (Statements × DeadCodeEliminator))
      → PreservesAll eval is_true same component effect used rest o
      → ((b : NodeBuilder) (u : List ℕ)
          → Preserves eval is_true same component effect u st
              (reconstruct_statement st (state b u false)))
      → PreservesAll eval is_true same component effect used (Statements.cons st rest) (elim o [
        | none ↦ none
        | some (rest', s) ↦ elim (reconstruct_statement st s) [
          | none ↦ none
          | some (st', s') ↦ some (Statements.cons st' rest', s')
        ]
      ])
  cons_case st rest used none h each = absurd h
  cons_case st rest used (some (rest', s)) h each =
      after st rest rest' used s.used_variables (reconstruct_statement st s) h.1 h.2 (
        subst
          (λ n.
            Preserves eval is_true same component effect s.used_variables st
              (reconstruct_statement st (state s.node_builder s.used_variables n)))
          (sym h.0) (each s.node_builder s.used_variables))

  module _
      (eval_vars : (e : Expression) (w : W) (r r' : ℕ → V)
        → Agrees (vars e) r r'
        → eval w r e ≡ eval w r' e)
      (effect_vars : (e : Expression) (w : W) (r r' : ℕ → V)
        → Agrees (vars e) r r'
        → effect r e w ≡ effect r' e w) where
    mutual
      unfolding reconstruct_statement IsReduced run_statement Simulates

      reconstruct_statement-Preserves :
          (st : Statement)
          → IsReduced effect st
          → (b : NodeBuilder) (used : List ℕ)
          → Preserves eval is_true same component effect used st
              (reconstruct_statement st (state b used false))
      reconstruct_statement-Preserves (Statement.assert v info) h b used =
          assert_case eval is_true same component effect eval_vars effect_vars v info b used h
      reconstruct_statement-Preserves (Statement.assign place value info) h b used =
          assign_case eval is_true same component effect eval_vars effect_vars place value info b
            used h
      reconstruct_statement-Preserves (Statement.block sts info) h b used =
          block_case sts info used (reconstruct_statements sts (state b used false))
            (reconstruct_statements-PreservesAll sts h b used)
      reconstruct_statement-Preserves (Statement.conditional condition then_ i otherwise info) h b
            used =
          absurd h
      reconstruct_statement-Preserves (Statement.console v info) h b used = absurd h
      reconstruct_statement-Preserves (Statement.const place type_ value info) h b used =
          const_case eval is_true same component effect eval_vars effect_vars place type_ value info
            b used h
      reconstruct_statement-Preserves (Statement.definition d place type_ value info) h b used =
          absurd h
      reconstruct_statement-Preserves (Statement.expression e info) h b used =
          expression_case eval is_true same component effect eval_vars effect_vars e info b used h
      reconstruct_statement-Preserves (Statement.iteration x type_ start stop inclusive sts i info)
            h b used =
          absurd h
      reconstruct_statement-Preserves (Statement.return e arguments info) h b used =
          return_case eval is_true same component effect eval_vars effect_vars e arguments info b
            used h

      pub reconstruct_statements-PreservesAll :
          (sts : Statements)
          → AreReduced effect sts
          → (b : NodeBuilder) (used : List ℕ)
          → PreservesAll eval is_true same component effect used sts
              (reconstruct_statements sts (state b used false))
      reconstruct_statements-PreservesAll Statements.nil h b used =
          (refl, (λ x m. m), λ r r' w a. (a, refl, refl))
      reconstruct_statements-PreservesAll (Statements.cons st rest) h b used =
          cons_case st rest used (reconstruct_statements rest (state b used false))
            (reconstruct_statements-PreservesAll rest h.1 b used)
            (reconstruct_statement-Preserves st h.0)

    finalize_block :
        {F : Type 0} (f : Finalize F) (o : Option (Statements × DeadCodeEliminator))
        → PreservesAll eval is_true same component effect [] f.block.statements o
        → ReturnsFinalize (some f) (elim (as_block f.block.info o) [
          | none ↦ none
          | some (block, s) ↦ some (some (record { header = f.header; block = block }), s)
        ])
    unfolding ImplementsFinalize
    finalize_block f none h = absurd h
    finalize_block f (some (sts, s)) h = (refl, λ r w. h.2 r r w (λ x m. refl))

    reconstruct_finalize-Implements :
        {F : Type 0} (f : Option (Finalize F)) (s : DeadCodeEliminator)
        → IsReducedFinalize effect f
        → ReturnsFinalize f (reconstruct_finalize f s)
    unfolding ImplementsFinalize reconstruct_finalize reset IsReducedFinalize reconstruct_block
    reconstruct_finalize-Implements none s h = tt
    reconstruct_finalize-Implements (some f) s h =
        finalize_block f (reconstruct_statements f.block.statements (state s.node_builder [] false))
          (reconstruct_statements-PreservesAll f.block.statements h s.node_builder [])

    function_finalize :
        {H F : Type 0} (input : Function H F) (block : Block)
        (o : Option (Option (Finalize F) × DeadCodeEliminator))
        → Implements input.block block
        → ReturnsFinalize input.finalize o
        → ImplementsFunction input (elim o [
          | none ↦ none
          | some (f, s) ↦ some (record { header = input.header; block = block; finalize = f }, s)
        ])
    unfolding ImplementsFunction
    function_finalize input block none body h = absurd h
    function_finalize input block (some (f, s)) body h = (refl, body, h)

    function_body :
        {H F : Type 0} (input : Function H F) (o : Option (Statements × DeadCodeEliminator))
        → IsReducedFinalize effect input.finalize
        → PreservesAll eval is_true same component effect [] input.block.statements o
        → ImplementsFunction input (elim (as_block input.block.info o) [
          | none ↦ none
          | some (block, s) ↦
              (reconstruct_finalize input.finalize >>= λ finalize.
              pure (record { header = input.header; block = block; finalize = finalize }))
                s
        ])
    unfolding ImplementsFunction
    function_body input none hf h = absurd h
    function_body input (some (sts, s)) hf h =
        function_finalize input (record { statements = sts; info = input.block.info })
          (reconstruct_finalize input.finalize s) (λ r w. h.2 r r w (λ x m. refl))
          (reconstruct_finalize-Implements input.finalize s hf)

    -- On a function in static single assignment form, flattened and unrolled, in which the associated
    -- functions that stand as statements are `Mapping::set` and `Mapping::remove`, the pass does not
    -- panic and keeps the header; where the body or the finalize block succeeds, so does the one that
    -- the pass returns, with the same world and the same returned values. What an expression evaluates
    -- to and what effect it has may depend on its variables and the world only, and an assigned call
    -- leaves the world as it is.
    pub reconstruct_function-Implements :
        {H F : Type 0} (input : Function H F) (s : DeadCodeEliminator)
        → AreReduced effect input.block.statements
        → IsReducedFinalize effect input.finalize
        → ImplementsFunction input (reconstruct_function input s)
    unfolding reconstruct_function reset reconstruct_block
    reconstruct_function-Implements input s body finalize =
        function_body input
          (reconstruct_statements input.block.statements (state s.node_builder [] false)) finalize
          (reconstruct_statements-PreservesAll input.block.statements body s.node_builder [])
