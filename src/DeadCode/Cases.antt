-- ===== src/DeadCode/Cases.antt =====
-- Each kind of statement of compiler/passes/src/dead_code_elimination/eliminate_statement.rs, before
-- and after the pass.
use aleotiktacto.Prelude.{
  ℕ, Bool, true, false, Option, none, some, List, [], ◌++◌, ◌≡◌, refl, sym, ap, subst,
  if◌then◌else◌, inl, inr, arith, Bool-cases, some-injective,
}
use aleotiktacto.IndexSet.{contains}
use aleotiktacto.Ast.{
  NodeInfo, NodeBuilder, Identifier, Ty, Expression, AccessExpression, Expressions, AssertVariant,
  Statement, Statements, MaybeExpressions, dummy,
}
use aleotiktacto.DeadCode.{DeadCodeEliminator, pure, reconstruct_expression}
use aleotiktacto.DeadCode.Bodies.{
  reconstruct_statement, reconstruct_assert, reconstruct_variant, necessarily, reconstruct_assign,
  finish_assign, eliminate, reconstruct_return, reconstruct_values,
  reconstruct_expression_statement,
}
use aleotiktacto.DeadCode.Vars.{vars, all_vars, IsPlain, bind, reconstruct_expression-IsPlain}
use aleotiktacto.DeadCode.Marks.{
  state, inserted, contains-inserted, variant_vars, value_lem, variant_lem, values_lem, mark_lem,
  associated_function_lem,
}
use aleotiktacto.DeadCode.Meaning.{
  IsReduced, IsQuiet, Outcome, proceed, has_effect, perform, run_assign, run_expression,
  run_statement, run_statements, Agrees, Simulates, finalize_list, IsExpressionStatement, IsValue,
}
use aleotiktacto.DeadCode.Reads.{Agrees-old, Agrees-new, eval_all_vars, holds_vars}
use aleotiktacto.DeadCode.Places.{
  store-Agrees, lhs_is_used-total, assign_place-Agrees, assign_place_unused,
}

checked :
    {V W : Type 0} (used : List ℕ) {o o' : Option Bool} (r r' : ℕ → V) (w : W)
    → o ≡ o'
    → Agrees used r r'
    → Simulates used
        (elim o [ none ↦ none | some b ↦ if b then proceed r w else none ])
        (elim o' [ none ↦ none | some b ↦ if b then proceed r' w else none ])
unfolding Simulates
checked used {o = none} r r' w e h = tt
checked used {o = some true} r r' w e h = rw (sym e) (h, refl, refl)
checked used {o = some false} r r' w e h = tt

assigned :
    {V W : Type 0} (used : List ℕ) {o o' : Option V} (f f' : V → ℕ → V) (w : W)
    → o ≡ o'
    → ((v : V) → Agrees used (f v) (f' v))
    → Simulates used
        (elim o [ none ↦ none | some v ↦ proceed (f v) w ])
        (elim o' [ none ↦ none | some v ↦ proceed (f' v) w ])
unfolding Simulates
assigned used {o = none} f f' w e h = tt
assigned used {o = some v} f f' w e h = rw (sym e) (h v, refl, refl)

dropped :
    {V W : Type 0} (used : List ℕ) (o : Option V) (f : V → ℕ → V) (r' : ℕ → V) (w : W)
    → ((v : V) → Agrees used (f v) r')
    → Simulates used (elim o [ none ↦ none | some v ↦ proceed (f v) w ]) (proceed r' w)
unfolding Simulates
dropped used none f r' w h = tt
dropped used (some v) f r' w h = (h v, refl, refl)

assigned_effect :
    {V W : Type 0} (used : List ℕ) {o o' : Option V} {p p' : Option W} (f f' : V → ℕ → V)
    → o ≡ o'
    → p ≡ p'
    → ((v : V) → Agrees used (f v) (f' v))
    → Simulates used
        (elim o [ none ↦ none | some v ↦ elim p [ none ↦ none | some w ↦ proceed (f v) w ] ])
        (elim o' [ none ↦ none | some v ↦ elim p' [ none ↦ none | some w ↦ proceed (f' v) w ] ])
unfolding Simulates
assigned_effect used {o = none} f f' e q h = tt
assigned_effect used {o = some v} {p = none} f f' e q h = tt
assigned_effect used {o = some v} {p = some w} f f' e q h = rw (sym e, sym q) (h v, refl, refl)

dropped_quiet :
    {V W : Type 0} (used : List ℕ) (o : Option V) (p : Option W) (f : V → ℕ → V) (r' : ℕ → V)
    (w : W)
    → ((w' : W) → p ≡ some w' → w' ≡ w)
    → ((v : V) → Agrees used (f v) r')
    → Simulates used
        (elim o [ none ↦ none | some v ↦ elim p [ none ↦ none | some w' ↦ proceed (f v) w' ] ])
        (proceed r' w)
unfolding Simulates
dropped_quiet used none p f r' w quiet h = tt
dropped_quiet used (some v) none f r' w quiet h = tt
dropped_quiet used (some v) (some w') f r' w quiet h = (h v, quiet w' refl, refl)

effected :
    {V W : Type 0} (used : List ℕ) {o o' : Option W} (r r' : ℕ → V)
    → o ≡ o'
    → Agrees used r r'
    → Simulates used
        (elim o [ none ↦ none | some w ↦ proceed r w ])
        (elim o' [ none ↦ none | some w ↦ proceed r' w ])
unfolding Simulates
effected used {o = none} r r' e h = tt
effected used {o = some w} r r' e h = rw (sym e) (h, refl, refl)

returned :
    {V W : Type 0} (used : List ℕ) {o o' : Option (List V)} (r r' : ℕ → V) (w : W)
    → o ≡ o'
    → Agrees used r r'
    → Simulates used
        (elim o [
          | none ↦ none
          | some vs ↦ some (record { env = r; world = w; returned = some vs })
        ])
        (elim o' [
          | none ↦ none
          | some vs ↦ some (record { env = r'; world = w; returned = some vs })
        ])
unfolding Simulates
returned used {o = none} r r' w e h = tt
returned used {o = some vs} r r' w e h = rw (sym e) (h, refl, refl)

module _ {V W : Type 0} (eval : W → (ℕ → V) → Expression → Option V) (is_true : V → Bool)
    (same : V → V → Bool) (component : V → ℕ → V)
    (effect : (ℕ → V) → Expression → W → Option W) where
  abbrev pub run : Statement → (ℕ → V) → W → Option (Outcome V W)
  run = run_statement eval is_true same component effect

  abbrev pub run_all : Statements → (ℕ → V) → W → Option (Outcome V W)
  run_all = run_statements eval is_true same component effect

  -- The pass returns with the flag unset and with no variable taken from the used ones; and if two
  -- runs agree on the variables used before the statement, so they do on those used behind it.
  abbrev pub Preserves : List ℕ → Statement → Option (Statement × DeadCodeEliminator) → Type 0
  Preserves used st none = ⊥
  Preserves used st (some (st', s)) =
      (s.is_necessary ≡ false)
      × ((x : ℕ) → contains used x ≡ true → contains s.used_variables x ≡ true)
      × ((r r' : ℕ → V) (w : W)
          → Agrees s.used_variables r r'
          → Simulates used (run st r w) (run st' r' w))

  abbrev pub PreservesAll : List ℕ → Statements → Option (Statements × DeadCodeEliminator) → Type 0
  PreservesAll used sts none = ⊥
  PreservesAll used sts (some (sts', s)) =
      (s.is_necessary ≡ false)
      × ((x : ℕ) → contains used x ≡ true → contains s.used_variables x ≡ true)
      × ((r r' : ℕ → V) (w : W)
          → Agrees s.used_variables r r'
          → Simulates used (run_all sts r w) (run_all sts' r' w))

  -- A statement that is kept, with the variables that its run reads marked.
  kept :
      (st : Statement) (xs used : List ℕ) (b : NodeBuilder)
      {o : Option (Statement × DeadCodeEliminator)}
      → o ≡ some (st, state b (inserted xs used) false)
      → ((r r' : ℕ → V) (w : W)
          → Agrees used r r'
          → Agrees xs r r'
          → Simulates used (run st r w) (run st r' w))
      → Preserves used st o
  kept st xs used b e h = subst (Preserves used st) (sym e) (
    refl,
    λ x m. ground (arith, m, contains-inserted xs used x),
    λ r r' w a. h r r' w (Agrees-old xs used a) (Agrees-new xs used a),
  )

  -- A statement that is eliminated, whose run changes nothing that is used.
  eliminated :
      (st : Statement) (used : List ℕ) (b : NodeBuilder)
      {o : Option (Statement × DeadCodeEliminator)}
      → o ≡ eliminate (state b used false)
      → ((r r' : ℕ → V) (w : W) → Agrees used r r' → Simulates used (run st r w) (proceed r' w))
      → Preserves used st o
  unfolding eliminate run_statement dummy
  eliminated st used b e h = subst (Preserves used st) (sym e) (refl, λ x m. m, h)

  module _
      (eval_vars : (e : Expression) (w : W) (r r' : ℕ → V)
        → Agrees (vars e) r r'
        → eval w r e ≡ eval w r' e)
      (effect_vars : (e : Expression) (w : W) (r r' : ℕ → V)
        → Agrees (vars e) r r'
        → effect r e w ≡ effect r' e w) where
    pub assert_case :
        (v : AssertVariant) (info : NodeInfo) (b : NodeBuilder) (used : List ℕ)
        → IsReduced effect (Statement.assert v info)
        → Preserves used (Statement.assert v info) (reconstruct_assert v info (state b used false))
    unfolding IsReduced reconstruct_assert run_statement
    assert_case v info b used h =
        kept (Statement.assert v info) (variant_vars v) used b
          (bind (necessarily (reconstruct_variant v)) _ (variant_lem v h b used false) refl)
          (λ r r' w old new.
            checked used r r' w
              (holds_vars eval is_true same component effect eval_vars effect_vars v w r r' new)
              old)

    perform-vars :
        (e : Expression) (w : W) (r r' : ℕ → V)
        → Agrees (vars e) r r'
        → perform eval is_true same component effect r e w
          ≡ perform eval is_true same component effect r' e w
    unfolding perform
    perform-vars e w r r' h = ap (λ o. if has_effect e then o else some w) (effect_vars e w r r' h)

    perform-quiet :
        (e : Expression) (r : ℕ → V) (w w' : W)
        → (has_effect e ≡ true → IsQuiet effect e)
        → perform eval is_true same component effect r e w ≡ some w'
        → w' ≡ w
    unfolding perform
    perform-quiet e r w w' quiet p = elim (Bool-cases (has_effect e)) [
      | inl on ↦ quiet on r w w' (rw on at p)
      | inr off ↦ sym (some-injective _ _ (rw off at p))
    ]

    pub assign_case :
        (place value : Expression) (info : NodeInfo) (b : NodeBuilder) (used : List ℕ)
        → IsReduced effect (Statement.assign place value info)
        → Preserves used
            (Statement.assign place value info)
            (reconstruct_assign place value info (state b used false))
    unfolding IsReduced reconstruct_assign run_statement run_assign finish_assign
    assign_case place value info b used h = elim (lhs_is_used-total used place h.0) [
      | inl on ↦
          kept (Statement.assign place value info) (vars value) used b
            (rw (on, reconstruct_assign)
              (bind (necessarily (reconstruct_expression value)) _
                (value_lem value h.1 b used false) refl))
            (λ r r' w old new.
              assigned_effect used _ _ (eval_vars value w r r' new) (perform-vars value w r r' new)
                (λ v. assign_place-Agrees eval is_true same component effect used place v r r' old))
      | inr off ↦
          eliminated (Statement.assign place value info) used b (rw (off, reconstruct_assign) refl)
            (λ r r' w old.
              dropped_quiet used (eval w r value) _ _ r' w (λ w'. perform-quiet value r w w' h.2)
                (λ v.
                  assign_place_unused eval is_true same component effect used place v r r' off old))
    ]

    pub const_case :
        (place : Identifier) (type_ : Ty) (value : Expression) (info : NodeInfo) (b : NodeBuilder)
        (used : List ℕ)
        → IsReduced effect (Statement.const place type_ value info)
        → Preserves used
            (Statement.const place type_ value info)
            (reconstruct_statement (Statement.const place type_ value info) (state b used false))
    unfolding IsReduced reconstruct_statement run_statement inserted
    const_case place type_ value info b used h =
        kept (Statement.const place type_ value info) [] used b
          (bind (reconstruct_expression value) _
            (reconstruct_expression-IsPlain value h.0 (state b used false))
            (ap (pure (Statement.const place type_ value info))
              (mark_lem (vars value) b used false)))
          (λ r r' w old new.
            assigned used _ _ w
              (eval_vars value w r r' (subst (λ xs. Agrees xs r r') (sym h.1) new))
              (λ v. store-Agrees used place.name v r r' old))

    pub return_case :
        (e : Expression) (arguments : MaybeExpressions) (info : NodeInfo) (b : NodeBuilder)
        (used : List ℕ)
        → IsReduced effect (Statement.return e arguments info)
        → Preserves used
            (Statement.return e arguments info)
            (reconstruct_return e arguments info (state b used false))
    unfolding IsReduced reconstruct_return run_statement all_vars
    return_case e arguments info b used h =
        kept (Statement.return e arguments info) (vars e ++ all_vars (finalize_list arguments)) used
          b
          (bind (necessarily (reconstruct_values e arguments)) _
            (values_lem e arguments h.0 h.1 b used false) refl)
          (λ r r' w old new.
            returned used r r' w
              (eval_all_vars eval is_true same component effect eval_vars effect_vars
                (Expressions.cons e (finalize_list arguments)) w r r' new)
              old)

    call_case :
        (e : Expression) (info : NodeInfo) (b : NodeBuilder) (used : List ℕ)
        {o : Option (Statement × DeadCodeEliminator)}
        → has_effect e ≡ true
        → o ≡ some (Statement.expression e info, state b (inserted (vars e) used) false)
        → Preserves used (Statement.expression e info) o
    unfolding run_statement run_expression
    call_case e info b used on h =
        kept (Statement.expression e info) (vars e) used b h
          (λ r r' w old new. rw on (effected used r r' (effect_vars e w r r' new) old))

    idle_case :
        (e : Expression) (info : NodeInfo) (b : NodeBuilder) (used : List ℕ)
        {o : Option (Statement × DeadCodeEliminator)}
        → has_effect e ≡ false
        → o ≡ eliminate (state b used false)
        → Preserves used (Statement.expression e info) o
    unfolding run_statement run_expression
    idle_case e info b used off h =
        eliminated (Statement.expression e info) used b h
          (λ r r' w old. rw off (dropped used (eval w r e) _ r' w (λ v. old)))

    pub expression_case :
        (e : Expression) (info : NodeInfo) (b : NodeBuilder) (used : List ℕ)
        → IsExpressionStatement e
        → Preserves used
            (Statement.expression e info)
            (reconstruct_expression_statement e info (state b used false))
    unfolding IsExpressionStatement reconstruct_expression_statement has_effect vars
    expression_case (Expression.call f arguments external i) info b used h =
        call_case (Expression.call f arguments external i) info b used refl (
          bind (necessarily (reconstruct_expression (Expression.call f arguments external i))) _
            (value_lem (Expression.call f arguments external i) (unfold IsValue IsPlain in h) b used
              false)
            refl)
    expression_case (Expression.access (AccessExpression.associated_function ty name arguments i))
          info b used h =
        call_case (Expression.access (AccessExpression.associated_function ty name arguments i))
          info b used refl
          (bind
            (reconstruct_expression
              (Expression.access (AccessExpression.associated_function ty name arguments i)))
            _ (associated_function_lem ty name arguments i b used false h.1) (rw (h.0) refl))
    expression_case e info b used h = idle_case e info b used refl refl
