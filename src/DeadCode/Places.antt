-- ===== src/DeadCode/Places.antt =====
-- Assignments of compiler/passes/src/dead_code_elimination/eliminate_statement.rs: what the test of
-- the left-hand side says about the values that an assignment changes.
use aleotiktacto.Prelude.{
  ℕ, suc, Bool, true, false, Option, none, some, List, ◌==◌, ◌≡◌, ◌≢◌, ◌⊎◌, refl, sym, ap, ◌∙◌,
  Bool-cases, inl, inr, some-injective, ==_iff,
}
use aleotiktacto.IndexSet.{contains}
use aleotiktacto.Ast.{Expression, Expressions}
use aleotiktacto.DeadCode.Bodies.{any_used, lhs_is_used}
use aleotiktacto.DeadCode.Meaning.{
  IsPlace, AreIdentifiers, store, assign_elements, assign_place, Agrees,
}

pub store-Agrees :
    {V : Type 0} (used : List ℕ) (x : ℕ) (v : V) (r r' : ℕ → V)
    → Agrees used r r'
    → Agrees used (store x v r) (store x v r')
store-Agrees used x v r r' h y m = elim (Bool-cases (x == y)) [
  | inl e ↦ rw e refl
  | inr e ↦ rw e (h y m)
]

true-ne-false : true ≢ false
true-ne-false h = cc

none-ne-some : {A : Type 0} {a : A} → none ≢ some a
none-ne-some h = cc

store_unused :
    {V : Type 0} (used : List ℕ) (x : ℕ) (v : V) (r r' : ℕ → V)
    → contains used x ≡ false
    → Agrees used r r'
    → Agrees used (store x v r) r'
store_unused used x v r r' new h y m = elim (Bool-cases (x == y)) [
  | inl e ↦ absurd (true-ne-false (sym m ∙ ap (contains used) (sym ((==_iff x y).0 e)) ∙ new))
  | inr e ↦ rw e (h y m)
]

-- The test succeeds on a place.
any_used-total :
    (used : List ℕ) (es : Expressions)
    → AreIdentifiers es
    → (any_used used es ≡ some true) ⊎ (any_used used es ≡ some false)
unfolding any_used AreIdentifiers
any_used-total used Expressions.nil h = inr refl
any_used-total used (Expressions.cons (Expression.identifier x) es) h =
    elim (Bool-cases (contains used x.name)) [
      | inl e ↦ inl (rw e refl)
      | inr e ↦ rw e (any_used-total used es h)
    ]
any_used-total used (Expressions.cons _ es) h = absurd h

pub lhs_is_used-total :
    (used : List ℕ) (place : Expression)
    → IsPlace place
    → (lhs_is_used used place ≡ some true) ⊎ (lhs_is_used used place ≡ some false)
unfolding lhs_is_used IsPlace
lhs_is_used-total used (Expression.identifier x) h = elim (Bool-cases (contains used x.name)) [
  | inl e ↦ inl (ap some e)
  | inr e ↦ inr (ap some e)
]
lhs_is_used-total used (Expression.tuple es info) h = any_used-total used es h
lhs_is_used-total used _ h = absurd h

module _ {V W : Type 0} (eval : W → (ℕ → V) → Expression → Option V) (is_true : V → Bool)
    (same : V → V → Bool) (component : V → ℕ → V)
    (effect : (ℕ → V) → Expression → W → Option W) where
  assign_elements-Agrees :
      (used : List ℕ) (es : Expressions) (v : V) (i : ℕ) (r r' : ℕ → V)
      → Agrees used r r'
      → Agrees used
          (assign_elements eval is_true same component effect es v i r)
          (assign_elements eval is_true same component effect es v i r')
  unfolding assign_elements
  assign_elements-Agrees used Expressions.nil v i r r' h = h
  assign_elements-Agrees used (Expressions.cons (Expression.identifier x) es) v i r r' h =
      assign_elements-Agrees used es v (suc i) _ _ (store-Agrees used x.name (component v i) r r' h)
  assign_elements-Agrees used (Expressions.cons _ es) v i r r' h =
      assign_elements-Agrees used es v (suc i) r r' h

  assign_elements_unused :
      (used : List ℕ) (es : Expressions) (v : V) (i : ℕ) (r r' : ℕ → V)
      → any_used used es ≡ some false
      → Agrees used r r'
      → Agrees used (assign_elements eval is_true same component effect es v i r) r'
  unfolding assign_elements any_used
  assign_elements_unused used Expressions.nil v i r r' new h = h
  assign_elements_unused used (Expressions.cons (Expression.identifier x) es) v i r r' new h =
      elim (Bool-cases (contains used x.name)) [
        | inl e ↦ absurd (true-ne-false (some-injective _ _ (rw e at new)))
        | inr e ↦
            assign_elements_unused used es v (suc i) _ _ (rw e at new)
              (store_unused used x.name (component v i) r r' e h)
      ]
  assign_elements_unused used (Expressions.cons _ es) v i r r' new h =
      assign_elements_unused used es v (suc i) r r' (absurd (none-ne-some new)) h

  -- An assignment keeps the agreement of two runs, also if only the first one carries it out and
  -- the place is not used.
  pub assign_place-Agrees :
      (used : List ℕ) (place : Expression) (v : V) (r r' : ℕ → V)
      → Agrees used r r'
      → Agrees used
          (assign_place eval is_true same component effect place v r)
          (assign_place eval is_true same component effect place v r')
  unfolding assign_place
  assign_place-Agrees used (Expression.identifier x) v r r' h = store-Agrees used x.name v r r' h
  assign_place-Agrees used (Expression.tuple es info) v r r' h =
      assign_elements-Agrees used es v 0 r r' h
  assign_place-Agrees used _ v r r' h = h

  pub assign_place_unused :
      (used : List ℕ) (place : Expression) (v : V) (r r' : ℕ → V)
      → lhs_is_used used place ≡ some false
      → Agrees used r r'
      → Agrees used (assign_place eval is_true same component effect place v r) r'
  unfolding assign_place lhs_is_used
  assign_place_unused used (Expression.identifier x) v r r' new h =
      store_unused used x.name v r r' (some-injective _ _ new) h
  assign_place_unused used (Expression.tuple es info) v r r' new h =
      assign_elements_unused used es v 0 r r' new h
  assign_place_unused used _ v r r' new h = h
