-- ===== src/DeadCode/Reads.antt =====
-- What is evaluated depends only on the variables that it reads (DeadCode/Meaning.antt).
use aleotiktacto.Prelude.{ℕ, Bool, Option, List, ◌++◌, ◌≡◌, refl, arith}
use aleotiktacto.IndexSet.Laws.{contains-append}
use aleotiktacto.Ast.{Expression, Expressions, AssertVariant}
use aleotiktacto.DeadCode.Vars.{vars, all_vars}
use aleotiktacto.DeadCode.Marks.{inserted, contains-inserted, variant_vars}
use aleotiktacto.DeadCode.Meaning.{eval_all, compare, holds, Agrees}

pub Agrees-front :
    {V : Type 0} (xs ys : List ℕ) {r r' : ℕ → V} → Agrees (xs ++ ys) r r' → Agrees xs r r'
Agrees-front xs ys h x m = h x (ground (arith, m, contains-append xs ys x))

pub Agrees-back :
    {V : Type 0} (xs ys : List ℕ) {r r' : ℕ → V} → Agrees (xs ++ ys) r r' → Agrees ys r r'
Agrees-back xs ys h x m = h x (ground (arith, m, contains-append xs ys x))

pub Agrees-old :
    {V : Type 0} (xs used : List ℕ) {r r' : ℕ → V}
    → Agrees (inserted xs used) r r'
    → Agrees used r r'
Agrees-old xs used h x m = h x (ground (arith, m, contains-inserted xs used x))

pub Agrees-new :
    {V : Type 0} (xs used : List ℕ) {r r' : ℕ → V} → Agrees (inserted xs used) r r' → Agrees xs r r'
Agrees-new xs used h x m = h x (ground (arith, m, contains-inserted xs used x))

module _ {V W : Type 0} (eval : W → (ℕ → V) → Expression → Option V) (is_true : V → Bool)
    (same : V → V → Bool) (component : V → ℕ → V) (effect : (ℕ → V) → Expression → W → Option W)
    (eval_vars : (e : Expression) (w : W) (r r' : ℕ → V)
      → Agrees (vars e) r r'
      → eval w r e ≡ eval w r' e)
    (effect_vars : (e : Expression) (w : W) (r r' : ℕ → V)
      → Agrees (vars e) r r'
      → effect r e w ≡ effect r' e w) where
  pub eval_all_vars :
      (es : Expressions) (w : W) (r r' : ℕ → V)
      → Agrees (all_vars es) r r'
      → eval_all eval is_true same component effect w r es
        ≡ eval_all eval is_true same component effect w r' es
  unfolding eval_all all_vars
  eval_all_vars Expressions.nil w r r' h = refl
  eval_all_vars (Expressions.cons e es) w r r' h =
      rw
        (
          eval_vars e w r r' (Agrees-front (vars e) (all_vars es) h),
          eval_all_vars es w r r' (Agrees-back (vars e) (all_vars es) h),
        )
        refl

  pub holds_vars :
      (v : AssertVariant) (w : W) (r r' : ℕ → V)
      → Agrees (variant_vars v) r r'
      → holds eval is_true same component effect w r v
        ≡ holds eval is_true same component effect w r' v
  unfolding holds compare variant_vars
  holds_vars (AssertVariant.assert e) w r r' h = rw (eval_vars e w r r' h) refl
  holds_vars (AssertVariant.assert_eq left right) w r r' h =
      rw
        (
          eval_vars left w r r' (Agrees-front (vars left) (vars right) h),
          eval_vars right w r r' (Agrees-back (vars left) (vars right) h),
        )
        refl
  holds_vars (AssertVariant.assert_neq left right) w r r' h =
      rw
        (
          eval_vars left w r r' (Agrees-front (vars left) (vars right) h),
          eval_vars right w r r' (Agrees-back (vars left) (vars right) h),
        )
        refl
