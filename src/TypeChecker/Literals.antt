-- ===== src/TypeChecker/Literals.antt =====
-- The literals that compiler/passes/src/type_checking/check_expressions.rs accepts: their types, and
-- their conversion in compiler/ast/src/value/mod.rs.
use aleotiktacto.TypeChecker.{TypeChecker}
use aleotiktacto.Prelude.{ℕ, Option, none, some, List, ◌≡◌, refl, sym, ap, ◌∙◌, length}
use aleotiktacto.Ast.{Span, IntegerType, Ty, Literal}
use aleotiktacto.Int.{ℤ}
use aleotiktacto.Values.{Value, type_of}
use aleotiktacto.Values.Convert.{try_from, parse_integer, remove_underscores}
use aleotiktacto.TypeChecker.Triples.{
  Triple, Triple-pure, Triple-bind, Triple-weaken, Triple-emit_err, Triple-emit_if,
}
use aleotiktacto.TypeChecker.Checks.{Accepts, Triple-then, assert_and_return_type-Accepts}
use aleotiktacto.TypeChecker.Asserts.{assert_and_return_type}
use aleotiktacto.TypeChecker.Operators.{check_parsed, parse_integer_literal, visit_literal}

assert_and_return_type-returns :
    (t : Ty) (d : Option Ty) (span : Span) → Triple (assert_and_return_type t d span) (λ u. u ≡ t)
unfolding assert_and_return_type
assert_and_return_type-returns t none span = Triple-pure t refl
assert_and_return_type-returns t (some e) span =
    Triple-then _ _ (Triple-emit_if _ _) (λ a. Triple-pure t refl)

-- No error means that the text is parsed.
check_parsed-some :
    (o : Option ℤ) (string : List ℕ) (t : IntegerType) (span : Span)
    → Triple (check_parsed o string t span) (λ u. (z : ℤ) × (o ≡ some z))
unfolding check_parsed
check_parsed-some none string t span = Triple-emit_err _
check_parsed-some (some z) string t span = Triple-pure tt (z, refl)

parse_integer_literal-some :
    (t : IntegerType) (s : List ℕ) (span : Span)
    → Triple
        (parse_integer_literal t s span)
        (λ u. (z : ℤ) × (parse_integer t (remove_underscores s) ≡ some z))
unfolding parse_integer_literal
parse_integer_literal-some t s span = check_parsed-some _ _ t span

pub visit_literal-Accepts :
    (l : Literal) (d : Option Ty) → Triple (visit_literal l d) (λ t. Accepts d (some t))
unfolding visit_literal
visit_literal-Accepts (Literal.integer t s info) d =
    Triple-then _ _ (parse_integer_literal-some t s _) (λ u. assert_and_return_type-Accepts _ d _)
visit_literal-Accepts (Literal.string s info) d =
    Triple-bind _ _ (Triple-emit_err {Q = λ u. ⊥} _)
      (λ u. Triple-weaken _ (assert_and_return_type-Accepts _ d _) (λ t h k. h))
visit_literal-Accepts _ d = assert_and_return_type-Accepts _ d _

-- The value that a literal is converted to, of the type.
abbrev pub Converts : Literal → Ty → Type 0
Converts l u = (v : Value) × ((try_from l ≡ some v) × (type_of v ≡ u))

Converts-returned : (l : Literal) (t u : Ty) → Converts l t → u ≡ t → Converts l u
Converts-returned l t u (v, (h, k)) e = (v, (h, k ∙ sym e))

plain-Converts :
    (l : Literal) (t : Ty) (d : Option Ty) (span : Span)
    → Converts l t
    → Triple (assert_and_return_type t d span) (Converts l)
plain-Converts l t d span h =
    Triple-weaken _ (assert_and_return_type-returns t d span) (λ u e. Converts-returned l t u h e)

Converts-Triple : (l : Literal) (d : Option Ty) → Triple (visit_literal l d) (Converts l)
unfolding visit_literal try_from type_of
Converts-Triple (Literal.integer t s info) d =
    Triple-bind _ _ (parse_integer_literal-some t s _) (λ u.
      Triple-weaken _ (assert_and_return_type-returns _ d _)
        (λ u e (z, p). (Value.integer t z info.span, (rw p refl, sym e))))
Converts-Triple (Literal.string s info) d =
    Triple-bind _ _ (Triple-emit_err {Q = λ u. ⊥} _)
      (λ u. Triple-weaken _ (assert_and_return_type-returns _ d _) (λ t h k. absurd k))
Converts-Triple (Literal.address s info) d =
    plain-Converts (Literal.address s info) _ d _ (Value.address s info.span, (refl, refl))
Converts-Triple (Literal.boolean b info) d =
    plain-Converts (Literal.boolean b info) _ d _ (Value.boolean b info.span, (refl, refl))
Converts-Triple (Literal.field s info) d =
    plain-Converts (Literal.field s info) _ d _ (Value.field s info.span, (refl, refl))
Converts-Triple (Literal.group g info) d =
    plain-Converts (Literal.group g info) _ d _ (Value.group g info, (refl, refl))
Converts-Triple (Literal.scalar s info) d =
    plain-Converts (Literal.scalar s info) _ d _ (Value.scalar s info.span, (refl, refl))

-- A literal that the type checker visits without an error is converted to a value of the type that
-- the visit returns.
pub visit_literal-Converts :
    (l : Literal) (d : Option Ty) (s s' : TypeChecker) (u : Ty)
    → visit_literal l d s ≡ some (u, s')
    → s'.errors ≡ s.errors
    → Converts l u
visit_literal-Converts l d s s' u h e = ((Converts-Triple l d).run s (u, s') h).holds (ap length e)
