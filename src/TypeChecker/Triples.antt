-- ===== src/TypeChecker/Triples.antt =====
-- What holds of a method of the type checker of compiler/passes/src/type_checking that returns: its
-- errors are only added to, and where none is added its result has a property.
use aleotiktacto.Prelude.{
  ℕ, ◌≤◌, Bool, true, false, none, some, [], ◌∷◌, ◌++◌, ◌≡◌, ◌≢◌, refl, sym, ap, ◌∙◌, subst, arith,
  Option-cases, inl, inr, some-injective, length, length-append,
}
use aleotiktacto.TypeChecker.{
  TypeChecker, TypeCheckerError, M, pure, ◌>>=◌, panic, get_state, emit_err, emit_if,
}

abbrev pub num_errors : TypeChecker → ℕ
num_errors s = length s.errors

-- What a run from the one state to the other with this result shows.
pub record Quiet {A : Type 0} (Q : A → Type 0) (s : TypeChecker) (r : A × TypeChecker)
    : Type 0 where
  pub grows : num_errors s ≤ num_errors (r.1)
  pub holds : num_errors (r.1) ≡ num_errors s → Q (r.0)

pub record Triple {A : Type 0} (m : M A) (Q : A → Type 0) : Type 0 where
  pub run : (s : TypeChecker) (r : A × TypeChecker) → m s ≡ some r → Quiet Q s r

-- A method that returns a value and keeps the number of errors.
returns :
    {A : Type 0} (Q : A → Type 0) (s : TypeChecker) (r q : A × TypeChecker)
    → Quiet Q s q
    → some q ≡ some r
    → Quiet Q s r
returns Q s r q h e = subst (Quiet Q s) (some-injective _ _ e) h

none-ne-some : {A : Type 0} {x : A} → none ≢ some x
none-ne-some h = cc

pub Triple-pure : {A : Type 0} {Q : A → Type 0} (a : A) → Q a → Triple (pure a) Q
unfolding pure
Triple-pure {Q = Q} a q = record {
  run = λ s r e. returns Q s r (a, s) (record { grows = omega arith; holds = λ h. q }) e;
}

pub Triple-panic : {A : Type 0} {Q : A → Type 0} → Triple panic Q
unfolding panic
Triple-panic = record { run = λ s r e. absurd (none-ne-some e) }

pub Triple-get_state : Triple get_state (λ s. Unit {0})
unfolding get_state
Triple-get_state = record {
  run = λ s r e.
      returns (λ s. Unit {0}) s r (s, s) (record { grows = omega arith; holds = λ h. tt }) e;
}

pub Triple-emit_err : {Q : Unit {0} → Type 0} (e : TypeCheckerError) → Triple (emit_err e) Q
unfolding emit_err
Triple-emit_err {Q = Q} err = record {
  run = λ s r e.
      returns Q s r (tt, record s { errors = s.errors ++ err ∷ [] })
        (record {
          grows = omega (arith, length-append s.errors (err ∷ []));
          holds = λ h. absurd (omega (arith, length-append s.errors (err ∷ [])));
        })
        e;
}

-- A step that changes no errors.
pub Triple-silent :
    {A : Type 0} {Q : A → Type 0} (m : M A) (f : TypeChecker → A × TypeChecker)
    → ((s : TypeChecker) → m s ≡ some (f s))
    → ((s : TypeChecker) → ((f s).1).errors ≡ s.errors)
    → ((s : TypeChecker) → Q ((f s).0))
    → Triple m Q
Triple-silent {Q = Q} m f eq same q = record {
  run = λ s r e.
      returns Q s r (f s) (record { grows = omega (arith, ap length (same s)); holds = λ h. q s })
        (sym (eq s) ∙ e);
}

pub Triple-bind :
    {A B : Type 0} {P : A → Type 0} {Q : B → Type 0} (m : M A) (f : A → M B)
    → Triple m P
    → ((a : A) → Triple (f a) (λ b. P a → Q b))
    → Triple (m >>= f) Q
unfolding ◌>>=◌
Triple-bind {Q = Q} m f hm hf = record {
  run = λ s r e. elim (Option-cases (m s)) [
    | inl n ↦ absurd (none-ne-some (rw (n, ◌>>=◌) at e))
    | inr ((a, s'), n) ↦
        let first = hm.run s (a, s') n in
        let second = (hf a).run s' r (rw (n, ◌>>=◌) at e) in
        record {
          grows = omega (arith, first.grows, second.grows);
          holds = λ h.
              second.holds (omega (arith, first.grows, second.grows))
                (first.holds (omega (arith, first.grows, second.grows)));
        }
  ];
}

pub Triple-weaken :
    {A : Type 0} {P Q : A → Type 0} (m : M A) → Triple m P → ((a : A) → P a → Q a) → Triple m Q
Triple-weaken m h f = record {
  run =
      λ s r e. let q = h.run s r e in record { grows = q.grows; holds = λ k. f (r.0) (q.holds k) };
}

-- No error under a condition means that it does not hold.
pub Triple-emit_if : (b : Bool) (e : TypeCheckerError) → Triple (emit_if b e) (λ u. b ≡ false)
unfolding emit_if
Triple-emit_if true e = Triple-emit_err e
Triple-emit_if false e = Triple-pure tt refl
