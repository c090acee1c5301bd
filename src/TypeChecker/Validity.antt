-- ===== src/TypeChecker/Validity.antt =====
-- Methods of the type checker of compiler/passes/src/type_checking/checker.rs that return, and give no
-- error exactly where a property holds.
pub mod Types
pub mod Tests
use aleotiktacto.Prelude.{
  ℕ, zero, suc, ◌<◌, ◌≤◌, Bool, true, false, not, ◌&&◌, Option, none, some, List, [], ◌∷◌, ◌++◌,
  ◌≡◌, ◌≢◌, ◌↔◌, refl, sym, ap, ◌∙◌, subst, arith, leb, append-nil, append_assoc, if◌then◌else◌,
  Bool-cases, inl, inr,
}
use aleotiktacto.Ast.{Span, Identifier, Ty, TyList}
use aleotiktacto.Ast.Functions.{Struct}
use aleotiktacto.SymbolTable.{SymbolTable, lookup_struct}
use aleotiktacto.TypeChecker.{
  TypeChecker, TypeCheckerError, M, pure, ◌>>=◌, ◌>>◌, get_state, emit_err, emit_if, Shown,
  strings_are_not_supported, undefined_type, array_empty, array_too_large,
  array_element_cannot_be_tuple, array_element_cannot_be_record,
}
use aleotiktacto.TypeChecker.Declared.{
  is_record_struct, check_defined, check_element, check_length, assert_type_is_valid,
  assert_types_are_valid,
}

-- The state with more errors.
abbrev pub with_errors : List TypeCheckerError → TypeChecker → TypeChecker
with_errors errs s = record s { errors = s.errors ++ errs }

-- A run that returns with some errors: none exactly where the property holds, and then the result is
-- good.
pub record Run {A : Type 0} (m : M A) (good : A → Type 0) (Q : Type 0) (s : TypeChecker)
    : Type 0 where
  pub result : A
  pub errs : List TypeCheckerError
  pub runs : m s ≡ some (result, with_errors errs s)
  pub sound : errs ≡ [] → Q
  pub complete : Q → (errs ≡ []) × good result

-- Such a run on every state with the symbol table.
pub record Decides {A : Type 0} (t : SymbolTable) (m : M A) (good : A → Type 0) (Q : Type 0)
    : Type 0 where
  pub run : (s : TypeChecker) → s.symbol_table ≡ t → Run m good Q s

abbrev pub IsTrue : Bool → Type 0
IsTrue b = b ≡ true

abbrev pub Any : Unit {0} → Type 0
Any u = Unit {0}

same_errors : (s : TypeChecker) → with_errors [] s ≡ s
same_errors s = ap (λ e. record s { errors = e }) (append-nil s.errors)

++-empty : {A : Type 0} (xs ys : List A) → xs ++ ys ≡ [] → (xs ≡ []) × (ys ≡ [])
++-empty [] ys h = (refl, h)
++-empty (x ∷ xs) ys h = absurd cc

pub Decides-pure :
    {A : Type 0} {good : A → Type 0} {t : SymbolTable} (a : A)
    → good a
    → Decides t (pure a) good (Unit {0})
unfolding pure
Decides-pure a g = record {
  run = λ s e. record {
    result = a;
    errs = [];
    runs = ap (λ x. some (a, x)) (sym (same_errors s));
    sound = λ h. tt;
    complete = λ q. (refl, g);
  };
}

pub Decides-emit_err : {t : SymbolTable} (e : TypeCheckerError) → Decides t (emit_err e) Any ⊥
unfolding emit_err
Decides-emit_err e = record {
  run = λ s k. record {
    result = tt;
    errs = e ∷ [];
    runs = refl;
    sound = λ h. absurd cc;
    complete = λ q. absurd q;
  };
}

pub Decides-emit_if :
    {t : SymbolTable} (b : Bool) (e : TypeCheckerError) → Decides t (emit_if b e) Any (b ≡ false)
unfolding emit_if
Decides-emit_if true e = record {
  run = λ s k.
      let r = (Decides-emit_err {t = s.symbol_table} e).run s refl in
      record {
        result = r.result;
        errs = r.errs;
        runs = r.runs;
        sound = λ h. absurd (r.sound h);
        complete = λ q. absurd cc;
      };
}
Decides-emit_if false e = record {
  run = λ s k.
      let r = (Decides-pure {good = Any} {t = s.symbol_table} tt tt).run s refl in
      record {
        result = r.result;
        errs = r.errs;
        runs = r.runs;
        sound = λ h. refl;
        complete = λ q. r.complete tt;
      };
}

-- A property with the same meaning.
pub Decides-iff :
    {A : Type 0} {good : A → Type 0} {t : SymbolTable} {P Q : Type 0} (m : M A)
    → Decides t m good P
    → (P → Q)
    → (Q → P)
    → Decides t m good Q
Decides-iff m h f g = record {
  run = λ s k.
      let r = h.run s k in
      record {
        result = r.result;
        errs = r.errs;
        runs = r.runs;
        sound = λ e. f (r.sound e);
        complete = λ q. r.complete (g q);
      };
}

pub Decides-get_state :
    {A : Type 0} {good : A → Type 0} {t : SymbolTable} {Q : Type 0} (f : TypeChecker → M A)
    → ((s : TypeChecker) → s.symbol_table ≡ t → Decides t (f s) good Q)
    → Decides t (get_state >>= f) good Q
unfolding ◌>>=◌ get_state
Decides-get_state f h = record {
  run = λ s k.
      let r = (h s k).run s k in
      record {
        result = r.result;
        errs = r.errs;
        runs = r.runs;
        sound = r.sound;
        complete = r.complete;
      };
}

-- A test and then another, given the result of the first.
pub Decides-bind :
    {A B : Type 0} {good : A → Type 0} {t : SymbolTable} {P Q : Type 0} (better : A → B → Type 0)
    (m : M A) (f : A → M B)
    → Decides t m good P
    → ((a : A) → Decides t (f a) (better a) Q)
    → Decides t (m >>= f) (λ b. (a : A) × (good a × better a b)) (P × Q)
unfolding ◌>>=◌
Decides-bind better m f hm hf = record {
  run = λ s k.
      let r = hm.run s k in
      let q = (hf r.result).run (with_errors r.errs s) k in
      record {
        result = q.result;
        errs = r.errs ++ q.errs;
        runs =
            rw (r.runs, ◌>>=◌)
              (q.runs
                ∙ ap (λ e. some (q.result, record s { errors = e }))
                    (append_assoc s.errors r.errs q.errs));
        sound = λ e. let (a, b) = ++-empty r.errs q.errs e in (r.sound a, q.sound b);
        complete = λ (p, w).
            let (a, g) = r.complete p in
            let (b, g') = q.complete w in (ap (λ x. x ++ q.errs) a ∙ b, (r.result, (g, g')));
      };
}

pub Decides-weaken :
    {A : Type 0} {good better : A → Type 0} {t : SymbolTable} {Q : Type 0} (m : M A)
    → Decides t m good Q
    → ((a : A) → good a → better a)
    → Decides t m better Q
Decides-weaken m h f = record {
  run = λ s k.
      let r = h.run s k in
      record {
        result = r.result;
        errs = r.errs;
        runs = r.runs;
        sound = r.sound;
        complete = λ q. let (a, g) = r.complete q in (a, f r.result g);
      };
}

-- A method that gives an error always.
pub Decides-absurd :
    {A : Type 0} {good better : A → Type 0} {t : SymbolTable} {Q : Type 0} (m : M A)
    → Decides t m good Q
    → (Q → ⊥)
    → Decides t m better ⊥
Decides-absurd m h f = record {
  run = λ s k.
      let r = h.run s k in
      record {
        result = r.result;
        errs = r.errs;
        runs = r.runs;
        sound = λ e. f (r.sound e);
        complete = λ q. absurd q;
      };
}
