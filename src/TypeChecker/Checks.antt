-- ===== src/TypeChecker/Checks.antt =====
-- The checks of compiler/passes/src/type_checking/checker.rs: what a type that gives no error satisfies.
use aleotiktacto.Prelude.{
  ℕ, Bool, true, false, not, Option, none, some, List, ◌≡◌, ◌⊎◌, refl, inr, if◌then◌else◌,
}
use aleotiktacto.Ast.{Span, Identifier, Ty}
use aleotiktacto.Ast.Types.{eq_type, eq_flat}
use aleotiktacto.TypeChecker.{
  M, ◌>>=◌, emit_if, insert_type, add_call, Shown, return_incorrect_type,
}
use aleotiktacto.TypeChecker.Triples.{
  Triple, Triple-pure, Triple-bind, Triple-weaken, Triple-emit_if, Triple-emit_err, Triple-silent,
}
use aleotiktacto.TypeChecker.Asserts.{
  contains_type, check_type, check_eq_types, assert_and_return_type, assert_type, assert_expected,
  assert_one_of, check_expected_struct,
}

-- Equal as types, or by `eq_flat`, which the type `Err` is not to itself.
abbrev pub AreFlatEqual : Ty → Ty → Type 0
AreFlatEqual u t = (u ≡ t) ⊎ (eq_flat u t ≡ true)

-- The type returned is, where it is known, the one expected.
abbrev pub Accepts : Option Ty → Option Ty → Type 0
Accepts (some t) (some u) = AreFlatEqual u t
Accepts _ _ = Unit {0}

-- A method that only adds errors.
abbrev pub Grows : {A : Type 0} → M A → Type 0
Grows m = Triple m (λ a. Unit {0})

-- A step, of whose result nothing is used, before a method.
pub Triple-then :
    {A B : Type 0} {P : A → Type 0} {Q : B → Type 0} (m : M A) (f : A → M B)
    → Triple m P
    → ((a : A) → Triple (f a) Q)
    → Triple (m >>= f) Q
Triple-then m f hm hf = Triple-bind m f hm (λ a. Triple-weaken (f a) (hf a) (λ b q p. q))

pub Triple-Grows : {A : Type 0} {P : A → Type 0} (m : M A) → Triple m P → Grows m
Triple-Grows m h = Triple-weaken m h (λ a p. tt)

pub Grows-emit_if : (b : Bool) (e : _) → Grows (emit_if b e)
Grows-emit_if b e = Triple-Grows _ (Triple-emit_if b e)

pub Grows-insert_type : (id : ℕ) (t : Ty) → Grows (insert_type id t)
unfolding insert_type
Grows-insert_type id t = Triple-silent _ _ (λ s. refl) (λ s. refl) (λ s. tt)

pub Grows-add_call : (a b : ℕ) → Grows (add_call a b)
unfolding add_call
Grows-add_call a b = Triple-silent _ _ (λ s. refl) (λ s. refl) (λ s. tt)

-- The type is valid, where it is known.
abbrev pub Valid : (Ty → Bool) → Option Ty → Type 0
Valid is_valid none = Unit {0}
Valid is_valid (some t) = is_valid t ≡ true

not-false : (b : Bool) → not b ≡ false → b ≡ true
not-false true h = refl
not-false false h = absurd cc

pub check_type-Valid :
    (is_valid : Ty → Bool) (e : Shown) (o : Option Ty) (span : Span)
    → Triple (check_type is_valid e o span) (λ u. Valid is_valid o)
unfolding check_type
check_type-Valid is_valid e none span = Triple-pure tt tt
check_type-Valid is_valid e (some t) span =
    Triple-weaken _ (Triple-emit_if _ _) (λ u h. not-false _ h)

pub assert_type-Valid :
    (o : Option Ty) (t : Ty) (span : Span)
    → Triple (assert_type o t span) (λ u. Valid (λ a. eq_flat a t) o)
unfolding assert_type
assert_type-Valid o t span = check_type-Valid _ _ o span

pub assert_one_of-Valid :
    (ts : List Ty) (o : Option Ty) (span : Span)
    → Triple (assert_one_of ts o span) (λ u. Valid (contains_type ts) o)
unfolding assert_one_of
assert_one_of-Valid ts o span = check_type-Valid _ _ o span

pub Grows-assert_one_of :
    (ts : List Ty) (o : Option Ty) (span : Span) → Grows (assert_one_of ts o span)
Grows-assert_one_of ts o span = Triple-Grows _ (assert_one_of-Valid ts o span)

pub assert_expected-Accepts :
    (o d : Option Ty) (span : Span) → Triple (assert_expected o d span) (λ u. Accepts d o)
unfolding assert_expected
assert_expected-Accepts o none span = Triple-pure tt tt
assert_expected-Accepts none (some t) span = Triple-Grows _ (assert_type-Valid none t span)
assert_expected-Accepts (some u) (some t) span =
    Triple-weaken _ (assert_type-Valid (some u) t span) (λ a h. inr h)

pub assert_and_return_type-Accepts :
    (t : Ty) (d : Option Ty) (span : Span)
    → Triple (assert_and_return_type t d span) (λ u. Accepts d (some u))
unfolding assert_and_return_type
assert_and_return_type-Accepts t none span = Triple-pure t tt
assert_and_return_type-Accepts t (some e) span =
    Triple-bind _ _ (Triple-emit_if _ _) (λ a. Triple-pure t (λ h. inr (not-false _ h)))

pub check_expected_struct-Accepts :
    (i : Identifier) (d : Option Ty) (span : Span)
    → Triple (check_expected_struct i d span) (λ u. Accepts d (some u))
unfolding check_expected_struct
check_expected_struct-Accepts i none span = Triple-pure _ tt
check_expected_struct-Accepts i (some e) span =
    Triple-bind _ _ (Triple-emit_if _ _) (λ a. Triple-pure _ (λ h. inr (not-false _ h)))

pub Grows-check_eq_types : (a b : Option Ty) (span : Span) → Grows (check_eq_types a b span)
unfolding check_eq_types
Grows-check_eq_types (some a) (some b) span = Grows-emit_if _ _
Grows-check_eq_types (some a) none span = Triple-emit_err _
Grows-check_eq_types none (some b) span = Triple-emit_err _
Grows-check_eq_types none none span = Triple-pure tt tt

pub Accepts-none : (d : Option Ty) → Accepts d none
Accepts-none none = tt
Accepts-none (some t) = tt

pub return_incorrect_type-Accepts :
    (a b d : Option Ty) → Accepts d a → Accepts d b → Accepts d (return_incorrect_type a b d)
unfolding return_incorrect_type
return_incorrect_type-Accepts (some a) (some b) (some d) p q =
    choose (eq_type a b) (eq_type a d) p q
  where
    choose :
        (x y : Bool)
        → AreFlatEqual a d
        → AreFlatEqual b d
        → Accepts (some d) (if x then some a else if y then some b else some a)
    choose true y p q = p
    choose false true p q = q
    choose false false p q = p
return_incorrect_type-Accepts (some a) (some b) none p q = tt
return_incorrect_type-Accepts none b d p q = Accepts-none d
return_incorrect_type-Accepts (some a) none d p q = Accepts-none d
