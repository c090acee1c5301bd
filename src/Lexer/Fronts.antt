-- ===== src/Lexer/Fronts.antt =====
-- What a token stands for, and the arms of `eat` for symbols.
use aleotiktacto.Prelude.{
  ℕ, ◌+◌, ◌≡◌, ◌≢◌, refl, ap, ◌∙◌, ◌⊎◌, inl, inr, Bool, true, false, some, List, [], ◌∷◌, ◌++◌,
  ◌==◌, ==_iff, Bool-cases, arith, subst, some-injective,
}
use aleotiktacto.Chars.{is_ascii_whitespace, byte_len}
use aleotiktacto.Token.{Token, display}
use aleotiktacto.Lexer.{
  ok, err, Eaten, next_is, Arm, match_one, match_two, match_three, match_four, advance, run_arm,
  arms, find_arm,
}

abbrev pub is_white_space : Token → Bool
is_white_space Token.white_space = true
is_white_space _ = false

-- The text of a token other than white space.
abbrev pub Prints : Token → List ℕ → Type 0
Prints t text = (is_white_space t ≡ false) × (display t ≡ text)

-- The token stands for the text: the text is what the token displays, or one white space.
abbrev pub Shows : Token → List ℕ → Type 0
Shows t text =
    Prints t text
    ⊎ ((c : ℕ) × (text ≡ c ∷ []) × (is_ascii_whitespace c ≡ true) × (t ≡ Token.white_space))

-- The input begins with a text that is not empty, has `n` bytes, and that `t` stands for.
abbrev pub Fronts : List ℕ → ℕ → Token → Type 0
Fronts input n t =
    (text : List ℕ) × (rest : List ℕ) × (input ≡ text ++ rest)
    × (n ≡ byte_len text)
    × (text ≢ [])
    × Shows t text

abbrev pub Reads : List ℕ → Eaten → Type 0
Reads input (ok (n, t)) = Fronts input n t
Reads input (err e) = Unit {0}

pub next_is-eq : (c : ℕ) (s : List ℕ) → next_is c s ≡ true → s ≡ c ∷ advance s
next_is-eq c [] h = cc
next_is-eq c (x ∷ s) h = ap (λ t. t ∷ s) ((==_iff x c).0 h)

pub byte_len-append : (s t : List ℕ) → byte_len (s ++ t) ≡ byte_len s + byte_len t
unfolding byte_len
byte_len-append [] t = omega arith
byte_len-append (c ∷ s) t = omega (arith, byte_len-append s t)

-- A token, the text that it displays, and its length.
abbrev pub IsPrinted : ℕ → Token → List ℕ → Type 0
IsPrinted n t text = Prints t text × (n ≡ byte_len text) × (text ≢ [])

abbrev pub IsArm : ℕ → Arm → Type 0
IsArm c (match_one t) = IsPrinted 1 t (c ∷ [])
IsArm c (match_two t c2 t2) = IsPrinted 1 t (c ∷ []) × IsPrinted 2 t2 (c ∷ c2 ∷ [])
IsArm c (match_three t c2 t2 c3 t3) =
    IsPrinted 1 t (c ∷ []) × IsPrinted 2 t2 (c ∷ c2 ∷ []) × IsPrinted 2 t3 (c ∷ c3 ∷ [])
IsArm c (match_four t c2 t2 c3 t3 c4 t4) =
    IsPrinted 1 t (c ∷ [])
    × IsPrinted 2 t2 (c ∷ c2 ∷ [])
    × IsPrinted 2 t3 (c ∷ c3 ∷ [])
    × IsPrinted 3 t4 (c ∷ c3 ∷ c4 ∷ [])

pub front :
    {n : ℕ} {t : Token} (text rest input : List ℕ)
    → IsPrinted n t text
    → input ≡ text ++ rest
    → Fronts input n t
front text rest input p e = (text, rest, e, p.1, p.2, inl p.0)

pub run_arm-Fronts : (c : ℕ) (a : Arm) (s : List ℕ) → IsArm c a → Reads (c ∷ s) (ok (run_arm a s))
unfolding run_arm
run_arm-Fronts c (match_one t) s p = front (c ∷ []) s _ p refl
run_arm-Fronts c (match_two t c2 t2) s p = elim (Bool-cases (next_is c2 s)) [
  | inl h ↦ rw h (front (c ∷ c2 ∷ []) (advance s) _ p.1 (ap (λ r. c ∷ r) (next_is-eq c2 s h)))
  | inr h ↦ rw h (front (c ∷ []) s _ p.0 refl)
]
run_arm-Fronts c (match_three t c2 t2 c3 t3) s p = elim (Bool-cases (next_is c2 s)) [
  | inl h ↦ rw h (front (c ∷ c2 ∷ []) (advance s) _ p.1 (ap (λ r. c ∷ r) (next_is-eq c2 s h)))
  | inr h ↦ rw h (elim (Bool-cases (next_is c3 s)) [
    | inl k ↦ rw k (front (c ∷ c3 ∷ []) (advance s) _ p.2 (ap (λ r. c ∷ r) (next_is-eq c3 s k)))
    | inr k ↦ rw k (front (c ∷ []) s _ p.0 refl)
  ])
]
run_arm-Fronts c (match_four t c2 t2 c3 t3 c4 t4) s p = elim (Bool-cases (next_is c2 s)) [
  | inl h ↦ rw h (front (c ∷ c2 ∷ []) (advance s) _ p.1 (ap (λ r. c ∷ r) (next_is-eq c2 s h)))
  | inr h ↦ rw h (elim (Bool-cases (next_is c3 s)) [
    | inl k ↦ rw k (elim (Bool-cases (next_is c4 (advance s))) [
      | inl m ↦ rw m (
          front (c ∷ c3 ∷ c4 ∷ []) (advance (advance s)) _ p.3
            (ap (λ r. c ∷ r) (next_is-eq c3 s k ∙ ap (λ r. c3 ∷ r) (next_is-eq c4 (advance s) m))))
      | inr m ↦ rw m (front (c ∷ c3 ∷ []) (advance s) _ p.2 (ap (λ r. c ∷ r) (next_is-eq c3 s k)))
    ])
    | inr k ↦ rw k (front (c ∷ []) s _ p.0 refl)
  ])
]

pub append-ne-nil : (s : List ℕ) (c : ℕ) (r : List ℕ) → s ++ c ∷ r ≢ []
append-ne-nil [] c r h = cc
append-ne-nil (x ∷ s) c r h = cc

abbrev pub AllArms : List (ℕ × Arm) → Type 0
AllArms [] = Unit {0}
AllArms ((c, a) ∷ r) = IsArm c a × AllArms r

pub cons-ne-nil : {c : ℕ} {s : List ℕ} → c ∷ s ≢ []
cons-ne-nil h = cc

pub arms_lem : AllArms arms
unfolding display byte_len
arms_lem = ground arith

pub find_arm-IsArm :
    (c : ℕ) (l : List (ℕ × Arm)) {a : Arm} → AllArms l → find_arm c l ≡ some a → IsArm c a
unfolding find_arm
find_arm-IsArm c [] p h = cc
find_arm-IsArm c ((x, b) ∷ l) {a} p h = elim (Bool-cases (c == x)) [
  | inl e ↦ rw ((==_iff c x).0 e) (subst (IsArm x) (some-injective b a (rw e at h)) p.0)
  | inr e ↦ find_arm-IsArm c l p.1 (rw e at h)
]
