-- ===== src/CoreFunction/Laws.antt =====
-- `from_symbols` of compiler/ast/src/functions/core_function.rs against the names of the functions.
use aleotiktacto.Prelude.{
  ℕ, true, ◌&&◌, some, List, [], ◌∷◌, ◌≡◌, refl, ap, ◌∙◌, ◌==◌, arith, Bool-cases, inl, inr,
  some-injective, ◌↔◌, subst,
}
use aleotiktacto.CoreFunction.{CoreFunction}
use aleotiktacto.CoreFunction.Names.{names}
use aleotiktacto.CoreFunction.Symbols.{
  SymbolArm, symbol_arm, symbol_arms, find_symbols, from_symbols, bhp_arms, cha_cha_arms,
  keccak_arms, pedersen_arms, poseidon_arms, sha3_arms, other_arms,
}

-- Every arm has the names of its core function.
abbrev AreNamed : List SymbolArm → Type 0
AreNamed [] = Unit {0}
AreNamed (symbol_arm m f c ∷ rest) = (names c ≡ (m, f)) × AreNamed rest

symbol_arms-AreNamed : AreNamed symbol_arms
unfolding symbol_arms bhp_arms cha_cha_arms keccak_arms pedersen_arms poseidon_arms sha3_arms
    other_arms
symbol_arms-AreNamed = search

pair_eq : (a b m f : ℕ) → (a == m && b == f) ≡ true → ◌≡◌ {A = ℕ × ℕ} (a, b) (m, f)
pair_eq a b m f h = ap (λ x. (x, b)) first ∙ ap (λ y. (m, y)) second
  where
    first : a ≡ m
    first = ground arith

    second : b ≡ f
    second = ground arith

find_symbols-names :
    (as_ : List SymbolArm) (m f : ℕ) (c : CoreFunction)
    → AreNamed as_
    → find_symbols as_ m f ≡ some c
    → names c ≡ (m, f)
unfolding find_symbols
find_symbols-names [] m f c h e = absurd cc
find_symbols-names (symbol_arm m' f' c' ∷ rest) m f c (n, h) e =
    elim (Bool-cases (m' == m && f' == f)) [
      | inl p ↦
          subst (λ d. names d ≡ (m, f)) (some-injective _ _ (rw p at e)) (n ∙ pair_eq m' f' m f p)
      | inr p ↦ find_symbols-names rest m f c h (rw p at e)
    ]

from_symbols-names : (c : CoreFunction) → from_symbols ((names c).0) ((names c).1) ≡ some c
unfolding from_symbols symbol_arms bhp_arms cha_cha_arms keccak_arms pedersen_arms poseidon_arms
    sha3_arms other_arms find_symbols
from_symbols-names CoreFunction.bhp256_commit_to_address = refl
from_symbols-names _ = refl

-- `from_symbols` gives exactly the core function of the names, for every core function.
pub from_symbols_lem :
    (m f : ℕ) (c : CoreFunction) → (from_symbols m f ≡ some c) ↔ (names c ≡ (m, f))
unfolding from_symbols
from_symbols_lem m f c = (
  find_symbols-names symbol_arms m f c symbol_arms-AreNamed,
  λ e. subst (λ n. from_symbols (n.0) (n.1) ≡ some c) e (from_symbols-names c),
)
