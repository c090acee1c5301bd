-- ===== src/Interner/Laws.antt =====
-- compiler/span/src/symbol.rs: what the interner gives back.
use aleotiktacto.Prelude.{
  ℕ, zero, suc, ◌-◌, ◌%◌, ◌^◌, ◌<◌, ◌≡◌, refl, Option, none, some, List, [], ◌∷◌, ◌++◌, inl, inr,
  length, get_elem?, get_elem?-append_last, Option-cases, Bool-cases, equal, equal_iff, arith,
}
use aleotiktacto.Interner.{symbol, get_index_of, intern_at, intern, get}

later_index :
    (s : List ℕ) (set : List (List ℕ)) (string : List ℕ) (i : ℕ) (o : Option ℕ)
    → ((j : ℕ) → o ≡ some j → (get_elem? set j ≡ some string) × (j < length set))
    → elim o [ none ↦ none | some i ↦ some (suc i) ] ≡ some i
    → (get_elem? (s ∷ set) i ≡ some string) × (i < suc (length set))
later_index s set string i none h e = (cc)
later_index s set string i (some j) h e = ground (arith, h j refl)

get_index_of-some :
    (set : List (List ℕ)) (string : List ℕ) (i : ℕ)
    → get_index_of set string ≡ some i
    → (get_elem? set i ≡ some string) × (i < length set)
unfolding get_index_of
get_index_of-some [] string i h = cc
get_index_of-some (s ∷ set) string i h = elim (Bool-cases (equal s string)) [
  | inl e ↦ ground (arith, equal_iff s string)
  | inr e ↦
      later_index s set string i (get_index_of set string) (get_index_of-some set string)
        (rw e at h)
]

symbol-small : (i : ℕ) → i < 2 ^ 32 - 1 → symbol (i % 2 ^ 32) ≡ i
unfolding symbol
symbol-small i h = ground arith

get-append :
    (set : List (List ℕ)) (s t : List ℕ) (i : ℕ)
    → get_elem? set i ≡ some t
    → get_elem? (set ++ s ∷ []) i ≡ some t
get-append [] s t i h = cc
get-append (x ∷ set) s t zero h = h
get-append (x ∷ set) s t (suc i) h = get-append set s t i h

-- In a set with room for one more symbol: the symbol of a string stands for that string, whether it
-- was in the set or not, and a symbol that stood for a string before stands for it still.
pub get-intern :
    (set : List (List ℕ)) (string : List ℕ)
    → length set < 2 ^ 32 - 1
    → (get (intern set string).1 (intern set string).0 ≡ some string)
      × ((old : ℕ) (t : List ℕ) → get set old ≡ some t → get (intern set string).1 old ≡ some t)
unfolding intern intern_at
get-intern set string h = elim (Option-cases (get_index_of set string)) [
  | inl e ↦
      rw (e, symbol-small (length set) h)
        (get_elem?-append_last set string, λ old t g. get-append set string t old g)
  | inr (i, e) ↦
      let found = get_index_of-some set string i e in
      rw (e, symbol-small i (omega arith)) (found.0, λ old t g. g)
]
