-- ===== src/IndexSet/Entries.antt =====
-- The entries of an `IndexMap` after an insertion.
use aleotiktacto.Prelude.{
  ℕ, some, List, [], ◌∷◌, ◌==◌, ◌≡◌, ◌≢◌, refl, sym, ap, ◌∙◌, if◌then◌else◌, Bool-cases, inl, inr,
  ==_refl, ==_ne, ==_iff,
}
use aleotiktacto.IndexSet.{get, put}

module _ {ℓ} {V : Type ℓ} where
  pub get-put : (k : ℕ) (v : V) (m : List (ℕ × V)) → get (put k v m) k ≡ some v
  unfolding put
  get-put k v [] = rw (==_refl k) refl
  get-put k v ((j, w) ∷ m) = elim (Bool-cases (j == k)) [
    | inl e ↦ rw (e, e) refl
    | inr e ↦ rw (e, e) (get-put k v m)
  ]

  pub get-put_other :
      (k : ℕ) (v : V) (m : List (ℕ × V)) (j : ℕ) → j ≢ k → get (put k v m) j ≡ get m j
  unfolding put
  get-put_other k v [] j ne = rw (==_ne k j (λ e. ne (sym e))) refl
  get-put_other k v ((i, w) ∷ m) j ne = elim (Bool-cases (i == k)) [
    | inl e ↦ rw (e, ==_ne i j (λ h. ne (sym h ∙ (==_iff i k).0 e))) refl
    | inr e ↦ rw e (ap (λ r. if i == j then some w else r) (get-put_other k v m j ne))
  ]
