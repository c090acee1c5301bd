-- ===== src/IndexSet/Laws.antt =====
-- Laws of the set operations: membership, positions, and the last member.
use aleotiktacto.Prelude.{
  ℕ, ◌<◌, ◌≡◌, refl, ap, inl, inr, true, false, ◌||◌, List, [], ◌∷◌, ◌++◌, arith, ◌==◌, Bool-cases,
  length, reverse, reverse-append, reverse-cons,
}
use aleotiktacto.IndexSet.{contains, insert, pop, index_of}

pub contains-append :
    (xs ys : List ℕ) (a : ℕ) → contains (xs ++ ys) a ≡ (contains xs a || contains ys a)
contains-append [] ys a = refl
contains-append (x ∷ xs) ys a = ground (arith, contains-append xs ys a)

pub contains-concat :
    (xs : List ℕ) (x a : ℕ) → contains (xs ++ x ∷ []) a ≡ (contains xs a || x == a)
contains-concat xs x a = ground (arith, contains-append xs (x ∷ []) a)

pub contains-insert :
    (x : ℕ) (xs : List ℕ) (a : ℕ) → contains (insert x xs) a ≡ (contains xs a || x == a)
unfolding insert
contains-insert x xs a = elim (Bool-cases (contains xs x)) [
  | inl old ↦ rw old (ground arith)
  | inr new ↦ rw new (contains-concat xs x a)
]

pub insert_new : (x : ℕ) (xs : List ℕ) → contains xs x ≡ false → insert x xs ≡ xs ++ x ∷ []
unfolding insert
insert_new x xs h = rw h

pub pop-concat : (xs : List ℕ) (x : ℕ) → pop (xs ++ x ∷ []) ≡ xs
unfolding pop
pop-concat [] x = refl
pop-concat (y ∷ []) x = refl
pop-concat (y ∷ z ∷ xs) x = ap (λ t. y ∷ t) (pop-concat (z ∷ xs) x)

pub reverse-concat : (xs : List ℕ) (x : ℕ) → reverse (xs ++ x ∷ []) ≡ x ∷ reverse xs
reverse-concat xs x = reverse-append xs (x ∷ [])

pub contains-reverse : (xs : List ℕ) (a : ℕ) → contains (reverse xs) a ≡ contains xs a
contains-reverse [] a = refl
contains-reverse (x ∷ xs) a =
    rw (reverse-cons x xs) (ground (arith, contains-concat (reverse xs) x a, contains-reverse xs a))

pub index_of-append_of_contains :
    (xs ys : List ℕ) (a : ℕ) → contains xs a ≡ true → index_of (xs ++ ys) a ≡ index_of xs a
index_of-append_of_contains [] ys a h = ground arith
index_of-append_of_contains (x ∷ xs) ys a h = ground (arith, index_of-append_of_contains xs ys a)

pub index_of-concat :
    (xs : List ℕ) (a : ℕ) → contains xs a ≡ false → index_of (xs ++ a ∷ []) a ≡ length xs
index_of-concat [] a h = ground arith
index_of-concat (x ∷ xs) a h = ground (arith, index_of-concat xs a)

pub index_of-lt : (xs : List ℕ) (a : ℕ) → contains xs a ≡ true → index_of xs a < length xs
index_of-lt [] a h = ground arith
index_of-lt (x ∷ xs) a h = ground (arith, index_of-lt xs a)

-- No member is listed twice.
abbrev pub Nodup : List ℕ → Type 0
Nodup [] = Unit {0}
Nodup (x ∷ xs) = (contains xs x ≡ false) × Nodup xs

Nodup-concat : (xs : List ℕ) (a : ℕ) → Nodup xs → contains xs a ≡ false → Nodup (xs ++ a ∷ [])
Nodup-concat [] a n h = (refl, tt)
Nodup-concat (x ∷ xs) a n h =
    (ground (arith, contains-concat xs a x), Nodup-concat xs a n.1 (ground arith))

pub Nodup-insert : (x : ℕ) (xs : List ℕ) → Nodup xs → Nodup (insert x xs)
unfolding insert
Nodup-insert x xs n = elim (Bool-cases (contains xs x)) [
  | inl old ↦ rw old n
  | inr new ↦ rw new (Nodup-concat xs x n new)
]
