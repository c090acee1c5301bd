-- ===== src/Range.antt =====
-- compiler/passes/src/loop_unrolling/range_iterator.rs: the values over which a loop is unrolled,
-- for bounds of type u128.
pub mod Values
pub mod Tests
use aleotiktacto.Prelude.{
  ℕ, zero, suc, ◌+◌, ◌%◌, ◌^◌, Option, none, some, List, [], ◌∷◌, ltb, if◌then◌else◌,
}

pub data Clusivity : Type 0 where
  inclusive exclusive : Clusivity

pub record RangeIterator : Type 0 where
  pub end : ℕ
  pub current : Option ℕ
  pub clusivity : Clusivity

unfoldable pub new : ℕ → ℕ → Clusivity → RangeIterator
new start end clusivity = record { end = end; current = some start; clusivity = clusivity }

-- `value.add(I::one())`
unfoldable pub add_one : ℕ → ℕ
add_one value = (value + 1) % 2 ^ 128

-- What the last value is for: it is yielded where the bound is inclusive.
unfoldable pub last : Clusivity → ℕ → Option ℕ
last Clusivity.exclusive value = none
last Clusivity.inclusive value = some value

-- `Iterator::next`, with the iterator that it leaves.
unfoldable pub next : RangeIterator → Option ℕ × RangeIterator
next it = elim it.current [
  | none ↦ (none, it)
  | some value ↦
      if ltb value it.end
      then (some value, record it { current = some (add_one value) })
      else (last it.clusivity value, record it { current = none })
]

unfoldable pub prepend : ℕ → Option (List ℕ) → Option (List ℕ)
prepend value none = none
prepend value (some vs) = some (value ∷ vs)

-- The items of the iterator until the first `None`; `none` where the fuel does not suffice.
unfoldable pub collect : ℕ → RangeIterator → Option (List ℕ)
collect zero it = none
collect (suc fuel) it = elim (next it).0 [
  | none ↦ some []
  | some value ↦ prepend value (collect fuel (next it).1)
]
