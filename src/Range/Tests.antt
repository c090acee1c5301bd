-- ===== src/Range/Tests.antt =====
-- Tests of compiler/passes/src/loop_unrolling/range_iterator.rs, and its theorem at a loop.
use aleotiktacto.Prelude.{some, [], ◌∷◌, ◌≡◌, refl, arith}
use aleotiktacto.Range.{Clusivity, new, add_one, last, next, prepend, collect}
use aleotiktacto.Range.Values.{values, collect-new}

range_tests :
    (collect 9 (new 2 5 Clusivity.exclusive) ≡ some (2 ∷ 3 ∷ 4 ∷ []))
    × (collect 9 (new 2 5 Clusivity.inclusive) ≡ some (2 ∷ 3 ∷ 4 ∷ 5 ∷ []))
    × (collect 9 (new 5 2 Clusivity.exclusive) ≡ some [])
    × (collect 9 (new 5 2 Clusivity.inclusive) ≡ some (5 ∷ []))
unfolding new add_one last next prepend collect
range_tests = (refl, refl, refl, refl)

collect-new_example :
    collect 6 (new 2 5 Clusivity.inclusive) ≡ some (values Clusivity.inclusive 2 5)
collect-new_example = collect-new Clusivity.inclusive 2 5 6 (omega arith) (omega arith)
