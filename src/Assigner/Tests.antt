-- ===== src/Assigner/Tests.antt =====
-- The names of compiler/passes/src/common/assigner/mod.rs at concrete counters.
use aleotiktacto.Prelude.{ℕ, List, [], ◌∷◌, ◌≡◌, refl, codes}
use aleotiktacto.Chars.{is_ascii_digit}
use aleotiktacto.Assigner.{Assigner, unique_symbol}
use aleotiktacto.Assigner.Unique.{IsMark, AreMarks, AreDistinct, draw, draw-AreDistinct}

abbrev at_ten : Assigner
at_ten = record { counter = 10 }

unique_symbol_ten :
    unique_symbol (codes "x") (codes "$") at_ten ≡ (codes "x$10", record { counter = 11 })
unfolding unique_symbol
unique_symbol_ten = refl

abbrev requests : List (List ℕ × List ℕ)
requests = (codes "x", codes "$") ∷ (codes "x$1", codes "$") ∷ (codes "x", codes "$") ∷ []

requests-AreMarks : AreMarks requests
unfolding AreMarks IsMark is_ascii_digit
requests-AreMarks = (refl, (refl, (refl, tt)))

draw-AreDistinct_example : AreDistinct (draw requests at_ten)
draw-AreDistinct_example = draw-AreDistinct requests at_ten requests-AreMarks
