-- ===== src/Words/Tests.antt =====
-- The operations on words of compiler/ast/src/value/mod.rs at concrete numbers.
use aleotiktacto.Prelude.{◌≡◌, refl, none, some}
use aleotiktacto.Ast.{u8, i8, i16}
use aleotiktacto.Int.{pos, negsuc}
use aleotiktacto.Words.{
  wrapping_add, checked_add, checked_neg, checked_div, wrapping_shl, checked_shl, checked_shr,
  and_word, not_word,
}

wrapping_add_u8 : wrapping_add u8 (pos 200) (pos 100) ≡ pos 44
unfolding wrapping_add aleotiktacto.Words.wrap aleotiktacto.Words.of_bits aleotiktacto.Words.to_bits
    aleotiktacto.Int.◌+ℤ◌
wrapping_add_u8 = refl

checked_add_u8 : checked_add u8 (pos 200) (pos 100) ≡ none
unfolding checked_add aleotiktacto.Words.checked aleotiktacto.Words.in_range aleotiktacto.Int.◌+ℤ◌
checked_add_u8 = refl

checked_neg_min : checked_neg i8 (negsuc 127) ≡ none
unfolding checked_neg aleotiktacto.Words.checked aleotiktacto.Words.in_range
checked_neg_min = refl

checked_div_min : checked_div i8 (negsuc 127) (negsuc 0) ≡ none
unfolding checked_div aleotiktacto.Words.checked aleotiktacto.Words.in_range aleotiktacto.Int.tdiv
checked_div_min = refl

-- -7 / 2 is -3.
checked_div_signed : checked_div i8 (negsuc 6) (pos 2) ≡ some (negsuc 2)
unfolding checked_div aleotiktacto.Words.checked aleotiktacto.Words.in_range aleotiktacto.Int.tdiv
checked_div_signed = refl

wrapping_shl_i8 : wrapping_shl i8 (pos 1) (pos 15) ≡ negsuc 127
unfolding wrapping_shl aleotiktacto.Words.shift_left aleotiktacto.Words.wrap
    aleotiktacto.Words.of_bits aleotiktacto.Words.to_bits aleotiktacto.Int.◌*ℤ◌
wrapping_shl_i8 = refl

checked_shl_i8 : checked_shl i8 (pos 1) (pos 8) ≡ none
unfolding checked_shl
checked_shl_i8 = refl

-- -7 >> 1 is -4.
checked_shr_i16 : checked_shr i16 (negsuc 6) (pos 1) ≡ some (negsuc 3)
unfolding checked_shr aleotiktacto.Int.fdiv
checked_shr_i16 = refl

and_word_i8 : and_word i8 (negsuc 0) (pos 12) ≡ pos 12
unfolding and_word aleotiktacto.Words.of_bits aleotiktacto.Words.to_bits
and_word_i8 = refl

not_word_u8 : not_word u8 (pos 1) ≡ pos 254
unfolding not_word aleotiktacto.Words.of_bits aleotiktacto.Words.to_bits
not_word_u8 = refl
