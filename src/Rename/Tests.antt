-- ===== src/Rename/Tests.antt =====
-- Tests of compiler/passes/src/common/rename_table/mod.rs, and its theorems at a nested table.
use aleotiktacto.Prelude.{ℕ, none, some, [], ◌∷◌, ◌≡◌, ◌≢◌, refl}
use aleotiktacto.IndexSet.{put}
use aleotiktacto.SymbolTable.{first}
use aleotiktacto.Rename.{
  RenameTable, new, local_names, update, add_entry, lookup, lookup_id, push, pop,
}
use aleotiktacto.Rename.Laws.{update_lem, update_all, pop-push}

-- 1 is renamed to 11 outside, and to 12 inside, where 2 is renamed to 13.
abbrev outer : RenameTable
outer = update 1 11 101 (new none)

abbrev inner : RenameTable
inner = update 2 13 103 (update 1 12 102 (push outer))

table_tests :
    (lookup inner 1 ≡ some 12)
    × (lookup_id inner 11 ≡ some 101)
    × (local_names inner ≡ 1 ∷ 2 ∷ [])
    × (lookup (pop inner).1 1 ≡ some 11)
    × (lookup (pop inner).1 2 ≡ none)
unfolding new local_names update add_entry lookup lookup_id push pop put first
table_tests = (refl, refl, refl, refl, refl)

update_lem_example :
    (lookup (update 1 14 104 inner) 1 ≡ some 14)
    × (lookup_id (update 1 14 104 inner) 14 ≡ some 104)
    × ((x : ℕ) → x ≢ 1 → lookup (update 1 14 104 inner) x ≡ lookup inner x)
    × ((x : ℕ) → x ≢ 14 → lookup_id (update 1 14 104 inner) x ≡ lookup_id inner x)
update_lem_example = update_lem inner 1 14 104

pop-push_example :
    ((x : ℕ) → lookup (push inner) x ≡ lookup inner x)
    × ((x : ℕ) → lookup_id (push inner) x ≡ lookup_id inner x)
    × ((pop (update_all ((1, 15, 105) ∷ []) (push inner))).1 ≡ inner)
pop-push_example = pop-push inner ((1, 15, 105) ∷ [])
