-- ===== src/Rename/Laws.antt =====
-- The lookups of compiler/passes/src/common/rename_table/mod.rs behind an update, and its scopes.
use aleotiktacto.Prelude.{ℕ, some, List, [], ◌∷◌, ◌≡◌, ◌≢◌, refl}
use aleotiktacto.IndexSet.Entries.{get-put, get-put_other}
use aleotiktacto.SymbolTable.{first}
use aleotiktacto.Rename.{
  Renamed, RenameTable, outermost, nested, new, add_entry, update, lookup, lookup_id, push, pop,
}

-- Behind an update the symbol has its new name and the new name its id, in whatever scope they were
-- before, and all other symbols have the names and the ids that they had.
pub update_lem :
    (t : RenameTable) (symbol new_symbol id : ℕ)
    → (lookup (update symbol new_symbol id t) symbol ≡ some new_symbol)
      × (lookup_id (update symbol new_symbol id t) new_symbol ≡ some id)
      × ((x : ℕ) → x ≢ symbol → lookup (update symbol new_symbol id t) x ≡ lookup t x)
      × ((x : ℕ) → x ≢ new_symbol → lookup_id (update symbol new_symbol id t) x ≡ lookup_id t x)
unfolding update add_entry lookup lookup_id first
update_lem (outermost r) symbol new_symbol id = (
  get-put symbol new_symbol r.names,
  get-put new_symbol id r.ids,
  get-put_other symbol new_symbol r.names,
  get-put_other new_symbol id r.ids,
)
update_lem (nested parent r) symbol new_symbol id = (
  rw (get-put symbol new_symbol r.names) refl,
  rw (get-put new_symbol id r.ids) refl,
  (λ x ne. rw (get-put_other symbol new_symbol r.names x ne) refl),
  (λ x ne. rw (get-put_other new_symbol id r.ids x ne) refl),
)

-- The updates of a list of a symbol, its new name and its id, in order.
unfoldable pub update_all : List (ℕ × ℕ × ℕ) → RenameTable → RenameTable
update_all [] t = t
update_all ((symbol, new_symbol, id) ∷ us) t = update_all us (update symbol new_symbol id t)

pop-nested :
    (us : List (ℕ × ℕ × ℕ)) (parent : RenameTable) (r : Renamed)
    → (pop (update_all us (nested parent r))).1 ≡ parent
unfolding update_all update pop
pop-nested [] parent r = refl
pop-nested ((symbol, new_symbol, id) ∷ us) parent r =
    pop-nested us parent (add_entry symbol new_symbol id r)

-- A new scope finds all that the scope around it finds; and whatever is updated in the new scope,
-- leaving it gives the table from before.
pub pop-push :
    (t : RenameTable) (us : List (ℕ × ℕ × ℕ))
    → ((x : ℕ) → lookup (push t) x ≡ lookup t x)
      × ((x : ℕ) → lookup_id (push t) x ≡ lookup_id t x)
      × ((pop (update_all us (push t))).1 ≡ t)
unfolding push new lookup lookup_id first
pop-push t us = ((λ x. refl), (λ x. refl), pop-nested us t _)
