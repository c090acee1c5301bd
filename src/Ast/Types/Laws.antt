-- ===== src/Ast/Types/Laws.antt =====
-- The equalities of types of compiler/ast/src/types/type_.rs.
use aleotiktacto.Prelude.{ℕ, Bool, true, false, ◌&&◌, ◌≡◌, refl, arith, ◌==◌}
use aleotiktacto.Ast.{Ty, TyList, nil, cons}
use aleotiktacto.Ast.Types.{eq_flat, all_eq_flat}

&&-true : (a b : Bool) → (a && b) ≡ true → (a ≡ true) × (b ≡ true)
&&-true true b h = (refl, h)
&&-true false b h = absurd cc

&&-intro : (a b : Bool) → a ≡ true → b ≡ true → (a && b) ≡ true
&&-intro true b h k = k
&&-intro false b h k = h

==_sym : (a b : ℕ) → (a == b) ≡ true → (b == a) ≡ true
==_sym a b h = ground arith

mutual
  unfolding eq_flat all_eq_flat

  pub eq_flat_sym : (a b : Ty) → eq_flat a b ≡ true → eq_flat b a ≡ true
  eq_flat_sym (Ty.array a n) (Ty.array b m) h =
      let (p, q) = &&-true _ _ h in &&-intro _ _ (eq_flat_sym a b p) (==_sym n m q)
  eq_flat_sym (Ty.identifier a) (Ty.identifier b) h = ==_sym a.name b.name h
  eq_flat_sym (Ty.integer a) (Ty.integer b) h = ==_sym _ _ h
  eq_flat_sym (Ty.mapping k v) (Ty.mapping l w) h =
      let (p, q) = &&-true _ _ h in &&-intro _ _ (eq_flat_sym k l p) (eq_flat_sym v w q)
  eq_flat_sym (Ty.tuple a) (Ty.tuple b) h =
      let (p, q) = &&-true _ _ h in &&-intro _ _ (==_sym _ _ p) (all_eq_flat_sym a b q)
  eq_flat_sym _ _ h = ground arith

  pub all_eq_flat_sym : (a b : TyList) → all_eq_flat a b ≡ true → all_eq_flat b a ≡ true
  all_eq_flat_sym (cons a ts) (cons b us) h =
      let (p, q) = &&-true _ _ h in &&-intro _ _ (eq_flat_sym a b p) (all_eq_flat_sym ts us q)
  all_eq_flat_sym (cons a ts) nil h = refl
  all_eq_flat_sym nil (cons b us) h = refl
  all_eq_flat_sym nil nil h = refl
