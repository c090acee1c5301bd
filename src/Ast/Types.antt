-- ===== src/Ast/Types.antt =====
-- compiler/ast/src/types/type_.rs: the derived equality of types, and `Type::eq_flat`.
pub mod Laws
use aleotiktacto.Prelude.{ℕ, suc, Bool, true, false, ◌&&◌, ◌==◌, if◌then◌else◌}
use aleotiktacto.Ast.{Identifier, Span, Ty, TyList, nil, cons}
use aleotiktacto.Values.{same_type}

unfoldable pub span_eq : Span → Span → Bool
span_eq a b = a.lo == b.lo && a.hi == b.hi

-- `PartialEq for Identifier`
unfoldable pub identifier_eq : Identifier → Identifier → Bool
unfolding span_eq
identifier_eq a b = a.name == b.name && span_eq a.info.span b.info.span

unfoldable pub length_types : TyList → ℕ
length_types nil = 0
length_types (cons t ts) = suc (length_types ts)

unfoldable mutual
  -- The derived `PartialEq`; the text of an array's length is left out.
  pub eq_type : Ty → Ty → Bool
  eq_type Ty.address Ty.address = true
  eq_type Ty.boolean Ty.boolean = true
  eq_type Ty.field Ty.field = true
  eq_type Ty.group Ty.group = true
  eq_type Ty.scalar Ty.scalar = true
  eq_type Ty.signature Ty.signature = true
  eq_type Ty.string Ty.string = true
  eq_type Ty.unit Ty.unit = true
  eq_type Ty.err Ty.err = true
  eq_type (Ty.array a n) (Ty.array b m) = eq_type a b && n == m
  eq_type (Ty.identifier a) (Ty.identifier b) = identifier_eq a b
  eq_type (Ty.integer a) (Ty.integer b) = same_type a b
  eq_type (Ty.mapping k v) (Ty.mapping l w) = eq_type k l && eq_type v w
  eq_type (Ty.tuple a) (Ty.tuple b) = eq_types a b
  eq_type _ _ = false

  pub eq_types : TyList → TyList → Bool
  eq_types nil nil = true
  eq_types (cons a ts) (cons b us) = eq_type a b && eq_types ts us
  eq_types _ _ = false

unfoldable mutual
  pub eq_flat : Ty → Ty → Bool
  eq_flat Ty.address Ty.address = true
  eq_flat Ty.boolean Ty.boolean = true
  eq_flat Ty.field Ty.field = true
  eq_flat Ty.group Ty.group = true
  eq_flat Ty.scalar Ty.scalar = true
  eq_flat Ty.signature Ty.signature = true
  eq_flat Ty.string Ty.string = true
  eq_flat Ty.unit Ty.unit = true
  eq_flat (Ty.array a n) (Ty.array b m) = eq_flat a b && n == m
  eq_flat (Ty.identifier a) (Ty.identifier b) = a.name == b.name
  eq_flat (Ty.integer a) (Ty.integer b) = same_type a b
  eq_flat (Ty.mapping k v) (Ty.mapping l w) = eq_flat k l && eq_flat v w
  eq_flat (Ty.tuple a) (Ty.tuple b) = length_types a == length_types b && all_eq_flat a b
  eq_flat _ _ = false

  -- `zip_eq` of lists of one length, and `all`
  pub all_eq_flat : TyList → TyList → Bool
  all_eq_flat (cons a ts) (cons b us) = eq_flat a b && all_eq_flat ts us
  all_eq_flat _ _ = true
