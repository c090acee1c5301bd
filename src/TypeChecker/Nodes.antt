-- ===== src/TypeChecker/Nodes.antt =====
-- The spans and identifiers of nodes that compiler/passes/src/type_checking/check_expressions.rs reads,
-- and what its visits share.
use aleotiktacto.Prelude.{ℕ, suc, Bool, true, false, Option, none, some}
use aleotiktacto.Ast.{
  Span, NodeInfo, Ty, Literal, Expression, AccessExpression, Expressions, MaybeExpression, Members,
}
use aleotiktacto.Ast.Functions.{Input}
use aleotiktacto.TypeChecker.{M, pure, ◌>>◌, insert_type}

-- `span()` and `id()` of a node
abbrev pub literal_info : Literal → NodeInfo
literal_info (Literal.address s info) = info
literal_info (Literal.boolean b info) = info
literal_info (Literal.field s info) = info
literal_info (Literal.group g info) = info
literal_info (Literal.scalar s info) = info
literal_info (Literal.string s info) = info
literal_info (Literal.integer t s info) = info

abbrev pub access_info : AccessExpression → NodeInfo
access_info (AccessExpression.array_access a i info) = info
access_info (AccessExpression.associated_constant t name info) = info
access_info (AccessExpression.associated_function t name args info) = info
access_info (AccessExpression.member_access e name info) = info
access_info (AccessExpression.tuple_access e i info) = info

abbrev pub info_of : Expression → NodeInfo
info_of (Expression.access a) = access_info a
info_of (Expression.array es info) = info
info_of (Expression.binary l r op info) = info
info_of (Expression.call f args external info) = info
info_of (Expression.cast e t info) = info
info_of (Expression.struct name ms info) = info
info_of (Expression.err info) = info
info_of (Expression.identifier i) = i.info
info_of (Expression.literal l) = literal_info l
info_of (Expression.ternary c a b info) = info
info_of (Expression.tuple es info) = info
info_of (Expression.unary e op info) = info
info_of (Expression.unit info) = info

abbrev pub span_of : Expression → Span
span_of e = (info_of e).span

abbrev pub count : Expressions → ℕ
count Expressions.nil = 0
count (Expressions.cons e es) = suc (count es)

abbrev pub count_members : Members → ℕ
count_members Members.end = 0
count_members (Members.initializer ident value info ms) = suc (count_members ms)

-- `Input::type_`
abbrev pub input_type : Input → Ty
input_type (Input.internal i) = i.type_
input_type (Input.external e) = Ty.identifier e.record_

abbrev pub is_present : MaybeExpression → Bool
is_present MaybeExpression.absent = false
is_present (MaybeExpression.present e) = true

-- What `visit_expression` does with the type of a node.
unfoldable pub record_type : ℕ → Option Ty → M (Option Ty)
record_type id none = pure none
record_type id (some t) = insert_type id t >> pure (some t)
