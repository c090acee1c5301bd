-- ===== src/Parser/Places.antt =====
-- compiler/ast/src: the setters and getters of node information that the parser of statements calls.
use aleotiktacto.Prelude.{ℕ}
use aleotiktacto.Ast.{Span, NodeInfo, Literal, Expression, AccessExpression, Statement}

-- `set_id` of a literal, an access and an expression.
unfoldable pub with_id : ℕ → NodeInfo → NodeInfo
with_id id info = record info { id = id }

unfoldable pub literal_with_id : ℕ → Literal → Literal
literal_with_id id (Literal.address s info) = Literal.address s (with_id id info)
literal_with_id id (Literal.field s info) = Literal.field s (with_id id info)
literal_with_id id (Literal.scalar s info) = Literal.scalar s (with_id id info)
literal_with_id id (Literal.string s info) = Literal.string s (with_id id info)
literal_with_id id (Literal.group g info) = Literal.group g (with_id id info)
literal_with_id id (Literal.boolean b info) = Literal.boolean b (with_id id info)
literal_with_id id (Literal.integer t s info) = Literal.integer t s (with_id id info)

unfoldable pub access_with_id : ℕ → AccessExpression → AccessExpression
access_with_id id (AccessExpression.array_access e i info) =
    AccessExpression.array_access e i (with_id id info)
access_with_id id (AccessExpression.associated_constant t name info) =
    AccessExpression.associated_constant t name (with_id id info)
access_with_id id (AccessExpression.associated_function t name args info) =
    AccessExpression.associated_function t name args (with_id id info)
access_with_id id (AccessExpression.member_access e name info) =
    AccessExpression.member_access e name (with_id id info)
access_with_id id (AccessExpression.tuple_access e i info) =
    AccessExpression.tuple_access e i (with_id id info)

unfoldable pub set_id : ℕ → Expression → Expression
set_id id (Expression.access a) = Expression.access (access_with_id id a)
set_id id (Expression.array es info) = Expression.array es (with_id id info)
set_id id (Expression.binary l r op info) = Expression.binary l r op (with_id id info)
set_id id (Expression.call f args external info) = Expression.call f args external (with_id id info)
set_id id (Expression.cast e t info) = Expression.cast e t (with_id id info)
set_id id (Expression.struct name ms info) = Expression.struct name ms (with_id id info)
set_id id (Expression.err info) = Expression.err (with_id id info)
set_id id (Expression.identifier i) = Expression.identifier (record i { info = with_id id i.info })
set_id id (Expression.literal l) = Expression.literal (literal_with_id id l)
set_id id (Expression.ternary c a b info) = Expression.ternary c a b (with_id id info)
set_id id (Expression.tuple es info) = Expression.tuple es (with_id id info)
set_id id (Expression.unary e op info) = Expression.unary e op (with_id id info)
set_id id (Expression.unit info) = Expression.unit (with_id id info)

-- `span()` of a statement.
unfoldable pub statement_span : Statement → Span
statement_span (Statement.assert v info) = info.span
statement_span (Statement.assign place value info) = info.span
statement_span (Statement.block ss info) = info.span
statement_span (Statement.conditional c ss then_info next info) = info.span
statement_span (Statement.console v info) = info.span
statement_span (Statement.const i t e info) = info.span
statement_span (Statement.definition d place t e info) = info.span
statement_span (Statement.expression e info) = info.span
statement_span (Statement.iteration i t a b inclusive ss block_info info) = info.span
statement_span (Statement.return e es info) = info.span
