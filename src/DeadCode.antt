-- ===== src/DeadCode.antt =====
-- compiler/passes/src/dead_code_elimination: the pass that drops assignments to variables which no
-- later necessary statement uses, on the reconstructors of compiler/ast/src/passes/reconstructor.rs.
pub mod Bodies
pub mod Meaning
pub mod Vars
pub mod Marks
pub mod Reads
pub mod Places
pub mod Cases
pub mod Simulation
pub mod Tests
use aleotiktacto.Prelude.{
  ℕ, Bool, true, false, ◌&&◌, ◌||◌, Option, none, some, List, [], ◌∷◌, ◌==◌, if◌then◌else◌,
}
use aleotiktacto.IndexSet.{contains, insert}
use aleotiktacto.Ast.{
  NodeInfo, default_span, Identifier, Ty, Expression, AccessExpression, Expressions,
  MaybeExpression, Members, AssertVariant, Statement, MaybeStatement, Statements, MaybeExpressions,
  Block, dummy, NodeBuilder, next_id,
}

-- The indices of `sym::Mapping`, `sym::remove` and `sym::set`.
abbrev pub sym_mapping : ℕ
sym_mapping = 65

abbrev pub sym_remove : ℕ
sym_remove = 86

abbrev pub sym_set : ℕ
sym_set = 87

pub record DeadCodeEliminator : Type 0 where
  pub node_builder : NodeBuilder
  pub used_variables : List ℕ
  pub is_necessary : Bool

-- `DeadCodeEliminator::new`
abbrev pub new_eliminator : NodeBuilder → DeadCodeEliminator
new_eliminator b = record { node_builder = b; used_variables = []; is_necessary = false }

-- A method on the eliminator; `none` is an `unreachable!`.
abbrev pub M : Type 0 → Type 0
M A = DeadCodeEliminator → Option (A × DeadCodeEliminator)

abbrev pub pure : {A : Type 0} → A → M A
pure a s = some (a, s)

infixl 5 ◌>>=◌ ◌>>◌
abbrev pub ◌>>=◌ : {A B : Type 0} → M A → (A → M B) → M B
◌>>=◌ m f s = elim (m s) [ none ↦ none | some (a, s') ↦ f a s' ]

abbrev pub ◌>>◌ : {B : Type 0} → M (Unit {0}) → M B → M B
m >> k = m >>= λ _. k

abbrev pub unreachable : {A : Type 0} → M A
unreachable s = none

abbrev pub set_necessary : Bool → M (Unit {0})
set_necessary b s = some (tt, record s { is_necessary = b })

-- The test of `reconstruct_associated_function`.
unfoldable pub is_mapping_update : Ty → Identifier → Bool
is_mapping_update (Ty.identifier ty) name =
    ty.name == sym_mapping && (name.name == sym_remove || name.name == sym_set)
is_mapping_update _ name = false

unfoldable pub mark_mapping_update : Ty → Identifier → M (Unit {0})
mark_mapping_update ty name s =
    some (tt, if is_mapping_update ty name then record s { is_necessary = true } else s)

unfoldable pub reconstruct_identifier : Identifier → M Expression
reconstruct_identifier input s = some (
  Expression.identifier input,
  if s.is_necessary then record s { used_variables = insert input.name s.used_variables } else s,
)

unfoldable mutual
  pub reconstruct_expression : Expression → M Expression
  reconstruct_expression (Expression.access a) = do
    a' ← reconstruct_access a
    pure (Expression.access a')
  reconstruct_expression (Expression.array elements info) = do
    elements' ← reconstruct_expressions elements
    pure (Expression.array elements' info)
  reconstruct_expression (Expression.binary left right op info) = do
    left' ← reconstruct_expression left
    right' ← reconstruct_expression right
    pure (Expression.binary left' right' op info)
  reconstruct_expression (Expression.call function arguments external info) = do
    function' ← reconstruct_expression function
    arguments' ← reconstruct_expressions arguments
    pure (Expression.call function' arguments' external info)
  reconstruct_expression (Expression.cast expression type_ info) = do
    expression' ← reconstruct_expression expression
    pure (Expression.cast expression' type_ info)
  reconstruct_expression (Expression.struct name members info) = do
    members' ← reconstruct_members members
    pure (Expression.struct name members' info)
  reconstruct_expression (Expression.err info) = unreachable
  reconstruct_expression (Expression.identifier input) = reconstruct_identifier input
  reconstruct_expression (Expression.literal input) = pure (Expression.literal input)
  reconstruct_expression (Expression.ternary condition if_true if_false info) = do
    condition' ← reconstruct_expression condition
    if_true' ← reconstruct_expression if_true
    if_false' ← reconstruct_expression if_false
    pure (Expression.ternary condition' if_true' if_false' info)
  reconstruct_expression (Expression.tuple elements info) = do
    elements' ← reconstruct_expressions elements
    pure (Expression.tuple elements' info)
  reconstruct_expression (Expression.unary receiver op info) = do
    receiver' ← reconstruct_expression receiver
    pure (Expression.unary receiver' op info)
  reconstruct_expression (Expression.unit info) = pure (Expression.unit info)

  pub reconstruct_access : AccessExpression → M AccessExpression
  reconstruct_access (AccessExpression.array_access inner index info) = do
    inner' ← reconstruct_expression inner
    index' ← reconstruct_expression index
    pure (AccessExpression.array_access inner' index' info)
  reconstruct_access (AccessExpression.associated_constant ty name info) =
      pure (AccessExpression.associated_constant ty name info)
  reconstruct_access (AccessExpression.associated_function ty name arguments info) = do
    mark_mapping_update ty name
    arguments' ← reconstruct_expressions arguments
    set_necessary false
    pure (AccessExpression.associated_function ty name arguments' info)
  reconstruct_access (AccessExpression.member_access inner name info) = do
    inner' ← reconstruct_expression inner
    pure (AccessExpression.member_access inner' name info)
  reconstruct_access (AccessExpression.tuple_access inner index info) = do
    inner' ← reconstruct_expression inner
    pure (AccessExpression.tuple_access inner' index info)

  pub reconstruct_expressions : Expressions → M Expressions
  reconstruct_expressions Expressions.nil = pure Expressions.nil
  reconstruct_expressions (Expressions.cons e es) = do
    e' ← reconstruct_expression e
    es' ← reconstruct_expressions es
    pure (Expressions.cons e' es')

  pub reconstruct_initializer : MaybeExpression → M MaybeExpression
  reconstruct_initializer MaybeExpression.absent = unreachable
  reconstruct_initializer (MaybeExpression.present e) = do
    e' ← reconstruct_expression e
    pure (MaybeExpression.present e')

  pub reconstruct_members : Members → M Members
  reconstruct_members Members.end = pure Members.end
  reconstruct_members (Members.initializer name e info ms) = do
    e' ← reconstruct_initializer e
    ms' ← reconstruct_members ms
    pure (Members.initializer name e' info ms')
