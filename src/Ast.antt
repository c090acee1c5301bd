-- ===== src/Ast.antt =====
-- The abstract syntax of compiler/ast/src: types (types/), expressions (expressions/, access/) and
-- statements (statement/). A symbol is the index under which compiler/span/src/symbol.rs interns
-- it. `Box` is left out, and a list of nodes is a type of its own.
pub mod Functions
pub mod Types
use aleotiktacto.Prelude.{ℕ, ◌+◌, Bool, List}

-- `Span` of compiler/span/src/span.rs.
pub record Span : Type 0 where
  pub lo : ℕ
  pub hi : ℕ

-- The fields `span` and `id` that every node has.
pub record NodeInfo : Type 0 where
  pub span : Span
  pub id : ℕ

-- `Span::default()`
abbrev pub default_span : Span
default_span = record { lo = 0; hi = 0 }

-- common/identifier.rs
pub record Identifier : Type 0 where
  pub name : ℕ
  pub info : NodeInfo

pub data IntegerType : Type 0 where
  u8 u16 u32 u64 u128 i8 i16 i32 i64 i128 : IntegerType

mutual
  -- types/type_.rs, with array.rs, mapping.rs and tuple.rs
  pub data Ty : Type 0 where
    address boolean field group scalar signature string unit err : Ty
    array : Ty → ℕ → Ty
    identifier : Identifier → Ty
    integer : IntegerType → Ty
    mapping : Ty → Ty → Ty
    tuple : TyList → Ty

  pub data TyList : Type 0 where
    nil : TyList
    cons : Ty → TyList → TyList

-- groups/group_coordinate.rs
pub data GroupCoordinate : Type 0 where
  number : List ℕ → Span → GroupCoordinate
  sign_high sign_low inferred : GroupCoordinate

-- groups/group_literal.rs; the span and the number of a literal stand beside it.
pub data GroupLiteral : Type 0 where
  single : List ℕ → GroupLiteral
  affine : GroupCoordinate → GroupCoordinate → GroupLiteral

-- expressions/literal.rs
pub data Literal : Type 0 where
  address field scalar string : List ℕ → NodeInfo → Literal
  group : GroupLiteral → NodeInfo → Literal
  boolean : Bool → NodeInfo → Literal
  integer : IntegerType → List ℕ → NodeInfo → Literal

-- expressions/binary.rs
pub data BinaryOperation : Type 0 where
  add add_wrapped and bitwise_and div div_wrapped eq gte gt lte lt mod_ mul : BinaryOperation
  mul_wrapped nand neq nor or bitwise_or pow pow_wrapped rem rem_wrapped shl : BinaryOperation
  shl_wrapped shr shr_wrapped sub sub_wrapped xor : BinaryOperation

-- expressions/unary.rs
pub data UnaryOperation : Type 0 where
  abs abs_wrapped double inverse negate not square square_root : UnaryOperation
  to_x_coordinate to_y_coordinate : UnaryOperation

mutual
  -- expressions/mod.rs
  pub data Expression : Type 0 where
    access : AccessExpression → Expression
    array : Expressions → NodeInfo → Expression
    binary : Expression → Expression → BinaryOperation → NodeInfo → Expression
    call : Expression → Expressions → MaybeExpression → NodeInfo → Expression
    cast : Expression → Ty → NodeInfo → Expression
    struct : Identifier → Members → NodeInfo → Expression
    err : NodeInfo → Expression
    identifier : Identifier → Expression
    literal : Literal → Expression
    ternary : Expression → Expression → Expression → NodeInfo → Expression
    tuple : Expressions → NodeInfo → Expression
    unary : Expression → UnaryOperation → NodeInfo → Expression
    unit : NodeInfo → Expression

  -- expressions/access.rs and access/
  pub data AccessExpression : Type 0 where
    array_access : Expression → Expression → NodeInfo → AccessExpression
    associated_constant : Ty → Identifier → NodeInfo → AccessExpression
    associated_function : Ty → Identifier → Expressions → NodeInfo → AccessExpression
    member_access : Expression → Identifier → NodeInfo → AccessExpression
    tuple_access : Expression → ℕ → NodeInfo → AccessExpression

  -- `Vec<Expression>`
  pub data Expressions : Type 0 where
    nil : Expressions
    cons : Expression → Expressions → Expressions

  -- `Option<Expression>`
  pub data MaybeExpression : Type 0 where
    absent : MaybeExpression
    present : Expression → MaybeExpression

  -- `Vec<StructVariableInitializer>` of expressions/struct_init.rs
  pub data Members : Type 0 where
    end : Members
    initializer : Identifier → MaybeExpression → NodeInfo → Members → Members

-- statement/assert.rs, and `ConsoleFunction` of statement/console/console_function.rs
pub data AssertVariant : Type 0 where
  assert : Expression → AssertVariant
  assert_eq : Expression → Expression → AssertVariant
  assert_neq : Expression → Expression → AssertVariant

pub data DeclarationType : Type 0 where
  const let_ : DeclarationType

-- `Option<Vec<Expression>>`
pub data MaybeExpressions : Type 0 where
  absent : MaybeExpressions
  present : Expressions → MaybeExpressions

mutual
  -- statement/mod.rs. The block of a conditional or an iteration is its statements and its node
  -- information. The values that an iteration statement caches for its bounds are left out.
  pub data Statement : Type 0 where
    assert : AssertVariant → NodeInfo → Statement
    assign : Expression → Expression → NodeInfo → Statement
    block : Statements → NodeInfo → Statement
    conditional : Expression → Statements → NodeInfo → MaybeStatement → NodeInfo → Statement
    console : AssertVariant → NodeInfo → Statement
    const : Identifier → Ty → Expression → NodeInfo → Statement
    definition : DeclarationType → Expression → Ty → Expression → NodeInfo → Statement
    expression : Expression → NodeInfo → Statement
    iteration :
        Identifier
        → Ty
        → Expression
        → Expression
        → Bool
        → Statements
        → NodeInfo
        → NodeInfo
        → Statement
    return : Expression → MaybeExpressions → NodeInfo → Statement

  pub data MaybeStatement : Type 0 where
    absent : MaybeStatement
    present : Statement → MaybeStatement

  -- `Vec<Statement>`
  pub data Statements : Type 0 where
    nil : Statements
    cons : Statement → Statements → Statements

-- statement/block.rs
pub record Block : Type 0 where
  pub statements : Statements
  pub info : NodeInfo

-- `Statement::dummy`
unfoldable pub dummy : Span → ℕ → Statement
dummy span id = Statement.block Statements.nil (record { span = span; id = id })

-- common/node_builder.rs: `next_id` gives the id and the builder after it.
pub record NodeBuilder : Type 0 where
  pub next : ℕ

unfoldable pub next_id : NodeBuilder → ℕ × NodeBuilder
next_id b = (b.next, record { next = b.next + 1 })
