-- ===== src/Parser/Grammar.antt =====
-- compiler/parser/src/parser/expression.rs: the grammar of the binary operators, with the levels that
-- its methods are named for, and that what they return is derived by it.
pub mod Sound
pub mod Levels
use aleotiktacto.Prelude.{ℕ, ◌+◌, ◌≡◌, Bool, true, false}
use aleotiktacto.Ast.{Span, NodeInfo, BinaryOperation, Expression}
use aleotiktacto.Token.{Token}
use aleotiktacto.TypeChecker.Nodes.{span_of}
use aleotiktacto.Parser.{ParserContext, ok, M, advanced, join}

pub data Level : Type 0 where
  disjunction conjunction equality ordering exclusive_or inclusive_or bitwise_and shift : Level
  additive multiplicative exponential operand : Level

-- The level of the operands.
abbrev pub tighter : Level → Level
tighter disjunction = conjunction
tighter conjunction = equality
tighter equality = ordering
tighter ordering = exclusive_or
tighter exclusive_or = inclusive_or
tighter inclusive_or = bitwise_and
tighter bitwise_and = shift
tighter shift = additive
tighter additive = multiplicative
tighter multiplicative = exponential
tighter exponential = operand
tighter operand = operand

-- A comparison has no comparison of its level as an operand.
abbrev pub is_comparison : Level → Bool
is_comparison equality = true
is_comparison ordering = true
is_comparison _ = false

-- Which tokens stand for which operator at a level.
pub data Rule : Level → Token → BinaryOperation → Type 0 where
  or_rule : Rule disjunction Token.or BinaryOperation.or
  and_rule : Rule conjunction Token.and BinaryOperation.and
  eq_rule : Rule equality Token.eq BinaryOperation.eq
  neq_rule : Rule equality Token.not_eq BinaryOperation.neq
  lt_rule : Rule ordering Token.lt BinaryOperation.lt
  lte_rule : Rule ordering Token.lt_eq BinaryOperation.lte
  gt_rule : Rule ordering Token.gt BinaryOperation.gt
  gte_rule : Rule ordering Token.gt_eq BinaryOperation.gte
  xor_rule : Rule exclusive_or Token.bit_xor BinaryOperation.xor
  bitwise_or_rule : Rule inclusive_or Token.bit_or BinaryOperation.bitwise_or
  bitwise_and_rule : Rule bitwise_and Token.bit_and BinaryOperation.bitwise_and
  shl_rule : Rule shift Token.shl BinaryOperation.shl
  shr_rule : Rule shift Token.shr BinaryOperation.shr
  add_rule : Rule additive Token.add BinaryOperation.add
  sub_rule : Rule additive Token.sub BinaryOperation.sub
  mul_rule : Rule multiplicative Token.mul BinaryOperation.mul
  div_rule : Rule multiplicative Token.div BinaryOperation.div
  rem_rule : Rule multiplicative Token.rem BinaryOperation.rem
  pow_rule : Rule exponential Token.pow BinaryOperation.pow

-- The node of an operator, numbered by the context behind its right operand.
abbrev pub operator_node : Expression → Expression → BinaryOperation → ParserContext → Expression
operator_node left right op c =
    Expression.binary left right op
      (record { span = join (span_of left) (span_of right); id = c.ids })

-- `Derives l c e c'`: the tokens from `c` to `c'` are the expression `e` of level `l`. The operands are
-- what the method `p` parses. The operators of a level that is no comparison group to the left, and a
-- comparison stands between two expressions of the tighter level.
pub data Derives (p : M Expression)
    : Level → ParserContext → Expression → ParserContext → Type 0 where
  parsed : {c c' : ParserContext} {e : Expression} → p c ≡ ok e c' → Derives p operand c e c'
  plain :
      {l : Level} {c c' : ParserContext} {e : Expression}
      → Derives p (tighter l) c e c'
      → Derives p l c e c'
  grouped :
      {l : Level} {c c1 c2 : ParserContext} {left right : Expression} {op : BinaryOperation}
      → is_comparison l ≡ false
      → Derives p l c left c1
      → Rule l c1.token.token op
      → Derives p (tighter l) (advanced c1) right c2
      → Derives p l c (operator_node left right op c2) (record c2 { ids = c2.ids + 1 })
  compares :
      {l : Level} {c c1 c2 : ParserContext} {left right : Expression} {op : BinaryOperation}
      → is_comparison l ≡ true
      → Derives p (tighter l) c left c1
      → Rule l c1.token.token op
      → Derives p (tighter l) (advanced c1) right c2
      → Derives p l c (operator_node left right op c2) (record c2 { ids = c2.ids + 1 })
