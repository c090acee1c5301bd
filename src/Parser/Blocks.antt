-- ===== src/Parser/Blocks.antt =====
-- compiler/parser/src/parser/statement.rs: statements on the expressions of expression.rs. The fuel
-- bounds the nesting of statements and all that they hold.
use aleotiktacto.Prelude.{ℕ, zero, suc, Bool, List}
use aleotiktacto.Ast.{Statement}
use aleotiktacto.Parser.{out_of_fuel, M}
use aleotiktacto.Parser.Expressions.{parse_expression, parse_conditional_expression}
use aleotiktacto.Parser.Statements.{statement_at}

module _ (is_address : List ℕ → Bool) where
  unfoldable pub parse_statement : ℕ → M Statement
  parse_statement zero c = out_of_fuel
  parse_statement (suc fuel) c =
      statement_at (suc fuel) (parse_expression is_address (suc fuel))
        (parse_conditional_expression is_address (suc fuel)) (parse_statement fuel) c.token.token c
