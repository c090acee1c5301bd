-- ===== src/Assigner.antt =====
-- compiler/passes/src/common/assigner/mod.rs: unique names and simple assignments. A symbol is the text
-- that it interns, and the counter, a `usize`, has no bound.
pub mod Unique
pub mod Tests
use aleotiktacto.Prelude.{ℕ, suc, ◌+◌, List, [], ◌∷◌, ◌++◌}
use aleotiktacto.Ast.{Identifier, Expression, Statement, default_span}
use aleotiktacto.Values.Convert.{decimal}

pub record Assigner : Type 0 where
  pub counter : ℕ

-- `format!("{}{}{}", arg, separator, self.counter - 1)` after the counter is incremented.
unfoldable pub unique_symbol : List ℕ → List ℕ → Assigner → List ℕ × Assigner
unfolding decimal
unique_symbol arg separator a =
    (arg ++ (separator ++ decimal (suc a.counter) a.counter), record { counter = a.counter + 1 })

unfoldable pub simple_assign_statement : Identifier → Expression → ℕ → Statement
simple_assign_statement identifier value id =
    Statement.assign (Expression.identifier identifier) value
      (record { span = default_span; id = id })
