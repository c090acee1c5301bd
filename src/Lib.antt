-- ===== src/Lib.antt =====
-- The Leo compiler (compiler/): a program text is cut into tokens (compiler/parser/src/tokenizer),
-- parsed to an abstract syntax tree (compiler/ast/src), and rewritten by a sequence of passes
-- (compiler/passes/src) until code can be generated. This library models the tokenizer, the constant
-- values, the parser of statements, the type checker on expressions, the elimination of dead code, and
-- data structures of the passes.
--
-- Token.antt, Lexer.antt and Tokenizer.antt: compiler/parser/src/tokenizer and the byte positions of
-- compiler/span/src/span.rs. `Token::eat` is `eat`, its closures `match_one` to `match_four` are
-- `run_arm` on the table `arms`, `tokenize_iter` collected is `tokenize_iter`. A character is its
-- code point, a string the list of these (Chars.antt has the tests and byte lengths of the standard
-- library), and a symbol the string that it interns. The fuel of `tokenize_iter` is the number of
-- characters; every round eats one at least. A `usize` has no bound; a byte position has 32 bits and
-- wraps around.
--
-- Interner.antt: the interner of compiler/span/src/symbol.rs. A symbol is the number that `as_u32` gives.
--
-- Parser.antt: compiler/parser/src/parser as far as statements go. A method is a function on the
-- parser's context, which holds the tokens, the node builder's next number, the interner's set and the
-- errors that the handler has collected; it returns a value, an error, a panic or `out_of_fuel`.
-- Parser.antt, Parser/Numbers.antt, Parser/Start.antt and Parser/Lists.antt have context.rs,
-- Parser/Types.antt type_.rs, and Parser/Binary.antt, Parser/Groups.antt, Parser/Primary.antt,
-- Parser/Methods.antt, Parser/Postfix.antt and Parser/Expressions.antt expression.rs, and
-- Parser/Statements.antt with Parser/Blocks.antt statement.rs. A method for a part
-- of an expression or a statement takes the parsers of its parts. The tokens carry the text of an identifier, and the
-- symbols are made from it in the order of the tokens. The fuel bounds the nesting and
-- every loop, and one more than the number of tokens is enough. The validity of addresses is snarkVM's,
-- and a parameter. Parser/Grammar.antt has the grammar of the binary operators.
--
-- Graph.antt: compiler/passes/src/common/graph, the dependency graphs of structs, functions and
-- imports. IndexSet.antt has the sets and maps of the indexmap crate in insertion order. A node is
-- a number. `contains_cycle_from` is a depth-first search with the sets `discovered` and `finished`
-- as its state; its fuel is the number of nodes, since every call on a path discovers another node.
--
-- Ast.antt and DeadCode.antt with DeadCode/Bodies.antt: the syntax tree of compiler/ast/src and
-- compiler/passes/src/dead_code_elimination on the reconstructors of
-- compiler/ast/src/passes/reconstructor.rs. A method is a function on the eliminator's state that
-- returns `none` for an `unreachable!`. A symbol is its index. DeadCode/Meaning.antt says what a
-- block does, with the evaluation and the effects of expressions as parameters: calls of functions and
-- of associated functions may change the world.
--
-- SymbolTable.antt: compiler/passes/src/common/symbol_table, the nested scopes of functions, structs
-- and variables; Ast/Functions.antt has what it holds of functions and structs.
--
-- Constants.antt and Assigner.antt: compiler/passes/src/common/constant_propagation_table, the known
-- constants of nested scopes, and compiler/passes/src/common/assigner, which makes unique names.
--
-- Rename.antt: compiler/passes/src/common/rename_table, with the scopes that
-- compiler/passes/src/static_single_assignment/static_single_assigner.rs opens and closes.
--
-- Range.antt: compiler/passes/src/loop_unrolling/range_iterator.rs for bounds of type u128, which wrap
-- around. The fuel that collects the values is the distance of the bounds and two more.
--
-- Values.antt with Values/Convert.antt: compiler/ast/src/value/mod.rs. Int.antt has integers over the
-- native numbers and Words.antt what the standard library does on its ten integer types, from 8 to 128
-- bits: an operation is checked, or wraps around modulo the type's width. A panic is an outcome.
-- Words/Exact.antt and Words/Digits.antt say what the operations mean without those definitions.
--
-- CoreFunction.antt: compiler/ast/src/functions/core_function.rs, on the indices of the predefined
-- symbols of compiler/span/src/symbol.rs in Sym.antt. The arms of `from_symbols` are a table.
--
-- TypeChecker.antt: compiler/passes/src/type_checking, as far as expressions go. A method is a function
-- on the type checker's state, which holds the errors that the handler has collected; it returns `none`
-- for a panic. TypeChecker/Asserts.antt, TypeChecker/CoreCalls.antt, TypeChecker/Scopes.antt and
-- TypeChecker/Declared.antt have the checks and scopes of checker.rs; TypeChecker/Operators.antt,
-- TypeChecker/Accesses.antt, TypeChecker/Calls.antt and TypeChecker/Expressions.antt the visits of
-- check_expressions.rs; and Ast/Types.antt the equalities of types. An operator, an access or a call
-- takes the visits of its parts as arguments. An error is what it is made from, without its text. The
-- greatest length of an array is snarkVM's, and a parameter.
--
-- Prelude.antt has what all parts share. Not modelled: the parser on functions,
-- structs, programs and input files, the type checker on statements and programs, the other passes, and code generation; and the compiler driver, the command line, the
-- errors' texts and the display and serialisation of syntax, which are input and output.
pub mod Prelude
pub mod IndexSet
pub mod Graph
pub mod Token
pub mod Chars
pub mod Lexer
pub mod Tokenizer
pub mod Ast
pub mod DeadCode
pub mod Range
pub mod SymbolTable
pub mod Rename
pub mod Int
pub mod Words
pub mod Values
pub mod Constants
pub mod Assigner
pub mod Sym
pub mod CoreFunction
pub mod TypeChecker
pub mod Interner
pub mod Parser
