-- ===== src/Compiler.antt =====
-- compiler.c: the one-pass compiler. Compiler.Emit has the parser's state and the generation of
-- code, Compiler.Syntax the operators, Compiler.Expr the parser of expressions, and Compiler.Lval
-- to Compiler.Program the statements. Compiler.Tree has expressions with their code and their
-- values; the other modules have the theorems on what the parser emits and on what the code does
-- in the machine.
pub mod Emit
pub mod Syntax
pub mod Expr
pub mod Lval
pub mod Loops
pub mod Stmt
pub mod Function
pub mod Program
pub mod Endless
pub mod Tree
pub mod Operators
pub mod Jumps
pub mod Computes
pub mod Execute
pub mod Grammar
pub mod Emission
pub mod Outcome
pub mod ParseExpr
pub mod Meaning
pub mod Correct
mod Tests
mod Samples
