-- ===== src/Ast/RoundTrip.antt =====
-- The AST of src/common/ast.cpp is the program that the parser read: transform_node_iter undoes the
-- semantic actions of src/parser/syntax_analyzer.y.
pub mod Lists
pub mod Steps
pub mod Expressions
pub mod StatementSteps
pub mod Statements
pub mod Programs
