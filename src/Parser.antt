-- ===== src/Parser.antt =====
-- src/parser.rs: the parser.
pub mod Syntax
pub mod Stream
pub mod Priority
pub mod Expressions
pub mod Suffixes
pub mod Statements
pub mod Chunk
pub mod Takes
pub mod Rounds
pub mod Shape
pub mod Errors
pub mod Manual
pub mod Print
mod Tests
