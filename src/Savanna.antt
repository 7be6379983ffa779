-- ===== src/Savanna.antt =====
-- component/database-savanna: the query compiler, the PostgreSQL dialect, and the error codes.
pub mod Expressions
pub mod Visitor
pub mod Dialect
pub mod Errors
