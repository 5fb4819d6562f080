-- ===== src/Imports.antt =====
-- cmd/checkimports/main.go: the files that a program imports, and whether they are all there.
pub mod Lex
pub mod Closure
pub mod Closed
pub mod Enough
pub mod Tokens
pub mod Printed
pub mod Outcome
