-- ===== src/Parse.antt =====
-- The parser: lex.go, proto.go, target.go, port.go, opt.go, action.go and parser.go.
pub mod Next
pub mod Outcome
pub mod Lex
pub mod Numbers
pub mod Port
pub mod Proto
pub mod Target
pub mod Options
pub mod Action
pub mod Body
pub mod Instruction
pub mod Table
pub mod Line
pub mod Records
pub mod Same
pub mod Reads
