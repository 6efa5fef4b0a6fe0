-- ===== src/Rule.antt =====
-- The parts of a rule: the data types of action.go, proto.go, port.go, opt.go, target.go, table.go
-- and the typed matches of vmstate.go. A kind that is 0 in Go is the constructor `unset`; a kind
-- outside the declared ones takes the same branches in the code as 0.
pub mod Actions
pub mod Opts
pub mod Matches
pub mod TableCommands
pub mod Records
pub use Actions.*
unfoldable pub use Opts.*
pub use Matches.*
pub use TableCommands.*
pub use Records.*
