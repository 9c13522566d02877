-- ===== src/Core.antt =====
-- Package core: the data types that every other package shares (core/types.go, core/errors.go,
-- core/interfaces.go), and the state that the operations pass along.
pub mod Value
pub mod Types
pub mod Query
pub mod World
pub mod Contract
pub mod Encoding
pub mod Split
