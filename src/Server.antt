-- ===== src/Server.antt =====
-- cmd/api/main.go: what wires the packages into one server.
pub mod Bootstrap
pub mod Pipeline
pub mod Cors
pub mod Demo
pub mod Embedded
pub mod App
pub mod Concurrent
pub mod Served
pub mod Valued
mod Tests
mod RequestTests
mod ScenarioTests
