-- ===== src/Main.antt =====
-- The main program (cmd/deployd/main.go): what it sets up at its start, and how it ends. The libraries
-- that it calls are parameters.
pub mod EntityType
mod Examples
pub mod Setup
pub mod Steps
pub mod Parts
pub mod Modules
pub mod Router
pub mod Ensures
pub mod Ready
pub mod HostInformation
pub mod Answers
pub mod ReplicaId
pub mod Serves
pub mod Startup
pub mod Shutdown
