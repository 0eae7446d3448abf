-- ===== src/RaftApp.antt =====
-- The raft application that coordinates deployment jobs (internal/src/raft-app/deploy-job/app.go).
pub mod Messages
pub mod Runtime
pub mod Submit
pub mod Cancel
pub mod Configure
pub mod Restart
pub mod Progress
pub mod Update
pub mod Lifecycle
pub mod Effect
pub mod Safe
pub mod Validity
pub mod Order
pub mod Replay
pub mod Deployment
pub mod Memory
