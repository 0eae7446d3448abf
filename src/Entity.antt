-- ===== src/Entity.antt =====
-- The stored entities (src/entity/*.go): plain structs that implement mycontent.Data.
pub mod Content
pub mod Host
pub mod Service
pub mod Job
pub mod Instance
pub mod KeyValue
pub mod Artifact
pub mod Raft
