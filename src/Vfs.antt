-- ===== src/Vfs.antt =====
-- The virtual file system of one namespace and its mutations: apps/api/src/persistence/
-- vfs-node.repository.core.ts and vfs-node.repository.file-mutations.ts.
mod Tests
pub mod State
pub mod Mutation
pub mod Chain
pub mod Files
pub mod Commit
pub mod Weights
pub mod Tree
pub mod Ensures
pub mod Balance
pub mod Requests
pub mod Bounds
