-- ===== src/Core.antt =====
-- packages/core: the context of one request: its size, its compaction and its pinned policy.
pub mod Tokens
pub mod Condenser
pub mod Pinning
pub mod Adapter
pub mod Agent
