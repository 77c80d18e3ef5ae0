-- ===== src/Session.antt =====
-- packages/session/src: the consent gate, and the snapshots that make edits reversible.
pub mod Approvals
pub mod Checkpoints
pub mod Editing
pub mod Manager
