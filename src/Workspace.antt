-- ===== src/Workspace.antt =====
-- packages/workspace/src: where the paths of an agent may lead.
pub mod Paths
