-- ===== src/Subagents.antt =====
-- packages/subagents/src: what a subagent may touch, and a run of one.
pub mod ReadOnly
pub mod Scout
pub mod Tests
