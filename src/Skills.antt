-- ===== src/Skills.antt =====
-- packages/skills/src: instructions that an administrator has installed, read from files.
pub mod Parse
pub mod Registry
pub mod Tool
pub mod Tests
