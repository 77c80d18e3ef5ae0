-- ===== src/Protocol.antt =====
-- packages/protocol: the conversation model and the cost buckets that the other packages share.
pub mod Messages
pub mod Cost
pub mod Events
pub mod AgUi
