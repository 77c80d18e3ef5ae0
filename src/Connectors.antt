-- ===== src/Connectors.antt =====
-- packages/connectors/src: the accounts that a user has connected.
pub mod OAuth
pub mod Providers
pub mod Tokens
pub mod Tools
