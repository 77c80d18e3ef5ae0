-- ===== src/Gateway.antt =====
-- packages/gateway-model/src: the one place through which model requests go: what a provider may be
-- sent, which models a role may use, and what may be spent.
pub mod Artifacts
pub mod Budget
pub mod Catalog
pub mod Service
