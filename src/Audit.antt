-- ===== src/Audit.antt =====
-- internal/audit: the rule contract, the table metadata, the policy, the catalog and the engine.
pub mod Types
pub mod Codes
pub mod Catalog
pub mod Policy
pub mod Engine
pub mod Validation
