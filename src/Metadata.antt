-- ===== src/Metadata.antt =====
-- internal/metadata: the request-local cache of the target's metadata and the schema snapshot that
-- the DDL statements of a request change in order.
pub mod Names
pub mod Presence
pub mod Table
pub mod Alter
pub mod Cache
pub mod Snapshot
