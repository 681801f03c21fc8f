-- ===== src/Tests.antt =====
-- The examples of the theorems, at concrete tables, statements and drivers.
mod Data
mod Metadata
mod Rollback
mod Execution
mod Session
mod Rules
mod Audit
mod Request
mod Backup
mod LegacyDdl
mod Protocol
mod Config
