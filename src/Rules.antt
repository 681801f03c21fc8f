-- ===== src/Rules.antt =====
-- internal/audit/rules: the rules of the audit.
pub mod ReliableKey
pub mod CreateTable
pub mod DdlSafety
pub mod Dml
pub mod LegacyDdl
