-- ===== src/Session.antt =====
-- internal/session/session.go: the audit of a request, the gate before its execution, and the merge
-- of the results of the execution into the records.
pub mod Records
pub mod Database
pub mod Merging
pub mod Auditing
