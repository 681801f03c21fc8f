-- ===== src/Backup.antt =====
-- internal/backup: the capture of the row changes of a statement from the binlog, and the store of
-- the backups.
pub mod Capture
pub mod Store
