-- ===== src/Rollback/Restoring.antt =====
-- What the SQL of internal/rollback/generator.go restores: the row images that a change had before it, found by the
-- key of those that it has after it.
use goinception_plus.Prelude.{nat_eq}
use goinception_plus.Audit.Types.{Table}
