-- ===== src/Lib.antt =====
-- goInception Plus audits, executes and backs up batches of MySQL statements. A request names a
-- target and carries SQL; the parser projects it into statements, the rules audit each of them
-- against a view of the target's schema that the earlier statements of the request have changed, and
-- a batch without errors is executed statement by statement with SQL that undoes each change.
--
-- The parts and the files that model them:
-- - internal/model/model.go: Model, with Model/Ddl, Model/Statements and Model/Records. Structs are
--   records and the named strings are enumerations, the constructors in the order of the constants.
-- - internal/audit/audit.go, internal/audit/catalog.go, internal/audit/policy.go: Audit/Types,
--   Audit/Codes, Audit/Catalog, Audit/Validation, Audit/Policy and Audit/Engine, which runs any list
--   of rules.
-- - internal/metadata/cache.go: Metadata/Cache, the request-local cache over any metadata provider,
--   an interface whose state is threaded through its calls. `table_of` is `LoadTable`, `schema_of` is
--   `LoadSchema`, and a map is an association list whose newest entry wins. Metadata/Cache/Laws says
--   what a load returns.
-- - internal/metadata/snapshot.go: Metadata/Table and Metadata/Alter (`applyTableDDL` and its
--   helpers), Metadata/Snapshot (`PrepareDDL`, `ApplyDDL`). Metadata/Alter/Invariant has the
--   well-formedness of tables, Metadata/Snapshot/Laws the specification over tables by name, which
--   statements are accepted, and what follows for the next ones.
-- - internal/audit/rules: Rules/CreateTable (core.go, ddl_create_table.go), Rules/DdlSafety
--   (ddl_safety.go), Rules/Dml with Rules/Dml/Conversion (dml.go), Rules/ReliableKey
--   (`hasReliableKey`), Rules/LegacyDdl (legacy_ddl.go: checks as values, with Temporal for the dates,
--   Types, Columns and Indexes); the Laws beside them say what a statement without issues fulfils.
-- - internal/rollback/generator.go: Rollback (`Generate` and its parts), Rollback/Literal (literals).
--   Rollback/Quoting reads quoted text back, Rollback/Keys ties the generator to the audit and
--   Rollback/Undoing with Rollback/Restoring says what the SQL undoes.
-- - internal/execution/mysql/engine.go: Execution, Execution/Session (`configureSession`),
--   Execution/Rollbacks (`prepareDDLRollback`), Execution/Run (`Execute`). The connection, the
--   binlog, the backup store and the clock are the operations of `Driver`, over one threaded state.
--   Execution/Order and Execution/Safety have the order of the results and the refusals.
-- - internal/session/session.go: Session/Records, Session/Database, Session/Auditing (`Audit` up to the
--   execution, the parser a parameter) and Session/Merging (its gate and the merge of the results).
-- - internal/request/legacy.go: Request/Encoding (`normalizeConsoleEncoding`, on bytes), Request/Split
--   (`splitSQL`, its flags as one mode), Request/Directives and Request/Envelope
--   (`ParseLegacyEnvelope`). Strings/Utf8 has Go's conversions between bytes and runes. Request/Split/Grammar, Request/Split/Joined,
--   Request/Envelope/Bounds and Request/Encoding/Utf16 have the laws.
-- - internal/backup/binlogmysql/capture.go: Backup/Capture. The events of the streamer are a list, with
--   the error that ends it; the comparison of positions is a parameter. Its children say whose changes are
--   captured, that their images are full, and where the loop stops.
-- - internal/backup/mysqlstore/store.go: Backup/Store, over a server as an interface. Its children have
--   the groups by database, the statements of a `Save` and the names of the databases.
-- - internal/protocol: Protocol/Results (adapter.go, the rows of the result set), Protocol/Processes (the
--   registry of the connections of management.go, whose interleavings are sequences of operations) and
--   Protocol/Patterns (`like`, `unquote`), with their Laws.
-- - internal/config: Config/Levels, the levels of the rules (`SetLevel` of runtime.go, the tables of
--   legacy.go, and what `Policy` of config.go makes of the levels), and Config/Validation (`Validate` of
--   config.go, `validateIncRuntime` of runtime.go), with their Laws.
-- - Tests holds the examples.
--
-- Conventions. A text is a list of code points, and case folding is that of ASCII, which identifiers
-- of the programs are; a string of a row image and of the backup store is a list of bytes. An error is a value of
-- `Audit.Types.Error`, with its text and with what it wraps. Tables are values: the code changes them
-- in place on copies of its own, but for the columns of an added index, which it shares with the
-- operation of the statement; what a later operation of the same ALTER TABLE does to that operation is
-- not modelled. Counts and lengths, which are never negative, are native
-- natural numbers; settings that may be negative are integers. The calls of the cache within one
-- request are sequential. Three nil dereferences (CREATE TABLE LIKE without a reference, the rollback
-- of ADD INDEX or CREATE INDEX without an index) are errors in the model. Every loop is structural
-- recursion, so there is no fuel.
--
-- Not modelled: the projection of the third-party parser's trees, the decoding of driver values in `MasterPosition`, the dispatch of the
-- management commands and the server, the settings of the
-- configuration besides its levels and checks, and the queries of the metadata provider.
pub mod Prelude
pub mod Strings
pub mod Model
pub mod Audit
pub mod Metadata
pub mod Rules
pub mod Rollback
pub mod Execution
pub mod Session
pub mod Request
pub mod Backup
pub mod Protocol
pub mod Config
mod Tests
