-- ===== src/Protocol.antt =====
-- internal/protocol: the result set of an audit, the registry of the connections, and the patterns of
-- the management commands.
pub mod Results
pub mod Processes
pub mod Patterns
