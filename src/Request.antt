-- ===== src/Request.antt =====
-- internal/request/legacy.go
pub mod Encoding
pub mod Split
pub mod Directives
pub mod Envelope
