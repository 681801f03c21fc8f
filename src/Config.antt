-- ===== src/Config.antt =====
-- internal/config: the levels of the rules and the checks of the settings.
pub mod Levels
pub mod Validation
