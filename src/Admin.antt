-- ===== src/Admin.antt =====
-- The signed request that sets the log level of the running server: thaum/admin_log_level.py, and
-- the part of log_setup.py that applies the level.
pub mod LogLevel
pub mod Post
