-- ===== src/Config.antt =====
-- The settings that the program normalises itself: thaum/types.py and the alert settings of
-- bots/base.py.
pub mod Url
pub mod Logging
pub mod Alerting
mod Tests
