-- ===== src/Lookup.antt =====
-- lookup/base.py and lookup/models.py: the identity cache behind every lookup plugin.
pub mod Cache
pub mod People
pub mod Teams
pub mod Responders
