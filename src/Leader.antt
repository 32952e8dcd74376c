-- ===== src/Leader.antt =====
-- The leader of the workers: thaum/leader_init.py, thaum/leader_bootstrap.py and
-- thaum/leader_service.py. The election itself is a library's.
pub mod Barrier
pub mod Service
