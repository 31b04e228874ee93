-- ===== src/State.antt =====
-- src/migrator/state.py.
pub mod Tables
pub mod Runs
pub mod Phases
pub mod Records
