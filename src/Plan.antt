-- ===== src/Plan.antt =====
-- src/migrator/phases/p30_plan.py.
pub mod Pack
pub mod Run
