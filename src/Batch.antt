-- ===== src/Batch.antt =====
-- src/migrator/phases/batch.py: the steps that one batch goes through.
pub mod Staging
pub mod Items
pub mod Fetch
pub mod Verify
pub mod Summary
pub mod Steps
pub mod Evidence
pub mod Kept
pub mod Merged
pub mod Outcomes
pub mod Recorded
