-- ===== src/Reconcile.antt =====
-- src/migrator/phases/p60_reconcile.py: the mirror is corrected from a walk of Proton, and what neither
-- the mirror nor Dropbox knows is trashed. The comparison key, the case folding of Unicode, the
-- walk, the calls of the CLI and the push of the state are arguments; the log is left out.
pub mod Mirror
pub mod Unknown
pub mod Run
pub mod Corrected
pub mod Strays
