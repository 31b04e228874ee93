-- ===== src/Dropbox.antt =====
-- src/migrator/providers/dropbox_api.py and the guard on its scope.
pub mod Requests
pub mod Scope
pub mod Entries
pub mod Identity
pub mod Inventory
