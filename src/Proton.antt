-- ===== src/Proton.antt =====
-- src/migrator/providers/proton_cli.py.
pub mod Names
pub mod Invoke
pub mod Mutation
pub mod Listing
pub mod Snapshots
pub mod Queues
pub mod Landing
pub mod Walk
pub mod Inventory
