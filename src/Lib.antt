-- ===== src/Lib.antt =====
-- The nightly one-way mirror from Dropbox to Proton Drive (src/migrator/), as pure functions over the
-- state database. A run is a sequence of phases, each its own process: the inventory lists
-- Dropbox, the delta compares the listing with the mirrored files, the plan packs the changed files
-- into batches, the batches are fetched, verified, uploaded, confirmed and checkpointed one after
-- the other within a time budget, and the deleted files are trashed. After every checkpoint the
-- database goes to a bucket, from which the next run restores it.
--
-- Parts:
--   Base        equality, lists, sorting as in ORDER BY, texts as lists of code points, JSON values,
--               results with an error, integers; helpers only
--   Failure     the exceptions of all modules as values, and their classes
--   Config      src/migrator/config.py: the byte counts of the budget
--   State       src/migrator/state.py: Tables is SCHEMA as records, Runs, Phases and Records are the
--               methods of `State`; a transaction that raises leaves the database as it was
--   Log         src/migrator/logging.py: the events that reach the database
--   Delta       src/migrator/phases/p20_delta.py; Display is `display_paths`
--   Plan        src/migrator/phases/p30_plan.py; Pack is `pack`, Run is `run`
--   Batch       src/migrator/phases/batch.py; Staging is the directory, Items the rows of a batch,
--               Fetch, Verify, Summary and Steps are the five steps, each a function from the
--               work (database, staging, reports, pushed states) to an outcome and the work it leaves
--   Batches     src/migrator/phases/p40_batches.py: the loop over the planned batches
--   Trash       src/migrator/phases/p50_trash.py
--   Statefile   src/migrator/statefile.py
--   Hashing     src/migrator/hashing.py
--   Proton      src/migrator/providers/proton_cli.py: Names is the functions on paths, Invoke the
--               retry policy, Mutation the calls that change the drive, Listing the calls that
--               list a folder and the check of the destination, Snapshots the rows of a walk and
--               of its folder queue; Queues, Landing and Walk are `_Walk`, and Inventory is
--               `inventory`, which opens a snapshot, walks and closes it
--   Dropbox     src/migrator/providers/dropbox_api.py: Requests is `_call` and `download`, Scope the
--               guards of src/migrator/guards.py and `_scope_relative`, Entries `_upsert_entry`,
--               Identity the account guard, Inventory the paged listing
--   Inventory   src/migrator/phases/p10_inventory.py: the phase around the listing
--   Reconcile   src/migrator/phases/p60_reconcile.py: Mirror is `_correct_mirror`, Unknown the stray
--               files and folders, Run the phase
--   EmptyTrash  src/migrator/phases/p80_empty_trash.py
--   Runner      src/migrator/runner.py: a phase from its start to its recorded end
--   Tests       small data on which the definitions and the results are run
--
-- Outside the repository, and so arguments: hashlib, subprocess, shutil.disk_usage, the clock,
-- unicodedata and str.casefold, boto3, lzma and age, and the conversions `int` and `str` of values
-- that are no numbers or texts. What is relied on of them is a named hypothesis: IsIncremental of
-- the hashes, IsFaithful of the bucket, the compression and the encryption. A component that
-- another one calls is an argument of it where the caller needs little of it: the download and the
-- upload in Batch, whose KeepsRows says that the upload leaves the rows alone, the steps in
-- Batches, and the provider and the push in Trash.
--
-- Numbers are unbounded, as in Python; times are whole ticks; a file that cannot be staged since the
-- disk is full is compared over the integers, as the free space less the headroom may be negative.
-- Fuel: `feed` has as much as its chunk has bytes and takes at least one each round, `reads` as much
-- as the file has bytes, `resolve` one more than the length of the path, whose parent is always
-- shorter. The walk of Proton runs on any fuel; with as much as the drive has folders and the queue
-- rows, and four more, it ends. The paged listing of Dropbox runs on any fuel too: it goes on as long
-- as Dropbox says that there is more.
--
-- The walk's workers are modelled by what the main thread sees of them: in each round an argument
-- says which of the listings under way are done, in which order they are collected, what each came
-- to, and whether the deadline has passed. IsOrder says that a set of futures has each of its
-- members in its order, IsWait that a wait returns when one of them is done, Lists that the UIDs a
-- drive shows are finitely many.
--
-- Not modelled: log events but those of the runner and of the calls that change the drive, details_json,
-- the artifact row of the upload report, the modification check of `hash_file`,
-- interrupts, the order in which the downloads of one batch end (they stand in the order of the
-- rows), the write-back of the session after a listing, the copies of the session for the
-- walk's workers, the pacing of requests to Dropbox and the bytes of a download. The access
-- token, the report, the commands, the session, the environment and the
-- object store are not part of this library.
pub mod Log
pub mod Base
pub mod Failure
pub mod Config
pub mod State
pub mod Delta
pub mod Plan
pub mod Batch
pub mod Batches
pub mod Statefile
pub mod Trash
pub mod Tests
pub mod Hashing
pub mod Proton
pub mod Dropbox
pub mod Reconcile
pub mod EmptyTrash
pub mod Runner
pub mod Inventory
