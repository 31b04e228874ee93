-- ===== src/State/Tables.antt =====
-- src/migrator/state.py, SCHEMA: a record for each table, its columns as fields, and the whole
-- database with the two attributes of the `State` object. NULL is `none`, times are texts, and a
-- column whose values are a fixed set of words is an enumeration.
use dropbox_mirror.Base.{ℕ, Bool, Option, List, Text}
use dropbox_mirror.Base.Int.{ℤ}
use dropbox_mirror.Base.Json.{Json}

pub record Migration : Type 0 where
  pub migration_id : Text
  pub config_path : Text
  pub config_sha256 : Text
  pub created_at : Text
  pub started_at : Option Text
  pub source_account_id : Option Text
  pub source_account_display : Option Text
  pub source_root_namespace_id : Option Text
  pub source_account_observed_at : Option Text

pub data PhaseStatus : Type 0 where
  running interrupted pass fail planned : PhaseStatus

pub record PhaseRun : Type 0 where
  pub id : ℕ
  pub migration_id : Text
  pub phase_number : ℕ
  pub phase_name : Text
  pub attempt : ℕ
  pub status : PhaseStatus
  pub apply_mode : Bool
  pub started_at : Text
  pub completed_at : Option Text
  pub inputs_json : Json
  pub outputs_json : Option Json
  pub tool_versions_json : Json
  pub command_parameters_json : Option Json
  pub warning_count : ℕ
  pub error_count : ℕ
  pub error_summary : Option Text

pub record Command : Type 0 where
  pub id : ℕ
  pub phase_run_id : Option ℕ
  pub provider : Text
  pub operation : Text
  pub safe_argv : List Text
  pub started_at : Text
  pub completed_at : Option Text
  pub exit_code : Option ℤ
  pub attempt : ℕ
  pub response_category : Option Text
  pub stdout_artifact : Option Text
  pub stderr_artifact : Option Text

pub data Level : Type 0 where
  info warning error : Level

pub record EventRow : Type 0 where
  pub id : ℕ
  pub phase_run_id : Option ℕ
  pub timestamp : Text
  pub level : Level
  pub phase : Text
  pub operation : Text
  pub object_identifier : Option Text
  pub retry_count : Option ℕ
  pub provider_category : Option Text
  pub message : Text
  pub safe_raw_error : Option Text
  pub fields_json : Json

pub record IdentityObservation : Type 0 where
  pub id : ℕ
  pub phase_run_id : Option ℕ
  pub provider : Text
  pub operation : Text
  pub expected_identifier : Text
  pub observed_identifier : Text
  pub matched : Bool
  pub observed_at : Text
  pub details_json : Json

pub record Artifact : Type 0 where
  pub id : ℕ
  pub phase_run_id : ℕ
  pub role : Text
  pub relative_path : Text
  pub sha256 : Text
  pub size : ℕ
  pub row_count : Option ℕ
  pub created_at : Text

pub data WalkStatus : Type 0 where
  running complete : WalkStatus

pub record InventoryRun : Type 0 where
  pub id : ℕ
  pub started_at : Text
  pub completed_at : Option Text
  pub status : WalkStatus
  pub account_id : Text
  pub root_namespace_id : Text
  pub purpose : Text
  pub cursor : Option Text
  pub has_more : Option Bool
  pub page_count : ℕ

pub record DropboxPage : Type 0 where
  pub inventory_id : ℕ
  pub page_number : ℕ
  pub cursor_out : Text
  pub entry_count : ℕ
  pub committed_at : Text

pub data Tag : Type 0 where
  file folder other : Tag

pub record DropboxObject : Type 0 where
  pub inventory_id : ℕ
  pub object_key : Text
  pub tag : Tag
  pub name : Text
  pub path_display : Option Text
  pub path_lower : Option Text
  pub comparison_key : Text
  pub dropbox_id : Option Text
  pub revision : Option Text
  pub size : Option ℕ
  pub content_hash : Option Text
  pub is_downloadable : Bool
  pub first_page : ℕ
  pub last_page : ℕ

pub record ProtonSnapshot : Type 0 where
  pub id : ℕ
  pub purpose : Text
  pub started_at : Text
  pub completed_at : Option Text
  pub status : WalkStatus
  pub destination_root : Text
  pub cli_version : Text

pub data FolderStatus : Type 0 where
  pending complete : FolderStatus

pub record ProtonFolder : Type 0 where
  pub snapshot_id : ℕ
  pub uid : Text
  pub parent_uid : Option Text
  pub visible_segments : List Text
  pub cli_path : Text
  pub status : FolderStatus
  pub attempt_count : ℕ
  pub last_error_category : Option Text

pub record ProtonNode : Type 0 where
  pub snapshot_id : ℕ
  pub uid : Text
  pub parent_uid : Text
  pub visible_segments : List Text
  pub relative_path : Text
  pub cli_path : Text
  pub comparison_key : Text
  pub name : Text
  pub node_type : Text
  pub claimed_size : Option ℕ
  pub sha1 : Option Text
  pub sha1_verified : Option Bool

pub data RunStatus : Type 0 where
  running interrupted success fail : RunStatus

pub record Run : Type 0 where
  pub id : ℕ
  pub started_at : Text
  pub start_epoch : ℕ
  pub hour_utc : ℕ
  pub weekday : ℕ
  pub budget_minutes : ℕ
  pub host : Text
  pub reconcile : Bool
  pub status : RunStatus
  pub chain : Bool
  pub inventory_id : Option ℕ
  pub planned_batches : Option ℕ
  pub remaining_batches : Option ℕ
  pub completed_at : Option Text

pub record MirrorObject : Type 0 where
  pub path_lower : Text
  pub path_display : Text
  pub size : ℕ
  pub content_hash : Text
  pub sha1 : Text
  pub sha256 : Text
  pub proton_uid : Option Text
  pub run_id : ℕ
  pub mirrored_at : Text

pub record DeltaChanged : Type 0 where
  pub run_id : ℕ
  pub path_lower : Text
  pub path_display : Text
  pub size : ℕ
  pub content_hash : Text

pub record DeltaDeleted : Type 0 where
  pub run_id : ℕ
  pub path_lower : Text
  pub path_display : Text
  pub proton_uid : Option Text

pub data BatchStatus : Type 0 where
  planned checkpointed failed : BatchStatus

pub record Batch : Type 0 where
  pub id : ℕ
  pub run_id : ℕ
  pub number : ℕ
  pub bytes : ℕ
  pub file_count : ℕ
  pub status : BatchStatus
  pub started_at : Option Text
  pub completed_at : Option Text

pub data ItemStatus : Type 0 where
  planned vanished fetched hash_mismatch verified confirmed confirm_failed checkpointed : ItemStatus

pub record BatchItem : Type 0 where
  pub batch_id : ℕ
  pub path_lower : Text
  pub path_display : Text
  pub size : ℕ
  pub content_hash : Text
  pub status : ItemStatus
  pub sha1 : Option Text
  pub sha256 : Option Text

pub data DeletionStatus : Type 0 where
  trashed not_found listing_failed : DeletionStatus

pub record Deletion : Type 0 where
  pub run_id : ℕ
  pub path_lower : Text
  pub path_display : Text
  pub proton_uid : Option Text
  pub status : DeletionStatus
  pub trashed_at : Option Text

pub record Db : Type 0 where
  pub migration_id : Text
  pub current_phase_run_id : Option ℕ
  pub migrations : List Migration
  pub phase_runs : List PhaseRun
  pub commands : List Command
  pub artifacts : List Artifact
  pub events : List EventRow
  pub observations : List IdentityObservation
  pub inventory_runs : List InventoryRun
  pub pages : List DropboxPage
  pub objects : List DropboxObject
  pub snapshots : List ProtonSnapshot
  pub folders : List ProtonFolder
  pub nodes : List ProtonNode
  pub runs : List Run
  pub mirror : List MirrorObject
  pub delta_changed : List DeltaChanged
  pub delta_deleted : List DeltaDeleted
  pub batches : List Batch
  pub batch_items : List BatchItem
  pub deletions : List Deletion
