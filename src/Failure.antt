-- ===== src/Failure.antt =====
-- The exceptions that the program raises, a constructor for each kind of place that raises one
-- (the figures that a message interpolates are left out), and the class of each, which is what
-- the callers tell apart (phases/base.py, store.py, crypt.py, guards.py, the two providers).
use dropbox_mirror.Base.{Result}

pub data Failure : Type 0 where
  -- PhaseError
  inventory_not_run listing_under_floor over_ceiling disk_cannot_hold_batch : Failure
  past_fetch every_file_mismatched summary_missing batch_failed no_batch_completed : Failure
  phase_failed : Failure
  state_lost no_session unexpected_member session_lacks_file : Failure
  -- RuntimeError and ValueError of state.py
  no_run_in_progress unknown_columns no_completed_record unsupported_table : Failure
  -- sqlite3.IntegrityError
  integrity : Failure
  -- ProtonCLIError
  proton_auth proton_retries proton_json proton_not_array proton_not_one_folder proton_wrong_uid :
      Failure
  proton_bad_destination proton_mutation proton_timeout proton_no_uid proton_no_name : Failure
  proton_queue proton_session proton_version : Failure
  -- DropboxNotFound and DropboxAPIError
  dropbox_missing dropbox_http dropbox_retries dropbox_json dropbox_list : Failure
  dropbox_identity dropbox_account dropbox_scope : Failure
  -- GuardError, StoreError, CryptError, OSError
  unsafe_path store_failed crypt_failed os_failed : Failure
  -- KeyError, and any other
  key_missing other : Failure

pub data FailureClass : Type 0 where
  phase_error runtime_error integrity_error proton_cli_error : FailureClass
  dropbox_not_found dropbox_api_error guard_error store_error crypt_error os_error other_error :
      FailureClass

abbrev pub Outcome {ℓ} : Type ℓ → Type ℓ
Outcome A = Result Failure A

abbrev pub class : Failure → FailureClass
class inventory_not_run = phase_error
class listing_under_floor = phase_error
class over_ceiling = phase_error
class disk_cannot_hold_batch = phase_error
class past_fetch = phase_error
class every_file_mismatched = phase_error
class summary_missing = phase_error
class batch_failed = phase_error
class no_batch_completed = phase_error
class phase_failed = phase_error
class state_lost = phase_error
class no_session = phase_error
class unexpected_member = phase_error
class session_lacks_file = phase_error
class no_run_in_progress = runtime_error
class unknown_columns = runtime_error
class no_completed_record = runtime_error
class unsupported_table = runtime_error
class integrity = integrity_error
class dropbox_missing = dropbox_not_found
class dropbox_http = dropbox_api_error
class dropbox_retries = dropbox_api_error
class dropbox_json = dropbox_api_error
class dropbox_list = dropbox_api_error
class dropbox_identity = dropbox_api_error
class dropbox_account = dropbox_api_error
class dropbox_scope = dropbox_api_error
class unsafe_path = guard_error
class store_failed = store_error
class crypt_failed = crypt_error
class os_failed = os_error
class key_missing = other_error
class other = other_error
class _ = proton_cli_error
