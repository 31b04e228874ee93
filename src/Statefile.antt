-- ===== src/Statefile.antt =====
-- src/migrator/statefile.py: the state on its way to the bucket and back. The bucket, the
-- compression, the encryption and the snapshot of the database are arguments.
pub mod Restored
use dropbox_mirror.Base.{
  ℕ, zero, suc, ◌+◌, ◌-◌, ◌*◌, ◌≤◌, ◌<◌, min, max, Bool, true, false, ◌&&◌, ◌||◌, not, Option, none,
  some, List, [], ◌∷◌, ◌++◌, map, sum, length, keep, any, all, find, concat, In, All, Text, codes,
  ◌==◌, nat_eq, text_eq, option_eq, nat_beq_iff, text_iff, if◌then◌else◌, ltb, leb, ok, err, Result,
  ◌>>=◌, guard, ◌>>◌, ◌≡◌, ◌≢◌, refl, sym, ap, subst, ◌∙◌, ◌⊎◌, inl, inr, arith, Bool-cases,
}
use dropbox_mirror.Failure.{state_lost, Outcome}
use dropbox_mirror.State.Tables.{Db}

-- The operations of src/migrator/store.py over a bucket of type B, as the functions here call them.
pub record Store (B : Type 0) : Type 0 where
  pub get : Text → B → Outcome (Option (List ℕ))
  pub list : Text → B → Outcome (List Text)
  pub probe : B → Outcome (Unit {0})
  pub put : List ℕ → Text → B → Outcome (Unit {0}) × B
  pub copy : Text → Text → B → Outcome (Unit {0}) × B

-- `lzma`, `crypt.encrypt` and `crypt.decrypt` with the run's keys, and `state.snapshot_to`.
pub record Codec : Type 0 where
  pub compress : List ℕ → Outcome (List ℕ)
  pub decompress : List ℕ → Outcome (List ℕ)
  pub encrypt : List ℕ → Outcome (List ℕ)
  pub decrypt : List ℕ → Outcome (List ℕ)
  pub snapshot : Db → Outcome (List ℕ)

abbrev pub state_key : Text
state_key = codes ".state/state.sqlite.xz.age"

abbrev pub history_prefix : Text
history_prefix = codes ".state/history/"

unfoldable pub history_key : Text → Text
history_key label = history_prefix ++ label ++ codes ".sqlite.xz.age"

-- What `fetch` returns, with the bytes that it writes to the state file.
pub data Fetch : Type 0 where
  fresh : Fetch
  restored : List ℕ → Fetch

abbrev pub if_no_history : List Text → Outcome (Unit {0})
if_no_history [] = ok tt
if_no_history (key ∷ keys) = err state_lost

module _ {B : Type 0} (store : Store B) (codec : Codec) where
  -- `if not store.get(...)`
  abbrev pub fetch_found : Option (List ℕ) → B → Outcome Fetch
  fetch_found none bucket = do
    keys ← store.list history_prefix bucket
    if_no_history keys
    store.probe bucket
    ok fresh
  fetch_found (some encrypted) bucket = do
    compressed ← codec.decrypt encrypted
    bytes ← codec.decompress compressed
    ok (restored bytes)

  unfoldable pub fetch : B → Outcome Fetch
  fetch bucket = store.get state_key bucket >>= λ found. fetch_found found bucket

  unfoldable pub seal_state : Db → Outcome (List ℕ)
  seal_state db = do
    bytes ← codec.snapshot db
    compressed ← codec.compress bytes
    codec.encrypt compressed

  -- The copy follows a put that has succeeded.
  abbrev pub copy_after : Text → Outcome (Unit {0}) × B → Outcome (Unit {0}) × B
  copy_after key (err e, bucket) = (err e, bucket)
  copy_after key (ok done, bucket) = store.copy key state_key bucket

  abbrev pub push_sealed : Text → Outcome (List ℕ) → B → Outcome (Unit {0}) × B
  push_sealed key (err e) bucket = (err e, bucket)
  push_sealed key (ok encrypted) bucket = copy_after key (store.put encrypted key bucket)

  unfoldable pub push : Db → Text → B → Outcome (Unit {0}) × B
  unfolding seal_state history_key
  push db label bucket = push_sealed (history_key label) (seal_state db) bucket

  unfoldable pub rollback : Text → B → Outcome (Unit {0}) × B
  rollback key bucket = store.copy key state_key bucket
