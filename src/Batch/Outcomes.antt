-- ===== src/Batch/Outcomes.antt =====
-- src/migrator/phases/batch.py: the steps of a batch as a whole.
use dropbox_mirror.Base.{
  length-keep-le, ℕ, ◌+◌, ◌≤◌, ◌<◌, true, Option, none, some, List, [], ◌∷◌, length, all, Text,
  nat_eq, text_eq, option_eq, ok, err, ◌≡◌, refl, inl, inr, arith, Bool-cases,
}
use dropbox_mirror.Base.Json.{Fields}
use dropbox_mirror.Batch.Evidence.{Sound}
use dropbox_mirror.Batch.Fetch.{fetch}
use dropbox_mirror.Batch.Items.{items, Work, Step, Services}
use dropbox_mirror.Batch.Kept.{fetch-Sound, verify-Sound}
use dropbox_mirror.Batch.Merged.{checkpoint-Sound, upload-Sound, confirm-Sound, KeepsRows}
use dropbox_mirror.Batch.Staging.{base_name}
use dropbox_mirror.Batch.Steps.{
  report_of, upload, confirm_rows, with_summary, checkpoint, continue, Confirmed, settle, confirm,
  run_steps,
}
use dropbox_mirror.Batch.Summary.{
  failed_names, failed_rows, names_of, has_name, is_confirmed, last_summary, read_summary, Summary,
}
use dropbox_mirror.Batch.Verify.{verify}
use dropbox_mirror.Failure.{Outcome}
use dropbox_mirror.Hashing.{Sha}
use dropbox_mirror.State.Tables.{ItemStatus, BatchItem}

continue-Sound :
    {A B : Type 0} (sha256 sha1 : Sha) (t : Step B) (o : Outcome A × Work)
    → ((w : Work) → Sound sha256 sha1 w.db → Sound sha256 sha1 ((t w).1.db))
    → Sound sha256 sha1 o.1.db
    → Sound sha256 sha1 ((continue t o).1.db)
continue-Sound sha256 sha1 t (ok a, w) keeps h = keeps w h
continue-Sound sha256 sha1 t (err e, w) keeps h = h

-- Whatever a batch does and wherever it stops, a sound database stays sound: each mirrored row
-- is backed by bytes that had the size and the content hash that Dropbox listed, and the recorded
-- digests are theirs. The upload is assumed to leave the rows of the batch and the mirror alone.
pub run_steps-Sound :
    (sha256 sha1 : Sha) (sv : Services) (destination : Text) (run_id : ℕ) (label : Text)
    (batch_id : ℕ) (w : Work)
    → KeepsRows sv
    → Sound sha256 sha1 w.db
    → Sound sha256 sha1 ((run_steps sha256 sha1 sv destination run_id label batch_id w).1.db)
unfolding run_steps
run_steps-Sound sha256 sha1 sv destination run_id label batch_id w keeps h =
    let fetched = fetch sv batch_id w in
    let verified = continue (verify sha256 sha1 batch_id) fetched in
    let uploaded = continue (upload sv destination batch_id) verified in
    let settled = continue (confirm sv batch_id) uploaded in
    continue-Sound sha256 sha1 (checkpoint sv run_id label batch_id) settled
      (checkpoint-Sound sha256 sha1 sv run_id label batch_id)
      (continue-Sound sha256 sha1 (confirm sv batch_id) uploaded
        (confirm-Sound sha256 sha1 sv batch_id)
        (continue-Sound sha256 sha1 (upload sv destination batch_id) verified
          (λ v. upload-Sound sha256 sha1 sv destination batch_id v keeps)
          (continue-Sound sha256 sha1 (verify sha256 sha1 batch_id) fetched
            (verify-Sound sha256 sha1 batch_id) (fetch-Sound sha256 sha1 sv batch_id w h))))

is_confirmed_iff :
    (sv : Services) (s : Summary) (folders : ℕ) (rows : List BatchItem)
    → is_confirmed sv s folders rows ≡ true
    → (s.transferred + s.skipped + s.failed ≡ length rows + folders)
      × (s.failed ≡ length s.failures)
      × (all
            (has_name (names_of (failed_rows (failed_names sv s.failures) rows)))
            (failed_names sv s.failures)
          ≡ true)
unfolding is_confirmed
is_confirmed_iff sv s folders rows t = ground (arith, t)

failed_le :
    (names : List Text) (rows : List BatchItem) → length (failed_rows names rows) ≤ length rows
unfolding failed_rows
failed_le names rows =
    length-keep-le (λ (r : BatchItem). has_name names (base_name r.path_display)) rows

settle-evidence :
    (sv : Services) (batch_id : ℕ) (rows : List BatchItem) (w : Work) (s : Summary) (c : Confirmed)
    → (settle sv batch_id rows w s).0 ≡ ok c
    → 0 < c.confirmed
    → (s.transferred + s.skipped + s.failed ≡ length rows + length w.staging.folders)
      × (s.failed ≡ length s.failures)
      × (c.confirmed + c.confirm_failed ≡ length rows)
unfolding settle
settle-evidence sv batch_id rows w s c =
    elim (Bool-cases (is_confirmed sv s (length w.staging.folders) rows)) [
      | inl t ↦
          let g = is_confirmed_iff sv s (length w.staging.folders) rows t in
          rw t (λ e some_confirmed.
            (g.0, g.1, ground (arith, e, failed_le (failed_names sv s.failures) rows)))
      | inr n ↦ rw n (λ e some_confirmed. ground (arith, e, some_confirmed))
    ]

with_summary-evidence :
    (sv : Services) (batch_id : ℕ) (rows : List BatchItem) (w : Work) (o : Outcome Summary)
    (c : Confirmed)
    → (with_summary sv batch_id rows w o).0 ≡ ok c
    → 0 < c.confirmed
    → (s : Summary) × (o ≡ ok s)
      × (s.transferred + s.skipped + s.failed ≡ length rows + length w.staging.folders)
      × (s.failed ≡ length s.failures)
      × (c.confirmed + c.confirm_failed ≡ length rows)
with_summary-evidence sv batch_id rows w (err f) c e some_confirmed = cc
with_summary-evidence sv batch_id rows w (ok s) c e some_confirmed =
    let (accounted, counted, split) = settle-evidence sv batch_id rows w s c e some_confirmed in
    (s, refl, accounted, counted, split)

confirm_rows-evidence :
    (sv : Services) (batch_id : ℕ) (rows : List BatchItem) (o : Option Fields) (w : Work)
    (c : Confirmed)
    → (confirm_rows sv batch_id rows o w).0 ≡ ok c
    → 0 < c.confirmed
    → (fields : Fields) × (s : Summary) × (o ≡ some fields)
      × (read_summary sv fields ≡ ok s)
      × (s.transferred + s.skipped + s.failed ≡ length rows + length w.staging.folders)
      × (s.failed ≡ length s.failures)
      × (c.confirmed + c.confirm_failed ≡ length rows)
confirm_rows-evidence sv batch_id [] o w c e some_confirmed = ground (arith, e, some_confirmed)
confirm_rows-evidence sv batch_id (r ∷ rows) none w c e some_confirmed = cc
confirm_rows-evidence sv batch_id (r ∷ rows) (some fields) w c e some_confirmed =
    let (s, read, accounted, counted, split) =
      with_summary-evidence sv batch_id (r ∷ rows) w (read_summary sv fields) c e some_confirmed in
    (fields, s, refl, read, accounted, counted, split)

-- Files are confirmed only on evidence: if `confirm` returns with a confirmed file, then the report
-- that the upload left for this batch ends in a summary, and this summary, as it is read, counts
-- transferred, skipped and failed items that account for every verified file and every staged
-- folder, and names as many failures as it counts. Each verified file is counted as confirmed or as
-- failed.
pub confirm-evidence :
    (sv : Services) (batch_id : ℕ) (w : Work) (c : Confirmed)
    → (confirm sv batch_id w).0 ≡ ok c
    → 0 < c.confirmed
    → (fields : Fields) × (s : Summary) × (last_summary (report_of batch_id w.reports)
        ≡ some fields)
      × (read_summary sv fields ≡ ok s)
      × (s.transferred + s.skipped + s.failed
          ≡ length (items batch_id ItemStatus.verified w.db) + length w.staging.folders)
      × (s.failed ≡ length s.failures)
      × (c.confirmed + c.confirm_failed ≡ length (items batch_id ItemStatus.verified w.db))
unfolding confirm
confirm-evidence sv batch_id w c e some_confirmed =
    confirm_rows-evidence sv batch_id (items batch_id ItemStatus.verified w.db)
      (last_summary (report_of batch_id w.reports)) w c e some_confirmed
