-- ===== src/Batch/Fetch.antt =====
-- src/migrator/phases/batch.py, `fetch`. The pool's workers run side by side; here the downloads
-- stand in the order of the rows, in which their results are read. Of two rows whose display paths
-- have the same parts, the later one's download stays.
use dropbox_mirror.Base.{
  ℕ, ◌+◌, Bool, ◌&&◌, Option, none, some, List, [], ◌∷◌, any, ◌==◌, nat_eq, text_eq, option_eq,
  if◌then◌else◌, ltb, ok, err,
}
use dropbox_mirror.Batch.Items.{
  not_found, refused, content, status_code, to, Step, Download, Services, Work, items, set_item,
}
use dropbox_mirror.Batch.Staging.{no_files, write_file, prune_empty_dirs, make_parents}
use dropbox_mirror.Failure.{past_fetch, Outcome, Failure}
use dropbox_mirror.State.Tables.{ItemStatus, BatchItem}

abbrev pub is_past_fetch : ℕ → BatchItem → Bool
is_past_fetch batch_id i =
    (i.batch_id == batch_id) && ltb (status_code ItemStatus.vanished) (status_code i.status)

pub record Fetched : Type 0 where
  pub fetched : ℕ
  pub vanished : ℕ
  pub error : Option Failure

-- `if error is None: error = exc`
abbrev pub first_error : Option Failure → Failure → Option Failure
first_error none e = some e
first_error (some old) e = some old

abbrev pub mkdir_for : BatchItem → Work → Work
mkdir_for r w = record w { staging = make_parents r.path_display w.staging }

-- The body of the `for row, future` loop, after the worker has made the file's folder.
unfoldable pub fetch_result : BatchItem → Download → Fetched × Work → Fetched × Work
unfolding set_item write_file
fetch_result r not_found (c, w) = (
  record c { vanished = c.vanished + 1 },
  record w { db = set_item r.batch_id r.path_lower (to ItemStatus.vanished) w.db },
)
fetch_result r (refused e) (c, w) = (record c { error = first_error c.error e }, w)
fetch_result r (content bytes) (c, w) = (
  record c { fetched = c.fetched + 1 },
  record w {
    db = set_item r.batch_id r.path_lower (to ItemStatus.fetched) w.db;
    staging = write_file r.path_display bytes w.staging;
  },
)

unfoldable pub fetch_rows : Services → List BatchItem → Fetched × Work → Fetched × Work
unfolding fetch_result make_parents
fetch_rows sv [] s = s
fetch_rows sv (r ∷ rows) s =
    fetch_rows sv rows (fetch_result r (sv.download r.path_lower) (s.0, mkdir_for r (s.1)))

-- `if error is not None: raise error`, else the empty folders go.
unfoldable pub end_fetch : Option Failure → Fetched → Work → Outcome Fetched × Work
unfolding prune_empty_dirs
end_fetch (some e) c w = (err e, w)
end_fetch none c w = (ok c, record w { staging = prune_empty_dirs w.staging })

abbrev pub finish : Fetched × Work → Outcome Fetched × Work
finish s = end_fetch s.0.error (s.0) (s.1)

abbrev pub nothing_fetched : Fetched
nothing_fetched = record { fetched = 0; vanished = 0; error = none }

unfoldable pub fetch : Services → ℕ → Step Fetched
unfolding fetch_rows end_fetch items
fetch sv batch_id w =
    if any (is_past_fetch batch_id) w.db.batch_items
    then (err past_fetch, w)
    else finish (
        fetch_rows sv (items batch_id ItemStatus.planned w.db)
          (nothing_fetched, record w { staging = no_files }))
