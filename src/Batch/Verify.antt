-- ===== src/Batch/Verify.antt =====
-- src/migrator/phases/batch.py, `verify`, over the hash functions of `hashlib`.
use dropbox_mirror.Base.{
  ℕ, ◌+◌, Bool, ◌&&◌, Option, none, some, List, [], ◌∷◌, length, ◌==◌, nat_eq, text_eq, option_eq,
  if◌then◌else◌, ltb, ok, err,
}
use dropbox_mirror.Batch.Items.{hashed, to, Step, Work, set_item, items}
use dropbox_mirror.Batch.Staging.{read_file, unlink, prune_empty_dirs}
use dropbox_mirror.Failure.{os_failed, every_file_mismatched, Outcome}
use dropbox_mirror.Hashing.{hash_file, FileHashes, Sha}
use dropbox_mirror.State.Tables.{ItemStatus, BatchItem}

pub record Verified : Type 0 where
  pub verified : ℕ
  pub bytes : ℕ
  pub hash_mismatch : ℕ

-- `hashes.size == row.size and hashes.dropbox_content_hash == row.content_hash`
abbrev pub matches : FileHashes → BatchItem → Bool
matches h r = (h.size == r.size) && (h.dropbox_content_hash == r.content_hash)

abbrev pub add_mismatch : Verified → Verified
add_mismatch c = record c { hash_mismatch = c.hash_mismatch + 1 }

abbrev pub add_verified : ℕ → Verified → Verified
add_verified size c = record c { verified = c.verified + 1; bytes = c.bytes + size }

unfoldable pub drop_staged : BatchItem → Work → Work
unfolding set_item unlink
drop_staged r w = record w {
  db = set_item r.batch_id r.path_lower (to ItemStatus.hash_mismatch) w.db;
  staging = unlink r.path_display w.staging;
}

unfoldable pub mark_verified : BatchItem → FileHashes → Work → Work
unfolding set_item
mark_verified r h w = record w {
  db = set_item r.batch_id r.path_lower (hashed h.sha1 h.sha256) w.db;
}

-- One round, for a file with these hashes.
unfoldable pub verify_hashed : BatchItem → FileHashes → Verified × Work → Verified × Work
unfolding drop_staged mark_verified
verify_hashed r h (c, w) =
    if matches h r
    then (add_verified h.size c, mark_verified r h w)
    else (add_mismatch c, drop_staged r w)

-- The read of a file that is not there raises.
unfoldable pub verify_found :
    BatchItem → Option FileHashes → Verified × Work → Outcome Verified × Work
unfolding verify_hashed
verify_found r none (c, w) = (err os_failed, w)
verify_found r (some h) s = let next = verify_hashed r h s in (ok (next.0), next.1)

abbrev pub next_row :
    (Verified × Work → Outcome Verified × Work) → Outcome Verified × Work → Outcome Verified × Work
next_row loop (ok c, w) = loop (c, w)
next_row loop (err e, w) = (err e, w)

abbrev map_option : {A B : Type 0} → (A → B) → Option A → Option B
map_option f none = none
map_option f (some a) = some (f a)

module _ (sha256 sha1 : Sha) where
  -- The hashes of a staged file; none when it is not there.
  unfoldable pub staged_hashes : BatchItem → Work → Option FileHashes
  unfolding read_file hash_file
  staged_hashes r w = map_option (hash_file sha256 sha1) (read_file r.path_display w.staging)

  unfoldable pub verify_row : BatchItem → Verified × Work → Outcome Verified × Work
  unfolding staged_hashes verify_found
  verify_row r s = verify_found r (staged_hashes r (s.1)) s

  unfoldable pub verify_rows : List BatchItem → Verified × Work → Outcome Verified × Work
  unfolding verify_row
  verify_rows [] (c, w) = (ok c, w)
  verify_rows (r ∷ rows) s = next_row (verify_rows rows) (verify_row r s)

-- `if rows and counts["hash_mismatch"] == len(rows): raise`
unfoldable pub end_verify : ℕ → Outcome Verified × Work → Outcome Verified × Work
unfolding prune_empty_dirs
end_verify n (err e, w) = (err e, w)
end_verify n (ok c, w) =
    let pruned = record w { staging = prune_empty_dirs w.staging } in
    if ltb 0 n && (c.hash_mismatch == n)
    then (err every_file_mismatched, pruned)
    else (ok c, pruned)

abbrev pub nothing_verified : Verified
nothing_verified = record { verified = 0; bytes = 0; hash_mismatch = 0 }

unfoldable pub verify : (sha256 sha1 : Sha) → ℕ → Step Verified
unfolding verify_rows end_verify items
verify sha256 sha1 batch_id w =
    let rows = items batch_id ItemStatus.fetched w.db in
    end_verify (length rows) (verify_rows sha256 sha1 rows (nothing_verified, w))
