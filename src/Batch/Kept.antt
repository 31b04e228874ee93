-- ===== src/Batch/Kept.antt =====
-- src/migrator/phases/batch.py: `fetch` and `verify` over a sound database.
use dropbox_mirror.Base.{
  Option-cases, ℕ, true, ◌&&◌, Option, none, some, List, [], ◌∷◌, length, any, In, ◌==◌, nat_eq,
  text_eq, option_eq, text_iff, ltb, ok, err, ◌≡◌, refl, inl, inr, arith, Bool-cases,
}
use dropbox_mirror.Batch.Evidence.{
  items-Agrees, set_item-Agrees, set_item_hashed-Sound, set_item-Sound, Agrees, Sound,
}
use dropbox_mirror.Batch.Fetch.{
  nothing_fetched, is_past_fetch, mkdir_for, Fetched, end_fetch, fetch_rows, fetch, fetch_result,
}
use dropbox_mirror.Batch.Items.{
  to, hashed, items, Services, Work, Download, not_found, refused, content,
}
use dropbox_mirror.Batch.Staging.{read_file, no_files}
use dropbox_mirror.Batch.Verify.{
  nothing_verified, verify, end_verify, verify_found, verify_rows, staged_hashes, next_row,
  verify_row, drop_staged, mark_verified, Verified, matches, verify_hashed,
}
use dropbox_mirror.Failure.{Outcome, Failure}
use dropbox_mirror.Hashing.{hash_file, Sha, FileHashes}
use dropbox_mirror.State.Tables.{ItemStatus, BatchItem}

fetch_result-Sound :
    (sha256 sha1 : Sha) (r : BatchItem) (d : Download) (s : Fetched × Work)
    → Sound sha256 sha1 s.1.db
    → Sound sha256 sha1 ((fetch_result r d s).1.db)
unfolding fetch_result
fetch_result-Sound sha256 sha1 r not_found s h =
    set_item-Sound sha256 sha1 r.batch_id r.path_lower ItemStatus.vanished s.1.db refl h
fetch_result-Sound sha256 sha1 r (refused e) s h = h
fetch_result-Sound sha256 sha1 r (content bytes) s h =
    set_item-Sound sha256 sha1 r.batch_id r.path_lower ItemStatus.fetched s.1.db refl h

fetch_rows-Sound :
    (sha256 sha1 : Sha) (sv : Services) (rows : List BatchItem) (s : Fetched × Work)
    → Sound sha256 sha1 s.1.db
    → Sound sha256 sha1 ((fetch_rows sv rows s).1.db)
unfolding fetch_rows
fetch_rows-Sound sha256 sha1 sv [] s h = h
fetch_rows-Sound sha256 sha1 sv (r ∷ rows) s h =
    let t : Fetched × Work = (s.0, mkdir_for r (s.1)) in
    fetch_rows-Sound sha256 sha1 sv rows (fetch_result r (sv.download r.path_lower) t)
      (fetch_result-Sound sha256 sha1 r (sv.download r.path_lower) t h)

end_fetch-db : (o : Option Failure) (c : Fetched) (w : Work) → (end_fetch o c w).1.db ≡ w.db
unfolding end_fetch
end_fetch-db (some e) c w = refl
end_fetch-db none c w = refl

-- After `fetch` the database is as sound as before.
pub fetch-Sound :
    (sha256 sha1 : Sha) (sv : Services) (batch_id : ℕ) (w : Work)
    → Sound sha256 sha1 w.db
    → Sound sha256 sha1 ((fetch sv batch_id w).1.db)
unfolding fetch
fetch-Sound sha256 sha1 sv batch_id w h =
    elim (Bool-cases (any (is_past_fetch batch_id) w.db.batch_items)) [
      | inl t ↦ rw t h
      | inr n ↦
          rw (n, end_fetch-db)
            (fetch_rows-Sound sha256 sha1 sv (items batch_id ItemStatus.planned w.db)
              (nothing_fetched, record w { staging = no_files }) h)
    ]

matches_iff :
    (h : FileHashes) (r : BatchItem)
    → matches h r ≡ true
    → (h.size ≡ r.size) × (h.dropbox_content_hash ≡ r.content_hash)
matches_iff h r t = ground (arith, t, text_iff h.dropbox_content_hash r.content_hash)

verify_hashed-Sound :
    (sha256 sha1 : Sha) (r : BatchItem) (bytes : List ℕ) (s : Verified × Work)
    → Agrees s.1.db.batch_items r
    → Sound sha256 sha1 s.1.db
    → Sound sha256 sha1 ((verify_hashed r (hash_file sha256 sha1 bytes) s).1.db)
unfolding verify_hashed
verify_hashed-Sound sha256 sha1 r bytes (c, w) agrees s =
    let h = hash_file sha256 sha1 bytes in
    elim (Bool-cases (matches h r)) [
      | inl t ↦
          let (es, eh) = matches_iff h r t in
          rw t (
            unfold mark_verified in
            set_item_hashed-Sound sha256 sha1 r h.sha1 h.sha256 w.db agrees
              (bytes, es, eh, refl, refl) s)
      | inr n ↦ rw n (
          unfold drop_staged in
          set_item-Sound sha256 sha1 r.batch_id r.path_lower ItemStatus.hash_mismatch w.db refl s)
    ]

verify_hashed-Agrees :
    (r q : BatchItem) (h : FileHashes) (s : Verified × Work)
    → Agrees s.1.db.batch_items q
    → Agrees (verify_hashed r h s).1.db.batch_items q
unfolding verify_hashed
verify_hashed-Agrees r q h (c, w) agrees = elim (Bool-cases (matches h r)) [
  | inl t ↦ rw t (
      unfold mark_verified in
      set_item-Agrees r.batch_id r.path_lower (hashed h.sha1 h.sha256) w.db q agrees)
  | inr n ↦ rw n (
      unfold drop_staged in
      set_item-Agrees r.batch_id r.path_lower (to ItemStatus.hash_mismatch) w.db q agrees)
]

verify_row-Sound :
    (sha256 sha1 : Sha) (r : BatchItem) (s : Verified × Work)
    → Agrees s.1.db.batch_items r
    → Sound sha256 sha1 s.1.db
    → Sound sha256 sha1 ((verify_row sha256 sha1 r s).1.db)
unfolding verify_row
verify_row-Sound sha256 sha1 r (c, w) agrees h =
    elim (Option-cases (read_file r.path_display w.staging)) [
      | inl absent ↦ unfold staged_hashes verify_found in rw absent h
      | inr (bytes, found) ↦
          unfold staged_hashes verify_found in
          rw found (verify_hashed-Sound sha256 sha1 r bytes (c, w) agrees h)
    ]

verify_row-Agrees :
    (sha256 sha1 : Sha) (r q : BatchItem) (s : Verified × Work)
    → Agrees s.1.db.batch_items q
    → Agrees ((verify_row sha256 sha1 r s).1.db).batch_items q
unfolding verify_row
verify_row-Agrees sha256 sha1 r q (c, w) agrees =
    elim (Option-cases (staged_hashes sha256 sha1 r w)) [
      | inl absent ↦ unfold verify_found in rw absent agrees
      | inr (h, found) ↦ unfold verify_found in rw found (verify_hashed-Agrees r q h (c, w) agrees)
    ]

next_row-Sound :
    (sha256 sha1 : Sha) (loop : Verified × Work → Outcome Verified × Work)
    (o : Outcome Verified × Work)
    → ((c : Verified) → Sound sha256 sha1 ((loop (c, o.1)).1.db))
    → Sound sha256 sha1 o.1.db
    → Sound sha256 sha1 ((next_row loop o).1.db)
next_row-Sound sha256 sha1 loop (ok c, w) go h = go c
next_row-Sound sha256 sha1 loop (err e, w) go h = h

verify_rows-Sound :
    (sha256 sha1 : Sha) (rows : List BatchItem) (s : Verified × Work)
    → ((r : BatchItem) → In r rows → Agrees s.1.db.batch_items r)
    → Sound sha256 sha1 s.1.db
    → Sound sha256 sha1 ((verify_rows sha256 sha1 rows s).1.db)
unfolding verify_rows
verify_rows-Sound sha256 sha1 [] (c, w) agrees h = h
verify_rows-Sound sha256 sha1 (r ∷ rows) s agrees h =
    let o = verify_row sha256 sha1 r s in
    let kept = verify_row-Sound sha256 sha1 r s (agrees r (inl refl)) h in
    next_row-Sound sha256 sha1 (verify_rows sha256 sha1 rows) o
      (λ c.
        verify_rows-Sound sha256 sha1 rows (c, o.1)
          (λ q m. verify_row-Agrees sha256 sha1 r q s (agrees q (inr m))) kept)
      kept

end_verify-db : (n : ℕ) (o : Outcome Verified × Work) → (end_verify n o).1.db ≡ o.1.db
unfolding end_verify
end_verify-db n (err e, w) = refl
end_verify-db n (ok c, w) = elim (Bool-cases (ltb 0 n && (c.hash_mismatch == n))) [
  | inl t ↦ rw t
  | inr f ↦ rw f
]

-- After `verify` the database is as sound as before.
pub verify-Sound :
    (sha256 sha1 : Sha) (batch_id : ℕ) (w : Work)
    → Sound sha256 sha1 w.db
    → Sound sha256 sha1 ((verify sha256 sha1 batch_id w).1.db)
unfolding verify
verify-Sound sha256 sha1 batch_id w h =
    let rows = items batch_id ItemStatus.fetched w.db in
    rw (end_verify-db (length rows) (verify_rows sha256 sha1 rows (nothing_verified, w))) (
      verify_rows-Sound sha256 sha1 rows (nothing_verified, w)
        (items-Agrees batch_id ItemStatus.fetched w.db h.keyed) h)
