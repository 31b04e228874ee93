-- ===== src/Statefile/Restored.antt =====
-- src/migrator/statefile.py: `push` and `fetch` one after the other.
use dropbox_mirror.Base.{
  >>=-eq-ok, ℕ, some, List, Text, nat_eq, text_eq, option_eq, ok, err, ◌>>=◌, ◌≡◌, refl, ap, subst,
  ◌∙◌,
}
use dropbox_mirror.Statefile.{
  push_sealed, copy_after, history_key, Outcome, state_key, restored, fetch_found, Db, push,
  seal_state, fetch, Codec, Store,
}

-- What the bucket's service and the two programs document: an object is read back as it was put
-- or copied, and the compression and the encryption can be undone.
pub record IsFaithful {B : Type 0} (store : Store B) (codec : Codec) : Type 0 where
  pub get_put :
      (bytes : List ℕ) (key : Text) (b : B)
      → (store.put bytes key b).0 ≡ ok tt
      → store.get key (store.put bytes key b).1 ≡ ok (some bytes)
  pub get_copy :
      (from to : Text) (b : B)
      → (store.copy from to b).0 ≡ ok tt
      → store.get to (store.copy from to b).1 ≡ store.get from b
  pub decompress_compress :
      (bytes packed : List ℕ)
      → codec.compress bytes ≡ ok packed
      → codec.decompress packed ≡ ok bytes
  pub decrypt_encrypt :
      (bytes locked : List ℕ) → codec.encrypt bytes ≡ ok locked → codec.decrypt locked ≡ ok bytes

module _ {B : Type 0} (store : Store B) (codec : Codec) where
  unseal :
      IsFaithful store codec
      → (db : Db) (sealed bytes : List ℕ) (bucket : B) → codec.snapshot db ≡ ok bytes
      → seal_state store codec db ≡ ok sealed
      → fetch_found store codec (some sealed) bucket ≡ ok (restored bytes)
  unfolding seal_state
  unseal faithful db sealed bytes bucket snap h =
      let h1 = rw snap at h in
      let (packed, e1, e2) = >>=-eq-ok (codec.compress bytes) codec.encrypt h1 in
      rw (faithful.decrypt_encrypt packed sealed e2, faithful.decompress_compress bytes packed e1)
        refl

  copied :
      IsFaithful store codec
      → (key : Text) (sealed : List ℕ) (bucket : B) (p : Outcome (Unit {0}) × B)
      → store.put sealed key bucket ≡ p
      → (copy_after store codec key p).0 ≡ ok tt
      → store.get state_key (copy_after store codec key p).1 ≡ ok (some sealed)
  copied faithful key sealed bucket (err e, b) put h = cc
  copied faithful key sealed bucket (ok done, b) put h =
      faithful.get_copy key state_key b h
      ∙ subst (λ (c : B). store.get key c ≡ ok (some sealed))
          (ap (λ (q : Outcome (Unit {0}) × B). q.1) put)
          (faithful.get_put sealed key bucket (ap (λ (q : Outcome (Unit {0}) × B). q.0) put))

  pushed :
      IsFaithful store codec
      → (db : Db) (key : Text) (bucket : B) (bytes : List ℕ) (o : Outcome (List ℕ))
      → codec.snapshot db ≡ ok bytes
      → seal_state store codec db ≡ o
      → (push_sealed store codec key o bucket).0 ≡ ok tt
      → (store.get state_key (push_sealed store codec key o bucket).1 >>= λ found.
          fetch_found store codec found (push_sealed store codec key o bucket).1)
        ≡ ok (restored bytes)
  pushed faithful db key bucket bytes (err e) snap h ok_push = cc
  pushed faithful db key bucket bytes (ok sealed) snap h ok_push =
      let p = store.put sealed key bucket in
      rw (copied faithful key sealed bucket p refl ok_push)
        (unseal faithful db sealed bytes (copy_after store codec key p).1 snap h)

  -- A push that returns is what the next fetch restores: the state object then holds the snapshot of
  -- the database that was pushed, byte for byte.
  pub fetch-push :
      IsFaithful store codec
      → (db : Db) (label : Text) (bucket : B) (bytes : List ℕ) → codec.snapshot db ≡ ok bytes
      → (push store codec db label bucket).0 ≡ ok tt
      → fetch store codec (push store codec db label bucket).1 ≡ ok (restored bytes)
  unfolding push fetch
  fetch-push faithful db label bucket bytes snap =
      pushed faithful db (history_key label) bucket bytes (seal_state store codec db) snap refl
