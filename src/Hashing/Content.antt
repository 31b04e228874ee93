-- ===== src/Hashing/Content.antt =====
-- src/migrator/hashing.py: the results of `hash_stream` and the blocks of the content.
use dropbox_mirror.Base.{
  true, ℕ, zero, suc, ◌+◌, ◌-◌, ◌≤◌, ◌<◌, min, List, [], ◌∷◌, ◌++◌, map, ◌≡◌, refl, sym, ◌∙◌, ap,
  ap₂, arith, length, length-append, take, drop, take-append-drop, length-take, length-drop, concat,
  concat-append, All, All-append, Bool-cases, inl, inr, ltb, ◌==◌, nat_eq, subst,
}
use dropbox_mirror.Hashing.{
  Sha, IsIncremental, FileHashes, Hasher, start, flush, take_part, feed, hash_chunk, hash_chunks,
  hash_blocks, reads, hash_file, last_block, dropbox_block_size, stream_size,
}
use mathlib.Core.List.{append-nil, append_assoc, map-append}

-- `blocks` cuts `content` into blocks of `n` bytes, the last of at most `n`.
pub record IsCut (n : ℕ) (content : List ℕ) (full : List (List ℕ)) (rest : List ℕ) : Type 0 where
  pub whole : concat full ++ rest ≡ content
  pub sizes : All (λ b. length b ≡ n) full
  pub short : length rest < n

abbrev pub digest_of : (sha256 : Sha) → List ℕ → List ℕ
digest_of sha256 block = sha256.digest (sha256.update sha256.init block)

-- The digests of the blocks of a cut, the short last block only if it has a byte.
abbrev pub block_digests : Sha → List (List ℕ) → List ℕ → List ℕ
block_digests sha256 full [] = concat (map (digest_of sha256) full)
block_digests sha256 full (b ∷ rest) = concat (map (digest_of sha256) (full ++ ((b ∷ rest) ∷ [])))

-- What the four results are for a stream with these bytes, whose blocks are these.
abbrev pub hashes_of : (sha256 sha1 : Sha) → List ℕ → List (List ℕ) → List ℕ → FileHashes
hashes_of sha256 sha1 bytes full rest = record {
  size = length bytes;
  sha256 = sha256.hexdigest (sha256.update sha256.init bytes);
  sha1 = sha1.hexdigest (sha1.update sha1.init bytes);
  dropbox_content_hash =
      sha256.hexdigest (sha256.update sha256.init (block_digests sha256 full rest));
}

module _ (sha256 sha1 : Sha) (law : IsIncremental sha256) (law1 : IsIncremental sha1) (n : ℕ)
    (some_bytes : 0 < n) where
  -- What the hasher holds of the blocks of the bytes read so far.
  record IsAt (bytes : List ℕ) (h : Hasher sha256 sha1) : Type 0 where
    full : List (List ℕ)
    rest : List ℕ
    cut : IsCut n bytes full rest
    outer :
        ◌≡◌ {A = sha256.State} h.dropbox
          (sha256.update sha256.init (concat (map (digest_of sha256) full)))
    inner : ◌≡◌ {A = sha256.State} h.block_hash (sha256.update sha256.init rest)
    counted : h.block_size ≡ length rest

  outer_step :
      (full : List (List ℕ)) (block : List ℕ)
      → ◌≡◌ {A = sha256.State}
          (sha256.update
            (sha256.update sha256.init (concat (map (digest_of sha256) full)))
            (digest_of sha256 block))
          (sha256.update sha256.init (concat (map (digest_of sha256) (full ++ (block ∷ [])))))
  outer_step full block =
      law.update-append sha256.init (concat (map (digest_of sha256) full)) (digest_of sha256 block)
      ∙ ap (sha256.update sha256.init)
          (simp (map-append, concat-append (map (digest_of sha256) full), append-nil))

  IsAt-flush :
      (bytes part : List ℕ) (h : Hasher sha256 sha1)
      → IsAt bytes h
      → length part + h.block_size ≤ n
      → IsAt (bytes ++ part) (
          flush sha256 sha1 n (record h {
            block_hash = sha256.update h.block_hash part;
            block_size = h.block_size + length part;
          }))
  IsAt-flush bytes part h at room =
      let grown : concat at.full ++ (at.rest ++ part) ≡ bytes ++ part =
        sym (append_assoc (concat at.full) at.rest part) ∙ ap (λ l. l ++ part) at.cut.whole in
      let longer : length (at.rest ++ part) ≡ h.block_size + length part =
        rw length-append (omega (arith, at.counted)) in
      let hashed : ◌≡◌ {A = sha256.State} (sha256.update h.block_hash part)
          (sha256.update sha256.init (at.rest ++ part)) =
        ap (λ s. sha256.update s part) at.inner ∙ law.update-append sha256.init at.rest part in
      elim (Bool-cases (h.block_size + length part == n)) [
        | inl t ↦ rw t (record {
          full = at.full ++ ((at.rest ++ part) ∷ []);
          rest = [];
          cut = record {
            whole = simp (concat-append at.full ((at.rest ++ part) ∷ []), append-nil) grown;
            sizes =
                All-append (λ b. length b ≡ n) at.full ((at.rest ++ part) ∷ []) at.cut.sizes
                  (ground (arith, longer), tt);
            short = some_bytes;
          };
          outer =
              ap₂ (λ s t. sha256.update s (sha256.digest t)) at.outer hashed
              ∙ outer_step at.full (at.rest ++ part);
          inner = sym (law.update-nil sha256.init);
          counted = refl;
        })
        | inr f ↦ rw f (record {
          full = at.full;
          rest = at.rest ++ part;
          cut = record { whole = grown; sizes = at.cut.sizes; short = ground (arith, longer) };
          outer = at.outer;
          inner = hashed;
          counted = sym longer;
        })
      ]

  IsAt-feed :
      (fuel : ℕ) (chunk bytes : List ℕ) (h : Hasher sha256 sha1)
      → length chunk ≤ fuel
      → IsAt bytes h
      → IsAt (bytes ++ chunk) (feed sha256 sha1 n fuel chunk h)
  unfolding feed
  IsAt-feed fuel [] bytes h enough at = rw append-nil at
  IsAt-feed zero (x ∷ chunk) bytes h enough at = absurd (omega arith)
  IsAt-feed (suc fuel) (x ∷ chunk) bytes h enough at =
      let k = min (n - h.block_size) (length (x ∷ chunk)) in
      let taken : length (take k (x ∷ chunk)) ≡ k = omega (arith, length-take k (x ∷ chunk)) in
      let bound : h.block_size < n = omega (arith, at.counted, at.cut.short) in
      let step = IsAt-flush bytes (take k (x ∷ chunk)) h at (omega arith) in
      let left : length (drop k (x ∷ chunk)) ≤ fuel = omega (arith, length-drop k (x ∷ chunk)) in
      let next = flush sha256 sha1 n (take_part sha256 sha1 k (x ∷ chunk) h) in
      let moved : IsAt (bytes ++ take k (x ∷ chunk)) next =
        subst
          (λ m. IsAt (bytes ++ take k (x ∷ chunk)) (
            flush sha256 sha1 n (record h {
              block_hash = sha256.update h.block_hash (take k (x ∷ chunk));
              block_size = h.block_size + m;
            })))
          taken step in
      subst (λ l. IsAt l (feed sha256 sha1 n fuel (drop k (x ∷ chunk)) next))
        (append_assoc bytes (take k (x ∷ chunk)) (drop k (x ∷ chunk))
          ∙ ap (λ l. bytes ++ l) (take-append-drop k (x ∷ chunk)))
        (IsAt-feed fuel (drop k (x ∷ chunk)) (bytes ++ take k (x ∷ chunk)) next left moved)

  -- The size and the two plain digests, which the inner loop does not touch.
  record IsPlain (bytes : List ℕ) (h : Hasher sha256 sha1) : Type 0 where
    sized : h.size ≡ length bytes
    plain256 : ◌≡◌ {A = sha256.State} h.sha256_state (sha256.update sha256.init bytes)
    plain1 : ◌≡◌ {A = sha1.State} h.sha1_state (sha1.update sha1.init bytes)

  IsPlain-flush :
      (bytes : List ℕ) (h : Hasher sha256 sha1)
      → IsPlain bytes h
      → IsPlain bytes (flush sha256 sha1 n h)
  IsPlain-flush bytes h p = elim (Bool-cases (h.block_size == n)) [
    | inl t ↦ rw t (record { sized = p.sized; plain256 = p.plain256; plain1 = p.plain1 })
    | inr f ↦ rw f p
  ]

  IsPlain-feed :
      (fuel : ℕ) (chunk bytes : List ℕ) (h : Hasher sha256 sha1)
      → IsPlain bytes h
      → IsPlain bytes (feed sha256 sha1 n fuel chunk h)
  unfolding feed
  IsPlain-feed fuel [] bytes h p = p
  IsPlain-feed zero (x ∷ chunk) bytes h p = p
  IsPlain-feed (suc fuel) (x ∷ chunk) bytes h p =
      let k = min (n - h.block_size) (length (x ∷ chunk)) in
      IsPlain-feed fuel (drop k (x ∷ chunk)) bytes
        (flush sha256 sha1 n (take_part sha256 sha1 k (x ∷ chunk) h))
        (IsPlain-flush bytes (take_part sha256 sha1 k (x ∷ chunk) h)
          (record { sized = p.sized; plain256 = p.plain256; plain1 = p.plain1 }))

  record IsDone (bytes : List ℕ) (h : Hasher sha256 sha1) : Type 0 where
    blocks : IsAt bytes h
    plain : IsPlain bytes h

  IsDone-hash_chunk :
      (chunk bytes : List ℕ) (h : Hasher sha256 sha1)
      → IsDone bytes h
      → IsDone (bytes ++ chunk) (hash_chunk sha256 sha1 n chunk h)
  unfolding hash_chunk
  IsDone-hash_chunk chunk bytes h d =
      let at = d.blocks in
      let p = d.plain in
      record {
        blocks = IsAt-feed (length chunk) chunk bytes _ (omega arith) (record {
          full = at.full;
          rest = at.rest;
          cut = at.cut;
          outer = at.outer;
          inner = at.inner;
          counted = at.counted;
        });
        plain = IsPlain-feed (length chunk) chunk (bytes ++ chunk) _ (record {
          sized = rw length-append (omega (arith, p.sized));
          plain256 =
              ap (λ s. sha256.update s chunk) p.plain256
              ∙ law.update-append sha256.init bytes chunk;
          plain1 =
              ap (λ s. sha1.update s chunk) p.plain1 ∙ law1.update-append sha1.init bytes chunk;
        });
      }

  IsDone-hash_chunks :
      (chunks : List (List ℕ)) (bytes : List ℕ) (h : Hasher sha256 sha1)
      → IsDone bytes h
      → IsDone (bytes ++ concat chunks) (hash_chunks sha256 sha1 n chunks h)
  unfolding hash_chunks
  IsDone-hash_chunks [] bytes h d = rw append-nil d
  IsDone-hash_chunks (chunk ∷ chunks) bytes h d =
      subst (λ l. IsDone l (hash_chunks sha256 sha1 n chunks (hash_chunk sha256 sha1 n chunk h)))
        (append_assoc bytes chunk (concat chunks))
        (IsDone-hash_chunks chunks (bytes ++ chunk) (hash_chunk sha256 sha1 n chunk h)
          (IsDone-hash_chunk chunk bytes h d))

  IsDone-start : IsDone [] (start sha256 sha1)
  IsDone-start = record {
    blocks = record {
      full = [];
      rest = [];
      cut = record { whole = refl; sizes = tt; short = some_bytes };
      outer = sym (law.update-nil sha256.init);
      inner = sym (law.update-nil sha256.init);
      counted = refl;
    };
    plain = record {
      sized = refl;
      plain256 = sym (law.update-nil sha256.init);
      plain1 = sym (law1.update-nil sha1.init);
    };
  }

  last_step :
      (h : Hasher sha256 sha1) (full : List (List ℕ)) (rest : List ℕ)
      → ◌≡◌ {A = sha256.State} h.dropbox
          (sha256.update sha256.init (concat (map (digest_of sha256) full)))
      → ◌≡◌ {A = sha256.State} h.block_hash (sha256.update sha256.init rest)
      → h.block_size ≡ length rest
      → ◌≡◌ {A = sha256.State}
          (last_block sha256 sha1 h)
          (sha256.update sha256.init (block_digests sha256 full rest))
  last_step h full [] outer inner counted = rw counted outer
  last_step h full (b ∷ rest) outer inner counted =
      let more : ltb 0 h.block_size ≡ true = ground arith in
      rw more
        (ap₂ (λ s t. sha256.update s (sha256.digest t)) outer inner ∙ outer_step full (b ∷ rest))

  -- However the stream is cut into reads, the results are the size, the two digests of the whole
  -- content, and the hash of the digests of its blocks: all of `n` bytes but a shorter last one.
  pub hash_blocks_lem :
      (chunks : List (List ℕ))
      → (full : List (List ℕ)) × (rest : List ℕ) × IsCut n (concat chunks) full rest
        × (hash_blocks sha256 sha1 n chunks ≡ hashes_of sha256 sha1 (concat chunks) full rest)
  unfolding hash_blocks
  hash_blocks_lem chunks =
      let d = IsDone-hash_chunks chunks [] (start sha256 sha1) IsDone-start in
      let h = hash_chunks sha256 sha1 n chunks (start sha256 sha1) in
      let at = d.blocks in
      let p = d.plain in
      let outer = last_step h at.full at.rest at.outer at.inner at.counted in
      (
        at.full,
        at.rest,
        at.cut,
        λ i. record {
          size = p.sized i;
          sha256 = sha256.hexdigest (p.plain256 i);
          sha1 = sha1.hexdigest (p.plain1 i);
          dropbox_content_hash = sha256.hexdigest (outer i);
        },
      )

concat-reads :
    (fuel n : ℕ) (bytes : List ℕ)
    → 0 < n
    → length bytes ≤ fuel
    → concat (reads fuel n bytes) ≡ bytes
unfolding reads
concat-reads fuel n [] pos enough = refl
concat-reads zero n (b ∷ bytes) pos enough = absurd (omega arith)
concat-reads (suc fuel) n (b ∷ bytes) pos enough =
    rw (concat-reads fuel n (drop n (b ∷ bytes)) pos (omega (arith, length-drop n (b ∷ bytes))))
      (take-append-drop n (b ∷ bytes))

-- `hash_file` returns the size, the digests and the Dropbox content hash of the file's bytes, in
-- blocks of four mebibytes.
pub hash_file_lem :
    (sha256 sha1 : Sha) (law : IsIncremental sha256) (law1 : IsIncremental sha1) (bytes : List ℕ)
    → (full : List (List ℕ)) × (rest : List ℕ) × IsCut dropbox_block_size bytes full rest
      × (hash_file sha256 sha1 bytes ≡ hashes_of sha256 sha1 bytes full rest)
unfolding hash_file
hash_file_lem sha256 sha1 law law1 bytes =
    let chunks = reads (length bytes) stream_size bytes in
    let whole : concat chunks ≡ bytes =
      concat-reads (length bytes) stream_size bytes (omega arith) (omega arith) in
    let (full, rest, cut, same) =
      hash_blocks_lem sha256 sha1 law law1 dropbox_block_size (omega arith) chunks in
    (
      full,
      rest,
      subst (λ l. IsCut dropbox_block_size l full rest) whole cut,
      same ∙ ap (λ l. hashes_of sha256 sha1 l full rest) whole,
    )
