-- ===== src/Hashing.antt =====
-- src/migrator/hashing.py: one pass over a stream that computes its size, two plain digests and
-- Dropbox's content hash. The hash functions of `hashlib` are a parameter.
pub mod Content
use dropbox_mirror.Base.{
  ◌≡◌, ℕ, zero, suc, ◌+◌, ◌-◌, ◌*◌, min, List, [], ◌∷◌, ◌++◌, length, take, drop, if◌then◌else◌,
  ◌==◌, nat_eq, Text, ltb,
}

-- A hash object of `hashlib`.
pub record Sha : Type 1 where
  pub State : Type 0
  pub init : State
  pub update : State → List ℕ → State
  pub digest : State → List ℕ
  pub hexdigest : State → Text

-- "Repeated calls are equivalent to a single call with the concatenation of the arguments."
pub record IsIncremental (H : Sha) : Type 0 where
  pub update-append :
      (h : H.State) (a b : List ℕ)
      → ◌≡◌ {A = H.State} (H.update (H.update h a) b) (H.update h (a ++ b))
  pub update-nil : (h : H.State) → ◌≡◌ {A = H.State} (H.update h []) h

pub record FileHashes : Type 0 where
  pub size : ℕ
  pub sha256 : Text
  pub sha1 : Text
  pub dropbox_content_hash : Text

abbrev pub dropbox_block_size : ℕ
dropbox_block_size = 4 * 1024 * 1024

abbrev pub stream_size : ℕ
stream_size = 1024 * 1024

module _ (sha256 sha1 : Sha) where
  -- The local variables of `hash_stream`.
  pub record Hasher : Type 0 where
    pub sha256_state : sha256.State
    pub sha1_state : sha1.State
    pub dropbox : sha256.State
    pub block_hash : sha256.State
    pub block_size : ℕ
    pub size : ℕ

  abbrev pub start : Hasher
  start = record {
    sha256_state = sha256.init;
    sha1_state = sha1.init;
    dropbox = sha256.init;
    block_hash = sha256.init;
    block_size = 0;
    size = 0;
  }

  -- The end of the inner loop's body: a full block goes into the outer hash.
  abbrev pub flush : ℕ → Hasher → Hasher
  flush block h =
      if h.block_size == block
      then record h {
        dropbox = sha256.update h.dropbox (sha256.digest h.block_hash);
        block_hash = sha256.init;
        block_size = 0;
      }
      else h

  abbrev pub take_part : ℕ → List ℕ → Hasher → Hasher
  take_part n chunk h = record h {
    block_hash = sha256.update h.block_hash (take n chunk);
    block_size = h.block_size + n;
  }

  -- `while offset < len(chunk)`, over the rest of the chunk. Each round takes at least one byte,
  -- so as many rounds as the chunk has bytes are enough.
  pub feed : ℕ → ℕ → List ℕ → Hasher → Hasher
  feed block fuel [] h = h
  feed block zero (x ∷ chunk) h = h
  feed block (suc fuel) (x ∷ chunk) h =
      let n = min (block - h.block_size) (length (x ∷ chunk)) in
      feed block fuel (drop n (x ∷ chunk)) (flush block (take_part n (x ∷ chunk) h))

  -- The body of the outer loop.
  pub hash_chunk : ℕ → List ℕ → Hasher → Hasher
  unfolding feed
  hash_chunk block chunk h = feed block (length chunk) chunk (record h {
    size = h.size + length chunk;
    sha256_state = sha256.update h.sha256_state chunk;
    sha1_state = sha1.update h.sha1_state chunk;
  })

  pub hash_chunks : ℕ → List (List ℕ) → Hasher → Hasher
  unfolding hash_chunk
  hash_chunks block [] h = h
  hash_chunks block (chunk ∷ chunks) h = hash_chunks block chunks (hash_chunk block chunk h)

  -- `if block_size: dropbox.update(...)`
  abbrev pub last_block : Hasher → sha256.State
  last_block h =
      if ltb 0 h.block_size then sha256.update h.dropbox (sha256.digest h.block_hash) else h.dropbox

  -- The result for a stream that is read in these chunks, with the block size as an argument.
  unfoldable pub hash_blocks : ℕ → List (List ℕ) → FileHashes
  unfolding hash_chunks
  hash_blocks block chunks =
      let h = hash_chunks block chunks start in
      record {
        size = h.size;
        sha256 = sha256.hexdigest h.sha256_state;
        sha1 = sha1.hexdigest h.sha1_state;
        dropbox_content_hash = sha256.hexdigest (last_block h);
      }

  unfoldable pub hash_stream : List (List ℕ) → FileHashes
  unfolding hash_blocks
  hash_stream chunks = hash_blocks dropbox_block_size chunks

-- `stream.read(STREAM_SIZE)` until it returns nothing.
unfoldable pub reads : ℕ → ℕ → List ℕ → List (List ℕ)
reads fuel n [] = []
reads zero n (b ∷ bytes) = []
reads (suc fuel) n (b ∷ bytes) = take n (b ∷ bytes) ∷ reads fuel n (drop n (b ∷ bytes))

-- `hash_file` of a file with these bytes that does not change meanwhile.
unfoldable pub hash_file : (sha256 sha1 : Sha) → List ℕ → FileHashes
unfolding hash_stream reads
hash_file sha256 sha1 bytes = hash_stream sha256 sha1 (reads (length bytes) stream_size bytes)
