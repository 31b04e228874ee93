-- ===== src/Plan/Pack/Limits.antt =====
-- src/migrator/phases/p30_plan.py, `pack`: the two limits.
use dropbox_mirror.Base.{
  ℕ, ◌+◌, ◌<◌, ◌≤◌, List, [], ◌∷◌, ◌++◌, ◌≡◌, ◌≢◌, inl, inr, refl, arith, map, Bool-cases,
  sum-append, ltb, length, length-append, All, All-append, sum, true, false, Bool, max, ltb→lt,
}
use dropbox_mirror.Plan.Pack.{
  Packing, not_empty, close_if, append_batch, append_row, is_full, pack_row, pack_rows, pack, start,
}
use dropbox_mirror.Plan.Pack.Order.{nil_of_not_empty, current-close_if}
use mathlib.Core.List.{map-append}

module _ {Row : Type 0} (size : Row → ℕ) (batch_bytes batch_files : ℕ) where
  abbrev pub bytes : List Row → ℕ
  bytes rows = sum (map size rows)

  -- Within both limits, or one file that is over the limit by itself.
  pub data Fits (batch : List Row) : Type 0 where
    within : batch ≢ [] → bytes batch ≤ batch_bytes → length batch ≤ max 1 batch_files → Fits batch
    alone : (row : Row) → batch ≡ row ∷ [] → batch_bytes < size row → Fits batch

  -- The invariant of the loop for the limits.
  pub record IsPacking (p : Packing Row) : Type 0 where
    pub fits : All Fits p.batches
    pub counted : p.current_bytes ≡ bytes p.current
    pub under : bytes p.current ≤ batch_bytes
    pub few : length p.current ≤ max 1 batch_files

  IsPacking-close_if :
      (b : Bool) (p : Packing Row)
      → (b ≡ true → not_empty p.current ≡ true)
      → IsPacking p
      → IsPacking (close_if b p)
  unfolding close_if
  IsPacking-close_if false p some_row v = v
  IsPacking-close_if true p some_row v = record {
    fits =
        All-append Fits p.batches (p.current ∷ []) v.fits
          (within (λ e. ground (arith, some_row refl)) v.under v.few, tt);
    counted = refl;
    under = omega arith;
    few = omega arith;
  }

  IsPacking-append_batch :
      (q : Packing Row) (row : Row)
      → q.current ≡ []
      → batch_bytes < size row
      → IsPacking q
      → IsPacking (append_batch row q)
  unfolding append_batch
  IsPacking-append_batch q row e big v = record {
    fits = All-append Fits q.batches ((row ∷ []) ∷ []) v.fits (alone row refl big, tt);
    counted = v.counted;
    under = v.under;
    few = v.few;
  }

  IsPacking-append_row :
      (q : Packing Row) (row : Row)
      → bytes q.current + size row ≤ batch_bytes
      → length q.current + 1 ≤ max 1 batch_files
      → IsPacking q
      → IsPacking (append_row row (size row) q)
  unfolding append_row
  IsPacking-append_row q row room place v =
      let grown : bytes (q.current ++ (row ∷ [])) ≡ bytes q.current + size row =
        rw (map-append, sum-append) (omega arith) in
      let longer : length (q.current ++ (row ∷ [])) ≡ length q.current + 1 =
        rw length-append (omega arith) in
      record {
        fits = v.fits;
        counted = omega (arith, v.counted);
        under = omega arith;
        few = omega arith;
      }

  -- After the test for a full batch there is room for the row.
  full_ne_nil :
      (p : Packing Row) (row : Row)
      → is_full size batch_bytes batch_files p row ≡ true
      → not_empty p.current ≡ true
  unfolding is_full
  full_ne_nil p row h = ground arith

  room_for_row :
      (p : Packing Row) (row : Row)
      → IsPacking p
      → ltb batch_bytes (size row) ≡ false
      → let q = close_if (is_full size batch_bytes batch_files p row) p in
        (bytes q.current + size row ≤ batch_bytes) × (length q.current + 1 ≤ max 1 batch_files)
  unfolding close_if is_full
  room_for_row p row v f = elim (Bool-cases (not_empty p.current)) [
    | inl t ↦ ground (arith, t, v.counted)
    | inr e ↦ rw (e, nil_of_not_empty p.current e) (ground arith)
  ]

  pub IsPacking-pack_row :
      (p : Packing Row) (row : Row)
      → IsPacking p
      → IsPacking (pack_row size batch_bytes batch_files p row)
  unfolding pack_row
  IsPacking-pack_row p row v = elim (Bool-cases (ltb batch_bytes (size row))) [
    | inl t ↦ rw t (
        IsPacking-append_batch (close_if (not_empty p.current) p) row (current-close_if p)
          (ltb→lt _ _ t) (IsPacking-close_if (not_empty p.current) p (λ e. e) v))
    | inr f ↦
        let (room, place) = room_for_row p row v f in
        rw f (
          IsPacking-append_row (close_if (is_full size batch_bytes batch_files p row) p) row room
            place
            (IsPacking-close_if (is_full size batch_bytes batch_files p row) p (full_ne_nil p row)
              v))
  ]

  pub IsPacking-pack_rows :
      (p : Packing Row) (rows : List Row)
      → IsPacking p
      → IsPacking (pack_rows size batch_bytes batch_files p rows)
  unfolding pack_rows
  IsPacking-pack_rows p [] v = v
  IsPacking-pack_rows p (row ∷ rows) v =
      IsPacking-pack_rows (pack_row size batch_bytes batch_files p row) rows
        (IsPacking-pack_row p row v)

  -- Every batch holds at least one file and keeps to both limits, except that a file over the
  -- byte limit is a batch by itself. (A limit of no files counts as one.)
  pub pack-Fits : (rows : List Row) → All Fits (pack size batch_bytes batch_files rows)
  unfolding pack
  pack-Fits rows =
      let p = pack_rows size batch_bytes batch_files (start Row) rows in
      (IsPacking-close_if (not_empty p.current) p (λ e. e)
        (IsPacking-pack_rows (start Row) rows
          (record { fits = tt; counted = refl; under = omega arith; few = omega arith }))).fits
