-- ===== src/Plan/Pack/Closing.antt =====
-- src/migrator/phases/p30_plan.py, `pack`: when a batch is closed.
use dropbox_mirror.Base.{
  ℕ, ◌+◌, ◌<◌, ◌≤◌, List, [], ◌∷◌, ◌++◌, ◌≡◌, ◌⊎◌, inl, inr, refl, arith, Bool-cases, ltb, length,
  true, false, Bool, ltb→lt,
}
use dropbox_mirror.Plan.Pack.{
  Packing, not_empty, close_if, append_batch, append_row, is_full, pack_row, pack_rows, pack, start,
}
use dropbox_mirror.Plan.Pack.Limits.{bytes, IsPacking, IsPacking-pack_row}
use dropbox_mirror.Plan.Pack.Order.{nil_of_not_empty}

module _ {Row : Type 0} (size : Row → ℕ) (batch_bytes batch_files : ℕ) where
  -- Whether `batch` could not also take the first row of `next`. With nothing in `next` yet, the
  -- batch has to be over the byte limit.
  abbrev pub Blocks : List Row → List Row → Type 0
  Blocks batch [] = batch_bytes < bytes size batch_bytes batch_files batch
  Blocks batch (row ∷ rest) =
      (batch_bytes < bytes size batch_bytes batch_files batch + size row)
      ⊎ (batch_files ≤ length batch)

  -- Every batch blocks the one after it.
  abbrev pub Tight : List (List Row) → Type 0
  Tight [] = Unit
  Tight (a ∷ []) = Unit
  Tight (a ∷ b ∷ rest) = Blocks a b × Tight (b ∷ rest)

  Tight-snoc :
      (xs : List (List Row)) (a b : List Row)
      → Tight (xs ++ (a ∷ []))
      → Blocks a b
      → Tight ((xs ++ (a ∷ [])) ++ (b ∷ []))
  Tight-snoc [] a b t h = (h, tt)
  Tight-snoc (x ∷ []) a b t h = (t.0, (h, tt))
  Tight-snoc (x ∷ y ∷ xs) a b t h = (t.0, Tight-snoc (y ∷ xs) a b t.1 h)

  Tight-last :
      (xs : List (List Row)) (a b : List Row)
      → ((l : List Row) → Blocks l a → Blocks l b)
      → Tight (xs ++ (a ∷ []))
      → Tight (xs ++ (b ∷ []))
  Tight-last [] a b h t = tt
  Tight-last (x ∷ []) a b h t = (h x t.0, tt)
  Tight-last (x ∷ y ∷ xs) a b h t = (t.0, Tight-last (y ∷ xs) a b h t.1)

  Tight-init : (xs : List (List Row)) (a : List Row) → Tight (xs ++ (a ∷ [])) → Tight xs
  Tight-init [] a t = tt
  Tight-init (x ∷ []) a t = tt
  Tight-init (x ∷ y ∷ xs) a t = (t.0, Tight-init (y ∷ xs) a t.1)

  abbrev opened : Packing Row → List (List Row)
  opened p = p.batches ++ (p.current ∷ [])

  Blocks-append :
      (rows : List Row) (row : Row) (l : List Row) → Blocks l rows → Blocks l (rows ++ (row ∷ []))
  Blocks-append [] row l h = inl (omega arith)
  Blocks-append (r ∷ rows) row l h = h

  Tight-append_batch :
      (b : Bool) (p : Packing Row) (row : Row)
      → (b ≡ false → p.current ≡ [])
      → batch_bytes < size row
      → Tight (opened p)
      → Tight (opened (append_batch row (close_if b p)))
  unfolding append_batch close_if
  Tight-append_batch true p row none_left big t =
      Tight-snoc (p.batches ++ (p.current ∷ [])) (row ∷ []) []
        (Tight-snoc p.batches p.current (row ∷ []) t (inl (omega arith))) (omega arith)
  Tight-append_batch false p row none_left big t = rw (none_left refl) (
      Tight-snoc p.batches (row ∷ []) []
        (Tight-last p.batches p.current (row ∷ []) (λ l _. inl (omega arith)) t) (omega arith))

  Tight-append_row :
      (p : Packing Row) (row : Row)
      → p.current_bytes ≡ bytes size batch_bytes batch_files p.current
      → Tight (opened p)
      → Tight (
          opened
            (append_row row (size row) (close_if (is_full size batch_bytes batch_files p row) p)))
  unfolding append_row close_if
  Tight-append_row p row counted t =
      elim (Bool-cases (is_full size batch_bytes batch_files p row)) [
        | inl full ↦
            rw full
              (Tight-snoc p.batches p.current (row ∷ []) t (unfold is_full in ground (arith, full)))
        | inr space ↦ rw space (
            Tight-last p.batches p.current (p.current ++ (row ∷ [])) (Blocks-append p.current row)
              t)
      ]

  Tight-pack_row :
      (p : Packing Row) (row : Row)
      → IsPacking size batch_bytes batch_files p
      → Tight (opened p)
      → Tight (opened (pack_row size batch_bytes batch_files p row))
  unfolding pack_row
  Tight-pack_row p row v t = elim (Bool-cases (ltb batch_bytes (size row))) [
    | inl big ↦ rw big (
        Tight-append_batch (not_empty p.current) p row (nil_of_not_empty p.current) (ltb→lt _ _ big)
          t)
    | inr small ↦ rw small (Tight-append_row p row v.counted t)
  ]

  Tight-pack_rows :
      (p : Packing Row) (rows : List Row)
      → IsPacking size batch_bytes batch_files p
      → Tight (opened p)
      → Tight (opened (pack_rows size batch_bytes batch_files p rows))
  unfolding pack_rows
  Tight-pack_rows p [] v t = t
  Tight-pack_rows p (row ∷ rows) v t =
      Tight-pack_rows (pack_row size batch_bytes batch_files p row) rows
        (IsPacking-pack_row size batch_bytes batch_files p row v) (Tight-pack_row p row v t)

  Tight-close_if : (b : Bool) (p : Packing Row) → Tight (opened p) → Tight (close_if b p).batches
  unfolding close_if
  Tight-close_if true p t = t
  Tight-close_if false p t = Tight-init p.batches p.current t

  -- No batch was closed early: its bytes size batch_bytes batch_files and those of the next batch's first file are over the
  -- byte limit, or it holds the limit of files.
  pub pack-Tight : (rows : List Row) → Tight (pack size batch_bytes batch_files rows)
  unfolding pack
  pack-Tight rows =
      let p = pack_rows size batch_bytes batch_files (start Row) rows in
      Tight-close_if (not_empty p.current) p (
        Tight-pack_rows (start Row) rows
          (record { fits = tt; counted = refl; under = omega arith; few = omega arith }) tt)
