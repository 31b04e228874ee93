-- ===== src/Plan/Pack/Order.antt =====
-- src/migrator/phases/p30_plan.py, `pack`: the order of the rows over the batches.
use dropbox_mirror.Base.{
  ℕ, List, [], ◌∷◌, ◌++◌, ◌≡◌, inl, inr, refl, sym, ◌∙◌, arith, Bool-cases, ap, ltb, concat,
  concat-append, true, false, Bool,
}
use dropbox_mirror.Plan.Pack.{
  Packing, not_empty, close_if, append_batch, append_row, is_full, pack_row, pack_rows, pack, start,
}
use mathlib.Core.List.{append-nil, append_assoc}

module _ {Row : Type 0} where
  -- The rows placed so far, in order.
  abbrev placed : Packing Row → List Row
  placed p = concat p.batches ++ p.current

  placed-close_if : (b : Bool) (p : Packing Row) → placed (close_if b p) ≡ placed p
  unfolding close_if
  placed-close_if true p = simp (concat-append p.batches (p.current ∷ []), append-nil)
  placed-close_if false p = refl

  pub nil_of_not_empty : (rows : List Row) → not_empty rows ≡ false → rows ≡ []
  nil_of_not_empty [] h = refl
  nil_of_not_empty (row ∷ rows) h = cc

  pub current-close_if : (p : Packing Row) → (close_if (not_empty p.current) p).current ≡ []
  unfolding close_if
  current-close_if p = ground arith

  placed-append_row :
      (p : Packing Row) (row : Row) (n : ℕ) → placed (append_row row n p) ≡ placed p ++ (row ∷ [])
  unfolding append_row
  placed-append_row p row n = sym (append_assoc (concat p.batches) p.current (row ∷ []))

  placed-append_batch :
      (p : Packing Row) (row : Row)
      → p.current ≡ []
      → placed (append_batch row p) ≡ placed p ++ (row ∷ [])
  unfolding append_batch
  placed-append_batch p row e = simp (e, concat-append p.batches ((row ∷ []) ∷ []), append-nil)

module _ {Row : Type 0} (size : Row → ℕ) (batch_bytes batch_files : ℕ) where
  placed-pack_row :
      (p : Packing Row) (row : Row)
      → placed (pack_row size batch_bytes batch_files p row) ≡ placed p ++ (row ∷ [])
  unfolding pack_row
  placed-pack_row p row = elim (Bool-cases (ltb batch_bytes (size row))) [
    | inl t ↦ rw t (
        placed-append_batch (close_if (not_empty p.current) p) row (current-close_if p)
        ∙ ap (λ l. l ++ (row ∷ [])) (placed-close_if (not_empty p.current) p))
    | inr f ↦ rw f (
        placed-append_row (close_if (is_full size batch_bytes batch_files p row) p) row (size row)
        ∙ ap (λ l. l ++ (row ∷ []))
            (placed-close_if (is_full size batch_bytes batch_files p row) p))
  ]

  placed-pack_rows :
      (p : Packing Row) (rows : List Row)
      → placed (pack_rows size batch_bytes batch_files p rows) ≡ placed p ++ rows
  unfolding pack_rows
  placed-pack_rows p [] = sym (append-nil (placed p))
  placed-pack_rows p (row ∷ rows) =
      placed-pack_rows (pack_row size batch_bytes batch_files p row) rows
      ∙ ap (λ l. l ++ rows) (placed-pack_row p row)
      ∙ append_assoc (placed p) (row ∷ []) rows

  last_closed : (p : Packing Row) → concat (close_if (not_empty p.current) p).batches ≡ placed p
  last_closed p =
      sym (append-nil (concat (close_if (not_empty p.current) p).batches))
      ∙ ap (λ l. concat (close_if (not_empty p.current) p).batches ++ l) (sym (current-close_if p))
      ∙ placed-close_if (not_empty p.current) p

  -- The batches, put end to end, are the rows in their order: no row is lost, repeated or moved.
  pub concat-pack : (rows : List Row) → concat (pack size batch_bytes batch_files rows) ≡ rows
  unfolding pack
  concat-pack rows =
      last_closed (pack_rows size batch_bytes batch_files (start Row) rows)
      ∙ placed-pack_rows (start Row) rows
