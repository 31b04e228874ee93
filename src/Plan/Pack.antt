-- ===== src/Plan/Pack.antt =====
-- src/migrator/phases/p30_plan.py, `pack`: the greedy packing of the changed files into batches.
pub mod Order
pub mod Limits
pub mod Closing
use dropbox_mirror.Base.{
  ℕ, ◌+◌, List, [], ◌∷◌, ◌++◌, ◌&&◌, ◌||◌, Bool, true, false, ltb, leb, if◌then◌else◌, length,
}

abbrev pub not_empty {ℓ} : {A : Type ℓ} → List A → Bool
not_empty [] = false
not_empty (x ∷ xs) = true

-- The three variables of the loop. `batches` and `current` grow at the end.
pub record Packing (Row : Type 0) : Type 0 where
  pub batches : List (List Row)
  pub current : List Row
  pub current_bytes : ℕ

abbrev pub start : (Row : Type 0) → Packing Row
start Row = record { batches = []; current = []; current_bytes = 0 }

module _ {Row : Type 0} where
  -- `batches.append(current); current, current_bytes = [], 0`, under its test
  pub close_if : Bool → Packing Row → Packing Row
  close_if true p = record {
    batches = p.batches ++ (p.current ∷ []);
    current = [];
    current_bytes = 0;
  }
  close_if false p = p

  -- `batches.append([row])`
  pub append_batch : Row → Packing Row → Packing Row
  append_batch row p = record p { batches = p.batches ++ ((row ∷ []) ∷ []) }

  -- `current.append(row); current_bytes += size`
  pub append_row : Row → ℕ → Packing Row → Packing Row
  append_row row size p = record p {
    current = p.current ++ (row ∷ []);
    current_bytes = p.current_bytes + size;
  }

module _ {Row : Type 0} (size : Row → ℕ) (batch_bytes batch_files : ℕ) where
  pub is_full : Packing Row → Row → Bool
  is_full p row =
      not_empty p.current
      && (ltb batch_bytes (p.current_bytes + size row) || leb batch_files (length p.current))

  -- The body of the loop for one row.
  pub pack_row : Packing Row → Row → Packing Row
  unfolding close_if append_batch append_row is_full
  pack_row p row =
      if ltb batch_bytes (size row)
      then append_batch row (close_if (not_empty p.current) p)
      else append_row row (size row) (close_if (is_full p row) p)

  pub pack_rows : Packing Row → List Row → Packing Row
  unfolding pack_row
  pack_rows p [] = p
  pack_rows p (row ∷ rows) = pack_rows (pack_row p row) rows

  unfoldable pub pack : List Row → List (List Row)
  unfolding pack_rows
  pack rows = let p = pack_rows (start Row) rows in (close_if (not_empty p.current) p).batches
