-- ===== src/Config.antt =====
-- src/migrator/config.py: the parts of the configuration that the phases read. The sizes in
-- gigabytes are floats, and the phases see only the rounded byte counts of the properties, so the
-- record holds those; `scaled n` stands for `int(n * listing_floor_ratio)`.
use dropbox_mirror.Base.{ℕ}

pub record Budget : Type 0 where
  pub batch_bytes : ℕ
  pub batch_files : ℕ
  pub max_file_bytes : ℕ
  pub run_budget_minutes : ℕ
  pub ceiling_bytes : ℕ
  pub headroom_bytes : ℕ
  pub scaled : ℕ → ℕ
