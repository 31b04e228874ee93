-- ===== src/Proton/Inventory.antt =====
-- src/migrator/providers/proton_cli.py, `inventory`: the walk of a purpose into a snapshot that is
-- reused, resumed or new.
pub mod Closed
pub mod Kept
use dropbox_mirror.Base.{
  ℕ, zero, suc, ◌+◌, ◌-◌, ◌*◌, ◌≤◌, ◌<◌, min, max, Bool, true, false, ◌&&◌, ◌||◌, not, Option, none,
  some, List, [], ◌∷◌, ◌++◌, map, sum, length, keep, any, all, find, concat, In, All, Text, codes,
  ◌==◌, nat_eq, text_eq, option_eq, nat_beq_iff, text_iff, if◌then◌else◌, ltb, leb, ok, err, Result,
  ◌>>=◌, guard, ◌>>◌, ◌≡◌, ◌≢◌, refl, sym, ap, subst, ◌∙◌, ◌⊎◌, inl, inr, arith, Bool-cases,
}
use dropbox_mirror.Failure.{Outcome}
use dropbox_mirror.Proton.Landing.{World}
use dropbox_mirror.Proton.Snapshots.{Naming, close_snapshot, latest_complete, open_snapshot}
use dropbox_mirror.Proton.Walk.{run}
use dropbox_mirror.State.Tables.{Db}

-- `_close_snapshot` after a walk that is finished.
unfoldable pub close_finished : Naming → ℕ → Outcome Bool × Db → Outcome ℕ × Db
unfolding close_snapshot
close_finished naming snapshot_id (err e, db) = (err e, db)
close_finished naming snapshot_id (ok false, db) = (ok snapshot_id, db)
close_finished naming snapshot_id (ok true, db) =
    let (closed, after) = close_snapshot naming snapshot_id db in (closed >> ok snapshot_id, after)

abbrev pub map_option {ℓ κ} : {A : Type ℓ} {B : Type κ} → (A → B) → Option A → Option B
map_option f none = none
map_option f (some a) = some (f a)

unfoldable pub walk_opened : World → Text → ℕ → ℕ → Option ℕ × Db → Option (Outcome ℕ × Db)
unfolding run close_finished latest_complete
walk_opened world purpose walk_workers fuel (none, db) =
    some (latest_complete world.naming purpose db, db)
walk_opened world purpose walk_workers fuel (some snapshot_id, db) =
    map_option (close_finished world.naming snapshot_id)
      (run world snapshot_id walk_workers fuel db)

-- `inventory`: the id of the snapshot and the database; `none` is that the fuel of the walk ran out.
unfoldable pub inventory : World → Outcome Text → Text → Bool → ℕ → ℕ → Db → Option (Outcome ℕ × Db)
unfolding open_snapshot walk_opened
inventory world (err e) purpose reuse_complete walk_workers fuel db = some (err e, db)
inventory world (ok cli_version) purpose reuse_complete walk_workers fuel db =
    walk_opened world purpose walk_workers fuel
      (open_snapshot world.naming purpose reuse_complete cli_version db)
