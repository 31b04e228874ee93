-- ===== src/EmptyTrash.antt =====
-- src/migrator/phases/p80_empty_trash.py: the trash of the drive is emptied, after the destination has
-- been checked. The log line of the phase is left out.
use dropbox_mirror.Base.{
  Bool, true, false, Text, codes, nat_eq, text_eq, option_eq, ok, err, ◌≡◌, refl,
}
use dropbox_mirror.Failure.{Outcome}
use dropbox_mirror.Proton.Listing.{Reader, root_uid}
use dropbox_mirror.Proton.Listing.Resolved.{root_uid-Resolved, Resolved}
use dropbox_mirror.Proton.Mutation.{empty_trash, Cli}
use dropbox_mirror.State.Tables.{Db}

pub data Emptied : Type 0 where
  planned_emptying emptied : Emptied

abbrev pub phase_name : Text
phase_name = codes "80_empty_trash"

abbrev after_emptying : Outcome (Unit {0}) × Db → Outcome Emptied × Db
after_emptying (err e, db) = (err e, db)
after_emptying (ok done, db) = (ok emptied, db)

abbrev after_check : Cli → Text → Outcome Text × Db → Outcome Emptied × Db
after_check cli executable (err e, db) = (err e, db)
after_check cli executable (ok uid, db) = after_emptying (empty_trash cli executable phase_name db)

-- `run`
unfoldable pub run : Reader → Cli → Bool → Db → Outcome Emptied × Db
unfolding root_uid empty_trash
run reader cli false db = (ok planned_emptying, db)
run reader cli true db = after_check cli reader.executable (root_uid reader phase_name db)

checked :
    (reader : Reader) (cli : Cli) (o : Outcome Text) (db after : Db)
    → (after_check cli reader.executable (o, db)).0 ≡ ok emptied
    → (uid : Text) × (o ≡ ok uid)
checked reader cli (err e) db after h = cc
checked reader cli (ok uid) db after h = (uid, refl)

-- The trash is emptied only if the destination resolves to the one folder with the configured UID.
pub run-Resolved :
    (reader : Reader) (cli : Cli) (db : Db)
    → (run reader cli true db).0 ≡ ok emptied
    → (uid : Text) × Resolved reader uid db
unfolding run
run-Resolved reader cli db h =
    let (uid, e) =
      checked reader cli (root_uid reader phase_name db).0 (root_uid reader phase_name db).1 db h in
    (uid, root_uid-Resolved reader phase_name db uid e)
