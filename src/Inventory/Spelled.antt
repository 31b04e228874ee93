-- ===== src/Inventory/Spelled.antt =====
-- src/migrator/phases/p10_inventory.py: one spelling for each folder.
use dropbox_mirror.Base.{
  Option, some, List, [], ◌∷◌, ◌++◌, length, Text, nat_eq, text_eq, option_eq, ◌≡◌, refl, arith,
}
use dropbox_mirror.Inventory.{rebuilt_parents}
use dropbox_mirror.Proton.Names.{slash}

-- Every folder above the last part has a row.
abbrev pub AllNamed : (Text → Option Text) → Text → List Text → Type 0
AllNamed names prefix (lower ∷ next ∷ lowers) =
    ((name : Text) × (names (prefix ++ (slash ∷ lower)) ≡ some name))
    × AllNamed names (prefix ++ (slash ∷ lower)) (next ∷ lowers)
AllNamed names prefix lowers = Unit

-- Entries of one folder, whose ancestors are all listed, spell their parents the same way, however
-- Dropbox spelled them in each.
pub rebuilt_parents_same :
    (names : Text → Option Text) (prefix : Text) (lowers first second : List Text)
    → AllNamed names prefix lowers
    → length first ≡ length lowers
    → length second ≡ length lowers
    → rebuilt_parents names prefix lowers first ≡ rebuilt_parents names prefix lowers second
unfolding rebuilt_parents
rebuilt_parents_same names prefix [] first second named f s = refl
rebuilt_parents_same names prefix (lower ∷ []) first second named f s = refl
rebuilt_parents_same names prefix (lower ∷ next ∷ lowers) [] second named f s =
    absurd (omega (arith, f))
rebuilt_parents_same names prefix (lower ∷ next ∷ lowers) (x ∷ first) [] named f s =
    absurd (omega (arith, s))
rebuilt_parents_same names prefix (lower ∷ next ∷ lowers) (x ∷ first) (y ∷ second) (here, above) f
      s =
    let (name, e) = here in
    rw
      (
        e,
        rebuilt_parents_same names (prefix ++ (slash ∷ lower)) (next ∷ lowers) first second above
            (omega (arith, f)) (omega (arith, s)),
      )
      refl
