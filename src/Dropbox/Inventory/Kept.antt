-- ===== src/Dropbox/Inventory/Kept.antt =====
-- The listings of src/migrator/providers/dropbox_api.py: the rows of listings as they are opened,
-- advanced and finished.
use dropbox_mirror.Base.{
  ◌∷◌, [], none, false, is_some, Option, ◌&&◌, In-append, find-true, find-In, In-map, ℕ, Bool, true,
  some, List, map, find, In, Text, ◌==◌, nat_eq, text_eq, option_eq, nat_beq_iff, ◌≡◌, ◌≢◌, refl,
  sym, ap, subst, ◌∙◌, ◌⊎◌, inl, inr, arith, Bool-cases,
}
use dropbox_mirror.Base.Rows.{next_id_fresh}
use dropbox_mirror.Dropbox.Inventory.{
  Identity, Api, new_inventory, next_id, finish, advance, on_run, is_exhausted, nonempty,
  said_no_more, InventoryRun, Db, key_of, has_id,
}
use dropbox_mirror.State.Tables.{WalkStatus}

-- The row has a cursor that is not empty, and says that there is no more behind it.
abbrev pub Exhausted : InventoryRun → Type 0
Exhausted r = (c : ℕ) × (rest : Text) × (r.cursor ≡ some (c ∷ rest)) × (r.has_more ≡ some false)

-- Ids are unique, and a complete listing is exhausted.
pub record IsFinished (db : Db) : Type 0 where
  pub unique :
      (r s : InventoryRun) → In r db.inventory_runs → In s db.inventory_runs → r.id ≡ s.id → r ≡ s
  pub exhausted :
      (r : InventoryRun) → In r db.inventory_runs → r.status ≡ WalkStatus.complete → Exhausted r

abbrev pub IsOpen : ℕ → Db → Type 0
IsOpen id db =
    (r : InventoryRun) → In r db.inventory_runs → r.id ≡ id → r.status ≡ WalkStatus.running

pub on_run-id :
    (id : ℕ) (change : InventoryRun → InventoryRun) (r : InventoryRun)
    → (on_run id change r ≡ r) ⊎ ((r.id ≡ id) × (on_run id change r ≡ change r))
on_run-id id change r = elim (Bool-cases (r.id == id)) [
  | inl t ↦ inr ((nat_beq_iff r.id id).0 t, rw t refl)
  | inr f ↦ inl (rw f refl)
]

pub on_run-same_id :
    (id : ℕ) (change : InventoryRun → InventoryRun)
    → ((r : InventoryRun) → (change r).id ≡ r.id)
    → (r : InventoryRun) → (on_run id change r).id ≡ r.id
on_run-same_id id change keeps r = elim (on_run-id id change r) [
  | inl same ↦ ap key_of same
  | inr (_, changed) ↦ ap key_of changed ∙ keeps r
]

-- A change of the rows of one id that keeps the id keeps ids unique.
pub changed_unique :
    (id : ℕ) (change : InventoryRun → InventoryRun) (rows : List InventoryRun)
    → ((r : InventoryRun) → (change r).id ≡ r.id)
    → ((r s : InventoryRun) → In r rows → In s rows → r.id ≡ s.id → r ≡ s)
    → (r s : InventoryRun) → In r (map (on_run id change) rows)
    → In s (map (on_run id change) rows)
    → r.id ≡ s.id
    → r ≡ s
changed_unique id change rows keeps unique r s mr ms e =
    let (r', mr', er) = In-map (on_run id change) r rows mr in
    let (s', ms', es) = In-map (on_run id change) s rows ms in
    let same_id = on_run-same_id id change keeps in
    er
    ∙ ap (on_run id change) (
        unique r' s' mr' ms'
          (sym (same_id r') ∙ sym (ap key_of er) ∙ e ∙ ap key_of es ∙ same_id s'))
    ∙ sym es

pub advanced-IsFinished :
    (id page_number : ℕ) (cursor : Text) (has_more : Bool) (db after : Db)
    → IsOpen id db
    → IsFinished db
    → after.inventory_runs ≡ map (on_run id (advance cursor has_more page_number)) db.inventory_runs
    → IsFinished after × IsOpen id after
advanced-IsFinished id page_number cursor has_more db after opened c e =
    let change = advance cursor has_more page_number in
    (
      record {
        unique = λ r s mr ms.
            changed_unique id change db.inventory_runs (λ x. refl) c.unique r s (subst (In r) e mr)
              (subst (In s) e ms);
        exhausted = λ r mr complete.
            let (r', mr', er) = In-map (on_run id change) r db.inventory_runs (subst (In r) e mr) in
            elim (on_run-id id change r') [
              | inl same ↦
                  let back : r ≡ r' = er ∙ same in
                  subst Exhausted (sym back) (
                    c.exhausted r' mr'
                      (subst (λ (x : InventoryRun). x.status ≡ WalkStatus.complete) back complete))
              | inr (this, changed) ↦
                  cc (
                    opened r' mr' this,
                    complete,
                    ap (λ (x : InventoryRun). x.status) (er ∙ changed),
                  )
            ];
      },
      λ r mr this.
          let (r', mr', er) = In-map (on_run id change) r db.inventory_runs (subst (In r) e mr) in
          elim (on_run-id id change r') [
            | inl same ↦
                let back : r ≡ r' = er ∙ same in
                subst (λ (x : InventoryRun). x.status ≡ WalkStatus.running) (sym back)
                  (opened r' mr' (sym (ap key_of back) ∙ this))
            | inr (ours, changed) ↦
                ap (λ (x : InventoryRun). x.status) (er ∙ changed) ∙ opened r' mr' ours
          ],
    )

exhausted_by :
    (o : Option Text) (has_more : Option Bool)
    → (is_some (nonempty o) && said_no_more has_more) ≡ true
    → (c : ℕ) × (rest : Text) × (o ≡ some (c ∷ rest)) × (has_more ≡ some false)
exhausted_by (some (c ∷ rest)) (some false) h = (c, rest, refl, refl)
exhausted_by (some (c ∷ rest)) (some true) h = cc
exhausted_by (some (c ∷ rest)) none h = cc
exhausted_by (some []) has_more h = cc
exhausted_by none has_more h = cc

pub is_exhausted-Exhausted : (r : InventoryRun) → is_exhausted r ≡ true → Exhausted r
is_exhausted-Exhausted r h = exhausted_by r.cursor r.has_more h

pub finish-IsFinished :
    (now : Text) (id : ℕ) (db : Db) (r : InventoryRun)
    → find (has_id id) db.inventory_runs ≡ some r
    → Exhausted r
    → IsFinished db
    → IsFinished (record db { inventory_runs = map (on_run id (finish now)) db.inventory_runs })
finish-IsFinished now id db r found over c = record {
  unique = changed_unique id (finish now) db.inventory_runs (λ x. refl) c.unique;
  exhausted = λ s ms complete.
      let (s', ms', es) = In-map (on_run id (finish now)) s db.inventory_runs ms in
      elim (on_run-id id (finish now) s') [
        | inl same ↦
            let back : s ≡ s' = es ∙ same in
            subst Exhausted (sym back) (
              c.exhausted s' ms'
                (subst (λ (x : InventoryRun). x.status ≡ WalkStatus.complete) back complete))
        | inr (ours, changed) ↦
            let mr = find-In (has_id id) db.inventory_runs r found in
            let this : r.id ≡ id =
              (nat_beq_iff r.id id).0 (find-true (has_id id) db.inventory_runs r found) in
            let same : s' ≡ r = c.unique s' r ms' mr (ours ∙ sym this) in
            subst Exhausted (sym (es ∙ changed))
              (subst (λ x. Exhausted (finish now x)) (sym same) over)
      ];
}

pub new_id-apart :
    (r : InventoryRun) (rows : List InventoryRun) → In r rows → r.id ≢ next_id key_of rows
new_id-apart r rows m e = omega (arith, next_id_fresh key_of r rows m, e)

pub new_inventory-IsFinished :
    (api : Api) (who : Identity) (purpose : Text) (db : Db)
    → IsFinished db
    → IsFinished (new_inventory api who purpose db).1
      × IsOpen (new_inventory api who purpose db).0 (new_inventory api who purpose db).1
unfolding new_inventory
new_inventory-IsFinished api who purpose db c = (
  record {
    unique = λ r s mr ms e. elim (In-append r db.inventory_runs _ mr) [
      | inl old ↦ elim (In-append s db.inventory_runs _ ms) [
        | inl other ↦ c.unique r s old other e
        | inr (inl new) ↦ absurd (new_id-apart r db.inventory_runs old (e ∙ ap key_of new))
        | inr (inr none_left) ↦ absurd none_left
      ]
      | inr (inl is_new) ↦ elim (In-append s db.inventory_runs _ ms) [
        | inl other ↦ absurd (new_id-apart s db.inventory_runs other (sym e ∙ ap key_of is_new))
        | inr (inl new) ↦ is_new ∙ sym new
        | inr (inr none_left) ↦ absurd none_left
      ]
      | inr (inr none_left) ↦ absurd none_left
    ];
    exhausted = λ r mr complete. elim (In-append r db.inventory_runs _ mr) [
      | inl old ↦ c.exhausted r old complete
      | inr (inl new) ↦ cc (ap (λ (x : InventoryRun). x.status) new, complete)
      | inr (inr none_left) ↦ absurd none_left
    ];
  },
  λ r mr this. elim (In-append r db.inventory_runs _ mr) [
    | inl old ↦ absurd (new_id-apart r db.inventory_runs old this)
    | inr (inl new) ↦ ap (λ (x : InventoryRun). x.status) new
    | inr (inr none_left) ↦ absurd none_left
  ],
)
