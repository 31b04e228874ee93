-- ===== src/Delta/Rows.antt =====
-- src/migrator/phases/p20_delta.py: which files the delta names as changed and as deleted.
use dropbox_mirror.Base.{
  ok-injective, In-append_right, In-append_left, In-append, >>=-eq-ok, ℕ, Option, none, some, List,
  [], ◌∷◌, ◌++◌, In, Text, nat_eq, text_eq, option_eq, ok, ◌≡◌, refl, sym, subst, ◌⊎◌, inl, inr,
  Bool-cases,
}
use dropbox_mirror.Delta.{lookup, changed_taken, insert_row, with_display, insert_changed}
use dropbox_mirror.State.Tables.{DropboxObject, DeltaChanged}

-- The row is made of this listed file.
abbrev pub Matches : ℕ → DropboxObject → DeltaChanged → Type 0
Matches run_id d c =
    (c.run_id ≡ run_id)
    × (d.path_lower ≡ some c.path_lower)
    × (d.size ≡ some c.size)
    × (d.content_hash ≡ some c.content_hash)

with_display-eq :
    (run_id : ℕ) (path_lower : Text) (size : ℕ) (content_hash : Text) (o : Option Text)
    (rows out : List DeltaChanged)
    → with_display run_id path_lower size content_hash o rows ≡ ok out
    → (c : DeltaChanged) × (out ≡ rows ++ (c ∷ []))
      × (c.run_id ≡ run_id)
      × (some path_lower ≡ some c.path_lower)
      × (some size ≡ some c.size)
      × (some content_hash ≡ some c.content_hash)
with_display-eq run_id path_lower size content_hash none rows out h = cc
with_display-eq run_id path_lower size content_hash (some path_display) rows out h =
    elim (Bool-cases (changed_taken run_id path_lower rows)) [
      | inl t ↦ cc (rw t at h)
      | inr n ↦
          let e : ok (
                rows
                ++ (record {
                  run_id = run_id;
                  path_lower = path_lower;
                  path_display = path_display;
                  size = size;
                  content_hash = content_hash;
                }
                    ∷ []))
              ≡ ok out =
            rw n at h in
          (
            record {
              run_id = run_id;
              path_lower = path_lower;
              path_display = path_display;
              size = size;
              content_hash = content_hash;
            },
            cc,
            refl,
            refl,
            refl,
            refl,
          )
    ]

insert_row-eq :
    (run_id : ℕ) (display : List (Text × Text)) (p : Option Text) (s : Option ℕ) (h : Option Text)
    (rows out : List DeltaChanged)
    → insert_row run_id display p s h rows ≡ ok out
    → (c : DeltaChanged) × (out ≡ rows ++ (c ∷ []))
      × (c.run_id ≡ run_id)
      × (p ≡ some c.path_lower)
      × (s ≡ some c.size)
      × (h ≡ some c.content_hash)
insert_row-eq run_id display (some p) (some s) (some h) rows out e =
    with_display-eq run_id p s h (lookup p display) rows out e
insert_row-eq run_id display none s h rows out e = cc
insert_row-eq run_id display (some p) none h rows out e = cc
insert_row-eq run_id display (some p) (some s) none rows out e = cc

insert_row_shape :
    (run_id : ℕ) (display : List (Text × Text)) (d : DropboxObject) (rows out : List DeltaChanged)
    → insert_row run_id display d.path_lower d.size d.content_hash rows ≡ ok out
    → (c : DeltaChanged) × (out ≡ rows ++ (c ∷ [])) × Matches run_id d c
insert_row_shape run_id display d rows out e =
    let (c, shape, e1, e2, e3, e4) =
      insert_row-eq run_id display d.path_lower d.size d.content_hash rows out e in
    (c, shape, (e1, e2, e3, e4))

-- A row is an old one or made of one of the files.
pub insert_changed_sound :
    (run_id : ℕ) (display : List (Text × Text)) (objects : List DropboxObject)
    (rows out : List DeltaChanged) (c : DeltaChanged)
    → insert_changed run_id display objects rows ≡ ok out
    → In c out
    → In c rows ⊎ ((d : DropboxObject) × In d objects × Matches run_id d c)
unfolding insert_changed
insert_changed_sound run_id display [] rows out c h m = inl (subst (In c) (sym (ok-injective h)) m)
insert_changed_sound run_id display (d ∷ objects) rows out c h m =
    let (mid, e, k) =
      >>=-eq-ok (insert_row run_id display d.path_lower d.size d.content_hash rows)
        (insert_changed run_id display objects) h in
    let (new, shape, e1, e2, e3, e4) =
      insert_row-eq run_id display d.path_lower d.size d.content_hash rows mid e in
    elim (insert_changed_sound run_id display objects mid out c k m) [
      | inr (x, mx, hx) ↦ inr (x, inr mx, hx)
      | inl old ↦ elim (In-append c rows (new ∷ []) (subst (In c) shape old)) [
        | inl older ↦ inl older
        | inr (inl same) ↦ inr (d, inl refl, subst (Matches run_id d) (sym same) (e1, e2, e3, e4))
        | inr (inr no_more) ↦ elim no_more [ ]
      ]
    ]

-- Rows stay, and each of the files has one.
insert_changed_kept :
    (run_id : ℕ) (display : List (Text × Text)) (objects : List DropboxObject)
    (rows out : List DeltaChanged) (c : DeltaChanged)
    → insert_changed run_id display objects rows ≡ ok out
    → In c rows
    → In c out
unfolding insert_changed
insert_changed_kept run_id display [] rows out c h m = subst (In c) (ok-injective h) m
insert_changed_kept run_id display (d ∷ objects) rows out c h m =
    let (mid, e, k) =
      >>=-eq-ok (insert_row run_id display d.path_lower d.size d.content_hash rows)
        (insert_changed run_id display objects) h in
    let (new, shape, rest) = insert_row_shape run_id display d rows mid e in
    insert_changed_kept run_id display objects mid out c k
      (subst (In c) (sym shape) (In-append_left c rows (new ∷ []) m))

pub insert_changed_complete :
    (run_id : ℕ) (display : List (Text × Text)) (objects : List DropboxObject)
    (rows out : List DeltaChanged) (d : DropboxObject)
    → insert_changed run_id display objects rows ≡ ok out
    → In d objects
    → (c : DeltaChanged) × In c out × Matches run_id d c
unfolding insert_changed
insert_changed_complete run_id display [] rows out d h m = elim m [ ]
insert_changed_complete run_id display (x ∷ objects) rows out d h (inr m) =
    let (mid, e, k) =
      >>=-eq-ok (insert_row run_id display x.path_lower x.size x.content_hash rows)
        (insert_changed run_id display objects) h in
    insert_changed_complete run_id display objects mid out d k m
insert_changed_complete run_id display (x ∷ objects) rows out d h (inl same) =
    let (mid, e, k) =
      >>=-eq-ok (insert_row run_id display x.path_lower x.size x.content_hash rows)
        (insert_changed run_id display objects) h in
    let (new, shape, found) = insert_row_shape run_id display x rows mid e in
    (
      new,
      insert_changed_kept run_id display objects mid out new k
          (subst (In new) (sym shape) (In-append_right new rows (new ∷ []) (inl refl))),
      subst (λ (y : DropboxObject). Matches run_id y new) (sym same) found,
    )
