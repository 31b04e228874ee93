-- ===== src/Reconcile/Corrected.antt =====
-- src/migrator/phases/p60_reconcile.py: the rows of the mirror that the correction leaves.
use dropbox_mirror.Base.{
  find-true, nat_beq_iff, find-In, ℕ, not, Option, none, In-map, In-map_of, In-keep, Bool, true,
  false, some, List, [], ◌∷◌, map, In, Text, ◌==◌, nat_eq, text_eq, option_eq, text_iff, ◌≡◌, ◌≢◌,
  refl, sym, ap, subst, ◌∙◌, ◌⊎◌, inl, inr, Bool-cases,
}
use dropbox_mirror.Reconcile.Mirror.{
  same, wrong_size, wrong_digest, nothing_corrected, know, key_of, check, check_node, node_at,
  digest_differs, other_path, correct, refresh, Reconciler, Corrections, set_uid, correct_rows,
  Check, correct_mirror,
}
use dropbox_mirror.State.Tables.{Db, ProtonNode, MirrorObject}
use mathlib.Core.Option.{some-injective}

-- No row comes up that was not there, up to its UID.
abbrev Shrinks : List MirrorObject → List MirrorObject → Type 0
Shrinks before after =
    (r : MirrorObject)
    → In r after
    → (s : MirrorObject) × In s before × (s.path_lower ≡ r.path_lower)

set_uid-path :
    (path_lower uid : Text) (r : MirrorObject)
    → (set_uid path_lower uid r).path_lower ≡ r.path_lower
set_uid-path path_lower uid r = elim (Bool-cases (r.path_lower == path_lower)) [
  | inl t ↦ rw t refl
  | inr f ↦ rw f refl
]

refresh-Shrinks :
    (row : MirrorObject) (uid : Text) (b : Bool) (mirror : List MirrorObject) (c : Corrections)
    → Shrinks mirror (refresh row uid b mirror c).0
refresh-Shrinks row uid true mirror c r m = (r, m, refl)
refresh-Shrinks row uid false mirror c r m =
    let (s, ms, e) = In-map (set_uid row.path_lower uid) r mirror m in
    (s, ms, sym (ap (λ (x : MirrorObject). x.path_lower) e ∙ set_uid-path row.path_lower uid s))

correct-Shrinks :
    (row : MirrorObject) (k : Check) (mirror : List MirrorObject) (c : Corrections)
    → Shrinks mirror (correct row k mirror c).0
correct-Shrinks row wrong_size mirror c r m =
    (r, (In-keep (other_path row.path_lower) r mirror m).0, refl)
correct-Shrinks row wrong_digest mirror c r m =
    (r, (In-keep (other_path row.path_lower) r mirror m).0, refl)
correct-Shrinks row (same uid) mirror c r m =
    refresh-Shrinks row uid (row.proton_uid == some uid) mirror c r m

rows-Shrinks :
    (services : Reconciler) (nodes : List ProtonNode) (rows mirror : List MirrorObject)
    (c : Corrections)
    → Shrinks mirror (correct_rows services nodes rows mirror c).0
unfolding correct_rows
rows-Shrinks services nodes [] mirror c r m = (r, m, refl)
rows-Shrinks services nodes (row ∷ rows) mirror c r m =
    let (after, counted) =
      correct row (check services nodes row) mirror (know (key_of services row) c) in
    let (s, ms, e) = rows-Shrinks services nodes rows after counted r m in
    let (t, mt, f) =
      correct-Shrinks row (check services nodes row) mirror (know (key_of services row) c) s ms in
    (t, mt, f ∙ e)

abbrev is_same : Check → Bool
is_same (same uid) = true
is_same _ = false

dropped :
    (row r : MirrorObject) (k : Check) (mirror : List MirrorObject) (c : Corrections)
    → is_same k ≡ false
    → In r (correct row k mirror c).0
    → r.path_lower ≢ row.path_lower
dropped row r (same uid) mirror c wrong m e = cc (wrong)
dropped row r wrong_size mirror c wrong m e =
    cc (
      (In-keep (other_path row.path_lower) r mirror m).1,
      (text_iff r.path_lower row.path_lower).1 e,
    )
dropped row r wrong_digest mirror c wrong m e =
    cc (
      (In-keep (other_path row.path_lower) r mirror m).1,
      (text_iff r.path_lower row.path_lower).1 e,
    )

rows_dropped :
    (services : Reconciler) (nodes : List ProtonNode) (w r : MirrorObject)
    (rows mirror : List MirrorObject) (c : Corrections)
    → is_same (check services nodes w) ≡ false
    → In w rows
    → In r (correct_rows services nodes rows mirror c).0
    → r.path_lower ≢ w.path_lower
unfolding correct_rows
rows_dropped services nodes w r [] mirror c wrong mw mr e = mw
rows_dropped services nodes w r (row ∷ rows) mirror c wrong (inr later) mr e =
    let (after, counted) =
      correct row (check services nodes row) mirror (know (key_of services row) c) in
    rows_dropped services nodes w r rows after counted wrong later mr e
rows_dropped services nodes w r (row ∷ rows) mirror c wrong (inl here) mr e =
    let (after, counted) =
      correct row (check services nodes row) mirror (know (key_of services row) c) in
    let (s, ms, f) = rows-Shrinks services nodes rows after counted r mr in
    dropped row s (check services nodes row) mirror (know (key_of services row) c)
      (subst (λ x. is_same (check services nodes x) ≡ false) here wrong) ms
      (f ∙ e ∙ ap (λ (x : MirrorObject). x.path_lower) here)

-- Proton has the file of this row: a node of its key with its size, whose SHA-1, where Proton gives
-- one, is the recorded one up to case.
abbrev pub IsBacked : Reconciler → List ProtonNode → MirrorObject → Type 0
IsBacked services nodes s =
    (n : ProtonNode) × In n nodes
    × (n.comparison_key ≡ services.comparison_key s.path_display)
    × (n.claimed_size ≡ some s.size)
    × ((sha1 : Text) → n.sha1 ≡ some sha1 → services.casefold sha1 ≡ services.casefold s.sha1)

same_digest :
    (services : Reconciler) (o : Option Text) (recorded : Text)
    → digest_differs services o recorded ≡ false
    → (sha1 : Text) → o ≡ some sha1
    → services.casefold sha1 ≡ services.casefold recorded
same_digest services none recorded f sha1 e = cc
same_digest services (some x) recorded f sha1 e =
    let same : x ≡ sha1 = some-injective x sha1 e in
    subst (λ t. services.casefold t ≡ services.casefold recorded) same
      ((text_iff (services.casefold x) (services.casefold recorded)).0
        (not_false (services.casefold x == services.casefold recorded) f))
  where
    not_false : (b : Bool) → not b ≡ false → b ≡ true
    not_false true h = refl
    not_false false h = cc

size_eq : (o : Option ℕ) (n : ℕ) → (o == some n) ≡ true → o ≡ some n
size_eq none n t = cc
size_eq (some m) n t = ap some ((nat_beq_iff m n).0 t)

node-IsBacked :
    (services : Reconciler) (nodes : List ProtonNode) (s : MirrorObject) (o : Option ProtonNode)
    → node_at (key_of services s) nodes ≡ o
    → is_same (check_node services s o) ≡ true
    → IsBacked services nodes s
node-IsBacked services nodes s none found t = cc
node-IsBacked services nodes s (some n) found t =
    let at_key = λ (x : ProtonNode). x.comparison_key == key_of services s in
    elim (Bool-cases (n.claimed_size == some s.size)) [
      | inr wrong ↦ cc (rw wrong at t)
      | inl sized ↦ elim (Bool-cases (digest_differs services n.sha1 s.sha1)) [
        | inl wrong ↦ cc (rw (sized, wrong) at t)
        | inr digest ↦ (
          n,
          find-In at_key nodes n found,
          (text_iff n.comparison_key (key_of services s)).0 (find-true at_key nodes n found),
          size_eq n.claimed_size s.size sized,
          same_digest services n.sha1 s.sha1 digest,
        )
      ]
    ]

check-IsBacked :
    (services : Reconciler) (nodes : List ProtonNode) (s : MirrorObject)
    → is_same (check services nodes s) ≡ true
    → IsBacked services nodes s
unfolding check
check-IsBacked services nodes s t =
    node-IsBacked services nodes s (node_at (key_of services s) nodes) refl t

-- After the correction every row of the mirror stands for a row before it whose file Proton has: a
-- node of the walk has its key and its size, and the node's SHA-1, if Proton gives one, is the
-- recorded one up to case. A row whose file is missing, or has another size or another SHA-1, is
-- gone.
pub correct_mirror-Checked :
    (services : Reconciler) (nodes : List ProtonNode) (db : Db) (r : MirrorObject)
    → In r (correct_mirror services nodes db).1.mirror
    → (s : MirrorObject) × In s db.mirror
      × (s.path_lower ≡ r.path_lower)
      × IsBacked services nodes s
unfolding correct_mirror
correct_mirror-Checked services nodes db r m =
    let (s, ms, e) = rows-Shrinks services nodes db.mirror db.mirror nothing_corrected r m in
    elim (Bool-cases (is_same (check services nodes s))) [
      | inl t ↦ (s, ms, e, check-IsBacked services nodes s t)
      | inr f ↦
          absurd
            (rows_dropped services nodes s r db.mirror db.mirror nothing_corrected f ms m (sym e))
    ]

correct_same_known :
    (row : MirrorObject) (k : Check) (mirror : List MirrorObject) (c : Corrections)
    → (correct row k mirror c).1.known ≡ c.known
correct_same_known row wrong_size mirror c = refl
correct_same_known row wrong_digest mirror c = refl
correct_same_known row (same uid) mirror c = elim (Bool-cases (row.proton_uid == some uid)) [
  | inl t ↦ rw t refl
  | inr f ↦ rw f refl
]

rows_known :
    (services : Reconciler) (nodes : List ProtonNode) (key : Text) (rows mirror : List MirrorObject)
    (c : Corrections)
    → In key c.known ⊎ In key (map (key_of services) rows)
    → In key (correct_rows services nodes rows mirror c).1.known
unfolding correct_rows
rows_known services nodes key [] mirror c (inl m) = m
rows_known services nodes key [] mirror c (inr m) = elim m [ ]
rows_known services nodes key (row ∷ rows) mirror c m =
    let k = check services nodes row in
    let (after, counted) = correct row k mirror (know (key_of services row) c) in
    rows_known services nodes key rows after counted (elim m [
      | inl old ↦
          inl (rw (correct_same_known row k mirror (know (key_of services row) c)) (inr old))
      | inr (inl here) ↦
          inl (rw (correct_same_known row k mirror (know (key_of services row) c)) (inl here))
      | inr (inr later) ↦ inr later
    ])

-- The keys that the correction gives back are those of all rows of the mirror before it, those of
-- the dropped rows among them.
pub correct_mirror-known :
    (services : Reconciler) (nodes : List ProtonNode) (db : Db) (r : MirrorObject)
    → In r db.mirror
    → In (key_of services r) (correct_mirror services nodes db).0.known
unfolding correct_mirror
correct_mirror-known services nodes db r m =
    rows_known services nodes (key_of services r) db.mirror db.mirror nothing_corrected
      (inr (In-map_of (key_of services) r db.mirror m))
