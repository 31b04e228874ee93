-- ===== src/Proton/Snapshots/Counted.antt =====
-- The UIDs of a drive that the folder queue of a snapshot does not have yet, and how their number
-- falls when a listing queues folders.
use dropbox_mirror.Base.{
  text_beq_refl, >>=-eq-ok, ok-injective, length-append, ℕ, ◌+◌, ◌≤◌, Bool, true, false, ◌||◌, not,
  List, [], ◌∷◌, ◌++◌, map, length, keep, any, In, All, Text, codes, ◌==◌, nat_eq, text_eq,
  option_eq, nat_beq_iff, ok, ◌≡◌, refl, sym, ap, subst, inl, inr, arith, Bool-cases,
}
use dropbox_mirror.Proton.Snapshots.{
  check_child, field_text, Fields, queue_row, Naming, ProtonNode, node_of, put_folder,
  is_folder_row, Committed, put_child, put_children,
}
use dropbox_mirror.State.Tables.{ProtonFolder}

abbrev pub is_unlisted : ℕ → List ProtonFolder → Text → Bool
is_unlisted snapshot_id folders u = not (any (is_folder_row snapshot_id u) folders)

-- How many of the UIDs have no row.
abbrev pub unlisted : List Text → ℕ → List ProtonFolder → ℕ
unlisted universe snapshot_id folders = length (keep (is_unlisted snapshot_id folders) universe)

any-append {ℓ} :
    {A : Type ℓ} (p : A → Bool) (xs ys : List A) → any p (xs ++ ys) ≡ (any p xs || any p ys)
unfolding any
any-append p [] ys = refl
any-append p (x ∷ xs) ys = elim (Bool-cases (p x)) [
  | inl t ↦ rw t refl
  | inr f ↦ rw f (any-append p xs ys)
]

any-map {ℓ} :
    {A : Type ℓ} (p : A → Bool) (f : A → A) (xs : List A)
    → ((a : A) → p (f a) ≡ p a)
    → any p (map f xs) ≡ any p xs
unfolding any
any-map p f [] same = refl
any-map p f (x ∷ xs) same = rw (same x, any-map p f xs same) refl

keep-same {ℓ} :
    {A : Type ℓ} (p q : A → Bool) (xs : List A) → ((a : A) → p a ≡ q a) → keep p xs ≡ keep q xs
unfolding keep
keep-same p q [] same = refl
keep-same p q (x ∷ xs) same = rw (same x, keep-same p q xs same) refl

keep_fewer {ℓ} :
    {A : Type ℓ} (p q : A → Bool) (xs : List A)
    → ((a : A) → q a ≡ true → p a ≡ true)
    → length (keep q xs) ≤ length (keep p xs)
unfolding keep
keep_fewer p q [] sub = omega arith
keep_fewer p q (x ∷ xs) sub = ground (arith, keep_fewer p q xs sub, sub x)

keep_one_fewer :
    {A : Type 0} (p q : A → Bool) (b : A) (xs : List A)
    → ((a : A) → q a ≡ true → p a ≡ true)
    → In b xs
    → p b ≡ true
    → q b ≡ false
    → length (keep q xs) + 1 ≤ length (keep p xs)
unfolding keep
keep_one_fewer p q b [] sub m t f = elim m [ ]
keep_one_fewer p q b (x ∷ xs) sub (inl e) t f =
    rw (← e, t, f) (omega (arith, keep_fewer p q xs sub))
keep_one_fewer p q b (x ∷ xs) sub (inr m) t f =
    ground (arith, keep_one_fewer p q b xs sub m t f, sub x)

not_or : (a b : Bool) → not (a || b) ≡ true → not a ≡ true
not_or true b h = h
not_or false b h = refl

own_row :
    (snapshot_id : ℕ) (g : ProtonFolder)
    → g.snapshot_id ≡ snapshot_id
    → any (is_folder_row snapshot_id g.uid) (g ∷ []) ≡ true
unfolding any
own_row snapshot_id g ours =
    rw ((nat_beq_iff g.snapshot_id snapshot_id).1 ours, text_beq_refl g.uid) refl

-- A new row has one UID less without a row.
unlisted-snoc :
    (universe : List Text) (snapshot_id : ℕ) (g : ProtonFolder) (folders : List ProtonFolder)
    → In g.uid universe
    → g.snapshot_id ≡ snapshot_id
    → any (is_folder_row snapshot_id g.uid) folders ≡ false
    → unlisted universe snapshot_id (folders ++ (g ∷ [])) + 1
      ≤ unlisted universe snapshot_id folders
unlisted-snoc universe snapshot_id g folders m ours new =
    keep_one_fewer (is_unlisted snapshot_id folders) (is_unlisted snapshot_id (folders ++ (g ∷ [])))
      g.uid universe
      (λ u h.
        not_or (any (is_folder_row snapshot_id u) folders)
          (any (is_folder_row snapshot_id u) (g ∷ []))
          (subst (λ b. not b ≡ true) (any-append (is_folder_row snapshot_id u) folders (g ∷ [])) h))
      m (rw new refl)
      (subst (λ b. not b ≡ false)
        (sym (any-append (is_folder_row snapshot_id g.uid) folders (g ∷ [])))
        (rw (new, own_row snapshot_id g ours) refl))

-- What was queued is bounded by the UIDs that had no row.
abbrev pub room : List Text → ℕ → Committed → ℕ
room universe snapshot_id c = unlisted universe snapshot_id c.folders + length c.queued

put_child-room :
    (universe : List Text) (n : ProtonNode) (c : Committed)
    → In n.uid universe
    → room universe n.snapshot_id (put_child n c) ≤ room universe n.snapshot_id c
unfolding put_child put_folder
put_child-room universe n c m = elim (Bool-cases (n.node_type == codes "folder")) [
  | inl t ↦ elim (Bool-cases (any (is_folder_row n.snapshot_id n.uid) c.folders)) [
    | inl known ↦ rw (t, known) (omega arith)
    | inr new ↦
        rw (t, new)
          (omega (
            arith,
            unlisted-snoc universe n.snapshot_id (queue_row n) c.folders m refl new,
            length-append c.queued (n.uid ∷ []),
          ))
  ]
  | inr f ↦ rw f (omega arith)
]

pub put_children-room :
    (universe : List Text) (naming : Naming) (snapshot_id : ℕ) (folder : ProtonFolder)
    (names : List Text) (children : List Fields) (c d : Committed)
    → All (λ node. In (field_text naming (codes "uid") node) universe) children
    → put_children naming snapshot_id folder names children c ≡ ok d
    → room universe snapshot_id d ≤ room universe snapshot_id c
unfolding put_children node_of
put_children-room universe naming snapshot_id folder names [] c d a h =
    subst (λ x. room universe snapshot_id x ≤ room universe snapshot_id c) (ok-injective h)
      (omega arith)
put_children-room universe naming snapshot_id folder names (node ∷ children) c d a h =
    let n = node_of naming snapshot_id folder names node in
    let (checked, _, rest) =
      >>=-eq-ok (check_child node)
        (λ _. put_children naming snapshot_id folder names children (put_child n c)) h in
    omega (
      arith,
      put_child-room universe n c (a.0),
      put_children-room universe naming snapshot_id folder names children (put_child n c) d (a.1)
          rest,
    )

-- A listing finishes rows and a failure notes it, which leaves every UID its row.
pub unlisted-map :
    (universe : List Text) (snapshot_id : ℕ) (f : ProtonFolder → ProtonFolder)
    (folders : List ProtonFolder)
    → ((u : Text) (g : ProtonFolder)
        → is_folder_row snapshot_id u (f g) ≡ is_folder_row snapshot_id u g)
    → unlisted universe snapshot_id (map f folders) ≡ unlisted universe snapshot_id folders
unlisted-map universe snapshot_id f folders same =
    ap (λ (l : List Text). length l)
      (keep-same (is_unlisted snapshot_id (map f folders)) (is_unlisted snapshot_id folders)
        universe (λ u. ap not (any-map (is_folder_row snapshot_id u) f folders (same u))))
