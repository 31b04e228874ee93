-- ===== src/Inventory/Newest.antt =====
-- src/migrator/phases/p10_inventory.py: which listings the pruning leaves.
use dropbox_mirror.Base.{
  In-map_of, In-keep, any_of_In, drop, ℕ, ◌≤◌, Bool, true, false, not, List, [], ◌∷◌, map, In, ◌==◌,
  nat_eq, text_eq, option_eq, nat_beq_iff, leb, ◌≡◌, refl, ◌⊎◌, inl, inr, arith, Bool-cases,
}
use dropbox_mirror.Inventory.{
  id_of, InventoryRun, Db, stale_ids, is_one_of, prune_inventories, insert_desc, sort_desc,
}

abbrev IsDesc : List ℕ → Type 0
IsDesc [] = Unit
IsDesc (n ∷ ids) = ((m : ℕ) → In m ids → m ≤ n) × IsDesc ids

In-insert_desc : (m n : ℕ) (ids : List ℕ) → In m (insert_desc n ids) → (m ≡ n) ⊎ In m ids
unfolding insert_desc
In-insert_desc m n [] h = h
In-insert_desc m n (k ∷ ids) h = ground (arith, In-insert_desc m n ids)

In-insert_desc_of : (m n : ℕ) (ids : List ℕ) → (m ≡ n) ⊎ In m ids → In m (insert_desc n ids)
unfolding insert_desc
In-insert_desc_of m n [] h = h
In-insert_desc_of m n (k ∷ ids) h = ground (arith, In-insert_desc_of m n ids)

insert_desc-IsDesc : (n : ℕ) (ids : List ℕ) → IsDesc ids → IsDesc (insert_desc n ids)
unfolding insert_desc
insert_desc-IsDesc n [] d = (λ m h. absurd h, tt)
insert_desc-IsDesc n (k ∷ ids) (below, d) = elim (Bool-cases (leb k n)) [
  | inl t ↦ rw t (λ m h. ground (arith, below m, h, t), (below, d))
  | inr f ↦ rw f (
    λ m h. elim (In-insert_desc m n ids h) [ inl e ↦ ground (arith, e, f) | inr old ↦ below m old ],
    insert_desc-IsDesc n ids d,
  )
]

sort_desc-IsDesc : (ids : List ℕ) → IsDesc (sort_desc ids)
unfolding sort_desc
sort_desc-IsDesc [] = tt
sort_desc-IsDesc (n ∷ ids) = insert_desc-IsDesc n (sort_desc ids) (sort_desc-IsDesc ids)

In-sort_desc_of : (m : ℕ) (ids : List ℕ) → In m ids → In m (sort_desc ids)
unfolding sort_desc
In-sort_desc_of m [] h = h
In-sort_desc_of m (n ∷ ids) (inl e) = In-insert_desc_of m n (sort_desc ids) (inl e)
In-sort_desc_of m (n ∷ ids) (inr h) =
    In-insert_desc_of m n (sort_desc ids) (inr (In-sort_desc_of m ids h))

largest_left :
    (ids : List ℕ) (n m : ℕ)
    → IsDesc ids
    → In n ids
    → is_one_of (drop 1 ids) n ≡ false
    → In m ids
    → m ≤ n
largest_left [] n m d h apart k = absurd h
largest_left (x ∷ ids) n m (below, d) (inr h) apart k =
    cc (apart, any_of_In (λ (y : ℕ). y == n) n ids h ((nat_beq_iff n n).1 refl))
largest_left (x ∷ ids) n m (below, d) (inl e) apart (inl f) = omega (arith, e, f)
largest_left (x ∷ ids) n m (below, d) (inl e) apart (inr k) = omega (arith, e, below m k)

false_of_not : (b : Bool) → not b ≡ true → b ≡ false
false_of_not true h = cc
false_of_not false h = refl

-- Of all listings the pruning leaves the newest one at most: the id of a listing that is left is at
-- least that of every listing there was.
pub prune_inventories-newest :
    (db : Db) (r s : InventoryRun)
    → In r (prune_inventories 1 db).1.inventory_runs
    → In s db.inventory_runs
    → s.id ≤ r.id
unfolding prune_inventories stale_ids
prune_inventories-newest db r s mr ms =
    let ids = map id_of db.inventory_runs in
    let stale = drop 1 (sort_desc ids) in
    let (there, left) =
      In-keep (λ (x : InventoryRun). not (is_one_of stale x.id)) r db.inventory_runs mr in
    largest_left (sort_desc ids) r.id s.id (sort_desc-IsDesc ids)
      (In-sort_desc_of r.id ids (In-map_of id_of r db.inventory_runs there))
      (false_of_not (is_one_of stale r.id) left)
      (In-sort_desc_of s.id ids (In-map_of id_of s db.inventory_runs ms))
