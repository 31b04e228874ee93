-- ===== src/Base/Sort.antt =====
-- SQL's ORDER BY on a text column, and Python's `sorted`: both compare code points, and are stable.
use Prim.Native.Nat.{ℕ, ◌+◌}
use dropbox_mirror.Base.Equality.{Text}
use dropbox_mirror.Base.Lists.{In, sum, length}
use dropbox_mirror.Base.Tests.{if◌then◌else◌, ltb}
use mathlib.Core.Bool.{Bool, true, false}
use mathlib.Core.List.{List, [], ◌∷◌, map}
use mathlib.Core.Logic.{◌⊎◌, inl, inr}
use mathlib.Core.Path.{◌≡◌, refl}
use native.Mathlib.Omega.{arith}

unfoldable pub text_leb : Text → Text → Bool
text_leb [] t = true
text_leb (a ∷ s) [] = false
text_leb (a ∷ s) (b ∷ t) = if ltb a b then true else if ltb b a then false else text_leb s t

module _ {A : Type 0} (key : A → Text) where
  unfoldable pub insert_by : A → List A → List A
  unfolding text_leb
  insert_by a [] = a ∷ []
  insert_by a (x ∷ xs) = if text_leb (key a) (key x) then a ∷ x ∷ xs else x ∷ insert_by a xs

  unfoldable pub sort_by : List A → List A
  unfolding insert_by
  sort_by [] = []
  sort_by (x ∷ xs) = insert_by x (sort_by xs)

  In-insert_by : (b a : A) (xs : List A) → In b (insert_by a xs) → (b ≡ a) ⊎ In b xs
  unfolding insert_by
  In-insert_by b a [] m = m
  In-insert_by b a (x ∷ xs) m = ground (arith, In-insert_by b a xs)

  In-insert_by_of : (b a : A) (xs : List A) → (b ≡ a) ⊎ In b xs → In b (insert_by a xs)
  unfolding insert_by
  In-insert_by_of b a [] m = m
  In-insert_by_of b a (x ∷ xs) m = ground (arith, In-insert_by_of b a xs)

  pub In-sort_by : (b : A) (xs : List A) → In b (sort_by xs) → In b xs
  unfolding sort_by
  In-sort_by b [] m = m
  In-sort_by b (x ∷ xs) m = elim (In-insert_by b x (sort_by xs) m) [
    | inl e ↦ inl e
    | inr r ↦ inr (In-sort_by b xs r)
  ]

  pub In-sort_by_of : (b : A) (xs : List A) → In b xs → In b (sort_by xs)
  unfolding sort_by
  In-sort_by_of b [] m = m
  In-sort_by_of b (x ∷ xs) (inl e) = In-insert_by_of b x (sort_by xs) (inl e)
  In-sort_by_of b (x ∷ xs) (inr m) = In-insert_by_of b x (sort_by xs) (inr (In-sort_by_of b xs m))

  sum-insert_by :
      (f : A → ℕ) (a : A) (xs : List A) → sum (map f (insert_by a xs)) ≡ f a + sum (map f xs)
  unfolding insert_by
  sum-insert_by f a [] = refl
  sum-insert_by f a (x ∷ xs) = ground (arith, sum-insert_by f a xs)

  pub sum-sort_by : (f : A → ℕ) (xs : List A) → sum (map f (sort_by xs)) ≡ sum (map f xs)
  unfolding sort_by
  sum-sort_by f [] = refl
  sum-sort_by f (x ∷ xs) = omega (arith, sum-insert_by f x (sort_by xs), sum-sort_by f xs)

  length-insert_by : (a : A) (xs : List A) → length (insert_by a xs) ≡ length xs + 1
  unfolding insert_by
  length-insert_by a [] = omega arith
  length-insert_by a (x ∷ xs) = ground (arith, length-insert_by a xs)

  pub length-sort_by : (xs : List A) → length (sort_by xs) ≡ length xs
  unfolding sort_by
  length-sort_by [] = refl
  length-sort_by (x ∷ xs) = omega (arith, length-insert_by x (sort_by xs), length-sort_by xs)
