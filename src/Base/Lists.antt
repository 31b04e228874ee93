-- ===== src/Base/Lists.antt =====
-- Lists measured by native numbers, Boolean filters and quantifiers, and membership by recursion.
use Prim.Native.Nat.{ℕ, zero, suc, ◌+◌, ◌-◌, ◌≤◌, max, min}
use dropbox_mirror.Base.Tests.{if◌then◌else◌, Bool-cases}
use mathlib.Core.Bool.{Bool, true, false, ◌&&◌, ◌||◌}
use mathlib.Core.List.{List, [], ◌∷◌, ◌++◌, append_assoc, map}
use mathlib.Core.Logic.{◌⊎◌, inl, inr}
use mathlib.Core.Option.{Option, none, some}
use mathlib.Core.Path.{◌≡◌, refl, sym, ap, subst}
use native.Mathlib.Omega.{arith}

module _ {ℓ} {A : Type ℓ} where
  abbrev pub length : List A → ℕ
  length [] = 0
  length (x ∷ xs) = suc (length xs)

  pub length-append : (xs ys : List A) → length (xs ++ ys) ≡ length xs + length ys
  length-append [] ys = omega arith
  length-append (x ∷ xs) ys = omega (arith, length-append xs ys)

  -- `[x for x in xs if p(x)]`, and SQL's WHERE.
  unfoldable pub keep : (A → Bool) → List A → List A
  keep p [] = []
  keep p (x ∷ xs) = if p x then x ∷ keep p xs else keep p xs

  pub keep-append : (p : A → Bool) (xs ys : List A) → keep p (xs ++ ys) ≡ keep p xs ++ keep p ys
  unfolding keep
  keep-append p [] ys = refl
  keep-append p (x ∷ xs) ys = ground (arith, keep-append p xs ys)

  pub length-keep-le : (p : A → Bool) (xs : List A) → length (keep p xs) ≤ length xs
  unfolding keep
  length-keep-le p [] = omega arith
  length-keep-le p (x ∷ xs) = ground (arith, length-keep-le p xs)

  unfoldable pub any : (A → Bool) → List A → Bool
  any p [] = false
  any p (x ∷ xs) = p x || any p xs

  unfoldable pub all : (A → Bool) → List A → Bool
  all p [] = true
  all p (x ∷ xs) = p x && all p xs

  -- `next((x for x in xs if p(x)), None)`
  unfoldable pub find : (A → Bool) → List A → Option A
  find p [] = none
  find p (x ∷ xs) = if p x then some x else find p xs

  abbrev pub All {κ} : (A → Type κ) → List A → Type κ
  All P [] = Unit
  All P (x ∷ xs) = P x × All P xs

  pub All-append {κ} :
      (Q : A → Type κ) (front back : List A) → All Q front → All Q back → All Q (front ++ back)
  All-append Q [] back at_front at_back = at_back
  All-append Q (x ∷ front) back at_front at_back =
      (at_front.0, All-append Q front back (at_front.1) at_back)

  abbrev pub concat : List (List A) → List A
  concat [] = []
  concat (xs ∷ xss) = xs ++ concat xss

  pub concat-append : (xss yss : List (List A)) → concat (xss ++ yss) ≡ concat xss ++ concat yss
  concat-append [] yss = refl
  concat-append (xs ∷ xss) yss = rw (concat-append xss yss) (sym (append_assoc xs _ _))

  abbrev pub take : ℕ → List A → List A
  take zero xs = []
  take (suc n) [] = []
  take (suc n) (x ∷ xs) = x ∷ take n xs

  abbrev pub drop : ℕ → List A → List A
  drop zero xs = xs
  drop (suc n) [] = []
  drop (suc n) (x ∷ xs) = drop n xs

  pub take-append-drop : (n : ℕ) (xs : List A) → take n xs ++ drop n xs ≡ xs
  take-append-drop zero xs = refl
  take-append-drop (suc n) [] = refl
  take-append-drop (suc n) (x ∷ xs) = rw (take-append-drop n xs)

  pub length-take : (n : ℕ) (xs : List A) → length (take n xs) ≡ min n (length xs)
  length-take zero xs = omega arith
  length-take (suc n) [] = omega arith
  length-take (suc n) (x ∷ xs) = omega (arith, length-take n xs)

  pub length-drop : (n : ℕ) (xs : List A) → length (drop n xs) ≡ length xs - n
  length-drop zero xs = omega arith
  length-drop (suc n) [] = omega arith
  length-drop (suc n) (x ∷ xs) = omega (arith, length-drop n xs)

-- Membership, by recursion: the tactics take it apart.
module _ {A : Type 0} where
  abbrev pub In : A → List A → Type 0
  In a [] = ⊥
  In a (x ∷ xs) = (a ≡ x) ⊎ In a xs

  pub In-append_left : (a : A) (xs ys : List A) → In a xs → In a (xs ++ ys)
  In-append_left a [] ys m = elim m [ ]
  In-append_left a (x ∷ xs) ys (inl e) = inl e
  In-append_left a (x ∷ xs) ys (inr m) = inr (In-append_left a xs ys m)

  pub In-append_right : (a : A) (xs ys : List A) → In a ys → In a (xs ++ ys)
  In-append_right a [] ys m = m
  In-append_right a (x ∷ xs) ys m = inr (In-append_right a xs ys m)

  pub In-append : (a : A) (xs ys : List A) → In a (xs ++ ys) → In a xs ⊎ In a ys
  In-append a [] ys m = inr m
  In-append a (x ∷ xs) ys (inl e) = inl (inl e)
  In-append a (x ∷ xs) ys (inr m) = elim (In-append a xs ys m) [
    | inl l ↦ inl (inr l)
    | inr r ↦ inr r
  ]

  pub In-keep : (p : A → Bool) (a : A) (xs : List A) → In a (keep p xs) → In a xs × (p a ≡ true)
  unfolding keep
  In-keep p a [] = λ m. elim m [ ]
  In-keep p a (x ∷ xs) = elim (Bool-cases (p x)) [
    | inl t ↦ rw t (λ m. elim m [
      | inl e ↦ (inl e, rw e t)
      | inr r ↦ (inr (In-keep p a xs r).0, (In-keep p a xs r).1)
    ])
    | inr f ↦ rw f (λ r. (inr (In-keep p a xs r).0, (In-keep p a xs r).1))
  ]

  pub In-keep_of : (p : A → Bool) (a : A) (xs : List A) → In a xs → p a ≡ true → In a (keep p xs)
  unfolding keep
  In-keep_of p a [] m t = elim m [ ]
  In-keep_of p a (x ∷ xs) (inl e) t = rw (← e, t) (inl refl)
  In-keep_of p a (x ∷ xs) (inr m) t = elim (Bool-cases (p x)) [
    | inl y ↦ rw y (inr (In-keep_of p a xs m t))
    | inr n ↦ rw n (In-keep_of p a xs m t)
  ]

  pub any_of_In : (p : A → Bool) (a : A) (xs : List A) → In a xs → p a ≡ true → any p xs ≡ true
  unfolding any
  any_of_In p a [] m t = elim m [ ]
  any_of_In p a (x ∷ xs) (inl e) t = rw (← e, t) refl
  any_of_In p a (x ∷ xs) (inr m) t = ground (arith, any_of_In p a xs m t)

  pub any-In : (p : A → Bool) (xs : List A) → any p xs ≡ true → (a : A) × In a xs × (p a ≡ true)
  unfolding any
  any-In p [] h = cc
  any-In p (x ∷ xs) h = elim (Bool-cases (p x)) [
    | inl t ↦ (x, inl refl, t)
    | inr f ↦ let (a, m, t) = any-In p xs (rw f at h) in (a, inr m, t)
  ]

  pub find_of_In :
      (p : A → Bool) (a : A) (xs : List A)
      → In a xs
      → p a ≡ true
      → (c : A) × (find p xs ≡ some c) × In c xs × (p c ≡ true)
  unfolding find
  find_of_In p a [] m t = elim m [ ]
  find_of_In p a (x ∷ xs) m t = elim (Bool-cases (p x)) [
    | inl y ↦ (x, rw y refl, inl refl, y)
    | inr n ↦ elim m [
      | inl e ↦ cc (n, t, e)
      | inr later ↦
          let (c, found, mc, tc) = find_of_In p a xs later t in (c, rw n found, inr mc, tc)
    ]
  ]

  pub find-true : (p : A → Bool) (xs : List A) (a : A) → find p xs ≡ some a → p a ≡ true
  unfolding find
  find-true p [] a h = cc
  find-true p (x ∷ xs) a h = ground (arith, find-true p xs a)

  pub find-In : (p : A → Bool) (xs : List A) (a : A) → find p xs ≡ some a → In a xs
  unfolding find
  find-In p [] a h = cc
  find-In p (x ∷ xs) a h = ground (arith, find-In p xs a)

  pub All-In {κ} : (P : A → Type κ) (xs : List A) (a : A) → All P xs → In a xs → P a
  All-In P [] a h m = elim m [ ]
  All-In P (x ∷ xs) a h (inl e) = subst P (sym e) h.0
  All-In P (x ∷ xs) a h (inr m) = All-In P xs a h.1 m

  pub All-of_In {κ} : (P : A → Type κ) (xs : List A) → ((a : A) → In a xs → P a) → All P xs
  All-of_In P [] h = tt
  All-of_In P (x ∷ xs) h = (h x (inl refl), All-of_In P xs (λ a m. h a (inr m)))

  pub All-map-In {κ μ} :
      {B : Type 0} (P : A → Type κ) (Q : B → Type μ) (f : A → B) (xs : List A)
      → ((a : A) → In a xs → P a → Q (f a))
      → All P xs
      → All Q (map f xs)
  All-map-In P Q f [] step h = tt
  All-map-In P Q f (x ∷ xs) step h =
      (step x (inl refl) (h.0), All-map-In P Q f xs (λ a m. step a (inr m)) (h.1))

module _ {A B : Type 0} where
  pub In-map : (f : A → B) (b : B) (xs : List A) → In b (map f xs) → (a : A) × In a xs × (b ≡ f a)
  In-map f b [] m = elim m [ ]
  In-map f b (x ∷ xs) (inl e) = (x, inl refl, e)
  In-map f b (x ∷ xs) (inr m) = let (a, ma, e) = In-map f b xs m in (a, inr ma, e)

  pub In-map_of : (f : A → B) (a : A) (xs : List A) → In a xs → In (f a) (map f xs)
  In-map_of f a [] m = elim m [ ]
  In-map_of f a (x ∷ xs) (inl e) = inl (ap f e)
  In-map_of f a (x ∷ xs) (inr m) = inr (In-map_of f a xs m)

-- `sum(...)` of numbers; SQL's COALESCE(SUM(..), 0).
abbrev pub sum : List ℕ → ℕ
sum [] = 0
sum (x ∷ xs) = x + sum xs

pub sum-append : (xs ys : List ℕ) → sum (xs ++ ys) ≡ sum xs + sum ys
sum-append [] ys = omega arith
sum-append (x ∷ xs) ys = omega (arith, sum-append xs ys)

-- `max(..., default=0)`
abbrev pub maximum : List ℕ → ℕ
maximum [] = 0
maximum (x ∷ xs) = max x (maximum xs)
