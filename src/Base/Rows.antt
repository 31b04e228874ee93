-- ===== src/Base/Rows.antt =====
-- Rows with integer keys: the id that SQLite gives a new row, and ORDER BY key DESC LIMIT 1.
use Prim.Native.Nat.{ℕ, ◌+◌, ◌≤◌, ◌<◌}
use dropbox_mirror.Base.Lists.{In, maximum}
use dropbox_mirror.Base.Tests.{if◌then◌else◌, ltb}
use mathlib.Core.List.{◌++◌, List, [], ◌∷◌, map}
use mathlib.Core.Logic.{inl, inr}
use mathlib.Core.Option.{Option, none, some, some-injective}
use mathlib.Core.Path.{◌≡◌, refl}
use native.Mathlib.Omega.{arith}

module _ {A : Type 0} (key : A → ℕ) where
  -- INTEGER PRIMARY KEY without a value: one more than the largest.
  abbrev pub next_id : List A → ℕ
  next_id rows = maximum (map key rows) + 1

  abbrev pub later : A → Option A → A
  later x none = x
  later x (some y) = if ltb (key x) (key y) then y else x

  unfoldable pub latest : List A → Option A
  latest [] = none
  latest (x ∷ xs) = some (later x (latest xs))

  pub next_id_fresh : (a : A) (rows : List A) → In a rows → key a < next_id rows
  next_id_fresh a [] m = elim m [ ]
  next_id_fresh a (x ∷ rows) (inl e) = rw e (omega arith)
  next_id_fresh a (x ∷ rows) (inr m) = omega (arith, next_id_fresh a rows m)

  pub latest-In : (rows : List A) (a : A) → latest rows ≡ some a → In a rows
  unfolding latest
  latest-In [] a h = cc
  latest-In (x ∷ rows) a h = ground (arith, latest-In rows a)

  latest-none : (rows : List A) (b : A) → latest rows ≡ none → ¬ In b rows
  unfolding latest
  latest-none [] b h m = m
  latest-none (x ∷ rows) b h m = cc

  latest_step :
      (x a b : A) (rows : List A) (o : Option A)
      → latest rows ≡ o
      → ((y : A) → o ≡ some y → In b rows → key b ≤ key y)
      → later x o ≡ a
      → In b (x ∷ rows)
      → key b ≤ key a
  latest_step x a b rows none e ih h (inl same) = rw (same, h) (omega arith)
  latest_step x a b rows none e ih h (inr m) = absurd (latest-none rows b e m)
  latest_step x a b rows (some y) e ih h (inl same) = ground arith
  latest_step x a b rows (some y) e ih h (inr m) = ground (arith, ih y refl m)

  pub latest-max : (rows : List A) (a b : A) → latest rows ≡ some a → In b rows → key b ≤ key a
  unfolding latest
  latest-max [] a b h m = elim m [ ]
  latest-max (x ∷ rows) a b h m =
      latest_step x a b rows (latest rows) refl (λ y e. latest-max rows y b e)
        (some-injective (later x (latest rows)) a h) m

  -- A row whose key is above all others is the latest.
  pub latest-snoc :
      (rows : List A) (a : A)
      → ((b : A) → In b rows → key b < key a)
      → latest (rows ++ (a ∷ [])) ≡ some a
  unfolding latest
  latest-snoc [] a above = refl
  latest-snoc (x ∷ rows) a above =
      rw (latest-snoc rows a (λ b m. above b (inr m))) (ground (arith, above x (inl refl)))
