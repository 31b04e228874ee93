-- ===== src/Base/Strings.antt =====
-- The methods of `str` that the program uses, over texts as lists of code points.
use Prim.Native.Nat.{ℕ}
use dropbox_mirror.Base.Equality.{Text, ◌==◌, nat_eq}
use dropbox_mirror.Base.Lists.{any}
use dropbox_mirror.Base.Tests.{if◌then◌else◌, Bool-cases}
use mathlib.Core.Bool.{Bool, true, false, ◌&&◌}
use mathlib.Core.List.{List, [], ◌∷◌, ◌++◌}
use mathlib.Core.Logic.{◌≢◌, inl, inr}
use mathlib.Core.Path.{◌≡◌, refl}
use native.Mathlib.Omega.{arith}

-- Puts a character in front of the first part.
abbrev pub onto_first : ℕ → List Text → List Text
onto_first c [] = (c ∷ []) ∷ []
onto_first c (part ∷ parts) = (c ∷ part) ∷ parts

-- `s.split(c)` for a one-character separator: always at least one part.
unfoldable pub split : ℕ → Text → List Text
split c [] = [] ∷ []
split c (x ∷ s) = let rest = split c s in if x == c then [] ∷ rest else onto_first x rest

-- `c.join(parts)`
unfoldable pub join : ℕ → List Text → Text
join c [] = []
join c (part ∷ []) = part
join c (part ∷ p ∷ parts) = part ++ (c ∷ join c (p ∷ parts))

-- `s.lstrip(c)`
unfoldable pub lstrip : ℕ → Text → Text
lstrip c [] = []
lstrip c (x ∷ s) = if x == c then lstrip c s else x ∷ s

abbrev strip_step : ℕ → ℕ → Text → Text
strip_step c x [] = if x == c then [] else x ∷ []
strip_step c x (y ∷ s) = x ∷ y ∷ s

-- `s.rstrip(c)`
unfoldable pub rstrip : ℕ → Text → Text
rstrip c [] = []
rstrip c (x ∷ s) = strip_step c x (rstrip c s)

-- `c in s`
abbrev pub has : ℕ → Text → Bool
has c s = any (λ x. x == c) s

unfoldable pub starts_with : Text → Text → Bool
starts_with [] s = true
starts_with (p ∷ ps) [] = false
starts_with (p ∷ ps) (x ∷ s) = p == x && starts_with ps s

-- `needle in s`
unfoldable pub contains_text : Text → Text → Bool
unfolding starts_with
contains_text needle [] = starts_with needle []
contains_text needle (x ∷ s) = if starts_with needle (x ∷ s) then true else contains_text needle s

split_ne_nil : (c : ℕ) (s : Text) → split c s ≢ []
unfolding split
split_ne_nil c [] e = cc
split_ne_nil c (x ∷ s) e = ground (arith, split_ne_nil c s)

join-onto_first : (c x : ℕ) (parts : List Text) → join c (onto_first x parts) ≡ x ∷ join c parts
unfolding join
join-onto_first c x [] = refl
join-onto_first c x (part ∷ []) = refl
join-onto_first c x (part ∷ p ∷ parts) = refl

join-nil-cons : (c : ℕ) (parts : List Text) → parts ≢ [] → join c ([] ∷ parts) ≡ c ∷ join c parts
unfolding join
join-nil-cons c [] h = absurd (h refl)
join-nil-cons c (p ∷ parts) h = refl

-- Joining the parts of a text gives the text back.
pub join-split : (c : ℕ) (s : Text) → join c (split c s) ≡ s
unfolding split
join-split c [] = unfold join in refl
join-split c (x ∷ s) = elim (Bool-cases (x == c)) [
  | inl t ↦ rw (t, join-nil-cons c (split c s) (split_ne_nil c s), join-split c s) (ground arith)
  | inr f ↦ rw (f, join-onto_first c x (split c s), join-split c s) refl
]
