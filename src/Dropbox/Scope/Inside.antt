-- ===== src/Dropbox/Scope/Inside.antt =====
-- `_scope_relative` of src/migrator/providers/dropbox_api.py: which paths lie in the configured folder.
use dropbox_mirror.Base.{
  ok-injective, Bool, Option, none, some, List, [], ◌∷◌, ◌++◌, map, Text, ◌==◌, nat_eq, text_eq,
  option_eq, text_iff, if◌then◌else◌, ok, ◌≡◌, ◌≢◌, refl, sym, ap, subst, inl, inr, Bool-cases,
}
use dropbox_mirror.Base.Strings.{split, join, lstrip}
use dropbox_mirror.Dropbox.Scope.{relative_path, below, scope_relative, rooted}
use dropbox_mirror.Proton.Names.{slash}
use mathlib.Core.Option.{some-injective}

below-split :
    (casefold : Text → Text) (expected actual rest : List Text)
    → below casefold expected actual ≡ some rest
    → (front : List Text) × (actual ≡ front ++ rest)
      × (map casefold front ≡ map casefold expected)
      × (rest ≢ [])
unfolding below
below-split casefold [] [] rest h = cc
below-split casefold [] (part ∷ actual) rest h =
    let e = some-injective (part ∷ actual) rest h in ([], e, refl, λ empty. cc (e, empty))
below-split casefold (segment ∷ expected) [] rest h = cc
below-split casefold (segment ∷ expected) (part ∷ actual) rest h =
    let chosen = λ (b : Bool). (if b then below casefold expected actual else none) ≡ some rest in
    elim (Bool-cases (casefold part == casefold segment)) [
      | inr n ↦ cc (subst chosen n h)
      | inl t ↦
          let (front, e, same, left) =
            below-split casefold expected actual rest (subst chosen t h) in
          (
            part ∷ front,
            ap (λ (l : List Text). part ∷ l) e,
            rw ((text_iff (casefold part) (casefold segment)).0 t, same) refl,
            left,
          )
    ]

-- The path is in the folder, up to case, and what is returned is what stands below it.
pub record Inside (casefold : Text → Text) (scope path relative : Text) : Type 0 where
  pub front : List Text
  pub rest : List Text
  pub segments : split slash (lstrip slash path) ≡ front ++ rest
  pub same_folder : map casefold front ≡ map casefold (split slash scope)
  pub not_itself : rest ≢ []
  pub result : relative ≡ slash ∷ join slash rest

rooted-some :
    (o : Option (List Text)) (relative : Text)
    → rooted o ≡ ok (some relative)
    → (rest : List Text) × (o ≡ some rest) × (relative ≡ slash ∷ join slash rest)
rooted-some none relative h = cc
rooted-some (some rest) relative h =
    (rest, refl, sym (some-injective (slash ∷ join slash rest) relative (ok-injective h)))

-- With a configured folder, a path that Dropbox returned is accepted only if its segments start
-- with those of the folder, up to case, and go on below it; the accepted path is the rest.
pub scope_relative-Inside :
    (casefold : Text → Text) (scope path relative : Text)
    → scope ≢ []
    → scope_relative casefold scope (some path) ≡ ok (some relative)
    → Inside casefold scope path relative
unfolding scope_relative relative_path
scope_relative-Inside casefold [] path relative there h = absurd (there refl)
scope_relative-Inside casefold (c ∷ scope) path relative there h =
    let expected = split slash (c ∷ scope) in
    let actual = split slash (lstrip slash path) in
    let (rest, found, e) = rooted-some (below casefold expected actual) relative h in
    let (front, segments, same, left) = below-split casefold expected actual rest found in
    record {
      front = front;
      rest = rest;
      segments = segments;
      same_folder = same;
      not_itself = left;
      result = e;
    }
