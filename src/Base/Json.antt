-- ===== src/Base/Json.antt =====
-- JSON values. A column of JSON text holds the value itself: `json.loads` undoes `json.dumps`.
use Prim.Native.Nat.{ℕ}
use dropbox_mirror.Base.Equality.{nat_eq, Text, ◌==◌, text_eq}
use dropbox_mirror.Base.Tests.{if◌then◌else◌}
use mathlib.Core.Bool.{true, false, Bool}
use mathlib.Core.List.{[], ◌∷◌}
use mathlib.Core.Option.{Option, none, some}

-- Numbers are the non-negative integers that the program reads (sizes and counts).
mutual
  pub data Json : Type 0 where
    null : Json
    bool : Bool → Json
    num : ℕ → Json
    str : Text → Json
    arr : Items → Json
    obj : Fields → Json

  pub data Items : Type 0 where
    nil : Items
    item : Json → Items → Items

  pub data Fields : Type 0 where
    end : Fields
    field : Text → Json → Fields → Fields

-- `d.get(key)` on a dict; a missing key is `none`, which Python reads as None.
unfoldable pub field_of : Text → Fields → Option Json
field_of key end = none
field_of key (field k v rest) = if k == key then some v else field_of key rest

-- `bool(value)`
unfoldable pub truthy : Json → Bool
truthy null = false
truthy (bool b) = b
truthy (num n) = if n == 0 then false else true
truthy (str []) = false
truthy (str (c ∷ s)) = true
truthy (arr nil) = false
truthy (arr (item x xs)) = true
truthy (obj end) = false
truthy (obj (field k v rest)) = true

-- `d.get(key)` where None stands for a missing key.
unfoldable pub get_field : Text → Fields → Json
unfolding field_of
get_field key fields = elim (field_of key fields) [ none ↦ null | some v ↦ v ]

abbrev pub is_obj : Json → Bool
is_obj (obj fields) = true
is_obj _ = false

-- `key in d`
unfoldable pub has_field : Text → Fields → Bool
has_field key end = false
has_field key (field k v rest) = if k == key then true else has_field key rest
