-- ===== src/Proton/Names/Laws.antt =====
-- src/migrator/providers/proton_cli.py: the functions on names and paths, joined and split.
use dropbox_mirror.Base.{
  ℕ, ◌%◌, false, [], ◌∷◌, ◌++◌, if◌then◌else◌, ◌==◌, nat_eq, Text, ok, ◌≡◌, ◌≢◌, refl, sym, ap, ◌∙◌,
  arith, Bool-cases, inl, inr, nat_beq_iff,
}
use dropbox_mirror.Proton.Names.{
  slash, backslash, escape_component, preceding_backslashes, split_at, split_loop,
  split_parent_path,
}
use mathlib.Core.List.{reverse, reverse-append, append_assoc, reverse-reverse}

-- The two replacements at once.
abbrev escape_char : ℕ → Text
escape_char x =
    if x == backslash
    then backslash ∷ backslash ∷ []
    else if x == slash
    then backslash ∷ slash ∷ []
    else x ∷ []

abbrev escape : Text → Text
escape [] = []
escape (x ∷ name) = escape_char x ++ escape name

escape_lem : (name : Text) → escape_component name ≡ escape name
unfolding escape_component
escape_lem [] = refl
escape_lem (x ∷ name) = ground (arith, escape_lem name)

-- The escaped name backwards, from the name backwards.
abbrev unescape_step : ℕ → Text → Text
unescape_step x rest =
    if x == backslash
    then backslash ∷ backslash ∷ rest
    else if x == slash
    then slash ∷ backslash ∷ rest
    else x ∷ rest

abbrev backwards : Text → Text → Text
backwards [] tail = tail
backwards (x ∷ name) tail = unescape_step x (backwards name tail)

-- However a name ends, an even number of backslashes stands before a slash that follows it.
even_run : (name tail : Text) → preceding_backslashes (backwards name (slash ∷ tail)) % 2 ≡ 0
unfolding preceding_backslashes
even_run [] tail = refl
even_run (x ∷ name) tail = ground (arith, even_run name tail)

-- What the loop has collected of the escaped name when it is through with the name.
abbrev collected : Text → Text → Text
collected [] component = component
collected (x ∷ name) component = collected name (escape_char x ++ component)

backwards_cons :
    (name tail : Text) → (z : ℕ) × (rest : Text) × (backwards name (slash ∷ tail) ≡ z ∷ rest)
backwards_cons [] tail = (slash, tail, refl)
backwards_cons (x ∷ name) tail = elim (Bool-cases (x == backslash)) [
  | inl b ↦ (backslash, backslash ∷ backwards name (slash ∷ tail), rw b)
  | inr other ↦ elim (Bool-cases (x == slash)) [
    | inl s ↦ (slash, backslash ∷ backwards name (slash ∷ tail), rw (other, s))
    | inr plain ↦ (x, backwards name (slash ∷ tail), rw (other, plain))
  ]
]

split_step :
    (component t : Text) (x z : ℕ) (rest : Text)
    → t ≡ z ∷ rest
    → (x == slash) ≡ false
    → split_loop component (x ∷ t) ≡ split_loop (x ∷ component) t
unfolding split_loop
split_step component t x z rest e plain = rw (e, plain)

split_odd :
    (component t : Text)
    → preceding_backslashes t % 2 ≡ 0
    → split_loop component (slash ∷ backslash ∷ t) ≡ split_loop (slash ∷ component) (backslash ∷ t)
unfolding split_loop
split_odd component t even = ground (arith, even)

split_walk :
    (name component tail : Text) (y : ℕ)
    → preceding_backslashes (y ∷ tail) % 2 ≡ 0
    → split_loop component (backwards name (slash ∷ y ∷ tail))
      ≡ split_at (y ∷ tail) (collected name component)
split_walk [] component tail y even = unfold split_loop in ground (arith, even)
split_walk (x ∷ name) component tail y even =
    let t = backwards name (slash ∷ y ∷ tail) in
    let (z, rest, shape) = backwards_cons name (y ∷ tail) in
    elim (Bool-cases (x == backslash)) [
      | inl b ↦ rw b (
          split_step component (backslash ∷ t) backslash backslash t refl refl
          ∙ split_step (backslash ∷ component) t backslash z rest shape refl
          ∙ split_walk name (backslash ∷ backslash ∷ component) tail y even)
      | inr other ↦ elim (Bool-cases (x == slash)) [
        | inl s ↦
            rw (other, s)
              (split_odd component t (even_run name (y ∷ tail))
                ∙ split_step (slash ∷ component) t backslash z rest shape refl
                ∙ split_walk name (backslash ∷ slash ∷ component) tail y even)
        | inr plain ↦
            rw (other, plain)
              (split_step component t x z rest shape plain
                ∙ split_walk name (x ∷ component) tail y even)
      ]
    ]

backwards-append :
    (name tail : Text) (x : ℕ)
    → backwards (name ++ (x ∷ [])) tail ≡ backwards name (unescape_step x tail)
backwards-append [] tail x = refl
backwards-append (y ∷ name) tail x = ap (unescape_step y) (backwards-append name tail x)

collected-append :
    (name component : Text) (x : ℕ)
    → collected (name ++ (x ∷ [])) component ≡ escape_char x ++ collected name component
collected-append [] component x = refl
collected-append (y ∷ name) component x = collected-append name (escape_char y ++ component) x

reverse-escape_char : (x : ℕ) (tail : Text) → reverse (escape_char x) ++ tail ≡ unescape_step x tail
reverse-escape_char x tail = ground arith

reverse-escape : (name tail : Text) → reverse (escape name) ++ tail ≡ backwards (reverse name) tail
reverse-escape [] tail = refl
reverse-escape (x ∷ name) tail =
    ap (λ l. l ++ tail) (reverse-append (escape_char x) (escape name))
    ∙ append_assoc (reverse (escape name)) (reverse (escape_char x)) tail
    ∙ ap (λ l. reverse (escape name) ++ l) (reverse-escape_char x tail)
    ∙ reverse-escape name (unescape_step x tail)
    ∙ sym (backwards-append (reverse name) tail x)
    ∙ ap (λ l. backwards l tail) (sym (reverse-append (x ∷ []) name))

collected-reverse : (name : Text) → collected (reverse name) [] ≡ escape name
collected-reverse [] = refl
collected-reverse (x ∷ name) =
    ap (λ l. collected l []) (reverse-append (x ∷ []) name)
    ∙ collected-append (reverse name) [] x
    ∙ ap (λ l. escape_char x ++ l) (collected-reverse name)

split_cons :
    (before component : Text)
    → component ≢ []
    → split_at before component ≡ ok (reverse before, component)
split_cons before [] h = absurd (h refl)
split_cons before (c ∷ component) h = refl

escape_ne_nil : (name : Text) → name ≢ [] → escape name ≢ []
escape_ne_nil [] h e = h refl
escape_ne_nil (x ∷ name) h e = ground arith

split_joined :
    (before name : Text)
    → before ≢ []
    → preceding_backslashes before % 2 ≡ 0
    → name ≢ []
    → split_loop [] (backwards (reverse name) (slash ∷ before)) ≡ ok (reverse before, escape name)
split_joined [] name some_parent even some_name = absurd (some_parent refl)
split_joined (y ∷ before) name some_parent even some_name =
    split_walk (reverse name) [] before y even
    ∙ ap (split_at (y ∷ before)) (collected-reverse name)
    ∙ split_cons (y ∷ before) (escape name) (escape_ne_nil name some_name)

reverse_ne_nil : (s : Text) → s ≢ [] → reverse s ≢ []
reverse_ne_nil s h e = h (sym (reverse-reverse s) ∙ ap reverse e)

-- The destination made of a parent folder and an escaped name is split into these two again,
-- whatever slashes and backslashes the name has, if an even number of backslashes ends the parent.
pub split_parent_path-join :
    (parent name : Text)
    → parent ≢ []
    → preceding_backslashes (reverse parent) % 2 ≡ 0
    → name ≢ []
    → split_parent_path (parent ++ (slash ∷ escape_component name))
      ≡ ok (parent, escape_component name)
unfolding split_parent_path
split_parent_path-join parent name some_parent even some_name = rw escape_lem (
    ap (split_loop []) (
      reverse-append parent (slash ∷ escape name)
      ∙ ap (λ l. l ++ reverse parent) (reverse-append (slash ∷ []) (escape name))
      ∙ append_assoc (reverse (escape name)) (slash ∷ []) (reverse parent)
      ∙ reverse-escape name (slash ∷ reverse parent))
    ∙ split_joined (reverse parent) name (reverse_ne_nil parent some_parent) even some_name
    ∙ ap (λ l. ok (l, escape name)) (reverse-reverse parent))

-- Reads an escaped name back.
abbrev decode : Text → Text
decode [] = []
decode (x ∷ []) = x ∷ []
decode (x ∷ y ∷ s) =
    let rest = decode s in
    let next = decode (y ∷ s) in if x == backslash then y ∷ rest else x ∷ next

decode_plain : (x : ℕ) (s : Text) → (x == backslash) ≡ false → decode (x ∷ s) ≡ x ∷ decode s
decode_plain x [] plain = refl
decode_plain x (y ∷ s) plain = rw plain

decode-escape : (name : Text) → decode (escape name) ≡ name
decode-escape [] = refl
decode-escape (x ∷ name) = elim (Bool-cases (x == backslash)) [
  | inl b ↦ rw (b, decode-escape name, (nat_beq_iff x backslash).0 b)
  | inr other ↦ elim (Bool-cases (x == slash)) [
    | inl s ↦ rw (other, s, decode-escape name, (nat_beq_iff x slash).0 s)
    | inr plain ↦
        rw (other, plain)
          (decode_plain x (escape name) other ∙ ap (λ l. x ∷ l) (decode-escape name))
  ]
]

-- Two names that are escaped alike are one name.
pub escape_component-injective : (a b : Text) → escape_component a ≡ escape_component b → a ≡ b
escape_component-injective a b e =
    sym (decode-escape a) ∙ ap decode (sym (escape_lem a) ∙ e ∙ escape_lem b) ∙ decode-escape b
