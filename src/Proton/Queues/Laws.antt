-- ===== src/Proton/Queues/Laws.antt =====
-- The queues of the walk's workers: what stands in one of them after a UID is added or taken.
use dropbox_mirror.Base.{
  Option-cases, length-append, In-append_right, In-append_left, In-append, ℕ, zero, suc, ◌+◌, ◌<◌,
  Option, none, some, List, [], ◌∷◌, ◌++◌, length, concat, In, Text, nat_eq, text_eq, option_eq,
  ltb, ◌≡◌, refl, subst, ◌⊎◌, inl, inr, arith, Bool-cases,
}
use dropbox_mirror.Proton.Queues.{
  put_back, or_longest, next_uid, longest, return_to, pop_at, extend_at,
}

pub length-extend_at :
    (worker : ℕ) (uids : List Text) (queues : List (List Text))
    → length (extend_at worker uids queues) ≡ length queues
unfolding extend_at
length-extend_at worker uids [] = refl
length-extend_at zero uids (q ∷ queues) = refl
length-extend_at (suc worker) uids (q ∷ queues) = omega (arith, length-extend_at worker uids queues)

-- A worker in range keeps what its queue held, and what is added.
pub In-extend_at :
    (worker : ℕ) (uids : List Text) (u : Text) (queues : List (List Text))
    → worker < length queues
    → In u (concat queues) ⊎ In u uids
    → In u (concat (extend_at worker uids queues))
unfolding extend_at
In-extend_at worker uids u [] h m = absurd (omega (arith, h))
In-extend_at zero uids u (q ∷ queues) h (inl m) = elim (In-append u q (concat queues) m) [
  | inl l ↦ In-append_left u (q ++ uids) (concat queues) (In-append_left u q uids l)
  | inr r ↦ In-append_right u (q ++ uids) (concat queues) r
]
In-extend_at zero uids u (q ∷ queues) h (inr m) =
    In-append_left u (q ++ uids) (concat queues) (In-append_right u q uids m)
In-extend_at (suc worker) uids u (q ∷ queues) h (inl m) = elim (In-append u q (concat queues) m) [
  | inl l ↦ In-append_left u q (concat (extend_at worker uids queues)) l
  | inr r ↦
      In-append_right u q (concat (extend_at worker uids queues))
        (In-extend_at worker uids u queues (omega (arith, h)) (inl r))
]
In-extend_at (suc worker) uids u (q ∷ queues) h (inr m) =
    In-append_right u q (concat (extend_at worker uids queues))
      (In-extend_at worker uids u queues (omega (arith, h)) (inr m))

pub length-return_to :
    (worker : ℕ) (uid : Text) (queues : List (List Text))
    → length (return_to worker uid queues) ≡ length queues
unfolding return_to
length-return_to worker uid [] = refl
length-return_to zero uid (q ∷ queues) = refl
length-return_to (suc worker) uid (q ∷ queues) = omega (arith, length-return_to worker uid queues)

pub In-return_to :
    (worker : ℕ) (uid u : Text) (queues : List (List Text))
    → worker < length queues
    → In u (concat queues) ⊎ (u ≡ uid)
    → In u (concat (return_to worker uid queues))
unfolding return_to
In-return_to worker uid u [] h m = absurd (omega (arith, h))
In-return_to zero uid u (q ∷ queues) h (inl m) = inr m
In-return_to zero uid u (q ∷ queues) h (inr e) = inl e
In-return_to (suc worker) uid u (q ∷ queues) h (inl m) = elim (In-append u q (concat queues) m) [
  | inl l ↦ In-append_left u q (concat (return_to worker uid queues)) l
  | inr r ↦
      In-append_right u q (concat (return_to worker uid queues))
        (In-return_to worker uid u queues (omega (arith, h)) (inl r))
]
In-return_to (suc worker) uid u (q ∷ queues) h (inr e) =
    In-append_right u q (concat (return_to worker uid queues))
      (In-return_to worker uid u queues (omega (arith, h)) (inr e))

-- What a taken UID leaves: nothing is lost, and one place is free.
pub record Popped (uid : Text) (before after : List (List Text)) : Type 0 where
  pub kept : (u : Text) → In u (concat before) → (u ≡ uid) ⊎ In u (concat after)
  pub one_less : length (concat before) ≡ length (concat after) + 1
  pub width : length after ≡ length before

Popped-cons :
    (uid : Text) (q : List Text) (before after : List (List Text))
    → Popped uid before after
    → Popped uid (q ∷ before) (q ∷ after)
Popped-cons uid q before after h = record {
  kept = λ u m. elim (In-append u q (concat before) m) [
    | inl l ↦ inr (In-append_left u q (concat after) l)
    | inr r ↦ elim (h.kept u r) [
      | inl e ↦ inl e
      | inr s ↦ inr (In-append_right u q (concat after) s)
    ]
  ];
  one_less =
      omega (arith, h.one_less, length-append q (concat before), length-append q (concat after));
  width = omega (arith, h.width);
}

abbrev PopOf : List (List Text) → Option (Text × List (List Text)) → Type 0
PopOf before none = Unit
PopOf before (some (uid, after)) = Popped uid before after

pop_at-PopOf : (worker : ℕ) (queues : List (List Text)) → PopOf queues (pop_at worker queues)
unfolding pop_at
pop_at-PopOf worker [] = tt
pop_at-PopOf zero ([] ∷ queues) = tt
pop_at-PopOf zero ((u ∷ q) ∷ queues) = record {
  kept = λ v m. m;
  one_less = omega arith;
  width = refl;
}
pop_at-PopOf (suc worker) (q ∷ queues) =
    let rest = pop_at-PopOf worker queues in
    elim (Option-cases (pop_at worker queues)) [
      | inl e ↦ rw e tt
      | inr ((uid, after), e) ↦ rw e (Popped-cons uid q queues after (subst (PopOf queues) e rest))
    ]

pub next_uid-Popped :
    (worker : ℕ) (uid : Text) (queues rest : List (List Text))
    → next_uid worker queues ≡ some (uid, rest)
    → Popped uid queues rest
unfolding next_uid
next_uid-Popped worker uid queues rest h = elim (Option-cases (pop_at worker queues)) [
  | inl e ↦
      subst (PopOf queues)
        (subst (λ o. or_longest o (pop_at (longest queues).1 queues) ≡ some (uid, rest)) e h)
        (pop_at-PopOf (longest queues).1 queues)
  | inr (popped, e) ↦
      subst (PopOf queues)
        (subst (λ o. or_longest o (pop_at (longest queues).1 queues) ≡ some (uid, rest)) e h)
        (subst (PopOf queues) e (pop_at-PopOf worker queues))
]

size_zero : (q : List Text) → length q ≡ 0 → q ≡ []
size_zero [] h = refl
size_zero (u ∷ q) h = absurd (omega (arith, h))

longest_zero : (queues : List (List Text)) → (longest queues).0 ≡ 0 → concat queues ≡ []
unfolding longest
longest_zero [] h = refl
longest_zero (q ∷ queues) h = elim (Bool-cases (ltb (length q) (longest queues).0)) [
  | inl t ↦ absurd (ground (arith, h, t))
  | inr f ↦
      let none_here : length q ≡ 0 = ground (arith, h, f) in
      let none_later : (longest queues).0 ≡ 0 = ground (arith, f, none_here) in
      rw (size_zero q none_here, longest_zero queues none_later) refl
]

put_back-none :
    (q : List Text) (o : Option (Text × List (List Text))) → put_back q o ≡ none → o ≡ none
put_back-none q none h = refl
put_back-none q (some (uid, rest)) h = cc

or_longest-none :
    (own other : Option (Text × List (List Text))) → or_longest own other ≡ none → other ≡ none
or_longest-none none other h = h
or_longest-none (some popped) other h = cc

pop_first-none :
    (q : List Text) (queues : List (List Text)) → pop_at zero (q ∷ queues) ≡ none → length q ≡ 0
unfolding pop_at
pop_first-none [] queues h = refl
pop_first-none (uid ∷ q) queues h = cc

longest-none :
    (queues : List (List Text)) → pop_at (longest queues).1 queues ≡ none → (longest queues).0 ≡ 0
unfolding longest pop_at
longest-none [] = λ h. refl
longest-none (q ∷ queues) = elim (Bool-cases (ltb (length q) (longest queues).0)) [
  | inl t ↦ rw t (λ h. longest-none queues (put_back-none q (pop_at (longest queues).1 queues) h))
  | inr f ↦ rw f (λ h. pop_first-none q queues h)
]

-- No UID is found only if all queues are empty.
pub next_uid-none :
    (worker : ℕ) (queues : List (List Text)) → next_uid worker queues ≡ none → concat queues ≡ []
unfolding next_uid
next_uid-none worker queues h = longest_zero queues (
    longest-none queues
      (or_longest-none (pop_at worker queues) (pop_at (longest queues).1 queues) h))
