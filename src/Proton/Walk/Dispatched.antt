-- ===== src/Proton/Walk/Dispatched.antt =====
-- The walk of src/migrator/providers/proton_cli.py: what the dispatch of folders to free workers
-- leaves as it was.
use dropbox_mirror.Base.{
  length-append, >>=-eq-ok, ok-injective, Option-cases, ℕ, zero, suc, ◌+◌, ◌≤◌, ◌<◌, Option, none,
  some, List, [], ◌∷◌, length, any, find, concat, Text, nat_eq, text_eq, option_eq, if◌then◌else◌,
  ok, ◌>>=◌, ◌≡◌, refl, ap, subst, ◌∙◌, inl, inr, arith, Bool-cases,
}
use dropbox_mirror.Proton.Landing.{Flight, Walk}
use dropbox_mirror.Proton.Queues.Laws.{next_uid-Popped, next_uid-none, Popped}
use dropbox_mirror.Proton.Walk.{
  is_folder_row, is_busy, fly, next_uid, ProtonFolder, dispatch_from, dispatch, start_next,
}

abbrev pub load : Walk → ℕ
load w = length (concat w.queues) + length w.in_flight

pub record Dispatched (w x : Walk) : Type 0 where
  pub same_db : x.db ≡ w.db
  pub same_rescues : x.rescues ≡ w.rescues
  pub more : length w.in_flight ≤ length x.in_flight
  pub same_load : load x ≡ load w

Dispatched-refl : (w : Walk) → Dispatched w w
Dispatched-refl w = record {
  same_db = refl;
  same_rescues = refl;
  more = omega arith;
  same_load = refl;
}

Dispatched-trans : (a b c : Walk) → Dispatched a b → Dispatched b c → Dispatched a c
Dispatched-trans a b c ab bc = record {
  same_db = bc.same_db ∙ ab.same_db;
  same_rescues = bc.same_rescues ∙ ab.same_rescues;
  more = omega (arith, ab.more, bc.more);
  same_load = bc.same_load ∙ ab.same_load;
}

-- A started listing is one more under way.
fly-Dispatched :
    (worker : ℕ) (uid : Text) (queues : List (List Text)) (w x : Walk) (o : Option ProtonFolder)
    → Popped uid w.queues queues
    → fly worker queues w o ≡ ok x
    → Dispatched w x × (0 < length x.in_flight)
fly-Dispatched worker uid queues w x none popped h = cc
fly-Dispatched worker uid queues w x (some folder) popped h =
    let flight : Flight = record { worker = worker; folder = folder } in
    let grown = length-append w.in_flight (flight ∷ []) in
    subst (λ y. Dispatched w y × (0 < length y.in_flight)) (ok-injective h)
      (
        record {
          same_db = refl;
          same_rescues = refl;
          more = omega (arith, grown);
          same_load = omega (arith, grown, popped.one_less);
        },
        omega (arith, grown),
      )

start_next-Dispatched :
    (snapshot_id worker : ℕ) (w x : Walk)
    → start_next snapshot_id worker w (next_uid worker w.queues) ≡ ok x
    → Dispatched w x × (length x.in_flight ≡ 0 → concat w.queues ≡ [])
unfolding start_next
start_next-Dispatched snapshot_id worker w x h = elim (Option-cases (next_uid worker w.queues)) [
  | inl e ↦
      let same : w ≡ x = ok-injective (subst (λ o. start_next snapshot_id worker w o ≡ ok x) e h) in
      (subst (Dispatched w) same (Dispatched-refl w), λ idle. next_uid-none worker w.queues e)
  | inr ((uid, queues), e) ↦
      let (d, busy) =
        fly-Dispatched worker uid queues w x (find (is_folder_row snapshot_id uid) w.db.folders)
          (next_uid-Popped worker uid w.queues queues e)
          (subst (λ o. start_next snapshot_id worker w o ≡ ok x) e h) in
      (d, λ idle. absurd (omega (arith, busy, idle)))
]

pub dispatch_from-Dispatched :
    (snapshot_id : ℕ) (busy : List Flight) (left worker : ℕ) (w x : Walk)
    → dispatch_from snapshot_id busy left worker w ≡ ok x
    → Dispatched w x
unfolding dispatch_from
dispatch_from-Dispatched snapshot_id busy zero worker w x h =
    subst (Dispatched w) (ok-injective h) (Dispatched-refl w)
dispatch_from-Dispatched snapshot_id busy (suc left) worker w x h =
    elim (Bool-cases (is_busy worker busy)) [
      | inl t ↦ dispatch_from-Dispatched snapshot_id busy left (worker + 1) w x (
          subst
            (λ b.
              ((if b then ok w else start_next snapshot_id worker w (next_uid worker w.queues))
                >>= dispatch_from snapshot_id busy left (worker + 1))
              ≡ ok x)
            t h)
      | inr f ↦
          let (y, e, rest) =
            >>=-eq-ok (start_next snapshot_id worker w (next_uid worker w.queues))
              (dispatch_from snapshot_id busy left (worker + 1))
              (subst
                (λ b.
                  ((if b then ok w else start_next snapshot_id worker w (next_uid worker w.queues))
                    >>= dispatch_from snapshot_id busy left (worker + 1))
                  ≡ ok x)
                f h) in
          Dispatched-trans w y x (start_next-Dispatched snapshot_id worker w y e).0
            (dispatch_from-Dispatched snapshot_id busy left (worker + 1) y x rest)
    ]

empty_of_length {ℓ} : {A : Type ℓ} (xs : List A) → length xs ≡ 0 → xs ≡ []
empty_of_length [] h = refl
empty_of_length (x ∷ xs) h = absurd (omega (arith, h))

-- If nothing is under way after the dispatch, nothing was, and every queue was empty.
pub dispatch-idle :
    (snapshot_id workers : ℕ) (w x : Walk)
    → dispatch snapshot_id (suc workers) w ≡ ok x
    → x.in_flight ≡ []
    → (w.in_flight ≡ []) × (concat w.queues ≡ [])
unfolding dispatch dispatch_from any
dispatch-idle snapshot_id workers w x h idle =
    let d = dispatch_from-Dispatched snapshot_id w.in_flight (suc workers) 0 w x h in
    let before : w.in_flight ≡ [] =
      empty_of_length w.in_flight
        (omega (arith, d.more, ap (λ (l : List Flight). length l) idle)) in
    let (y, e, rest) =
      >>=-eq-ok (start_next snapshot_id 0 w (next_uid 0 w.queues))
        (dispatch_from snapshot_id [] workers 1)
        (subst (λ l. dispatch_from snapshot_id l (suc workers) 0 w ≡ ok x) before h) in
    let later = dispatch_from-Dispatched snapshot_id [] workers 1 y x rest in
    let (_, none_left) = start_next-Dispatched snapshot_id 0 w y e in
    (before, none_left (omega (arith, later.more, ap (λ (l : List Flight). length l) idle)))
