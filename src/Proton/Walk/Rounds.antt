-- ===== src/Proton/Walk/Rounds.antt =====
-- The walk of src/migrator/providers/proton_cli.py, its rounds of listings.
use dropbox_mirror.Base.{
  In-keep, In-keep_of, In-map_of, In-map, ℕ, ◌&&◌, not, List, [], length, keep, In, nat_eq, text_eq,
  option_eq, ◌≡◌, refl, inl, inr, Bool-cases,
}
use dropbox_mirror.Proton.Landing.{went_well, went, Verdict, collect, Walk, World, Flight}
use dropbox_mirror.Proton.Walk.{first_trouble, is_well, drain, listings}
use dropbox_mirror.Proton.Walk.Covered.{uid_of, Covered}
use dropbox_mirror.Proton.Walk.Landed.{collect-Covered, and_then-Covered, StepCovered}

-- The order of a set of futures: each of them stands in it, and nothing else.
pub record IsOrder (order : ℕ → List Flight → List Flight) : Type 0 where
  pub all_in :
      (round : ℕ) (fl : Flight) (flights : List Flight)
      → In fl flights
      → In fl (order round flights)
  pub only_in :
      (round : ℕ) (fl : Flight) (flights : List Flight)
      → In fl (order round flights)
      → In fl flights
  pub size : (round : ℕ) (flights : List Flight) → length (order round flights) ≡ length flights

pub drain-Covered :
    (world : World) (snapshot_id workers round : ℕ) (v : Verdict) (w : Walk)
    → IsOrder world.order
    → Covered snapshot_id workers [] w
    → StepCovered snapshot_id workers [] (drain world snapshot_id round v w)
unfolding drain
drain-Covered world snapshot_id workers round v w o c =
    let flights = world.order round w.in_flight in
    let start : Covered snapshot_id workers flights (record w { in_flight = [] }) = record {
      found = λ f m p. elim (c.found f m p) [
        | inl queued ↦ inl queued
        | inr (inl none_left) ↦ elim none_left [ ]
        | inr (inr flying) ↦
            let (fl, mf, e) = In-map uid_of f.uid w.in_flight flying in
            inr (inl (rw e (In-map_of uid_of fl flights (o.all_in round fl w.in_flight mf))))
      ];
      width = c.width;
      extra_range = λ fl m. c.range fl (o.only_in round fl w.in_flight m);
      range = λ fl m. elim m [ ];
    } in
    elim (Bool-cases (is_well v && not (world.past_first round))) [
      | inl t ↦ rw t c
      | inr f ↦ rw f (
          and_then-Covered snapshot_id workers [] []
            (collect world snapshot_id round flights went_well (record w { in_flight = [] }))
            (λ drained x. went (first_trouble v drained) x)
            (collect-Covered world snapshot_id workers round flights went_well
              (record w { in_flight = [] }) start)
            (λ v x cx. cx))
    ]

pub listings-Covered :
    (world : World) (snapshot_id workers round : ℕ) (w : Walk)
    → IsOrder world.order
    → Covered snapshot_id workers [] w
    → StepCovered snapshot_id workers [] (listings world snapshot_id round w)
unfolding listings drain
listings-Covered world snapshot_id workers round w o c =
    let ready = keep (world.is_ready round) w.in_flight in
    let under_way = keep (λ (fl : Flight). not (world.is_ready round fl)) w.in_flight in
    let start : Covered snapshot_id workers (world.order round ready)
        (record w { in_flight = under_way }) =
      record {
        found = λ f m p. elim (c.found f m p) [
          | inl queued ↦ inl queued
          | inr (inl none_left) ↦ elim none_left [ ]
          | inr (inr flying) ↦
              let (fl, mf, e) = In-map uid_of f.uid w.in_flight flying in
              elim (Bool-cases (world.is_ready round fl)) [
                | inl t ↦ inr (
                    inl (
                      rw e (
                        In-map_of uid_of fl (world.order round ready) (
                          o.all_in round fl ready
                            (In-keep_of (world.is_ready round) fl w.in_flight mf t)))))
                | inr n ↦ inr (
                    inr (
                      rw e (
                        In-map_of uid_of fl under_way (
                          In-keep_of (λ (x : Flight). not (world.is_ready round x)) fl w.in_flight
                            mf (rw n refl)))))
              ]
        ];
        width = c.width;
        extra_range = λ fl m.
            c.range fl
              (In-keep (world.is_ready round) fl w.in_flight (o.only_in round fl ready m)).0;
        range = λ fl m.
            c.range fl (In-keep (λ (x : Flight). not (world.is_ready round x)) fl w.in_flight m).0;
      } in
    and_then-Covered snapshot_id workers [] []
      (collect world snapshot_id round (world.order round ready) went_well
        (record w { in_flight = under_way }))
      (λ v x. drain world snapshot_id round v x)
      (collect-Covered world snapshot_id workers round (world.order round ready) went_well
        (record w { in_flight = under_way }) start)
      (λ v x cx. drain-Covered world snapshot_id workers round v x o cx)
