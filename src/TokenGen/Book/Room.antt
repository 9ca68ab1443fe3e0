-- ===== src/TokenGen/Book/Room.antt =====
-- Runs of TokenGen: requests, seconds and changes of the share in any order.
use web_q_final.Prelude.{
  ℕ, suc, ◌+◌, ◌≤◌, ◌<◌, ◌^◌, ◌≡◌, List, [], ◌∷◌, ap, inl, inr, Bool-cases, if◌then◌else◌, ltb,
  ltb→lt, arith, refl, ◌==◌, dec_lt, ℕ_discrete, All, replicate, length-replicate, get_or-replicate,
}
use web_q_final.Prelude.Int.{pos}
use web_q_final.TokenGen.Book.{Book, used, admit, tick}
use web_q_final.TokenGen.Book.Line.{IsBook, join_at, advance}
use web_q_final.TokenGen.Book.Search.{admit_refines, admit_earliest}
use web_q_final.TokenGen.Book.Tick.{IsBook-cong, tick_refines}

-- `grant`: a share from the controller, which the handler of `s` stores if it is not 0.
pub data Event : Type 0 where
  request second : Event
  grant : ℕ → Event

-- `clock` counts the seconds, and `due` has the second in which each booked request is to arrive.
pub record Desk : Type 0 where
  pub book : Book
  pub share : ℕ
  pub clock : ℕ
  pub due : List ℕ

abbrev pub count : ℕ → List ℕ → ℕ
count t [] = 0
count t (x ∷ xs) = if t == x then suc (count t xs) else count t xs

module _ (lim : ℕ) where
  -- A request takes the wait that `admit` gives it; `lim` means that it is turned away.
  unfoldable pub serve : Desk → Desk
  serve d =
      let (w, b) = admit lim (pos d.share) (pos 1) d.book in
      if ltb w lim
      then record d { book = b; due = (d.clock + w) ∷ d.due }
      else record d { book = b }

  unfoldable pub step : Desk → Event → Desk
  unfolding serve
  step d request = serve d
  step d second = record d { book = tick lim d.book; clock = d.clock + 1 }
  step d (grant s) = record d { share = if s == 0 then d.share else s }

  unfoldable pub run : Desk → List Event → Desk
  run d [] = d
  run d (e ∷ es) = run (step d e) es

  -- No share is above `m`.
  abbrev pub Within : ℕ → Event → Type 0
  Within m (grant s) = s ≤ m
  Within m e = Unit {0}

  -- The table is the tally of the booked requests that are yet to come, and no second has above `m`.
  pub record Tally (m : ℕ) (d : Desk) : Type 0 where
    pub tally : IsBook lim d.book (λ k. count (d.clock + k) d.due)
    pub share_in : d.share ≤ m
    pub soon : All (λ t. t < d.clock + lim) d.due
    pub no_overload : (t : ℕ) → count t d.due ≤ m

  -- LIMIT empty entries, `current_time` 0: the start of `main`.
  abbrev pub opening : ℕ → Desk
  opening share = record {
    book = record { visitor_count = replicate lim (pos 0); current_time = 0 };
    share = share;
    clock = 0;
    due = [];
  }

  pub opening-Tally : (m s : ℕ) → 0 < lim → s ≤ m → Tally m (opening s)
  opening-Tally m s some_room h = record {
    tally = record {
      shape = length-replicate lim (pos 0);
      now_in = some_room;
      agrees = λ k hk. get_or-replicate lim _ (pos 0);
      small = λ k hk. omega arith;
    };
    share_in = h;
    soon = tt;
    no_overload = λ t. omega arith;
  }

  booked-Tally :
      {m : ℕ} {d : Desk} (w : ℕ) (b : Book)
      → Tally m d
      → w < lim
      → count (d.clock + w) d.due < d.share
      → IsBook lim b (join_at w (λ k. count (d.clock + k) d.due))
      → Tally m (record d { book = b; due = (d.clock + w) ∷ d.due })
  booked-Tally {m} {d} w b v near room t = record {
    tally = IsBook-cong _ _ (λ k hk. ground arith) t;
    share_in = v.share_in;
    soon = (omega arith, v.soon);
    no_overload = λ s. elim (ℕ_discrete s (d.clock + w)) [
      | yes same ↦ rw same (ground (arith, v.share_in))
      | no other ↦ ground (arith, v.no_overload s)
    ];
  }

  pub serve-Tally : {m : ℕ} {d : Desk} → m < 2 ^ 31 → Tally m d → Tally m (serve d)
  unfolding serve
  serve-Tally {m} {d} fits v =
      let found = admit_refines v.tally d.share (omega (arith, v.share_in)) in
      let least = admit_earliest v.tally d.share (omega (arith, v.share_in)) in
      elim (Bool-cases (ltb (admit lim (pos d.share) (pos 1) d.book).0 lim)) [
        | inl room ↦ rw room (
            booked-Tally _ _ v (ltb→lt _ _ room) (least.1 (ltb→lt _ _ room))
              (rw (← found.0, room) at found.1))
        | inr full ↦ rw full (record {
          tally = rw (← found.0, full) at found.1;
          share_in = v.share_in;
          soon = v.soon;
          no_overload = v.no_overload;
        })
      ]

  far_empty : (t u : ℕ) (xs : List ℕ) → All (λ x. x < u) xs → u ≤ t → count t xs ≡ 0
  far_empty t u [] h a = refl
  far_empty t u (x ∷ xs) h a = ground (arith, far_empty t u xs h.1)

  soon_later : (u w : ℕ) (xs : List ℕ) → u ≤ w → All (λ x. x < u) xs → All (λ x. x < w) xs
  soon_later u w [] a h = tt
  soon_later u w (x ∷ xs) a h = (omega (arith, h.0), soon_later u w xs a h.1)

  pub second-Tally : {m : ℕ} {d : Desk} → Tally m d → Tally m (step d second)
  unfolding step
  second-Tally {m} {d} v = record {
    tally = IsBook-cong _ _ moved (tick_refines v.tally);
    share_in = v.share_in;
    soon = soon_later (d.clock + lim) (d.clock + 1 + lim) d.due (omega arith) v.soon;
    no_overload = v.no_overload;
  }
    where
      moved :
          (k : ℕ)
          → k < lim
          → advance lim (λ j. count (d.clock + j) d.due) k ≡ count (d.clock + 1 + k) d.due
      moved k h = elim (dec_lt (k + 1) lim) [
        | yes near ↦ ground (
          arith,
          ap (λ t. count t d.due) {x = d.clock + (k + 1)} {y = d.clock + 1 + k} (omega arith),
        )
        | no last ↦ ground (arith, far_empty (d.clock + 1 + k) (d.clock + lim) d.due v.soon)
      ]

  step-Tally :
      {m : ℕ} {d : Desk} (e : Event) → m < 2 ^ 31 → Within m e → Tally m d → Tally m (step d e)
  unfolding step
  step-Tally request fits h v = serve-Tally fits v
  step-Tally second fits h v = second-Tally v
  step-Tally (grant s) fits h v = record {
    tally = v.tally;
    share_in = ground (arith, v.share_in);
    soon = v.soon;
    no_overload = v.no_overload;
  }

  run-Tally :
      {m : ℕ} {d : Desk} (es : List Event)
      → m < 2 ^ 31
      → All (Within m) es
      → Tally m d
      → Tally m (run d es)
  unfolding run
  run-Tally [] fits h v = v
  run-Tally {m} {d} (e ∷ es) fits h v =
      run-Tally {m = m} {d = step d e} es fits h.1 (step-Tally e fits h.0 v)

  -- From an empty table with LIMIT above 0: in whatever order requests of hardness 1, new shares and
  -- ticks of the logger come, as long as no share is above m (m below 2 ^ 31), in any second at most m
  -- booked requests are due; and at the end the entry of the table for the second k from then, k below
  -- LIMIT, is the number of booked requests that are due in it.
  pub run-no_overload :
      (m s : ℕ) (es : List Event)
      → 0 < lim
      → m < 2 ^ 31
      → s ≤ m
      → All (Within m) es
      → ((t : ℕ) → count t (run (opening s) es).due ≤ m)
        × ((k : ℕ)
            → k < lim
            → used lim (run (opening s) es).book k
              ≡ pos (count ((run (opening s) es).clock + k) (run (opening s) es).due))
  run-no_overload m s es some_room fits h within =
      let v = run-Tally es fits within (opening-Tally m s some_room h) in
      (v.no_overload, v.tally.agrees)
