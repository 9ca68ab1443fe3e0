-- ===== src/TokenGen/Book/Search.antt =====
-- The search of `main` of TokenGen/src/proxy1.c, and the waiting line.
use native.Mathlib.Nat.{mod-eq_of_lt, mod-eq-sub-mod}
use web_q_final.Prelude.{
  ◌∙◌, ℕ, zero, suc, ◌+◌, ◌-◌, ◌%◌, ◌≤◌, ◌<◌, ◌^◌, ◌≡◌, ◌≢◌, if◌then◌else◌, ltb, ltb→lt, arith,
  refl, get_or-set_self, get_or-set_ne, length-set, Bool-cases, inl, inr, dec_lt, ℕ_discrete, sym,
}
use web_q_final.Prelude.Int.{ℤ, pos, ◌-ℤ◌, ◌+ℤ◌, int32, int32-eq}
use web_q_final.TokenGen.Book.{Book, used, slot, bump, has_room, find_slot, admit}
use web_q_final.TokenGen.Book.Line.{Line, IsBook, first_room, join_at}

-- One turn of the ring.
pub mod_ring : (x m : ℕ) → x < m + m → x % m ≡ (if ltb x m then x else x - m)
mod_ring x m h = elim (dec_lt x m) [
  | yes p ↦ grind (arith, mod-eq_of_lt p)
  | no p ↦ ground (
    arith,
    mod-eq-sub-mod {n = x} {m = m} (omega arith),
    mod-eq_of_lt {n = x - m} {m = m} (omega arith),
  )
]

module _ {lim : ℕ} where
  pub slot-lt : (b : Book) (k : ℕ) → b.current_time < lim → slot lim b k < lim
  slot-lt b k h = omega arith

  -- Different seconds have different entries.
  pub slot_ne :
      (b : Book) (j k : ℕ)
      → b.current_time < lim
      → j < lim
      → k < lim
      → j ≢ k
      → slot lim b j ≢ slot lim b k
  slot_ne b j k h hj hk ne e = ground (
    arith,
    mod_ring (b.current_time + j) lim (omega arith),
    mod_ring (b.current_time + k) lim (omega arith),
  )

  module _ {b : Book} {line : Line} (v : IsBook lim b line) where
    has_room-line : (s k : ℕ) → s < 2 ^ 31 → k < lim → has_room lim (pos s) b k ≡ ltb (line k) s
    unfolding has_room ◌-ℤ◌
    has_room-line s k fits h =
        rw (v.agrees k h, int32-eq (pos s -ℤ pos (line k)) (ground (arith, v.small k h)))
          (ground (arith, v.small k h))

    -- The loop returns the first second with room, and writes only where there is one.
    pub find_slot-first_room :
        (s : ℕ)
        → s < 2 ^ 31
        → (hard : ℤ) (k iter : ℕ) → k + iter ≡ lim
        → find_slot lim (pos s) hard b k iter
          ≡ (let w = first_room s line k iter in (w, if ltb w lim then bump lim b w hard else b))
    unfolding find_slot first_room
    find_slot-first_room s fits hard zero iter e = ground arith
    find_slot-first_room s fits hard (suc k) iter e =
        rw
          (
            has_room-line s iter fits (omega arith),
            find_slot-first_room s fits hard k (iter + 1) (omega arith),
          )
          (ground arith)

    -- Adding one request to a second adds one there and nowhere else.
    bump-IsBook :
        (w : ℕ)
        → w < lim
        → suc (line w) < 2 ^ 31
        → IsBook lim (bump lim b w (pos 1)) (join_at w line)
    unfolding bump ◌+ℤ◌
    bump-IsBook w h room = record {
      shape = length-set b.visitor_count (slot lim b w) _ ∙ v.shape;
      now_in = v.now_in;
      agrees = λ k hk. entry k hk;
      small = λ k hk. ground (arith, v.small k hk);
    }
      where
        one_more : int32 (pos (line w) +ℤ pos 1) ≡ pos (line w + 1)
        one_more = int32-eq (pos (line w) +ℤ pos 1) (ground arith) ∙ ground arith

        entry : (k : ℕ) → k < lim → used lim (bump lim b w (pos 1)) k ≡ pos (join_at w line k)
        entry k hk = elim (ℕ_discrete k w) [
          | yes same ↦ rw same (
              ground (
                arith,
                one_more,
                v.agrees w h,
                get_or-set_self b.visitor_count (slot lim b w) (int32 (used lim b w +ℤ pos 1))
                    (pos 0) (omega (arith, v.shape, slot-lt b w v.now_in)),
              ))
          | no other ↦ ground (
            arith,
            v.agrees k hk,
            get_or-set_ne b.visitor_count (slot lim b w) (slot lim b k)
                (int32 (used lim b w +ℤ pos 1)) (pos 0)
                (slot_ne b w k v.now_in h hk (λ e. other (sym e))),
          )
        ]

    -- The wait that the search finds is the first second with room.
    first_room_lem :
        (s : ℕ) (k iter : ℕ)
        → (first_room s line k iter ≤ iter + k)
          × (iter ≤ first_room s line k iter)
          × ((j : ℕ) → iter ≤ j → j < first_room s line k iter → s ≤ line j)
          × (first_room s line k iter < iter + k → line (first_room s line k iter) < s)
    unfolding first_room
    first_room_lem s zero iter =
        (omega arith, omega arith, λ j a c. absurd (omega arith), λ c. absurd (omega arith))
    first_room_lem s (suc k) iter = elim (dec_lt (line iter) s) [
      | yes here ↦ (ground arith, ground arith, λ j a c. absurd (ground arith), λ c. ground arith)
      | no full ↦
          let ih = first_room_lem s k (iter + 1) in
          (
            ground (arith, ih.0),
            ground (arith, ih.1),
            λ j a c. elim (ℕ_discrete j iter) [
              | yes same ↦ rw same (omega arith)
              | no later ↦ ih.2 j (omega arith) (ground arith)
            ],
            λ c. ground (arith, ih.3 (ground arith)),
          )
    ]

    -- On a table of counts, with a share below 2 ^ 31 and hardness 1, `admit` returns the first second
    -- with fewer requests than the share, or LIMIT where there is none; in that second it books one
    -- request more, and it changes no other second.
    pub admit_refines :
        (s : ℕ)
        → s < 2 ^ 31
        → let w = first_room s line lim 0 in
          ((admit lim (pos s) (pos 1) b).0 ≡ w)
          × IsBook lim (admit lim (pos s) (pos 1) b).1 (if ltb w lim then join_at w line else line)
    unfolding admit
    admit_refines s fits =
        rw (find_slot-first_room s fits (pos 1) lim 0 (omega arith)) (refl, booked)
      where
        w : ℕ
        w = first_room s line lim 0

        booked :
            IsBook lim
              (if ltb w lim then bump lim b w (pos 1) else b)
              (if ltb w lim then join_at w line else line)
        booked = elim (Bool-cases (ltb w lim)) [
          | inl room ↦ rw room (
              bump-IsBook w (ltb→lt w lim room)
                (omega (arith, (first_room_lem s lim 0).3 (ground arith))))
          | inr full ↦ rw full v
        ]

    -- The second that `admit` returns has fewer requests than the share, unless it is LIMIT; every
    -- second before it has as many as the share or more.
    pub admit_earliest :
        (s : ℕ)
        → s < 2 ^ 31
        → let w = (admit lim (pos s) (pos 1) b).0 in
          (w ≤ lim) × (w < lim → line w < s) × ((j : ℕ) → j < w → s ≤ line j)
    admit_earliest s fits = rw ((admit_refines s fits).0) (
        let spec = first_room_lem s lim 0 in
        (omega (arith, spec.0), (λ h. spec.3 (omega arith)), (λ j h. spec.2 j (omega arith) h)))
