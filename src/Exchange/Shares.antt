-- ===== src/Exchange/Shares.antt =====
-- One second of the two programs: the TokenGens report, the controller in charge divides its
-- capacity, and each TokenGen takes its share.
use mathlib.Core.List.{append-nil}
use web_q_final.Prelude.{
  ℕ, suc, ◌<◌, ◌≤◌, ◌^◌, ◌≡◌, ◌∙◌, ap, sym, refl, arith, List, [], ◌∷◌, true, get_or, map, length,
  All, if◌then◌else◌,
}
use web_q_final.Prelude.Int.{ℤ, pos, eqb_ℤ, IsInt, pos_part}
use web_q_final.Floats.{FloatOps, FloatLaws}
use web_q_final.Net.{Net, IsUp}
use web_q_final.TokenGen.Link.{Link}
use web_q_final.TokenGen.Link.Protocol.{IsLink, share, in_charge, encode, apply}
use web_q_final.TokenGen.Outbox.{Outbox}
use web_q_final.Controller.{Control, sum_rates}
use web_q_final.Controller.Soc.Bounds.{granted, granted-bounds, IsCount, All-get_or, sum_rates-part}
use web_q_final.Controller.Duty.{share_rounds}
use web_q_final.Controller.Duty.Shares.{share_rounds-messages}
use web_q_final.Controller.Election.Handover.{IsLeader}
use web_q_final.Exchange.{reading, informed}
use web_q_final.Exchange.Answers.{informed-apply}
use web_q_final.Exchange.Rates.{rate_bytes, rates_of, IsOutboxes, reading-IsInformed, length-rates}

-- What a TokenGen with this share has after it is sent `g`: a share of 0 is not taken.
abbrev pub kept_or : ℤ → ℤ → ℤ
kept_or old g = if eqb_ℤ g (pos 0) then old else g

module _ {F : Type 0} (ops : FloatOps F) (net : Net) (up : IsUp net) where
  -- A TokenGen takes the share of the controller that it is under.
  share-taken :
      (tg : ℕ) (t : Control F) (l : Link) {k : ℕ}
      → IsLeader k t
      → IsLink l
      → l.id ≡ t.my_id
      → IsInt (get_or t.soc tg (pos 0))
      → (informed net (share_rounds ops net tg 0 (t ∷ [])) l).share
        ≡ kept_or l.share (get_or t.soc tg (pos 0))
  share-taken tg t l v w e small =
      let sent_share : share_rounds ops net tg 0 (t ∷ [])
          ≡ encode (share t.my_id (get_or t.soc tg (pos 0))) =
        share_rounds-messages ops net tg 0 (t ∷ []) up.3 (v.leads, tt) ∙ append-nil _ in
      rw
        (
          sent_share,
          informed-apply net up (share t.my_id (get_or t.soc tg (pos 0))) l (me, small) w,
        )
        (unfold apply in (rw mine refl))
    where
      me : IsInt t.my_id
      me = rw v.shape.unsigned (omega (arith, v.shape.mine), omega arith)

      mine : in_charge l t.my_id ≡ true
      mine = ground (arith, e, v.shape.unsigned)

  module _ (laws : FloatLaws ops) where
    -- With every system call successful, at a controller in charge with k TokenGens, one or more, and a
    -- capacity from 1 to 2 ^ 24: it reads one report of each, under their numbers and with counts that
    -- fit an `int`, and sends TokenGen tg, one of the k, which is under it and in shape, its share. Then
    -- that TokenGen's share is what `calcSoc` makes of the reported rates, or what it was where that is
    -- 0; and, by these laws of the floating-point operations, what `calcSoc` makes is a count up to
    -- the capacity.
    pub reading-shares :
        {k : ℕ} (os : List Outbox) (s : Control F) (c tg : ℕ) (l : Link)
        → IsLeader k s
        → length os ≡ k
        → IsOutboxes 0 os
        → All (IsCount ops laws) (rates_of os)
        → s.capacity ≡ pos c
        → 1 ≤ c
        → c ≤ 2 ^ 24
        → tg < k
        → IsLink l
        → l.id ≡ s.my_id
        → let t = reading ops net (suc k) (rate_bytes net os) s in
          let g =
            granted ops k
              (sum_rates ops (ops.of_int (pos 0)) (map ops.of_int (rates_of os)))
              (pos c)
              (get_or (rates_of os) tg (pos 0)) in
          ((informed net (share_rounds ops net tg 0 (t ∷ [])) l).share ≡ kept_or l.share g)
          × (g ≡ pos (pos_part g))
          × (pos_part g ≤ c)
    reading-shares {k} os s c tg l v n o counts cap some exact h w e =
        let x = get_or xs tg (pos 0) in
        let b =
          granted-bounds ops laws k c all x some exact
            (All-get_or (IsCount ops laws) xs tg (pos 0) counts there)
            (sum_rates-part ops laws xs (ops.of_int (pos 0)) tg counts (laws.le_refl _) there) in
        let i = reading-IsInformed ops net up os s v (omega arith) n o in
        let g = i.shares tg h ∙ ap (λ z. granted ops k all z x) cap in
        (
          share-taken tg (reading ops net (suc k) (rate_bytes net os) s) l i.leader w
                (e ∙ sym i.same_id) (rw (g, b.0) (omega (arith, b.1, exact), omega arith))
              ∙ ap (kept_or l.share) g,
          b.0,
          b.1,
        )
      where
        xs : List ℤ
        xs = rates_of os

        all : F
        all = sum_rates ops (ops.of_int (pos 0)) (map ops.of_int xs)

        there : tg < length xs
        there = omega (arith, length-rates os, n, h)
