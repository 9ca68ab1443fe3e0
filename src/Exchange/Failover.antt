-- ===== src/Exchange/Failover.antt =====
-- A takeover of Controller/src/proxy1.c, and the second of reports and shares after it.
use mathlib.Core.Path.{subst}
use web_q_final.Prelude.{
  ℕ, zero, suc, ◌+◌, ◌<◌, ◌≤◌, ◌≡◌, ◌∙◌, sym, refl, arith, List, [], ◌∷◌, true, false, get_or, map,
  length, All, some, get_elem?,
}
use web_q_final.Prelude.Int.{ℤ, pos, ltb_ℤ, leb_ℤ, ◌-ℤ◌, pos_part}
use web_q_final.Floats.{FloatOps, FloatLaws}
use web_q_final.Machine.{Outcome, done, exit, fault}
use web_q_final.Net.{Net, IsUp}
use web_q_final.TokenGen.Link.{Link}
use web_q_final.TokenGen.Link.Protocol.{IsLink, controller}
use web_q_final.TokenGen.Link.Decode.{apply-IsLink}
use web_q_final.TokenGen.Outbox.{Outbox}
use web_q_final.Controller.{Control, peers, sum_rates}
use web_q_final.Controller.Owner.{IsOwn, IsOwnAfter, read_from_client-Keeps}
use web_q_final.Controller.Soc.Bounds.{granted, IsCount}
use web_q_final.Controller.Duty.{share_rounds}
use web_q_final.Controller.Inbox.Protocol.{IsControl}
use web_q_final.Controller.Election.{Poll, expired, timeout}
use web_q_final.Controller.Election.Owner.{timeout-Keeps}
use web_q_final.Exchange.{final, votes, acks, reading, informed, obedient, asked}
use web_q_final.Exchange.Answers.{news-controller, informed-apply}
use web_q_final.Exchange.Ballots.{IsNumbered, orphans}
use web_q_final.Exchange.Rates.{rate_bytes, rates_of, IsOutboxes}
use web_q_final.Exchange.Shares.{kept_or, reading-shares}
use web_q_final.Exchange.Takeover.{asked-link, timeout-completes}

All-get_elem? :
    {A : Type 0} (P : A → Type 0) (xs : List A) (i : ℕ) (x : A)
    → All P xs
    → get_elem? xs i ≡ some x
    → P x
All-get_elem? P [] i x h e = cc
All-get_elem? P (y ∷ ys) zero x h e = subst P (cc e) h.0
All-get_elem? P (y ∷ ys) (suc i) x h e = All-get_elem? P ys i x h.1 e

module _ {F : Type 0} (ops : FloatOps F) (net : Net) (up : IsUp net) where
  obedient-IsLink :
      (i : ℕ) (s : Control F) (ls : List Link)
      → IsControl s
      → i + length ls ≤ length s.ip_array
      → i + length ls ≤ peers
      → IsNumbered i ls
      → All IsLink (obedient ops net i s ls)
  obedient-IsLink i s [] c a p h = tt
  obedient-IsLink i s (l ∷ ls) c a p (v, e, h) =
      let (v', _) = asked-link ops net up i s l c v in
      (
        rw
            (
              news-controller ops net up i s (omega (arith, c.flags)) (omega arith) c.unsigned,
              informed-apply net up (controller (pos_part s.my_id)) (asked ops net i s l) c.mine v',
            )
            (apply-IsLink net up 0 (controller (pos_part s.my_id)) (asked ops net i s l) v'),
        obedient-IsLink (suc i) s ls c (omega arith) (omega arith) h,
      )

  final-IsOwn :
      {A : Type 0} (z : ℤ) (s : Control F) (o : Outcome (A × Control F))
      → IsOwn z s
      → IsOwnAfter z o
      → IsOwn z (final s o)
  final-IsOwn z s (done (a, t)) h k = k
  final-IsOwn z s (exit n) h k = h
  final-IsOwn z s fault h k = h

  reading-IsOwn :
      (z : ℤ) (fuel : ℕ) (bytes : List ℕ) (s : Control F)
      → IsOwn z s
      → IsOwn z (reading ops net fuel bytes s)
  reading-IsOwn z fuel bytes s h =
      final-IsOwn z s _ h
        (read_from_client-Keeps z ops net fuel (record { stream = bytes; sizes = [] }) s h)

  -- With every system call successful, at a backup in shape with the capacity 720, an address for each
  -- TokenGen and no vote stored above their number, and as many TokenGens as it knows, in shape and
  -- numbered in order, of which those with no controller are as many as the majority or more: their
  -- answers are read three seconds or more after the start, and their acknowledgements in the first
  -- round of `switch_controller`. Then `timeout` returns, and in the second after it the new controller
  -- reads one report of each TokenGen, under their numbers and with counts that fit an `int`, and sends
  -- any of them its share: that TokenGen has then the share that `calcSoc` makes of the reported rates,
  -- or its old one where that is 0, and what `calcSoc` makes is a count up to the capacity, by these
  -- laws of the floating-point operations.
  pub timeout-shares :
      (laws : FloatLaws ops) (s : Control F) (ls : List Link) (now : ℤ) (os : List Outbox) (tg : ℕ)
      (l : Link)
      → IsControl s
      → length ls ≡ pos_part s.no_of_proxy
      → pos_part s.no_of_proxy ≤ length s.ip_array
      → ((j : ℕ) → pos_part s.no_of_proxy ≤ j → get_or s.votes j (pos 0) ≡ pos 0)
      → IsNumbered 0 ls
      → ltb_ℤ (now -ℤ net.now) (pos 3) ≡ false
      → leb_ℤ s.majority (pos (orphans ls)) ≡ true
      → s.capacity ≡ pos 720
      → length os ≡ pos_part s.no_of_proxy
      → IsOutboxes 0 os
      → All (IsCount ops laws) (rates_of os)
      → tg < pos_part s.no_of_proxy
      → get_elem? (obedient ops net 0 s ls) tg ≡ some l
      → let k = pos_part s.no_of_proxy in
        let g =
          granted ops k
            (sum_rates ops (ops.of_int (pos 0)) (map ops.of_int (rates_of os)))
            (pos 720)
            (get_or (rates_of os) tg (pos 0)) in
        (s' : Control F) × (timeout ops net
            (record {
              now = now;
              meanwhile = reading ops net (suc (length ls)) (votes ops net 0 s ls);
            }
              ∷ [])
            (reading ops net (suc (length ls)) (acks ops net 0 s ls) ∷ [])
            s
          ≡ done (expired, s'))
        × ((informed net
              (share_rounds ops net tg 0 (reading ops net (suc k) (rate_bytes net os) s' ∷ []))
              l).share
            ≡ kept_or l.share g)
        × (g ≡ pos (pos_part g))
        × (pos_part g ≤ 720)
  timeout-shares laws s ls now os tg l c n a above h late won full m o counts here found =
      let (s', e, v, _, obey) = timeout-completes ops net up s ls now c n a above h late won in
      let own : IsOwn s.my_id s' = rw e at (
        timeout-Keeps s.my_id ops net polls rounds
          ((λ t. reading-IsOwn s.my_id (suc (length ls)) (votes ops net 0 s ls) t), tt)
          ((λ t. reading-IsOwn s.my_id (suc (length ls)) (acks ops net 0 s ls) t), tt) s
          (refl, full)) in
      let shape =
        All-get_elem? IsLink (obedient ops net 0 s ls) tg l
          (obedient-IsLink 0 s ls c (omega (arith, n, a)) (omega (arith, n, c.few)) h) found in
      let under = All-get_elem? (λ t. t.id ≡ s.my_id) (obedient ops net 0 s ls) tg l obey found in
      let (taken, counted, most) =
        reading-shares ops net up laws os s' 720 tg l v m o counts own.1 (omega arith) (omega arith)
          here shape (under ∙ sym own.0) in
      (s', e, taken, counted, most)
    where
      polls : List (Poll F)
      polls =
          record { now = now; meanwhile = reading ops net (suc (length ls)) (votes ops net 0 s ls) }
          ∷ []

      rounds : List (Control F → Control F)
      rounds = reading ops net (suc (length ls)) (acks ops net 0 s ls) ∷ []
