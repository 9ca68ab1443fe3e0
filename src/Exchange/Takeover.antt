-- ===== src/Exchange/Takeover.antt =====
-- A takeover from the backup's question to the last acknowledgement, with the TokenGens that answer.
use mathlib.Core.List.{append-nil}
use web_q_final.Prelude.{
  ℕ, suc, ◌+◌, ◌≤◌, ◌≡◌, ◌∙◌, ap, sym, refl, arith, List, [], ◌∷◌, ◌++◌, true, false, get_or,
  length, All,
}
use web_q_final.Prelude.Int.{ℤ, pos, ltb_ℤ, leb_ℤ, ◌-ℤ◌, pos_part}
use web_q_final.Floats.{FloatOps}
use web_q_final.Machine.{done}
use web_q_final.Net.{Net, IsUp}
use web_q_final.TokenGen.Link.{Link}
use web_q_final.TokenGen.Link.Protocol.{IsLink, takeover, controller, apply}
use web_q_final.TokenGen.Link.Decode.{apply-IsLink}
use web_q_final.Controller.{Control, peers}
use web_q_final.Controller.Duty.{pending_flags}
use web_q_final.Controller.Inbox.Protocol.{encode_all, IsControl}
use web_q_final.Controller.Election.{expired, timeout}
use web_q_final.Controller.Election.Heard.{received}
use web_q_final.Controller.Election.Ballot.{voted}
use web_q_final.Controller.Election.Handover.{IsLeader}
use web_q_final.Controller.Election.Elected.{timeout-elected}
use web_q_final.Exchange.{votes, acks, reading, obedient, asked}
use web_q_final.Exchange.Ballots.{
  IsNumbered, orphans, vote_msgs, ack_msgs, acked-all, how_many-orphans, length-votes, length-acks,
  votes-IsMsg, acks-IsMsg,
}
use web_q_final.Exchange.Answers.{
  question-takeover, news-controller, informed-apply, answer-vote, answer-ack,
}

module _ {F : Type 0} (ops : FloatOps F) (net : Net) (up : IsUp net) where
  pub asked-link :
      (i : ℕ) (s : Control F) (l : Link)
      → IsControl s
      → IsLink l
      → IsLink (asked ops net i s l) × ((asked ops net i s l).my_id ≡ l.my_id)
  asked-link i s l c v =
      rw
        (
          question-takeover ops net up i s c.unsigned,
          informed-apply net up (takeover (pos_part s.my_id)) l c.mine v,
        )
        (apply-IsLink net up 0 (takeover (pos_part s.my_id)) l v, (unfold apply in refl))

  votes-encode :
      (i : ℕ) (s : Control F) (ls : List Link)
      → IsControl s
      → IsNumbered i ls
      → votes ops net i s ls ≡ encode_all (vote_msgs i ls)
  votes-encode i s [] c h = refl
  votes-encode i s (l ∷ ls) c (v, e, h) =
      rw
        (
          question-takeover ops net up i s c.unsigned,
          answer-vote net up (pos_part s.my_id) i l c.mine v e,
          votes-encode (suc i) s ls c h,
        )
        refl

  acks-encode :
      (i : ℕ) (s : Control F) (ls : List Link)
      → IsControl s
      → i + length ls ≤ length s.ip_array
      → i + length ls ≤ peers
      → IsNumbered i ls
      → (acks ops net i s ls ≡ encode_all (ack_msgs i ls))
        × All (λ l. l.id ≡ s.my_id) (obedient ops net i s ls)
  acks-encode i s [] c a p h = (refl, tt)
  acks-encode i s (l ∷ ls) c a p (v, e, h) =
      let (v', e') = asked-link i s l c v in
      let (later, obey) = acks-encode (suc i) s ls c (omega arith) (omega arith) h in
      let told = news-controller ops net up i s (omega (arith, c.flags)) (omega arith) c.unsigned in
      (
        rw
            (
              told,
              answer-ack net up (pos_part s.my_id) i (asked ops net i s l) c.mine v' (e' ∙ e),
              later,
            )
            refl,
        (
          rw
              (
                told,
                informed-apply net up (controller (pos_part s.my_id)) (asked ops net i s l) c.mine
                    v',
              )
              (unfold apply in (sym c.unsigned)),
          obey,
        ),
      )

  votes_read :
      (s : Control F) (ls : List Link)
      → IsControl s
      → IsNumbered 0 ls
      → reading ops net (suc (length ls)) (votes ops net 0 s ls) ≡ received ops net (vote_msgs 0 ls)
  votes_read s ls c h =
      ap (reading ops net (suc (length ls))) (votes-encode 0 s ls c h)
      ∙ ap (λ k. reading ops net (suc k) (encode_all (vote_msgs 0 ls))) (sym (length-votes 0 ls))

  acks_read :
      (ls : List Link) (bytes : List ℕ)
      → bytes ≡ encode_all (ack_msgs 0 ls)
      → reading ops net (suc (length ls)) bytes ≡ received ops net (ack_msgs 0 ls)
  acks_read ls bytes e =
      ap (reading ops net (suc (length ls))) e
      ∙ ap (λ k. reading ops net (suc k) (encode_all (ack_msgs 0 ls))) (sym (length-acks 0 ls))

  -- With every system call successful, at a controller in shape, with an address for each TokenGen
  -- and no vote stored above their number, and as many TokenGens as it knows, in shape and numbered
  -- in order: if those with no controller are as many as the majority or more, and their answers to
  -- its question are read in one poll three seconds or more after the start, and their answers to the
  -- news in the first round of `switch_controller`, then `timeout` returns with this controller in
  -- charge and no flag set, and with every TokenGen under it.
  pub timeout-completes :
      (s : Control F) (ls : List Link) (now : ℤ)
      → IsControl s
      → length ls ≡ pos_part s.no_of_proxy
      → pos_part s.no_of_proxy ≤ length s.ip_array
      → ((j : ℕ) → pos_part s.no_of_proxy ≤ j → get_or s.votes j (pos 0) ≡ pos 0)
      → IsNumbered 0 ls
      → ltb_ℤ (now -ℤ net.now) (pos 3) ≡ false
      → leb_ℤ s.majority (pos (orphans ls)) ≡ true
      → (s' : Control F) × (timeout ops net
            (record {
              now = now;
              meanwhile = reading ops net (suc (length ls)) (votes ops net 0 s ls);
            }
              ∷ [])
            (reading ops net (suc (length ls)) (acks ops net 0 s ls) ∷ [])
            s
          ≡ done (expired, s'))
        × IsLeader (pos_part s.no_of_proxy) s'
        × (pending_flags ops net (pos_part s.no_of_proxy) s'.flag_tg ≡ 0)
        × All (λ l. l.id ≡ s.my_id) (obedient ops net 0 s ls)
  timeout-completes s ls now c n a above h late won =
      let (bytes, obey) = acks-encode 0 s ls c (omega (arith, n, a)) (omega (arith, n, c.few)) h in
      let (hs, cs) = votes-IsMsg 0 ls (omega (arith, n, c.few)) in
      let (ks, qs) = acks-IsMsg 0 ls (omega (arith, n, c.few)) in
      let (s', e, v, p) =
        timeout-elected ops net up [] now (vote_msgs 0 ls) (ack_msgs 0 ls) [] s c a above (hs, tt)
          tt cs late
          (ap (λ k. leb_ℤ s.majority (pos k))
              (how_many-orphans peers 0 ls (λ tg. voted tg (vote_msgs 0 ls ++ []))
                (omega (arith, n, c.few)) (λ tg _. rw append-nil refl))
            ∙ won)
          (ks, tt) (qs, tt)
          (λ tg l. rw (acked-all 0 tg ls (omega arith) (omega (arith, n, l))) refl) in
      (s', rw (votes_read s ls c h, acks_read ls (acks ops net 0 s ls) bytes) e, v, p, obey)
