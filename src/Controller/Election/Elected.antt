-- ===== src/Controller/Election/Elected.antt =====
-- `timeout` of Controller/src/proxy1.c, from the question to the last acknowledgement.
use mathlib.Core.List.{append-nil}
use web_q_final.Controller.Election.Handover.Every.{every-true}
use web_q_final.Prelude.{
  ◌∙◌, ==_iff, ℕ, ◌<◌, ◌≤◌, ◌≡◌, refl, List, [], ◌∷◌, ◌++◌, true, false, get_or, All, map, length,
}
use web_q_final.Prelude.Int.{ℤ, pos, ltb_ℤ, leb_ℤ, eqb_ℤ, eqb_ℤ_iff, ◌-ℤ◌, pos_part}
use web_q_final.Floats.{FloatOps}
use web_q_final.Machine.{done, ◌>>=◌}
use web_q_final.Net.{Net, IsUp, stored}
use web_q_final.Controller.{Control, peers}
use web_q_final.Controller.Duty.{pending_flags}
use web_q_final.Controller.Inbox.Protocol.{Msg, IsMsg, IsControl, apply_all}
use web_q_final.Controller.Inbox.Decode.{write_id-up}
use web_q_final.Controller.Election.{expired, await_votes, timeout, close, decide, in_time}
use web_q_final.Controller.Election.Decision.{begun, begin_election-begun, begun-no_votes}
use web_q_final.Controller.Election.Takeover.{in_charge-IsControl}
use web_q_final.Text.{decimal}
use web_q_final.Controller.Election.Votes.{polls_of, heard, IsHeard}
use web_q_final.Controller.Election.Ballot.{how_many, voted}
use web_q_final.Controller.Election.Waiting.{
  IsCalm, IsWaiting, apply_all-IsWaiting, begun-IsWaiting,
}
use web_q_final.Controller.Election.Count.{apply_all-exact}
use web_q_final.Controller.Election.Heard.{received, received_polls, await_votes-received}
use web_q_final.Controller.Election.Handover.{IsLeader, IsQuiet, acked_in}
use web_q_final.Controller.Election.Handover.Rounds.{switch_controller-ends}

-- The polls come within three seconds of `t`, and nobody else takes over.
abbrev pub IsEarly : ℤ → List (ℤ × List Msg) → Type 0
IsEarly t [] = Unit {0}
IsEarly t ((now, ms) ∷ ps) = (ltb_ℤ (now -ℤ t) (pos 3) ≡ true) × All IsCalm ms × IsEarly t ps

All-append : {A : Type 0} (P : A → Type 0) (xs ys : List A) → All P xs → All P ys → All P (xs ++ ys)
All-append P [] ys h k = k
All-append P (x ∷ xs) ys h k = (h.0, All-append P xs ys h.1 k)

module _ {F : Type 0} (ops : FloatOps F) (net : Net) where
  apply_all-append :
      (ms ns : List Msg) (s : Control F)
      → apply_all ops net (ms ++ ns) s ≡ apply_all ops net ns (apply_all ops net ms s)
  unfolding apply_all
  apply_all-append [] ns s = refl
  apply_all-append (m ∷ ms) ns s = apply_all-append ms ns _

  -- The first poll after three seconds ends the wait.
  await_votes-expired :
      {t m : ℤ} {k : ℕ} (ps : List (ℤ × List Msg)) (now : ℤ) (ms : List Msg) (s : Control F)
      → IsEarly t ps
      → All IsCalm ms
      → ltb_ℤ (now -ℤ t) (pos 3) ≡ false
      → IsWaiting t m k s
      → await_votes ops net (polls_of ops net (ps ++ ((now, ms) ∷ []))) s
        ≡ (expired, apply_all ops net (heard ops net (ps ++ ((now, ms) ∷ []))) s)
  unfolding await_votes
  await_votes-expired [] now ms s e q late w =
      let w' = apply_all-IsWaiting ops net ms s q w in
      let over : in_time ops net (pos 3) now (apply_all ops net ms s) ≡ false = rw w'.since late in
      rw (over, append-nil) refl
  await_votes-expired ((t', ns) ∷ ps) now ms s (early, calm, e) q late w =
      let w' = apply_all-IsWaiting ops net ns s calm w in
      let waits : in_time ops net (pos 3) t' (apply_all ops net ns s) ≡ true = rw w'.since early in
      let on : eqb_ℤ (apply_all ops net ns s).time_out (pos 2) ≡ false = rw w'.asking refl in
      rw (waits, on, apply_all-append)
        (await_votes-expired ps now ms (apply_all ops net ns s) e q late w')

  early-IsCalm :
      (t : ℤ) (ps : List (ℤ × List Msg)) (now : ℤ) (ms : List Msg)
      → IsEarly t ps
      → All IsCalm ms
      → All IsCalm (heard ops net (ps ++ ((now, ms) ∷ [])))
  early-IsCalm t [] now ms e q = rw append-nil q
  early-IsCalm t ((t', ns) ∷ ps) now ms (early, calm, e) q =
      All-append IsCalm ns _ calm (early-IsCalm t ps now ms e q)

  heard-IsMsg : (ps : List (ℤ × List Msg)) → IsHeard ops net ps → All IsMsg (heard ops net ps)
  heard-IsMsg [] h = tt
  heard-IsMsg ((t, ms) ∷ ps) h = All-append IsMsg ms _ h.0 (heard-IsMsg ps h.1)

  closing :
      {t m : ℤ} {k : ℕ} (up : IsUp net) (ack : List Msg) (acks : List (List Msg)) (s : Control F)
      → IsWaiting t m k s
      → leb_ℤ s.majority s.votes_recv ≡ true
      → All (All IsMsg) (ack ∷ acks)
      → All (All IsQuiet) (ack ∷ acks)
      → ((tg : ℕ) → tg < k → acked_in tg (ack ∷ acks) ≡ true)
      → (s' : Control F) × (close ops net (map (received ops net) (ack ∷ acks)) expired s
          ≡ done (expired, s'))
        × IsLeader k s'
        × (pending_flags ops net k s'.flag_tg ≡ 0)
  unfolding decide
  closing {t} {m} {k} up ack acks s w won hs qs all =
      let charge : Control F = record s {
        id = s.my_id;
        trace = s.trace ++ (stored (decimal s.my_id) ∷ []);
      } in
      let (s', e, v, p) =
        switch_controller-ends ops net up ack acks k charge
          (record {
            shape = in_charge-IsControl s charge.trace w.shape;
            leads = (eqb_ℤ_iff s.my_id s.my_id).1 refl;
            tokens = w.tokens;
            known = w.known;
          })
          hs qs in
      (
        s',
        rw (won, ◌>>=◌)
            (rw (write_id-up ops net up (record s { id = s.my_id }), ◌>>=◌)
              (rw (e, ◌>>=◌, every-true k _ all) refl)),
        v,
        (==_iff _ _).0 (p ∙ every-true k _ all),
      )

  -- With every system call successful, at a controller in shape, with an address for each TokenGen
  -- and no vote stored above their number: the messages that `readFromClient` reads, with numbers in
  -- range, come in polls within three seconds of the start and in one poll after that, and no
  -- heartbeat and no other takeover is among them. If the TokenGens with a positive response among
  -- them, of the PEERS possible, are as many as the majority or more, and each TokenGen acknowledges
  -- in the rounds of `switch_controller` (again without another takeover), then `timeout` returns,
  -- with this controller in charge and no flag of a TokenGen set.
  pub timeout-elected :
      (up : IsUp net) (ps : List (ℤ × List Msg)) (now : ℤ) (ms ack : List Msg)
      (acks : List (List Msg)) (s : Control F)
      → IsControl s
      → pos_part s.no_of_proxy ≤ length s.ip_array
      → ((j : ℕ) → pos_part s.no_of_proxy ≤ j → get_or s.votes j (pos 0) ≡ pos 0)
      → IsHeard ops net (ps ++ ((now, ms) ∷ []))
      → IsEarly net.now ps
      → All IsCalm ms
      → ltb_ℤ (now -ℤ net.now) (pos 3) ≡ false
      → leb_ℤ s.majority
          (pos (how_many (λ tg. voted tg (heard ops net (ps ++ ((now, ms) ∷ [])))) peers 0))
        ≡ true
      → All (All IsMsg) (ack ∷ acks)
      → All (All IsQuiet) (ack ∷ acks)
      → ((tg : ℕ) → tg < pos_part s.no_of_proxy → acked_in tg (ack ∷ acks) ≡ true)
      → (s' : Control F) × (timeout ops net
            (received_polls ops net (ps ++ ((now, ms) ∷ [])))
            (map (received ops net) (ack ∷ acks))
            s
          ≡ done (expired, s'))
        × IsLeader (pos_part s.no_of_proxy) s'
        × (pending_flags ops net (pos_part s.no_of_proxy) s'.flag_tg ≡ 0)
  unfolding timeout
  timeout-elected up ps now ms ack acks s c a above h e q late won hs qs all =
      rw (begin_election-begun ops net s c a, ◌>>=◌)
        (rw
          (
            await_votes-received ops net up (ps ++ ((now, ms) ∷ [])) (begun ops net s) h w.shape,
            await_votes-expired ps now ms (begun ops net s) e q late w,
          )
          (closing up ack acks (apply_all ops net told (begun ops net s)) w'
            (rw (w'.enough, votes) won) hs qs all))
    where
      w : IsWaiting net.now s.majority (pos_part s.no_of_proxy) (begun ops net s)
      w = begun-IsWaiting ops net s c a

      told : List Msg
      told = heard ops net (ps ++ ((now, ms) ∷ []))

      calm : All IsCalm told
      calm = early-IsCalm net.now ps now ms e q

      w' :
          IsWaiting net.now s.majority
            (pos_part s.no_of_proxy)
            (apply_all ops net told (begun ops net s))
      w' = apply_all-IsWaiting ops net told (begun ops net s) calm w

      votes :
          (apply_all ops net told (begun ops net s)).votes_recv
          ≡ pos (how_many (λ tg. voted tg told) peers 0)
      votes =
          apply_all-exact ops net told (begun ops net s) (heard-IsMsg (ps ++ ((now, ms) ∷ [])) h)
            calm w (begun-no_votes ops net s c above) refl
