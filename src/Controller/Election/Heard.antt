-- ===== src/Controller/Election/Heard.antt =====
-- `timeout` of Controller/src/proxy1.c on the bytes that the TokenGens send.
use web_q_final.Prelude.{
  ℕ, suc, ◌<◌, ◌≤◌, ◌≡◌, ap, refl, arith, List, [], ◌∷◌, false, get_or, length, All, replicate,
}
use web_q_final.Prelude.Int.{ℤ, pos, pos_part, eqb_ℤ}
use web_q_final.Floats.{FloatOps}
use web_q_final.Machine.{Outcome, done, exit, fault}
use web_q_final.Net.{Net, IsUp}
use web_q_final.Wire.{Conn}
use web_q_final.Controller.{Control, peers}
use web_q_final.Controller.Inbox.{read_from_client}
use web_q_final.Controller.Inbox.Protocol.{Msg, encode_all, IsMsg, IsControl, apply_all}
use web_q_final.Controller.Inbox.Decode.{whole}
use web_q_final.Controller.Inbox.Keep.{read_from_client-decode_control}
use web_q_final.Controller.Election.{Poll, await_votes, timeout}
use web_q_final.Controller.Election.Votes.{
  polls_of, heard, IsHeard, await_votes-sincere, apply_all-IsControl,
}
use web_q_final.Controller.Election.Ballot.{how_many, voted}
use web_q_final.Controller.Election.Waiting.{IsCalm, await_votes-calm, begun-IsWaiting}
use web_q_final.Controller.Election.Decision.{begun, begun-IsControl, timeout-outvoted, outvoted}

module _ {F : Type 0} (ops : FloatOps F) (net : Net) where
  abbrev state_of : Control F → Outcome (Conn × Control F) → Control F
  state_of s (done (_, s')) = s'
  state_of s (exit n) = s
  state_of s fault = s

  -- What `readFromClient` makes of the state when it reads these messages to the end.
  abbrev pub received : List Msg → Control F → Control F
  received ms s = state_of s (read_from_client ops net (suc (length ms)) (whole (encode_all ms)) s)

  abbrev pub received_polls : List (ℤ × List Msg) → List (Poll F)
  received_polls [] = []
  received_polls ((t, ms) ∷ ps) = record { now = t; meanwhile = received ms } ∷ received_polls ps

  module _ (up : IsUp net) where
    pub received-apply :
        (ms : List Msg) (s : Control F)
        → All IsMsg ms
        → IsControl s
        → received ms s ≡ apply_all ops net ms s
    received-apply ms s h c =
        ap (state_of s)
          (read_from_client-decode_control ops net up (suc (length ms)) ms s (omega arith) h c)

    pub await_votes-received :
        (ps : List (ℤ × List Msg)) (s : Control F)
        → IsHeard ops net ps
        → IsControl s
        → await_votes ops net (received_polls ps) s ≡ await_votes ops net (polls_of ops net ps) s
    unfolding await_votes
    await_votes-received [] s h c = refl
    await_votes-received ((t, ms) ∷ ps) s h c =
        rw
          (
            received-apply ms s h.0 c,
            await_votes-received ps (apply_all ops net ms s) h.1
                (apply_all-IsControl ops net ms s h.0 c),
          )
          refl

    -- With every system call successful, from a controller in shape with no votes: whatever messages
    -- with numbers in range `readFromClient` reads while the backup waits for votes, the votes that it
    -- has counted when it stops waiting are at most as many as there are TokenGens, of the PEERS
    -- possible, with a positive response among those messages.
    pub votes-sincere :
        (ps : List (ℤ × List Msg)) (s : Control F)
        → IsHeard ops net ps
        → IsControl s
        → s.votes ≡ replicate peers (pos 0)
        → s.votes_recv ≡ pos 0
        → pos_part (await_votes ops net (received_polls ps) s).1.votes_recv
          ≤ how_many (λ tg. voted tg (heard ops net ps)) peers 0
    votes-sincere ps s h c empty none =
        rw (await_votes-received ps s h c) (await_votes-sincere ops net ps s h c empty none)

    -- With every system call successful, at a controller in shape, with an address for each TokenGen
    -- and no vote stored above their number: if no heartbeat and no news of another takeover
    -- is among the messages (with numbers in range) that `readFromClient` reads while the backup waits,
    -- and fewer TokenGens than the majority have a positive response among them, then `timeout` ends as
    -- the wait for votes ended, with this controller not in charge, and with nothing sent, stored or
    -- started since every TokenGen was asked.
    pub timeout-minority :
        (ps : List (ℤ × List Msg)) (rounds : List (Control F → Control F)) (s : Control F)
        → IsHeard ops net ps
        → IsControl s
        → pos_part s.no_of_proxy ≤ length s.ip_array
        → ((j : ℕ) → pos_part s.no_of_proxy ≤ j → get_or s.votes j (pos 0) ≡ pos 0)
        → All (λ p. All IsCalm p.1) ps
        → how_many (λ tg. voted tg (heard ops net ps)) peers 0 < pos_part s.majority
        → timeout ops net (received_polls ps) rounds s
            ≡ done (await_votes ops net (received_polls ps) (begun ops net s))
          × (let s' = (await_votes ops net (received_polls ps) (begun ops net s)).1 in
              (eqb_ℤ s'.id s'.my_id ≡ false) × (s'.trace ≡ (begun ops net s).trace))
    timeout-minority ps rounds s h c enough above calm few =
        let same = await_votes-received ps (begun ops net s) h (begun-IsControl ops net s c) in
        (
          timeout-outvoted ops net (received_polls ps) rounds s c enough
              (rw same (outvoted ops net ps s h c above few)),
          rw same (
              await_votes-calm ops net ps (begun ops net s) calm
                (begun-IsWaiting ops net s c enough)),
        )
