-- ===== src/Controller/Election/Tests.antt =====
-- A backup that hears heartbeats until they stop. Two of three TokenGens say yes, and all of them
-- acknowledge the takeover, one late.
use web_q_final.Controller.Election.Handover.Every.{every}
use web_q_final.Prelude.{
  ◌==◌, ℕ, zero, suc, ◌<◌, ◌≡◌, refl, arith, List, [], ◌∷◌, ◌++◌, ◌≤◌, true, false, map, All,
  if◌then◌else◌, get_or, get_or-replicate,
}
use web_q_final.Prelude.Int.{ℤ, pos, ltb_ℤ, ◌-ℤ◌}
use web_q_final.Machine.{done}
use web_q_final.Controller.{Control, peers}
use web_q_final.Controller.Duty.{pending_flags, switch_controller}
use web_q_final.Controller.Inbox.Protocol.{Msg, heartbeat, positive, negative, tg_ack, ack}
use web_q_final.Controller.Election.Heard.{received, received_polls}
use web_q_final.Controller.Election.{expired, pending, timeout, timer_fn}
use web_q_final.Controller.Election.Beats.{Beat, IsBeat, IsBackup}
use web_q_final.Controller.Election.Alive.{beats, timer_fn-beats}
use web_q_final.Controller.Election.Votes.{IsHeard}
use web_q_final.Controller.Election.Elected.{IsEarly, timeout-elected}
use web_q_final.Controller.Election.Handover.{IsLeader, acked_in}
use web_q_final.Controller.Election.Handover.Rounds.{switch_controller-ends}
use web_q_final.Controller.Samples.{primary, primary-IsLeader, backup, backup-IsControl}
use web_q_final.Samples.{ops, net, net-IsUp}

abbrev first : List Msg
first = tg_ack 2 ∷ ack 0 ∷ tg_ack 0 ∷ []

abbrev later : List (List Msg)
later = (heartbeat ∷ []) ∷ (tg_ack 1 ∷ []) ∷ []

all_answer : (tg : ℕ) → tg < 3 → acked_in tg (first ∷ later) ≡ true
all_answer zero h = refl
all_answer (suc zero) h = refl
all_answer (suc (suc zero)) h = refl
all_answer (suc (suc (suc tg))) h = absurd (omega arith)

switch_controller-ends_example :
    (s' : Control ℤ) × (switch_controller ops net (map (received ops net) (first ∷ later)) primary
      ≡ done (every 3 (λ tg. acked_in tg (first ∷ later)), s'))
    × IsLeader 3 s'
    × ((pending_flags ops net 3 s'.flag_tg == 0) ≡ every 3 (λ tg. acked_in tg (first ∷ later)))
switch_controller-ends_example =
    switch_controller-ends ops net net-IsUp first later 3 primary primary-IsLeader
      ((omega arith, (omega arith, (omega arith, tt))), ((tt, tt), ((omega arith, tt), tt)))
      ((tt, (tt, (tt, tt))), ((tt, tt), ((tt, tt), tt)))

abbrev polls : List (ℤ × List Msg)
polls = (pos 1001, positive 2 ∷ []) ∷ (pos 1002, negative 0 ∷ positive 2 ∷ []) ∷ []

abbrev last : List Msg
last = positive 1 ∷ []

polls-IsEarly : IsEarly (pos 1000) polls
unfolding ◌-ℤ◌
polls-IsEarly = (refl, (tt, tt), (refl, (tt, (tt, tt)), tt))

polls-IsHeard : IsHeard ops net (polls ++ ((pos 1003, last) ∷ []))
polls-IsHeard = ((omega arith, tt), ((omega arith, (omega arith, tt)), ((omega arith, tt), tt)))

over : ltb_ℤ (pos 1003 -ℤ pos 1000) (pos 3) ≡ false
unfolding ◌-ℤ◌
over = refl

none_stored : (j : ℕ) → 3 ≤ j → get_or backup.votes j (pos 0) ≡ pos 0
none_stored j h = get_or-replicate peers j (pos 0)

timeout-elected_example :
    (s' : Control ℤ) × (timeout ops net
        (received_polls ops net (polls ++ ((pos 1003, last) ∷ [])))
        (map (received ops net) (first ∷ later))
        backup
      ≡ done (expired, s'))
    × IsLeader 3 s'
    × (pending_flags ops net 3 s'.flag_tg ≡ 0)
timeout-elected_example =
    timeout-elected ops net net-IsUp polls (pos 1003) last first later backup backup-IsControl
      (omega arith) none_stored polls-IsHeard polls-IsEarly (tt, tt) over refl
      ((omega arith, (omega arith, (omega arith, tt))), ((tt, tt), ((omega arith, tt), tt)))
      ((tt, (tt, (tt, tt))), ((tt, tt), ((tt, tt), tt))) all_answer

abbrev alive : List Beat
alive =
    record { now = pos 1003; read_at = pos 1002; read = heartbeat ∷ [] }
    ∷ record { now = pos 1006; read_at = pos 1005; read = tg_ack 1 ∷ heartbeat ∷ [] }
    ∷ []

abbrev silent : Beat
silent = record { now = pos 1010; read_at = pos 1008; read = positive 1 ∷ [] }

alive-IsBeat : All IsBeat alive
unfolding ◌-ℤ◌
alive-IsBeat =
    ((refl, (tt, tt), (tt, tt), refl), ((refl, (omega arith, (tt, tt)), (tt, (tt, tt)), refl), tt))

backup-IsBackup : IsBackup backup
backup-IsBackup = record { shape = backup-IsControl; backup = refl; calm = refl }

timer_fn-beats_example :
    (u : Control ℤ) × (timer_fn ops net (beats ops net (alive ++ (silent ∷ []))) [] [] backup ≡ (
      if ltb_ℤ (pos 1010 -ℤ pos 1005) (pos 4) then done (pending, u) else timeout ops net [] [] u))
    × (u.id ≡ pos 0)
    × IsBackup u
timer_fn-beats_example =
    timer_fn-beats ops net net-IsUp alive silent [] [] backup alive-IsBeat
      (refl, (omega arith, tt), (tt, tt)) backup-IsBackup
