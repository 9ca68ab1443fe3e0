-- ===== src/Controller/Election.antt =====
-- Controller/src/proxy1.c: how the backup takes over. The loops that watch the clock take a list of
-- polls: what `time(NULL)` returns, after what the other threads have done since the last poll.
pub mod Ballot
pub mod Votes
pub mod Decision
pub mod Heard
pub mod Takeover
pub mod Handover
pub mod Waiting
pub mod Count
pub mod Elected
pub mod Owner
pub mod Beats
pub mod Alive
mod Tests
use web_q_final.Prelude.{ℕ, ◌+◌, List, [], ◌∷◌, ◌++◌, Bool, true, if◌then◌else◌, set}
use web_q_final.Prelude.Int.{ℤ, pos, negsuc, eqb_ℤ, ltb_ℤ, leb_ℤ, ◌-ℤ◌}
use web_q_final.Cells.{set_value, change_time}
use web_q_final.Floats.{FloatOps}
use web_q_final.Machine.{◌>>=◌, ◌>>◌, done, M, pure, get, modify, nth}
use web_q_final.Net.{Net, started, calculate_soc, queue_sender, x_sender}
use web_q_final.Controller.{Control}
use web_q_final.Controller.Inbox.{in_charge, put, other_id, write_id}
use web_q_final.Controller.Duty.{each_proxy, for_proxies, switch_controller, send_heartbeat}

pub record Poll (F : Type 0) : Type 0 where
  pub now : ℤ
  pub meanwhile : Control F → Control F

-- `expired`: the time is over, and what follows has ended. `cancelled`: a heartbeat came. `pending`: a
-- loop still runs.
pub data Wait : Type 0 where
  expired cancelled pending : Wait

module _ {F : Type 0} (ops : FloatOps F) (net : Net) where
  abbrev clear_vote : ℕ → M (Control F) (Unit {0})
  clear_vote i = do s ← get; put s.votes (pos i) (λ s. record s { votes = set s.votes i (pos 0) })

  abbrev ask : ℕ → M (Control F) (Unit {0})
  ask i = do
    s ← get
    addr ← nth s.ip_array (pos i)
    modify (λ s. record s { trace = s.trace ++ (started (x_sender addr) ∷ []) })

  -- The start of `timeout`: no controller, no votes, and every TokenGen is asked.
  unfoldable pub begin_election : M (Control F) (Unit {0})
  unfolding for_proxies
  begin_election = do
    modify (λ s. record s {
      time_out = set_value s.time_out (pos 1);
      id = set_value s.id (negsuc 0);
      votes_recv = set_value s.votes_recv (pos 0);
    })
    each_proxy clear_vote
    each_proxy ask
    modify (λ s. record s { start_time = change_time s.start_time net.now })

  -- `time(NULL)-startTime < trigger`
  abbrev pub in_time : ℤ → ℤ → Control F → Bool
  in_time trigger now s = ltb_ℤ (now -ℤ s.start_time) trigger

  -- The wait for votes.
  unfoldable pub await_votes : List (Poll F) → Control F → Wait × Control F
  await_votes [] s = (pending, s)
  await_votes (p ∷ ps) s =
      let s' = p.meanwhile s in
      let rest = await_votes ps s' in
      if in_time (pos 3) p.now s'
      then (if eqb_ℤ s'.time_out (pos 2)
          then (cancelled, record s' { time_out = set_value s'.time_out (pos 0) })
          else rest)
      else (expired, s')

  -- The end of `timeout`: with enough votes this controller is in charge.
  unfoldable pub decide : List (Control F → Control F) → M (Control F) Bool
  decide rounds s =
      if leb_ℤ s.majority s.votes_recv
      then (do
        modify (λ s. record s { id = set_value s.id s.my_id })
        write_id ops net
        switch_controller ops net rounds)
          s
      else done (true, s)

  abbrev close : List (Control F → Control F) → Wait → M (Control F) Wait
  close rounds expired = do ended ← decide rounds; pure (if ended then expired else pending)
  close rounds cancelled = pure cancelled
  close rounds pending = pure pending

  unfoldable pub timeout : List (Poll F) → List (Control F → Control F) → M (Control F) Wait
  unfolding begin_election await_votes decide
  timeout polls rounds = do begin_election; w ← (λ s. done (await_votes polls s)); close rounds w

  -- The loop of `timer_fn`: a heartbeat sets `startTime` anew, and only a silence ends it.
  unfoldable pub await_silence : List (Poll F) → Control F → Wait × Control F
  await_silence [] s = (pending, s)
  await_silence (p ∷ ps) s =
      let s' = p.meanwhile s in
      let rest = await_silence ps s' in if in_time (pos 4) p.now s' then rest else (expired, s')

  abbrev then_timeout : List (Poll F) → List (Control F → Control F) → Wait → M (Control F) Wait
  then_timeout polls rounds expired = timeout polls rounds
  then_timeout polls rounds w = pure w

  unfoldable pub timer_fn :
      List (Poll F) → List (Poll F) → List (Control F → Control F) → M (Control F) Wait
  unfolding await_silence
  timer_fn silence polls rounds = do
    modify (λ s. record s { start_time = change_time s.start_time net.now })
    w ← (λ s. done (await_silence silence s))
    then_timeout polls rounds w

  abbrev serve_shares : ℕ → M (Control F) (Unit {0})
  serve_shares i =
      modify (λ s. record s { trace = s.trace ++ (started (queue_sender (pos i)) ∷ []) })

  abbrev primary : List (List (Control F) × Control F) → M (Control F) (Unit {0})
  primary beats = do
    modify (λ s. record s { trace = s.trace ++ (started calculate_soc ∷ []) })
    each_proxy serve_shares
    s ← get
    addr ← nth s.ip_controller (other_id s)
    send_heartbeat ops net addr beats

  abbrev backup :
      List (Poll F) → List (Poll F) → List (Control F → Control F) → M (Control F) (Unit {0})
  backup silence polls rounds = do
    modify (λ s. record s { start_time = change_time s.start_time net.now })
    _ ← timer_fn silence polls rounds
    pure tt

  -- One turn of the loop of `controller`.
  unfoldable pub controller_turn :
      List (List (Control F) × Control F)
      → List (Poll F)
      → List (Poll F)
      → List (Control F → Control F)
      → M (Control F) (Unit {0})
  controller_turn beats silence polls rounds s =
      if in_charge s then primary beats s else backup silence polls rounds s
