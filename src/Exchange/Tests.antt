-- ===== src/Exchange/Tests.antt =====
-- A backup with three TokenGens, two of which have no controller, and a second of the primary with
-- the three.
use web_q_final.Prelude.{
  ℕ, ◌≤◌, ◌≡◌, refl, arith, List, [], ◌∷◌, true, false, none, All, get_or, replicate,
  get_or-replicate,
}
use web_q_final.Prelude.Int.{ℤ, pos_part, pos, negsuc, ltb_ℤ, ◌-ℤ◌}
use web_q_final.Machine.{done}
use web_q_final.Controller.{Control, peers}
use web_q_final.Controller.Duty.{pending_flags}
use web_q_final.Controller.Election.{expired, timeout}
use web_q_final.Controller.Election.Handover.{IsLeader}
use web_q_final.Controller.Samples.{backup, backup-IsControl}
use web_q_final.TokenGen.Link.{Link}
use web_q_final.TokenGen.Link.Protocol.{IsLink}
use web_q_final.Exchange.{reading, votes, acks, obedient, news, asked}
use web_q_final.Exchange.Failover.{timeout-shares}
use web_q_final.Exchange.Takeover.{timeout-completes}
use web_q_final.Exchange.{informed}
use web_q_final.Exchange.Rates.{rate_bytes}
use web_q_final.Exchange.Load.{Site}
use web_q_final.TokenGen.Link.Protocol.{share, controller}
use web_q_final.Startup.Shape.{opening_link}
use web_q_final.TokenGen.Process.{opening, Process, request, received, logged}
use web_q_final.TokenGen.Process.Samples.{hmac, visitor, file}
use web_q_final.Exchange.Shares.{kept_or, reading-shares}
use web_q_final.TokenGen.Outbox.{Outbox}
use web_q_final.Controller.{sum_rates}
use web_q_final.Controller.Soc.Bounds.{granted}
use web_q_final.Controller.Duty.{share_rounds}
use web_q_final.Controller.Samples.{primary, primary-IsLeader}
use web_q_final.Samples.{ops, net, net-IsUp, ops-FloatLaws}

abbrev token_gen : ℤ → ℕ → Link
token_gen id i = record {
  id = id;
  prev_id = pos 0;
  local_id = pos 0;
  flag = pos 0;
  my_id = pos i;
  share = pos 10;
  capacity = pos 720;
  hardness = pos 1 ∷ pos 1 ∷ [];
  incoming_peers = replicate peers (pos 0);
  start_time = pos 990;
  ip_controller = (b'1' ∷ []) ∷ (b'2' ∷ []) ∷ [];
  port = pos 5000;
  trace = [];
}

token_gen-IsLink : (id : ℤ) (i : ℕ) → IsLink (token_gen id i)
token_gen-IsLink id i = record { two = refl; five = refl; pair = refl }

abbrev token_gens : List Link
token_gens = token_gen (negsuc 0) 0 ∷ token_gen (pos 0) 1 ∷ token_gen (negsuc 0) 2 ∷ []

late : ltb_ℤ (pos 1004 -ℤ pos 1000) (pos 3) ≡ false
unfolding ◌-ℤ◌
late = refl

none_stored : (j : ℕ) → 3 ≤ j → get_or backup.votes j (pos 0) ≡ pos 0
none_stored j h = get_or-replicate peers j (pos 0)

timeout-completes_example :
    (s' : Control ℤ) × (timeout ops net
        (record {
          now = pos 1004;
          meanwhile = reading ops net 4 (votes ops net 0 backup token_gens);
        }
          ∷ [])
        (reading ops net 4 (acks ops net 0 backup token_gens) ∷ [])
        backup
      ≡ done (expired, s'))
    × IsLeader 3 s'
    × (pending_flags ops net 3 s'.flag_tg ≡ 0)
    × All (λ l. l.id ≡ pos 1) (obedient ops net 0 backup token_gens)
timeout-completes_example =
    timeout-completes ops net net-IsUp backup token_gens (pos 1004) backup-IsControl refl
      (omega arith) none_stored
      ((token_gen-IsLink _ _, refl, (token_gen-IsLink _ _, refl, (token_gen-IsLink _ _, refl, tt))))
      late refl

abbrev outbox : ℕ → ℕ → Outbox
outbox i x = record { flag = pos 0; my_id = pos i; incoming = pos x; numbytes = pos 0 }

abbrev outboxes : List Outbox
outboxes = outbox 0 30 ∷ outbox 1 0 ∷ outbox 2 60 ∷ []

abbrev all : ℤ
all = sum_rates ops (pos 0) (pos 30 ∷ pos 0 ∷ pos 60 ∷ [])

reading-shares_example :
    ((informed net
        (share_rounds ops net 2 0 (reading ops net 4 (rate_bytes net outboxes) primary ∷ []))
        (token_gen (pos 1) 2)).share
      ≡ kept_or (pos 10) (granted ops 3 all (pos 720) (pos 60)))
    × (granted ops 3 all (pos 720) (pos 60) ≡ pos (pos_part (granted ops 3 all (pos 720) (pos 60))))
    × (pos_part (granted ops 3 all (pos 720) (pos 60)) ≤ 720)
reading-shares_example =
    reading-shares ops net net-IsUp ops-FloatLaws outboxes primary 720 2 (token_gen (pos 1) 2)
      primary-IsLeader refl
      ((
        refl,
        (omega arith, omega arith),
        (refl, (omega arith, omega arith), (refl, (omega arith, omega arith), tt)),
      ))
      ((refl, omega arith), ((refl, omega arith), ((refl, omega arith), tt))) refl (omega arith)
      (omega arith) (omega arith) (token_gen-IsLink _ _) refl

-- Both TokenGens get a request, take a share, and get another request in the next second.
abbrev site : ℕ → Site
site share_of = record {
  heap = λ k. [];
  after = [];
  file = file;
  store = none;
  script =
      request visitor
      ∷ received 0 (controller 1 ∷ share (pos 1) (pos share_of) ∷ [])
      ∷ logged true true
      ∷ request visitor
      ∷ [];
}

abbrev site_opens : Process ℤ
site_opens = opening ops hmac (b'h' ∷ []) 3 net (opening_link (λ k. []) [] file none)

-- The same takeover, and then TokenGen 2 of the three gets its share.
abbrev follower : Link
follower = informed net (news ops net 2 backup) (asked ops net 2 backup (token_gen (negsuc 0) 2))

timeout-shares_example :
    let g = granted ops 3 all (pos 720) (pos 60) in
    (s' : Control ℤ) × (timeout ops net
        (record {
          now = pos 1004;
          meanwhile = reading ops net 4 (votes ops net 0 backup token_gens);
        }
          ∷ [])
        (reading ops net 4 (acks ops net 0 backup token_gens) ∷ [])
        backup
      ≡ done (expired, s'))
    × ((informed net
          (share_rounds ops net 2 0 (reading ops net 4 (rate_bytes net outboxes) s' ∷ []))
          follower).share
        ≡ kept_or follower.share g)
    × (g ≡ pos (pos_part g))
    × (pos_part g ≤ 720)
timeout-shares_example =
    timeout-shares ops net net-IsUp ops-FloatLaws backup token_gens (pos 1004) outboxes 2 follower
      backup-IsControl refl (omega arith) none_stored
      ((token_gen-IsLink _ _, refl, (token_gen-IsLink _ _, refl, (token_gen-IsLink _ _, refl, tt))))
      late refl refl refl
      ((
        refl,
        (omega arith, omega arith),
        (refl, (omega arith, omega arith), (refl, (omega arith, omega arith), tt)),
      ))
      ((refl, omega arith), ((refl, omega arith), ((refl, omega arith), tt))) (omega arith) refl
