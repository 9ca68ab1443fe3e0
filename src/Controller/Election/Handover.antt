-- ===== src/Controller/Election/Handover.antt =====
-- `readFromClient` of Controller/src/proxy1.c in charge: the flags of the TokenGens.
pub mod Every
pub mod Round
pub mod Rounds
use web_q_final.Prelude.{
  ℕ, ◌≤◌, ◌≡◌, refl, arith, List, [], ◌∷◌, Bool, true, false, ◌||◌, ◌&&◌, not, ◌==◌, if◌then◌else◌,
  get_or, length, All, get_or-set_ne, get_or-set_self, ℕ_discrete,
}
use web_q_final.Prelude.Int.{ℤ, pos, eqb_ℤ, pos_part}
use web_q_final.Floats.{FloatOps}
use web_q_final.Net.{Net}
use web_q_final.Controller.{Control, share_out}
use web_q_final.Controller.Inbox.Protocol.{
  Msg, capacity, hardness, heartbeat, positive, negative, change, tg_ack, ack, incoming, IsMsg,
  IsControl, apply, apply_all, tell_other,
}
use web_q_final.Controller.Inbox.Keep.{apply-IsControl}

-- An acknowledgement of this TokenGen is among the messages.
abbrev pub acks : ℕ → Msg → Bool
acks tg (tg_ack t) = t == tg
acks tg _ = false

abbrev pub acked : ℕ → List Msg → Bool
acked tg [] = false
acked tg (m ∷ ms) = acks tg m || acked tg ms

abbrev pub acked_in : ℕ → List (List Msg) → Bool
acked_in tg [] = false
acked_in tg (ms ∷ mss) = acked tg ms || acked_in tg mss

-- Messages that leave the controller in charge.
abbrev pub IsQuiet : Msg → Type 0
IsQuiet (change n) = ⊥
IsQuiet _ = Unit {0}

-- The flag of this TokenGen is set.
abbrev pub flagged : List ℤ → ℕ → Bool
flagged fs tg = eqb_ℤ (get_or fs tg (pos 0)) (pos 1)

and_true : (b : Bool) → b ≡ (b && true)
and_true b = ground arith

module _ {F : Type 0} where
  -- In charge, with `k` TokenGens and an address for each.
  pub record IsLeader (k : ℕ) (s : Control F) : Type 0 where
    pub shape : IsControl s
    pub leads : eqb_ℤ s.id s.my_id ≡ true
    pub tokens : pos_part s.no_of_proxy ≡ k
    pub known : k ≤ length s.ip_array

  repeated-IsLeader :
      {k : ℕ} (b : Bool) (s : Control F)
      → IsLeader k s
      → IsLeader k (if b then tell_other b't' s else s)
  repeated-IsLeader true s v = record {
    shape = record {
      mine = v.shape.mine;
      unsigned = v.shape.unsigned;
      few = v.shape.few;
      hard = v.shape.hard;
      socs = v.shape.socs;
      ballots = v.shape.ballots;
      flags = v.shape.flags;
      rates = v.shape.rates;
      pair = v.shape.pair;
    };
    leads = v.leads;
    tokens = v.tokens;
    known = v.known;
  }
  repeated-IsLeader false s v = v

  flags-repeated :
      (b : Bool) (s : Control F) → (if b then tell_other b't' s else s).flag_tg ≡ s.flag_tg
  flags-repeated true s = refl
  flags-repeated false s = refl

module _ {F : Type 0} (ops : FloatOps F) (net : Net) {k : ℕ} where
  pub apply-IsLeader :
      (m : Msg) (s : Control F)
      → IsMsg m
      → IsQuiet m
      → IsLeader k s
      → IsLeader k (apply ops net m s)
  unfolding apply share_out
  apply-IsLeader (capacity z) s h q v = record {
    shape = apply-IsControl ops net (capacity z) s v.shape;
    leads = v.leads;
    tokens = v.tokens;
    known = v.known;
  }
  apply-IsLeader (hardness a b) s h q v = record {
    shape = apply-IsControl ops net (hardness a b) s v.shape;
    leads = v.leads;
    tokens = v.tokens;
    known = v.known;
  }
  apply-IsLeader (negative tg) s h q v = record {
    shape = apply-IsControl ops net (negative tg) s v.shape;
    leads = v.leads;
    tokens = v.tokens;
    known = v.known;
  }
  apply-IsLeader heartbeat s h q v = rw v.leads (repeated-IsLeader (eqb_ℤ s.flag (pos 1)) s v)
  apply-IsLeader (positive tg) s h q v = record {
    shape = apply-IsControl ops net (positive tg) s v.shape;
    leads = rw v.leads v.leads;
    tokens = rw v.leads v.tokens;
    known = rw v.leads v.known;
  }
  apply-IsLeader (tg_ack tg) s h q v = record {
    shape = apply-IsControl ops net (tg_ack tg) s v.shape;
    leads = rw v.leads v.leads;
    tokens = rw v.leads v.tokens;
    known = rw v.leads v.known;
  }
  apply-IsLeader (ack n) s h q v = record {
    shape = apply-IsControl ops net (ack n) s v.shape;
    leads = rw v.leads v.leads;
    tokens = rw v.leads v.tokens;
    known = rw v.leads v.known;
  }
  apply-IsLeader (incoming tg x) s h q v = record {
    shape = apply-IsControl ops net (incoming tg x) s v.shape;
    leads = rw v.leads v.leads;
    tokens = rw v.leads v.tokens;
    known = rw v.leads v.known;
  }
  apply-IsLeader (change n) s h q v = absurd q

  -- A flag is set after a message if it was before, and the message does not acknowledge it.
  flagged-apply :
      (m : Msg) (s : Control F) (tg : ℕ)
      → IsMsg m
      → IsQuiet m
      → IsLeader k s
      → flagged (apply ops net m s).flag_tg tg ≡ (flagged s.flag_tg tg && not (acks tg m))
  unfolding apply share_out
  flagged-apply (tg_ack t) s tg h q v = elim (ℕ_discrete t tg) [
    | yes same ↦ rw v.leads (
        ground (
          arith,
          same,
          get_or-set_self s.flag_tg t (pos 0) (pos 0) (omega (arith, h, v.shape.flags)),
        ))
    | no other ↦
        rw (v.leads, get_or-set_ne s.flag_tg t tg (pos 0) (pos 0) other) (ground (arith, other))
  ]
  flagged-apply (change n) s tg h q v = absurd q
  flagged-apply (capacity z) s tg h q v = and_true (flagged s.flag_tg tg)
  flagged-apply (hardness a b) s tg h q v = and_true (flagged s.flag_tg tg)
  flagged-apply (negative t) s tg h q v = and_true (flagged s.flag_tg tg)
  flagged-apply heartbeat s tg h q v =
      rw (v.leads, flags-repeated (eqb_ℤ s.flag (pos 1)) s) (and_true (flagged s.flag_tg tg))
  flagged-apply (positive t) s tg h q v = rw v.leads (and_true (flagged s.flag_tg tg))
  flagged-apply (ack n) s tg h q v = rw v.leads (and_true (flagged s.flag_tg tg))
  flagged-apply (incoming t x) s tg h q v = rw v.leads (and_true (flagged s.flag_tg tg))

  pub apply_all-quiet :
      (ms : List Msg) (s : Control F)
      → All IsMsg ms
      → All IsQuiet ms
      → IsLeader k s
      → IsLeader k (apply_all ops net ms s)
  unfolding apply_all
  apply_all-quiet [] s h q v = v
  apply_all-quiet (m ∷ ms) s (h, hs) (q, qs) v =
      apply_all-quiet ms (apply ops net m s) hs qs (apply-IsLeader m s h q v)

  pub flagged-apply_all :
      (ms : List Msg) (s : Control F) (tg : ℕ)
      → All IsMsg ms
      → All IsQuiet ms
      → IsLeader k s
      → flagged (apply_all ops net ms s).flag_tg tg ≡ (flagged s.flag_tg tg && not (acked tg ms))
  unfolding apply_all
  flagged-apply_all [] s tg h q v = and_true (flagged s.flag_tg tg)
  flagged-apply_all (m ∷ ms) s tg (h, hs) (q, qs) v = ground (
    arith,
    flagged-apply_all ms (apply ops net m s) tg hs qs (apply-IsLeader m s h q v),
    flagged-apply m s tg h q v,
  )
