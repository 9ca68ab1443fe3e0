-- ===== src/Controller/Election/Takeover.antt =====
-- What `switch_controller` of Controller/src/proxy1.c tells the TokenGens.
use mathlib.Core.List.{append_assoc, append-nil}
use web_q_final.Prelude.{
  ℕ, zero, suc, ◌+◌, ◌≤◌, ◌≡◌, ◌∙◌, ap, refl, arith, List, [], ◌∷◌, ◌++◌, set, get_or, length,
  length-set, get_elem?-eq-get_or,
}
use web_q_final.Prelude.Int.{ℤ, pos}
use web_q_final.Floats.{FloatOps}
use web_q_final.Machine.{done, ◌>>=◌}
use web_q_final.Net.{Net, Effect, sent, IsUp}
use web_q_final.Wire.{bytes_of_int}
use web_q_final.Controller.{Control}
use web_q_final.Controller.Duty.{for_proxies, tell}
use web_q_final.Controller.Inbox.Protocol.{IsControl}
use web_q_final.Controller.Inbox.Decode.{send_id-up}

-- The flags of `k` TokenGens from `i` on put to 1.
abbrev pub raised : ℕ → ℕ → List ℤ → List ℤ
raised zero i fs = fs
raised (suc k) i fs = raised k (i + 1) (set fs i (pos 1))

length-raised : (k i : ℕ) (fs : List ℤ) → length (raised k i fs) ≡ length fs
length-raised zero i fs = refl
length-raised (suc k) i fs = length-raised k (i + 1) (set fs i (pos 1)) ∙ length-set fs i (pos 1)

-- The messages `t` to `k` TokenGens from `i` on, with the controller's number.
abbrev pub told : ℕ → ℕ → List (List ℕ) → ℤ → ℤ → List Effect
told zero i ips port me = []
told (suc k) i ips port me =
    sent (get_or ips i []) port (b't' ∷ bytes_of_int me) ∷ told k (i + 1) ips port me

module _ {F : Type 0} where
  pub flags_raised :
      (s : Control F) (k : ℕ) (t : List Effect)
      → IsControl s
      → IsControl (record s { flag = pos 1; flag_tg = raised k 0 s.flag_tg; trace = t })
  flags_raised s k t c = record {
    mine = c.mine;
    unsigned = c.unsigned;
    few = c.few;
    hard = c.hard;
    socs = c.socs;
    ballots = c.ballots;
    flags = length-raised k 0 s.flag_tg ∙ c.flags;
    rates = c.rates;
    pair = c.pair;
  }

  pub in_charge-IsControl :
      (s : Control F) (t : List Effect)
      → IsControl s
      → IsControl (record s { id = s.my_id; trace = t })
  in_charge-IsControl s t c = record {
    mine = c.mine;
    unsigned = c.unsigned;
    few = c.few;
    hard = c.hard;
    socs = c.socs;
    ballots = c.ballots;
    flags = c.flags;
    rates = c.rates;
    pair = c.pair;
  }

module _ {F : Type 0} (ops : FloatOps F) (net : Net) (up : IsUp net) where
  pub tell_one :
      (i : ℕ) (s : Control F)
      → suc i ≤ length s.flag_tg
      → suc i ≤ length s.ip_array
      → tell ops net i s
        ≡ done (
          tt,
          record s {
            flag_tg = set s.flag_tg i (pos 1);
            trace =
                s.trace
                ++ (sent (get_or s.ip_array i []) s.port (b't' ∷ bytes_of_int s.my_id) ∷ []);
          },
        )
  tell_one i s h a =
      rw (get_elem?-eq-get_or s.flag_tg i (pos 0) h, get_elem?-eq-get_or s.ip_array i [] a, ◌>>=◌)
        (send_id-up ops net up (get_or s.ip_array i []) b't'
          (record s { flag_tg = set s.flag_tg i (pos 1) }))

  pub tell_all :
      (k i : ℕ) (s : Control F)
      → k + i ≤ length s.flag_tg
      → k + i ≤ length s.ip_array
      → for_proxies k i (tell ops net) s
        ≡ done (
          tt,
          record s {
            flag_tg = raised k i s.flag_tg;
            trace = s.trace ++ told k i s.ip_array s.port s.my_id;
          },
        )
  unfolding for_proxies
  tell_all zero i s h a = rw append-nil refl
  tell_all (suc k) i s h a =
      rw (tell_one i s (omega arith) (omega arith), ◌>>=◌)
        (tell_all k (i + 1) _ (omega (arith, length-set s.flag_tg i (pos 1))) (omega arith)
          ∙ ap
              (λ (t : List Effect).
                done (tt, record s { flag_tg = raised (suc k) i s.flag_tg; trace = t }))
              (append_assoc s.trace _ _))
