-- ===== src/Controller.antt =====
-- Controller/src/proxy1.c: the shared variables of a controller, and the shares that it computes.
pub mod Inbox
pub mod Owner
pub mod Soc
pub mod Sockets
pub mod Duty
pub mod Second
pub mod Election
pub mod Samples
mod Tests
use web_q_final.Prelude.{ℕ, ◌+◌, ◌/◌, List, [], ◌∷◌, ◌++◌, ltb, if◌then◌else◌, take, drop, map, not}
use web_q_final.Prelude.Int.{ℤ, pos, pos_part, eqb_ℤ, scale, int32}
use web_q_final.Floats.{FloatOps}
use web_q_final.Machine.{done, fault, M}
use web_q_final.Net.{Effect}

-- The globals. `hardness` holds its two `double`s as the integers that are stored in them; `port` is
-- `atoi(sending_port)`, and `trace` what the program has done to the outside.
pub record Control (F : Type 0) : Type 0 where
  pub id : ℤ
  pub my_id : ℤ
  pub flag : ℤ
  pub time_out : ℤ
  pub votes_recv : ℤ
  pub majority : ℤ
  pub no_of_proxy : ℤ
  pub capacity : ℤ
  pub hardness : List ℤ
  pub soc : List ℤ
  pub votes : List ℤ
  pub flag_tg : List ℤ
  pub incoming_r : List ℤ
  pub incoming_rate : List F
  pub sum_incoming_rate : F
  pub start_time : ℤ
  pub ip_array : List (List ℕ)
  pub ip_controller : List (List ℕ)
  pub port : ℤ
  pub trace : List Effect

-- PEERS of timer.h.
abbrev pub peers : ℕ
peers = 5

-- Where nothing comes in: `1/no_of_proxy` is a division of `int`s.
abbrev pub even_share : ℕ → ℤ → ℤ
even_share n cap = int32 (scale (1 / n) cap)

module _ {F : Type 0} (ops : FloatOps F) where
  open ops use {of_int, add, div, mul, eq, round}

  abbrev zero_f : F
  zero_f = of_int (pos 0)

  -- `round(incomingRate[i]/sum_incoming_rate * capacity)`, and 1 for a proxy with no requests.
  unfoldable pub rate_share : F → ℤ → F → ℤ
  rate_share total cap rate =
      if eq rate zero_f then pos 1 else round (mul (div rate total) (of_int cap))

  unfoldable pub sum_rates : F → List F → F
  sum_rates acc [] = acc
  sum_rates acc (r ∷ rs) = sum_rates (add acc r) rs

  -- The loops of `calcSoc` over the first `n` entries.
  unfoldable pub share_out : ℕ → Control F → Control F
  unfolding rate_share sum_rates
  share_out n s =
      let rates = map of_int (take n s.incoming_r) in
      let total = sum_rates zero_f rates in
      record s {
        incoming_rate = rates ++ drop n s.incoming_rate;
        sum_incoming_rate = total;
        soc =
            (if eq total zero_f
              then map (λ _. even_share n s.capacity) rates
              else map (rate_share total s.capacity) rates)
            ++ drop n s.soc;
      }

  -- Only the controller in charge computes shares. The arrays have PEERS entries.
  unfoldable pub calc_soc : M (Control F) (Unit {0})
  unfolding share_out
  calc_soc s =
      if not (eqb_ℤ s.id s.my_id)
      then done (tt, s)
      else if ltb peers (pos_part s.no_of_proxy)
      then fault
      else done (tt, share_out (pos_part s.no_of_proxy) s)
